-- ===== src/Observability/Setup.antt =====
-- pulsepay/observability/logging.py: `_configure_logging` and `get_logger`. The root logger of the
-- logging library is its handlers, each by its formatter, and its level.
use tru_dev_tasks.Prelude.{
  ◌≡◌, refl, ap, ◌∙◌, String, Bool, true, false, List, [], ◌∷◌, if◌then◌else◌,
}

pub data Formatter : Type 0 where
  json_formatter : Formatter
  other_formatter : String → Formatter

pub data Level : Type 0 where
  debug info warning error critical : Level

pub record RootLogger : Type 0 where
  pub handlers : List Formatter
  pub level : Level
  -- `_IS_CONFIGURED`
  pub is_configured : Bool

-- `_configure_logging`
unfoldable pub configure_logging : RootLogger → RootLogger
configure_logging root =
    if root.is_configured
    then root
    else record { handlers = json_formatter ∷ []; level = info; is_configured = true }

-- `get_logger`: the name of the logger, whose lines go to the root's handlers
unfoldable pub get_logger : String → RootLogger → String × RootLogger
unfolding configure_logging
get_logger name root = (name, configure_logging root)

-- The modules that call `get_logger` as they are imported, one after another.
unfoldable pub get_loggers : List String → RootLogger → RootLogger
get_loggers [] root = root
get_loggers (name ∷ rest) root = get_loggers rest (get_logger name root).1

get_loggers-configured :
    (names : List String) (root : RootLogger)
    → root.is_configured ≡ true
    → get_loggers names root ≡ root
unfolding get_loggers get_logger configure_logging
get_loggers-configured [] root done = refl
get_loggers-configured (name ∷ rest) root done =
    let same : configure_logging root ≡ root = rw done refl in
    ap (get_loggers rest) same ∙ get_loggers-configured rest root done

abbrev configured : RootLogger
configured = record { handlers = json_formatter ∷ []; level = info; is_configured = true }

-- However many modules ask for a logger, the root logger then has one handler, which writes JSON,
-- and the level INFO, whatever handlers it had before the first of them.
get_loggers-once :
    (name : String) (rest : List String) (root : RootLogger)
    → root.is_configured ≡ false
    → get_loggers (name ∷ rest) root ≡ configured
unfolding get_loggers get_logger configure_logging
get_loggers-once name rest root new =
    let set : configure_logging root ≡ configured = rw new refl in
    ap (get_loggers rest) set ∙ get_loggers-configured rest configured refl
