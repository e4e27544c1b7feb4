-- ===== src/Observability/Logging.antt =====
-- pulsepay/observability/logging.py: what `JsonFormatter.format` puts into a line, up to the JSON
-- text itself.
use Prim.Native.Char.{code}
use Prim.Native.String.{[] as end_of_text, ◌∷◌ as ◌∷ₜ◌}
use tru_dev_tasks.Prelude.{
  ℕ, ◌≡◌, ◌≢◌, refl, sym, ap, subst, ◌∙◌, String, Bool, true, false, ◌||◌, Option, none, some, List,
  [], ◌∷◌, ◌==◌, str_eq, eq_iff, any, if◌then◌else◌, Bool-cases, inl, inr, arith,
}
use tru_dev_tasks.Prelude.Dict.{Dict, get, put, get-put_self, get-put_ne}

-- A value of a log record: what JSON can hold as it is, or an object, by its `str`.
pub data LogValue : Type 0 where
  text : String → LogValue
  number : ℕ → LogValue
  flag : Bool → LogValue
  nothing : LogValue
  object : String → LogValue

-- The test of the value and `str(value)`.
abbrev pub plain : LogValue → LogValue
plain (object shown) = text shown
plain v = v

-- `key.startswith("_")`
unfoldable pub starts_underscored : String → Bool
starts_underscored end_of_text = false
starts_underscored (c ∷ₜ rest) = code c == 95

abbrev pub is_among : String → List String → Bool
is_among key names = any (λ name. str_eq name key) names

-- `_RESERVED_LOG_RECORD_KEYS`
abbrev pub reserved_keys : List String
reserved_keys =
    "args" ∷ "asctime" ∷ "created" ∷ "exc_info" ∷ "exc_text" ∷ "filename" ∷ "funcName" ∷ "levelname"
    ∷ "levelno" ∷ "lineno" ∷ "module" ∷ "msecs" ∷ "message" ∷ "msg" ∷ "name" ∷ "pathname"
    ∷ "process" ∷ "processName" ∷ "relativeCreated" ∷ "stack_info" ∷ "thread" ∷ "threadName" ∷ []

-- The keys that the line sets itself.
abbrev pub own_keys : List String
own_keys = "timestamp" ∷ "level" ∷ "service" ∷ "request_id" ∷ "message" ∷ []

unfoldable pub is_skipped : String → Bool
is_skipped key = (is_among key reserved_keys || starts_underscored key) || is_among key own_keys

-- The payload before the loop; the request id is that of the context, if there is one.
unfoldable pub base_payload : String → String → Option String → String → Dict LogValue
base_payload timestamp level request_id message =
    ("timestamp", text timestamp)
    ∷ ("level", text level)
    ∷ ("service", text "pulsepay")
    ∷ ("request_id", elim request_id [ none ↦ nothing | some id ↦ text id ])
    ∷ ("message", text message)
    ∷ []

-- The loop over `record.__dict__`.
unfoldable pub add_extras : List (String × LogValue) → Dict LogValue → Dict LogValue
add_extras [] payload = payload
add_extras ((key, value) ∷ rest) payload =
    if is_skipped key
    then add_extras rest payload
    else add_extras rest (put key (plain value) payload)

-- What the loop leaves under a key: the last value that is not skipped, or what was there.
abbrev pub last_of : String → List (String × LogValue) → Option LogValue → Option LogValue
last_of key [] before = before
last_of key ((k, v) ∷ rest) before =
    last_of key rest (if str_eq k key then some (plain v) else before)

-- A key that the formatter skips, its own among them, has the value that it had before the loop,
-- whatever the record holds under it; any other has the record's last value under it, made plain.
add_extras-get :
    (key : String) (extras : List (String × LogValue)) (payload : Dict LogValue)
    → get key (add_extras extras payload)
      ≡ (if is_skipped key then get key payload else last_of key extras (get key payload))
unfolding add_extras
add_extras-get key [] payload = elim (Bool-cases (is_skipped key)) [
  | inl skipped ↦ rw skipped refl
  | inr kept ↦ rw kept refl
]
add_extras-get key ((k, v) ∷ rest) payload = elim (Bool-cases (str_eq k key)) [
  | inl same ↦
      let key_is : k ≡ key = (eq_iff k key).0 same in
      elim (Bool-cases (is_skipped k)) [
        | inl skipped ↦
            let own : is_skipped key ≡ true = ap is_skipped (sym key_is) ∙ skipped in
            rw skipped (add_extras-get key rest payload ∙ rw own refl)
        | inr kept ↦
            let own : is_skipped key ≡ false = ap is_skipped (sym key_is) ∙ kept in
            let written : get key (put k (plain v) payload) ≡ some (plain v) =
              subst (λ x. get key (put x (plain v) payload) ≡ some (plain v)) (sym key_is)
                (get-put_self key (plain v) payload) in
            rw kept
              (add_extras-get key rest (put k (plain v) payload) ∙ rw (own, written, same) refl)
      ]
  | inr apart ↦
      let other : key ≢ k = λ e. cc (sym ((eq_iff k key).1 (sym e)), apart) in
      elim (Bool-cases (is_skipped k)) [
        | inl skipped ↦ rw (skipped, apart) (add_extras-get key rest payload)
        | inr kept ↦
            rw (kept, apart)
              (add_extras-get key rest (put k (plain v) payload)
                ∙ rw (get-put_ne key k (plain v) payload other) refl)
      ]
]

-- `JsonFormatter.format` up to `json.dumps`, of the record's level, message and other attributes.
unfoldable pub format :
    String → String → Option String → String → List (String × LogValue) → Dict LogValue
format timestamp level request_id message extras =
    add_extras extras (base_payload timestamp level request_id message)

base_payload-get :
    (key timestamp level : String) (request_id : Option String) (message : String)
    → is_among key own_keys ≡ false
    → get key (base_payload timestamp level request_id message) ≡ none
unfolding base_payload
base_payload-get key timestamp level request_id message other = ground arith

own_is_skipped : (key : String) → is_among key own_keys ≡ true → is_skipped key ≡ true
unfolding is_skipped
own_is_skipped key own = ground arith

-- What a line holds under a key of its own.
abbrev pub own_value : String → String → String → Option String → String → LogValue
own_value key timestamp level request_id message =
    if str_eq "timestamp" key
    then text timestamp
    else if str_eq "level" key
    then text level
    else if str_eq "service" key
    then text "pulsepay"
    else if str_eq "request_id" key
    then elim request_id [ none ↦ nothing | some id ↦ text id ]
    else text message

base_payload-own :
    (key timestamp level : String) (request_id : Option String) (message : String)
    → is_among key own_keys ≡ true
    → get key (base_payload timestamp level request_id message)
      ≡ some (own_value key timestamp level request_id message)
unfolding base_payload
base_payload-own key timestamp level request_id message own = ground arith

skipped_by : (reserved own : Bool) → own ≡ false → (reserved || own) ≡ reserved
skipped_by reserved own e = ground arith

-- The five keys that a line sets itself have their values in every line, whatever the record holds
-- under them; a reserved key of a record or one that starts with an underscore is in none; and any
-- other key has the last value that the record holds under it, made plain, if it holds any.
pub format-get :
    (key timestamp level : String) (request_id : Option String) (message : String)
    (extras : List (String × LogValue))
    → get key (format timestamp level request_id message extras) ≡ (
        if is_among key own_keys
        then some (own_value key timestamp level request_id message)
        else if is_among key reserved_keys || starts_underscored key
        then none
        else last_of key extras none)
unfolding format is_skipped
format-get key timestamp level request_id message extras =
    let base = base_payload timestamp level request_id message in
    add_extras-get key extras base ∙ elim (Bool-cases (is_among key own_keys)) [
      | inl own ↦
          rw (own_is_skipped key own, own)
            (base_payload-own key timestamp level request_id message own)
      | inr other ↦
          rw
            (
              skipped_by _ _ other,
              other,
              base_payload-get key timestamp level request_id message other,
            )
            refl
    ]
