-- ===== src/Ledger.antt =====
-- pulsepay/ledger/models.py.
use tru_dev_tasks.Prelude.{ℕ, String, Bool, Option, ◌==◌}

pub record LedgerEntry : Type 0 where
  pub id : ℕ
  pub payment_id : ℕ
  pub entry_type : String
  pub amount : ℕ
  pub currency : String
  pub entry_metadata : Option String

abbrev pub entry_clash : LedgerEntry → LedgerEntry → Bool
entry_clash e f = e.id == f.id
