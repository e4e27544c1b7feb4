-- ===== src/Refunds/Models.antt =====
-- pulsepay/refunds/models.py.
use tru_dev_tasks.Prelude.{ℕ, String, Bool, Option, ◌==◌, str_eq, ◌||◌}

pub data RefundStatus : Type 0 where
  pending processing completed failed : RefundStatus

pub record Refund : Type 0 where
  pub id : ℕ
  pub payment_id : ℕ
  pub customer_id : String
  pub amount : ℕ
  pub currency : String
  pub status : RefundStatus
  pub reason : Option String
  pub idempotency_key : String
  pub created_at : ℕ

-- `uq_refunds_idempotency_key` and the primary key.
abbrev pub refund_clash : Refund → Refund → Bool
refund_clash r s = r.id == s.id || str_eq r.idempotency_key s.idempotency_key
