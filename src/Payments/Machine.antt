-- ===== src/Payments/Machine.antt =====
-- The abstract machine of a payment: open after so many attempts, or confirmed or failed for good.
-- What the tables hold beside that is forgotten.
use tru_dev_tasks.Prelude.{ℕ, ◌+◌, ◌<◌, ◌≡◌}
use tru_dev_tasks.Payments.Models.{Payment, PaymentStatus, pending, processing, success, failed}

pub data Phase : Type 0 where
  open_after : ℕ → Phase
  confirmed_after : ℕ → Phase
  failed_after : ℕ → Phase

abbrev pub phase_at : PaymentStatus → ℕ → Phase
phase_at pending n = open_after n
phase_at processing n = open_after n
phase_at success n = confirmed_after n
phase_at failed n = failed_after n

abbrev pub phase_of : Payment → Phase
phase_of p = phase_at p.status p.retry_count

-- The steps, with at most `cap` attempts: a confirmation needs an attempt, giving up needs none.
pub data Step (cap : ℕ) : Phase → Phase → Type 0 where
  attempt : {n m : ℕ} → n < cap → m ≡ n + 1 → Step cap (open_after n) (open_after m)
  confirm : {n : ℕ} → 0 < n → Step cap (open_after n) (confirmed_after n)
  fail : {n : ℕ} → Step cap (open_after n) (failed_after n)

pub data Reaches (cap : ℕ) : Phase → Phase → Type 0 where
  stays : {a : Phase} → Reaches cap a a
  then_step : {a b c : Phase} → Reaches cap a b → Step cap b c → Reaches cap a c

pub Reaches-trans : {cap : ℕ} {a b c : Phase} → Reaches cap a b → Reaches cap b c → Reaches cap a c
Reaches-trans r stays = r
Reaches-trans r (then_step s t) = then_step (Reaches-trans r s) t

pub step-Reaches : {cap : ℕ} {a b : Phase} → Step cap a b → Reaches cap a b
step-Reaches s = then_step stays s
