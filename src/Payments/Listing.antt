-- ===== src/Payments/Listing.antt =====
-- pulsepay/payments/service.py: `list_payments`. Pages count from 1, as the router demands.
use mathlib.Core.List.Permᴰ
use tru_dev_tasks.Prelude.{
  ℕ, zero, suc, ◌*◌, ◌-◌, ◌≤◌, ◌≡◌, refl, sym, ap₂, String, Bool, true, ◌&&◌, Option, none, some,
  List, [], ◌++◌, length, select, min, str_eq, arith,
}
use tru_dev_tasks.Database.Listing.{slice, order_desc, pages, IsListing, pages-IsListing}
use tru_dev_tasks.Database.Ties.{AreApart, order_desc-apart}
use tru_dev_tasks.Exec.{Exec, Result, ok, pure, gets, ◌>>=◌}
use tru_dev_tasks.Payments.Models.{Payment, PaymentStatus, pending, processing, success, failed}
use tru_dev_tasks.Platform.{Platform, World}

-- The text of a status.
abbrev pub status_text : PaymentStatus → String
status_text pending = "pending"
status_text processing = "processing"
status_text success = "success"
status_text failed = "failed"

-- A filter that is given, on the text of a column.
abbrev pub matches : Option String → String → Bool
matches none column = true
matches (some wanted) column = str_eq column wanted

abbrev pub is_listed : Option String → Option String → Payment → Bool
is_listed customer_id status p =
    matches customer_id p.customer_id && matches status (status_text p.status)

module _ ⦃P : Platform⦄ where
  unfoldable pub list_payments :
      ℕ → ℕ → Option String → Option String → Exec World (List Payment × ℕ)
  list_payments page limit customer_id status = do
    rows ← gets (λ w. select (is_listed customer_id status) (P.payments.rows w.working.payments))
    let effective_limit = min limit 100
    let offset = (page - 1) * effective_limit
    found ← gets (λ w. P.found_payments w.reads offset effective_limit rows)
    pure (slice offset effective_limit (order_desc (λ p. p.created_at) found), length rows)

  -- The answers to the requests for the pages 1 to `n`, one after another.
  abbrev pub answered : Result (List Payment × ℕ) × World → List Payment
  answered (ok (items, total), w) = items
  answered _ = []

  unfoldable pub first_pages : ℕ → ℕ → Option String → Option String → World → List Payment
  first_pages zero limit customer_id status w = []
  first_pages (suc n) limit customer_id status w =
      first_pages n limit customer_id status w
      ++ answered (list_payments (suc n) limit customer_id status w)

  first_pages-pages :
      (n limit : ℕ) (customer_id status : Option String) (w : World)
      → AreApart
          (λ p. p.created_at)
          (select (is_listed customer_id status) (P.payments.rows w.working.payments))
      → first_pages n limit customer_id status w
        ≡ pages (min limit 100) n (
            order_desc
              (λ p. p.created_at)
              (select (is_listed customer_id status) (P.payments.rows w.working.payments)))
  unfolding first_pages list_payments pages
  first_pages-pages zero limit customer_id status w apart = refl
  first_pages-pages (suc n) limit customer_id status w apart =
      ap₂ (λ xs ys. xs ++ ys) (first_pages-pages n limit customer_id status w apart)
        (ap₂ (λ k rows. slice (k * min limit 100) (min limit 100) rows) (omega arith)
          (sym (
            order_desc-apart (λ p. p.created_at)
              (Permᴰ.symm (P.found_payments-perm w.reads _ (min limit 100) _)) apart)))

  -- If no two payments that pass the filters were created at the same time, enough pages, requested
  -- one after another while nothing changes, hold each of them exactly once, from the latest to
  -- the earliest, in whatever order each query finds them.
  pub list_payments-pages :
      (n limit : ℕ) (customer_id status : Option String) (w : World)
      → length (select (is_listed customer_id status) (P.payments.rows w.working.payments))
        ≤ n * min limit 100
      → AreApart
          (λ p. p.created_at)
          (select (is_listed customer_id status) (P.payments.rows w.working.payments))
      → IsListing
          (λ p. p.created_at)
          (select (is_listed customer_id status) (P.payments.rows w.working.payments))
          (first_pages n limit customer_id status w)
  list_payments-pages n limit customer_id status w enough apart =
      rw (first_pages-pages n limit customer_id status w apart)
        (pages-IsListing (λ p. p.created_at) (min limit 100) n _ enough)
