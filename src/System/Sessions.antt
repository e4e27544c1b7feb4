-- ===== src/System/Sessions.antt =====
-- Each method of the services, in a session of its own, keeps the tables sound.
use tru_dev_tasks.Prelude.{
  ℕ, ◌≡◌, refl, sym, ap, subst, String, true, Option, inl, inr, Option-cases,
}
use tru_dev_tasks.Exec.{Exec, pure, ◌>>◌}
use tru_dev_tasks.Exec.Preserves.{Preserves, >>=-Preserves}
use tru_dev_tasks.Payments.Models.{CreatePaymentRequest}
use tru_dev_tasks.Payments.Service.{
  create_payment, confirm_payment, mark_payment_failed_max_retries,
}
use tru_dev_tasks.Payments.Lifecycle.{AllValid}
use tru_dev_tasks.Payments.Progress.{AllAdvance, AllAdvance-refl}
use tru_dev_tasks.Payments.Confirm.{confirm_payment-AllValid, mark_payment_failed-AllValid}
use tru_dev_tasks.Payments.Create.{create_payment-AllValid, create_payment-AllAdvance}
use tru_dev_tasks.Payments.Advance.{mark_payment_failed-AllAdvance}
use tru_dev_tasks.Payments.Attempts.{confirm_payment-AllAdvance}
use tru_dev_tasks.Payments.Frame.{
  HasRefunds, create_payment-HasRefunds, confirm_payment-HasRefunds, mark_payment_failed-HasRefunds,
}
use tru_dev_tasks.Refunds.Conservation.{IsWithin, initiate_refund-IsWithin}
use tru_dev_tasks.Refunds.Process.{process_refund-IsWithin}
use tru_dev_tasks.Refunds.Frame.{
  HasPayments, initiate_refund-HasPayments, process_refund-HasPayments,
}
use tru_dev_tasks.Refunds.Service.{initiate_refund, process_refund}
use tru_dev_tasks.Platform.{Platform, World, Db, commit}
use tru_dev_tasks.System.Soundness.{IsLater, payments-IsLater, refunds-IsLater, KeepsLater}
use tru_dev_tasks.Webhooks.Dispatcher.{deliver}
use tru_dev_tasks.Webhooks.Models.{WebhookEndpoint}
use tru_dev_tasks.Webhooks.Preserves.{deliver-Preserves}
use tru_dev_tasks.Webhooks.Service.{
  RegisterWebhookEndpointRequest, register_endpoint, insert_endpoint, deactivate_endpoint,
}

module _ ⦃P : Platform⦄ (s : P.payments.State) where
  -- A method of the payment service.
  payments_method :
      {A : Type 0} (m : Exec World A)
      → ((w : World)
          → AllValid w.working.payments
          → AllValid w.committed.payments
          → AllValid (m w).1.committed.payments)
      → ((from : P.payments.State) (w : World)
          → AllValid w.working.payments
          → AllAdvance from w.working.payments
          → AllAdvance from w.committed.payments
          → AllAdvance from (m w).1.committed.payments)
      → ((refunds : P.refunds.State) → Preserves (HasRefunds refunds) m)
      → KeepsLater s m
  payments_method m valid advance frame w clean h =
      let shown : IsLater s w.working = subst (IsLater s) (sym clean) h in
      payments-IsLater s w.committed (m w).1.committed h (valid w shown.sound.valid h.sound.valid)
        (advance w.committed.payments w shown.sound.valid
          (subst (λ db. AllAdvance w.committed.payments db.payments) (sym clean)
            (AllAdvance-refl w.committed.payments))
          (AllAdvance-refl w.committed.payments))
        (advance s w shown.sound.valid shown.advance h.advance)
        (frame w.committed.refunds w (ap (λ db. db.refunds) clean, refl)).1

  -- A method that leaves the payments alone.
  refunds_method :
      {A : Type 0} (m : Exec World A)
      → ((w : World) → IsWithin w.working → IsWithin w.committed → IsWithin (m w).1.committed)
      → ((payments : P.payments.State) → Preserves (HasPayments payments) m)
      → KeepsLater s m
  refunds_method m within frame w clean h =
      let shown : IsLater s w.working = subst (IsLater s) (sym clean) h in
      refunds-IsLater s w.committed (m w).1.committed h (within w shown.sound.within h.sound.within)
        (frame w.committed.payments w (ap (λ db. db.payments) clean, refl)).1

  pub create_payment-KeepsLater :
      (request : CreatePaymentRequest) (key : String) → KeepsLater s (create_payment request key)
  create_payment-KeepsLater request key =
      payments_method (create_payment request key) (create_payment-AllValid request key)
        (λ from w v. create_payment-AllAdvance from request key w)
        (λ refunds. create_payment-HasRefunds refunds request key)

  pub confirm_payment-KeepsLater :
      (payment_id : ℕ) (metadata : Option String)
      → KeepsLater s (confirm_payment payment_id metadata)
  confirm_payment-KeepsLater payment_id metadata =
      payments_method (confirm_payment payment_id metadata)
        (confirm_payment-AllValid payment_id metadata)
        (λ from. confirm_payment-AllAdvance from payment_id metadata)
        (λ refunds. confirm_payment-HasRefunds refunds payment_id metadata)

  pub mark_payment_failed-KeepsLater :
      (payment_id : ℕ) → KeepsLater s (mark_payment_failed_max_retries payment_id)
  mark_payment_failed-KeepsLater payment_id =
      payments_method (mark_payment_failed_max_retries payment_id)
        (mark_payment_failed-AllValid payment_id)
        (λ from. mark_payment_failed-AllAdvance from payment_id)
        (λ refunds. mark_payment_failed-HasRefunds refunds payment_id)

  pub initiate_refund-KeepsLater :
      (payment_id : ℕ) (amount : Option ℕ) (key : String) (reason : Option String)
      → KeepsLater s (initiate_refund payment_id amount key reason)
  initiate_refund-KeepsLater payment_id amount key reason =
      refunds_method (initiate_refund payment_id amount key reason)
        (initiate_refund-IsWithin payment_id amount key reason)
        (λ payments. initiate_refund-HasPayments payments payment_id amount key reason)

  pub process_refund-KeepsLater : (refund_id : ℕ) → KeepsLater s (process_refund refund_id)
  process_refund-KeepsLater refund_id =
      refunds_method (process_refund refund_id) (process_refund-IsWithin refund_id)
        (λ payments. process_refund-HasPayments payments refund_id)

  -- The webhooks have nothing to do with payments and refunds.
  abbrev SameMoney : Db → Db → Db → Type 0
  SameMoney db a b =
      ((a.payments ≡ db.payments) × (a.refunds ≡ db.refunds))
      × ((b.payments ≡ db.payments) × (b.refunds ≡ db.refunds))

  same_money-IsLater :
      (db db' : Db)
      → IsLater s db
      → db'.payments ≡ db.payments
      → db'.refunds ≡ db.refunds
      → IsLater s db'
  same_money-IsLater db db' h p r = refunds-IsLater s db db' h (λ i. rw (p, r) (h.sound.within i)) p

  money_frame :
      {A : Type 0} (m : Exec World A)
      → ((db : Db) → Preserves (λ w. SameMoney db w.working w.committed) m)
      → KeepsLater s m
  money_frame m frame w clean h =
      let kept =
        frame w.committed w
          ((ap (λ db. db.payments) clean, ap (λ db. db.refunds) clean), (refl, refl)) in
      same_money-IsLater w.committed (m w).1.committed h kept.1.0 kept.1.1

  pub deliver-KeepsLater : (event_id : ℕ) → KeepsLater s (deliver event_id)
  deliver-KeepsLater event_id =
      money_frame (deliver event_id)
        (λ db. deliver-Preserves (SameMoney db) (λ a b t k. k) (λ a b k. (k.0, k.0)) event_id)

  pub register_endpoint-KeepsLater :
      (request : RegisterWebhookEndpointRequest) → KeepsLater s (register_endpoint request)
  unfolding register_endpoint
  register_endpoint-KeepsLater request = money_frame (register_endpoint request) (λ db w k.
      let endpoint = new_endpoint w in
      >>=-Preserves (λ v. SameMoney db v.working v.committed) (insert_endpoint endpoint)
        (λ _. commit >> pure endpoint) (inserted db endpoint) (λ _ v l. (l.0, l.0)) _ k)
    where
      new_endpoint : World → WebhookEndpoint
      new_endpoint w = record {
        id = P.uuid w.reads;
        client_id = request.client_id;
        url = request.url;
        signing_secret = request.signing_secret;
        is_active = true;
      }

      inserted :
          (db : Db) (e : WebhookEndpoint)
          → Preserves (λ v. SameMoney db v.working v.committed) (insert_endpoint e)
      inserted db e w k =
          elim (Option-cases (P.webhook_endpoints.insert w.working.webhook_endpoints e)) [
            | inl refused ↦ rw refused k
            | inr (t, i) ↦ rw i k
          ]

  pub deactivate_endpoint-KeepsLater :
      (endpoint_id : ℕ) → KeepsLater s (deactivate_endpoint endpoint_id)
  unfolding deactivate_endpoint
  deactivate_endpoint-KeepsLater endpoint_id =
      money_frame (deactivate_endpoint endpoint_id) (λ db w k.
        elim (Option-cases (P.webhook_endpoints.get w.working.webhook_endpoints endpoint_id)) [
          | inl missing ↦ rw missing k
          | inr (e, found) ↦ rw found (k.0, k.0)
        ])
