-- ===== src/Webhooks/Registration.antt =====
-- What registering an endpoint is good for: the dispatcher selects it.
use mathlib.Core.List.{Memᴰ}
use text.Mathlib.TextPositions.{eq_refl}
use tru_dev_tasks.Prelude.{
  ◌≡◌, refl, ap, subst, ◌∙◌, inl, inr, true, ◌&&◌, some, str_eq, Option-cases, ==_self,
}
use tru_dev_tasks.Database.Queries.{select_mem}
use tru_dev_tasks.Exec.{Result, ok, err}
use tru_dev_tasks.Platform.{Platform, World}
use tru_dev_tasks.Webhooks.Models.{WebhookEndpoint}
use tru_dev_tasks.Webhooks.Service.{RegisterWebhookEndpointRequest, register_endpoint, targets}

module _ ⦃P : Platform⦄ where
  -- A registration that returns has committed its endpoint: `dispatch` selects it for the client
  -- that it was registered for, with the URL and the secret of the request.
  pub register_endpoint-targets :
      (request : RegisterWebhookEndpointRequest) (w : World) {endpoint : WebhookEndpoint}
      {w' : World}
      → register_endpoint request w ≡ (ok endpoint, w')
      → Memᴰ endpoint (targets request.client_id w')
        × (endpoint.url ≡ request.url)
        × (endpoint.signing_secret ≡ request.signing_secret)
  unfolding register_endpoint
  register_endpoint-targets request w {endpoint} {w'} e =
      elim (Option-cases (P.webhook_endpoints.insert w.working.webhook_endpoints new)) [
        | inl refused ↦
            absurd (cc (ap (λ (x : Result WebhookEndpoint × World). x.0) (rw refused at e)))
        | inr (t, inserted) ↦
            let there : P.webhook_endpoints.get t new.id ≡ some new =
              P.webhook_endpoints.insert_get w.working.webhook_endpoints new inserted new.id
              ∙ rw (==_self new.id) refl in
            subst (λ (x : Result WebhookEndpoint × World). IsRegistered x) (rw inserted at e)
              (
                select_mem (λ e. str_eq e.client_id request.client_id && e.is_active) new _
                    (P.webhook_endpoints.get_rows there) (rw (eq_refl request.client_id) refl),
                refl,
                refl,
              )
      ]
    where
      new : WebhookEndpoint
      new = record {
        id = P.uuid w.reads;
        client_id = request.client_id;
        url = request.url;
        signing_secret = request.signing_secret;
        is_active = true;
      }

      IsRegistered : Result WebhookEndpoint × World → Type 0
      IsRegistered (ok e, v) =
          Memᴰ e (targets request.client_id v)
          × (e.url ≡ request.url)
          × (e.signing_secret ≡ request.signing_secret)
      IsRegistered (err x, v) = Unit
