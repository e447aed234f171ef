-- ===== src/Payments/System/Redelivery.antt =====
-- Events that come twice, to the endpoint (Eve/payments/views.py) or to the workers (Eve/payments/tasks.py),
-- after other steps of the app.
use mathlib.Core.Option.{some-injective}
use mathlib.Core.Path.{subst}
use django_app_eve.Prelude.{
  ℕ, ◌≡◌, ◌≢◌, refl, sym, ap, ◌∙◌, inl, inr, String, Bool-cases, true, false, Option, none, some,
  List, [], ◌∷◌, ◌==◌, find, find-append, find-update_where, str_eq, if◌then◌else◌, arith,
}
use django_app_eve.Payments.Models.{EventStatus, WebhookEvent}
use django_app_eve.Payments.Db.{Db}
use django_app_eve.Payments.Rows.{Journal}
use django_app_eve.Payments.Checkout.{Digests}
use django_app_eve.Payments.Checkout.Safe.{IsSafe}
use django_app_eve.Payments.Inbox
use django_app_eve.Payments.Inbox.{Externals, accepted, has_fingerprint, saleor_webhook_view}
use django_app_eve.Payments.Inbox.Redelivery.{
  Holds, saleor_webhook_view-Holds, saleor_webhook_view-again,
}
use django_app_eve.Payments.Tasks.{process_webhook_event, after}
use django_app_eve.Payments.Tasks.Once.{
  has_pk, process_webhook_event-recorded, process_webhook_event-again,
}
use django_app_eve.Payments.System.{Action, deliver, task, act, run_all, act-IsSafe}
use django_app_eve.Payments.System.Changes.{Change, kept, appended, saved, act-Change}

Holds-Change :
    (fingerprint : String) (xs ys : List WebhookEvent)
    → Change xs ys
    → Holds fingerprint xs
    → Holds fingerprint ys
Holds-Change fingerprint xs ys (kept same) (e, found) =
    (e, ap (find (has_fingerprint fingerprint)) same ∙ found)
Holds-Change fingerprint xs ys (appended new same) (e, found) = (
  e,
  ap (find (has_fingerprint fingerprint)) same
      ∙ find-append (has_fingerprint fingerprint) xs (new ∷ [])
      ∙ rw found refl,
)
Holds-Change fingerprint xs ys (saved id event f at open_event keeps same) (e, found) = (
  (if e.pk == event.pk then f e else e),
  ap (find (has_fingerprint fingerprint)) same
      ∙ find-update_where (has_fingerprint fingerprint) (λ (r : WebhookEvent). r.pk == event.pk) f
          xs (λ a h. ap (λ x. str_eq x fingerprint) (keeps.fingerprint a))
      ∙ rw found refl,
)

-- The row of an event with a status other than `pending`.
abbrev IsSettled : ℕ → EventStatus → List WebhookEvent → Type 0
IsSettled id status events =
    (e : WebhookEvent) × (find (has_pk id) events ≡ some e) × (e.status ≡ status)

found_pk :
    (id : ℕ) (xs : List WebhookEvent) (e : WebhookEvent) → find (has_pk id) xs ≡ some e → e.pk ≡ id
unfolding find
found_pk id [] e h = cc h
found_pk id (x ∷ xs) e h = elim (Bool-cases (has_pk id x)) [
  | inl z ↦
      let same : x ≡ e = some-injective x e (rw z at h) in
      subst (λ (w : WebhookEvent). w.pk ≡ id) same (ground (arith, z))
  | inr z ↦ found_pk id xs e (rw z at h)
]

module _ (id : ℕ) (status : EventStatus) (settled : status ≢ EventStatus.pending) where
  -- A task writes the row of another event.
  other_row :
      (xs : List WebhookEvent) (e event : WebhookEvent) (other : ℕ)
      → find (has_pk id) xs ≡ some e
      → e.status ≡ status
      → find (has_pk other) xs ≡ some event
      → event.status ≡ EventStatus.pending
      → (e.pk == event.pk) ≡ false
  other_row xs e event other found its at open_event = elim (Bool-cases (e.pk == event.pk)) [
    | inr z ↦ z
    | inl z ↦
        let one = found_pk id xs e found in
        let two = found_pk other xs event at in
        let same : other ≡ id = ground (arith, z, one, two) in
        let row : e ≡ event =
          some-injective e event
            (sym found ∙ subst (λ k. find (has_pk k) xs ≡ some event) same at) in
        absurd (settled (sym its ∙ ap (λ (w : WebhookEvent). w.status) row ∙ open_event))
  ]

  IsSettled-Change :
      (xs ys : List WebhookEvent) → Change xs ys → IsSettled id status xs → IsSettled id status ys
  IsSettled-Change xs ys (kept same) (e, found, its) = (e, ap (find (has_pk id)) same ∙ found, its)
  IsSettled-Change xs ys (appended new same) (e, found, its) =
      (e, ap (find (has_pk id)) same ∙ find-append (has_pk id) xs (new ∷ []) ∙ rw found refl, its)
  IsSettled-Change xs ys (saved other event f at open_event keeps same) (e, found, its) = (
    e,
    ap (find (has_pk id)) same
        ∙ find-update_where (has_pk id) (λ (r : WebhookEvent). r.pk == event.pk) f xs
            (λ a h. ap (λ x. x == id) (keeps.pk a))
        ∙ rw found (rw (other_row xs e event other found its at open_event) refl),
    its,
  )

module _ (digests : Digests) (ext : Externals) where
  -- What every change of the inbox keeps is kept over any steps.
  run_all-keeps :
      (P : List WebhookEvent → Type 0)
      → ((xs ys : List WebhookEvent) → Change xs ys → P xs → P ys)
      → (actions : List Action) (j : Journal) → IsSafe j
      → P j.db.events
      → P (run_all digests ext actions j).db.events
  unfolding run_all
  run_all-keeps P keep [] j s p = p
  run_all-keeps P keep (a ∷ rest) j s p =
      run_all-keeps P keep rest (act digests ext a j) (act-IsSafe digests ext a j s)
        (keep j.db.events (act digests ext a j).db.events (act-Change digests ext a j s) p)

  -- Once a run has returned a status other than `pending`, in tables that satisfy the invariant of
  -- Checkout/Safe, a later run of the same event returns that
  -- status again and changes no table, whichever checkouts, deliveries, webhook tasks and
  -- reconciliations came in between. The pruning of old events, which deletes settled rows, is not
  -- among these steps.
  pub process_webhook_event_once :
      (actions : List Action) (now later event_id : ℕ) (j : Journal) (db' : Db)
      (status : EventStatus)
      → IsSafe j
      → process_webhook_event now event_id j.db ≡ some (status, db')
      → status ≢ EventStatus.pending
      → let t = (run_all digests ext actions (record j { db = db' })).db in
        process_webhook_event later event_id t ≡ some (status, t)
  unfolding act after
  process_webhook_event_once actions now later event_id j db' status s ran settled =
      let safe : IsSafe (record j { db = db' }) =
        subst (λ o. IsSafe (record j { db = after o j.db })) ran
          (act-IsSafe digests ext (task now event_id) j s) in
      let (row, found, its) =
        run_all-keeps (IsSettled event_id status) (IsSettled-Change event_id status settled) actions
          (record j { db = db' }) safe
          (process_webhook_event-recorded now event_id j.db db' status ran settled) in
      process_webhook_event-again later event_id _ status row found its settled

  -- When Saleor sends a delivery again that was stored in tables that satisfy the invariant of
  -- Checkout/Safe, at any later time, it is accepted as a duplicate: nothing
  -- changes and nothing is queued, whichever checkouts, deliveries, webhook tasks and
  -- reconciliations came in between. The pruning of old events, which deletes settled rows, is not
  -- among these steps.
  pub saleor_webhook_view-redelivery :
      (actions : List Action) (now later : ℕ) (r : Inbox.Request) (j : Journal) (db' : Db)
      (q : Option ℕ)
      → IsSafe j
      → saleor_webhook_view ext now r j.db ≡ (accepted false, q, db')
      → let t = (run_all digests ext actions (record j { db = db' })).db in
        saleor_webhook_view ext later r t ≡ (accepted true, none, t)
  unfolding act
  saleor_webhook_view-redelivery actions now later r j db' q s ran =
      let safe : IsSafe (record j { db = db' }) =
        subst (λ (o : Inbox.Response). IsSafe (record j { db = o.2 })) ran
          (act-IsSafe digests ext (deliver now r) j s) in
      let held =
        run_all-keeps (Holds (ext.sha256 r.raw_body)) (Holds-Change (ext.sha256 r.raw_body)) actions
          (record j { db = db' }) safe (saleor_webhook_view-Holds ext now r j.db db' q ran) in
      saleor_webhook_view-again ext now later r j.db db' q _ ran held
