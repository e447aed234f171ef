-- ===== src/Payments/Inbox/Redelivery.antt =====
-- Repeated deliveries to `saleor_webhook_view` (Eve/payments/views.py).
use mathlib.Core.Path.{subst}
use Prim.Native.String.{count as str_length}
use django_app_eve.Prelude.{
  ℕ, ◌+◌, ◌≡◌, ◌≢◌, refl, sym, ◌∙◌, ap, ◌⊎◌, inl, inr, String, Option, none, some, Option-cases,
  true, false, Bool-cases, List, [], ◌∷◌, ◌++◌, not, find, find-append, leb, ltb, str_eq, eq_refl,
}
use django_app_eve.Payments.Models.{WebhookEvent}
use django_app_eve.Payments.Db.{Db}
use django_app_eve.Payments.Inbox.{
  ContentLength, absent, not_a_number, bytes, Request, Externals, status, accepted, Response,
  new_event, insert_event, get_or_create_event, has_fingerprint, store_event, valid_payload,
  receive, check_length, saleor_webhook_view, max_webhook_body_bytes, order_id_width,
}

module _ (ext : Externals) (r : Request) where
  abbrev store : ℕ → Db → Response
  store now db = store_event now (ext.sha256 r.raw_body) (valid_payload (ext.decode r.raw_body)) db

  -- The checks before the inbox do not depend on the time or the tables.
  abbrev Uniform : (ℕ → Db → Response) → Type 0
  Uniform f =
      ((now : ℕ) (db : Db) → f now db ≡ store now db)
      ⊎ ((n : ℕ) × ((now : ℕ) (db : Db) → f now db ≡ (status n, none, db)))

  receive-Uniform : Uniform (λ now db. receive ext now r db)
  unfolding receive
  receive-Uniform = elim (Bool-cases (ltb max_webhook_body_bytes r.body_bytes)) [
    | inl e ↦ inr (413, λ now db. rw e)
    | inr e ↦ elim (Bool-cases (not (str_eq r.content_type "application/json"))) [
      | inl f ↦ inr (415, λ now db. rw (e, f))
      | inr f ↦ elim (Bool-cases (not (ext.verify r.raw_body r.signature))) [
        | inl g ↦ inr (401, λ now db. rw (e, f, g))
        | inr g ↦ inl (λ now db. rw (e, f, g))
      ]
    ]
  ]

  view-Uniform : Uniform (λ now db. saleor_webhook_view ext now r db)
  unfolding saleor_webhook_view check_length
  view-Uniform = by_length r.content_length
    where
      by_length : (n : ContentLength) → Uniform (λ now db. check_length n (receive ext now r db) db)
      by_length absent = receive-Uniform
      by_length not_a_number = inr (400, λ now db. refl)
      by_length (bytes n) = elim (Bool-cases (ltb max_webhook_body_bytes n)) [
        | inl e ↦ inr (413, λ now db. rw e)
        | inr e ↦ rw e receive-Uniform
      ]

-- The inbox holds an event of a fingerprint.
abbrev pub Holds : String → List WebhookEvent → Type 0
Holds fingerprint events = (e : WebhookEvent) × (find (has_fingerprint fingerprint) events ≡ some e)

store_event-Holds :
    (now : ℕ) (fingerprint : String) (fields : Option (String × String)) (db : Db) (q : Option ℕ)
    (db' : Db)
    → store_event now fingerprint fields db ≡ (accepted false, q, db')
    → (fields ≢ none) × Holds fingerprint db'.events
unfolding store_event find
store_event-Holds now fingerprint none db q db' h = cc h
store_event-Holds now fingerprint (some (order_id, event_type)) db q db' h =
    elim (Option-cases (find (has_fingerprint fingerprint) db.events)) [
      | inr (e, found) ↦ cc (rw (found, get_or_create_event) at h)
      | inl fresh ↦ elim (Bool-cases (leb (str_length order_id) order_id_width)) [
        | inr long ↦ cc (rw (fresh, get_or_create_event, insert_event, long) at h)
        | inl fits ↦
            let row = new_event now fingerprint order_id event_type db.next_pk in
            let made : record db { events = db.events ++ row ∷ []; next_pk = db.next_pk + 1 }
                ≡ db' =
              ap (λ (x : Response). x.2)
                (rw (fresh, get_or_create_event, insert_event, fits) at h) in
            (
              (λ z. cc),
              (
                row,
                subst (λ (d : Db). find (has_fingerprint fingerprint) d.events ≡ some row) made
                    (find-append (has_fingerprint fingerprint) db.events (row ∷ [])
                      ∙ rw fresh (here row (eq_refl fingerprint))),
              ),
            )
      ]
    ]
  where
    here :
        (e : WebhookEvent)
        → has_fingerprint fingerprint e ≡ true
        → find (has_fingerprint fingerprint) (e ∷ []) ≡ some e
    here e h = rw h

store_event-again :
    (later : ℕ) (fingerprint : String) (fields : Option (String × String)) (db : Db)
    → fields ≢ none
    → Holds fingerprint db.events
    → store_event later fingerprint fields db ≡ (accepted true, none, db)
unfolding store_event
store_event-again later fingerprint none db given held = absurd (given refl)
store_event-again later fingerprint (some fields) db given held =
    rw (held.1, get_or_create_event) refl

-- A delivery that was stored is held by the inbox.
pub saleor_webhook_view-Holds :
    (ext : Externals) (now : ℕ) (r : Request) (db db' : Db) (q : Option ℕ)
    → saleor_webhook_view ext now r db ≡ (accepted false, q, db')
    → Holds (ext.sha256 r.raw_body) db'.events
saleor_webhook_view-Holds ext now r db db' q ran = elim (view-Uniform ext r) [
  | inl same ↦ (store_event-Holds now _ _ db q db' (sym (same now db) ∙ ran)).1
  | inr (n, same) ↦ cc (same now db, ran)
]

-- A delivery that was stored once is a duplicate wherever the inbox holds it.
pub saleor_webhook_view-again :
    (ext : Externals) (now later : ℕ) (r : Request) (db db' : Db) (q : Option ℕ) (t : Db)
    → saleor_webhook_view ext now r db ≡ (accepted false, q, db')
    → Holds (ext.sha256 r.raw_body) t.events
    → saleor_webhook_view ext later r t ≡ (accepted true, none, t)
saleor_webhook_view-again ext now later r db db' q t ran held = elim (view-Uniform ext r) [
  | inl same ↦
      same later t
      ∙ store_event-again later _ _ t
          (store_event-Holds now _ _ db q db' (sym (same now db) ∙ ran)).0 held
  | inr (n, same) ↦ cc (same now db, ran)
]
