-- ===== src/Payments/Inbox/Delivery.antt =====
-- What a delivery to `saleor_webhook_view` (Eve/payments/views.py) does to the inbox.
use Prim.Native.String.{count as str_length}
use django_app_eve.Prelude.{
  ℕ, ◌+◌, ◌≡◌, ◌≢◌, refl, String, Option, none, some, true, false, [], ◌∷◌, ◌++◌, not, find,
  All-append, leb, ltb, str_eq, eq_iff, if-both, arith,
}
use django_app_eve.Prelude.Unique.{Unique-append, Fresh-find-none}
use django_app_eve.Payments.Models.{WebhookEvent}
use django_app_eve.Payments.Db.{Db, IsValid}
use django_app_eve.Payments.Checkout.Steps.{below-Fresh, below-suc}
use django_app_eve.Payments.Inbox.{
  ContentLength, absent, not_a_number, bytes, Request, Externals, Reply, status, accepted,
  server_error, Response, new_event, insert_event, get_or_create_event, has_fingerprint,
  store_event, valid_payload, receive, check_length, saleor_webhook_view, max_webhook_body_bytes,
  order_id_width,
}

-- The two ways in which a delivery ends: it changes nothing and queues nothing, or it adds one event
-- that names the signed body, and queues it.
pub data Effect (ext : Externals) (now : ℕ) (r : Request) (db : Db) : Response → Type 0 where
  nothing : (reply : Reply) → reply ≢ accepted false → Effect ext now r db (reply, none, db)
  stored :
      (order_id event_type : String)
      → ext.verify r.raw_body r.signature ≡ true
      → valid_payload (ext.decode r.raw_body) ≡ some (order_id, event_type)
      → find (has_fingerprint (ext.sha256 r.raw_body)) db.events ≡ none
      → Effect ext now r db (
        accepted false,
        some db.next_pk,
        record db {
          events =
              db.events
              ++ new_event now (ext.sha256 r.raw_body) order_id event_type db.next_pk ∷ [];
          next_pk = db.next_pk + 1;
        },
      )

module _ (ext : Externals) (now : ℕ) (r : Request) (db : Db) where
  refused : (n : ℕ) → Effect ext now r db (status n, none, db)
  refused n = nothing (status n) (λ e. cc)

  store_event-Effect :
      (fields : Option (String × String)) (o : Option WebhookEvent)
      → ext.verify r.raw_body r.signature ≡ true
      → valid_payload (ext.decode r.raw_body) ≡ fields
      → find (has_fingerprint (ext.sha256 r.raw_body)) db.events ≡ o
      → Effect ext now r db (store_event now (ext.sha256 r.raw_body) fields db)
  unfolding store_event get_or_create_event insert_event
  store_event-Effect none o signed payload found = refused 400
  store_event-Effect (some f) (some e) signed payload found =
      rw found (nothing (accepted true) (λ e. cc))
  store_event-Effect (some (order_id, event_type)) none signed payload fresh = rw fresh (
      if-both (Effect ext now r db) (leb (str_length order_id) order_id_width) _ _
        (λ fits. stored order_id event_type signed payload fresh)
        (λ long. nothing server_error (λ e. cc)))

  receive-Effect : Effect ext now r db (receive ext now r db)
  unfolding receive
  receive-Effect =
      if-both (Effect ext now r db) (ltb max_webhook_body_bytes r.body_bytes) _ _ (λ e. refused 413)
        (λ e.
          if-both (Effect ext now r db) (not (str_eq r.content_type "application/json")) _ _
            (λ e. refused 415)
            (λ e.
              if-both (Effect ext now r db) (not (ext.verify r.raw_body r.signature)) _ _
                (λ e. refused 401)
                (λ e.
                  store_event-Effect (valid_payload (ext.decode r.raw_body)) _ (signed e) refl
                    refl)))
    where
      signed :
          not (ext.verify r.raw_body r.signature) ≡ false → ext.verify r.raw_body r.signature ≡ true
      signed e = ground arith

  check_length-Effect :
      (n : ContentLength) (rest : Response)
      → Effect ext now r db rest
      → Effect ext now r db (check_length n rest db)
  unfolding check_length
  check_length-Effect absent rest h = h
  check_length-Effect not_a_number rest h = refused 400
  check_length-Effect (bytes n) rest h =
      if-both (Effect ext now r db) (ltb max_webhook_body_bytes n) _ _ (λ e. refused 413) (λ e. h)

  delivered : Effect ext now r db (saleor_webhook_view ext now r db)
  unfolding saleor_webhook_view
  delivered = check_length-Effect r.content_length _ receive-Effect

  Effect-IsValid : IsValid db → (x : Response) → Effect ext now r db x → IsValid x.2
  unfolding new_event
  Effect-IsValid v x (nothing reply e) = v
  Effect-IsValid v x (stored order_id event_type signed payload fresh) = record {
    order_pk = v.order_pk;
    order_saleor_id = v.order_saleor_id;
    order_below = below-suc _ _ db.orders v.order_below;
    attempt_pk = v.attempt_pk;
    attempt_key = v.attempt_key;
    attempt_below = below-suc _ _ db.attempts v.attempt_below;
    event_pk =
        Unique-append _ db.events (row order_id event_type) v.event_pk
          (below-Fresh _ _ db.events v.event_below);
    event_fingerprint = Unique-append _ db.events (row order_id event_type) v.event_fingerprint (
        Fresh-find-none (λ (e : WebhookEvent). e.fingerprint) str_eq eq_iff (ext.sha256 r.raw_body)
          db.events fresh);
    event_below =
        All-append _ db.events (row order_id event_type ∷ [])
          (below-suc _ _ db.events v.event_below) (omega arith, tt);
  }
    where
      row : String → String → WebhookEvent
      row order_id event_type = new_event now (ext.sha256 r.raw_body) order_id event_type db.next_pk

-- A delivery either changes and queues nothing, or it adds one pending event, of a body whose signature
-- was verified and which no event of the inbox came from, and queues exactly that event. The
-- constraints of the tables hold afterwards, so no body is ever stored twice.
pub saleor_webhook_view-Effect :
    (ext : Externals) (now : ℕ) (r : Request) (db : Db)
    → IsValid db
    → Effect ext now r db (saleor_webhook_view ext now r db)
      × IsValid (saleor_webhook_view ext now r db).2
saleor_webhook_view-Effect ext now r db v =
    let e = delivered ext now r db in (e, Effect-IsValid ext now r db v _ e)
