-- ===== src/Payments/Inbox.antt =====
-- Eve/payments/views.py: `saleor_webhook_view`, which authenticates a delivery, validates it, and stores
-- it in the inbox once for each body. The decoding of JSON, SHA-256 and the check of the signature
-- are arguments; the latter is Eve/payments/services/saleor_webhooks.py.
pub mod Delivery
pub mod Redelivery
use Prim.Native.String.{count as str_length}
use django_app_eve.Prelude.{
  ℕ, ◌+◌, ◌*◌, String, Option, none, some, Bool, true, false, List, [], ◌∷◌, ◌++◌, ◌&&◌, ◌||◌, not,
  find, leb, ltb, str_eq, if◌then◌else◌,
}
use django_app_eve.Payments.Models.{EventStatus, WebhookEvent}
use django_app_eve.Payments.Db.{Db}

abbrev pub max_webhook_body_bytes : ℕ
max_webhook_body_bytes = 64 * 1024

abbrev pub max_saleor_order_id_length : ℕ
max_saleor_order_id_length = 255

-- `event_type in ALLOWED_WEBHOOK_EVENTS`
unfoldable pub is_allowed_event : String → Bool
is_allowed_event t =
    str_eq t "OrderFullyPaid"
    || str_eq t "OrderRefunded"
    || str_eq t "OrderFullyRefunded"
    || str_eq t "OrderCancelled"

-- The Content-Length header.
pub data ContentLength : Type 0 where
  absent : ContentLength
  not_a_number : ContentLength
  bytes : ℕ → ContentLength

-- What the view reads of a request; `body_bytes` is the size of the raw body.
pub record Request : Type 0 where
  pub content_length : ContentLength
  pub content_type : String
  pub raw_body : String
  pub body_bytes : ℕ
  pub signature : String

-- `sha256` of a body; the `order.id` and the `__typename` of its JSON, each where it is a text, or
-- `none` where the body is not of that shape; whether the signature is accepted.
pub record Externals : Type 0 where
  pub sha256 : String → String
  pub decode : String → Option (Option String × Option String)
  pub verify : String → String → Bool

-- The response: a bare status, `{"accepted": True, "duplicate": …}` with 202, or an exception.
pub data Reply : Type 0 where
  status : ℕ → Reply
  accepted : Bool → Reply
  server_error : Reply

-- The checks of the payload: the order's id and the event's type.
unfoldable pub valid_payload : Option (Option String × Option String) → Option (String × String)
unfolding is_allowed_event
valid_payload (some (some order_id, some event_type)) =
    if not (str_eq order_id "")
      && (leb (str_length order_id) max_saleor_order_id_length && is_allowed_event event_type)
    then some (order_id, event_type)
    else none
valid_payload _ = none

unfoldable pub new_event : ℕ → String → String → String → ℕ → WebhookEvent
new_event now fingerprint order_id event_type pk = record {
  pk = pk;
  fingerprint = fingerprint;
  event_type = event_type;
  saleor_order_id = order_id;
  payload = (event_type, order_id);
  status = EventStatus.pending;
  attempts = 0;
  last_error = "";
  received_at = now;
  processed_at = none;
}

-- A view: the response, the event that is queued once the transaction commits, and the tables.
abbrev pub Response : Type 0
Response = Reply × Option ℕ × Db

-- The width of the column `saleor_order_id`; PostgreSQL raises DataError beyond it.
abbrev pub order_id_width : ℕ
order_id_width = 100

unfoldable pub insert_event : ℕ → String → String × String → Db → Response
unfolding new_event
insert_event now fingerprint (order_id, event_type) db =
    if leb (str_length order_id) order_id_width
    then (
      accepted false,
      some db.next_pk,
      record db {
        events = db.events ++ new_event now fingerprint order_id event_type db.next_pk ∷ [];
        next_pk = db.next_pk + 1;
      },
    )
    else (server_error, none, db)

-- `WebhookEvent.objects.get_or_create(fingerprint=…)`
unfoldable pub get_or_create_event :
    ℕ → String → String × String → Option WebhookEvent → Db → Response
unfolding insert_event
get_or_create_event now fingerprint fields (some event) db = (accepted true, none, db)
get_or_create_event now fingerprint fields none db = insert_event now fingerprint fields db

abbrev pub has_fingerprint : String → WebhookEvent → Bool
has_fingerprint fingerprint e = str_eq e.fingerprint fingerprint

unfoldable pub store_event : ℕ → String → Option (String × String) → Db → Response
unfolding get_or_create_event
store_event now fingerprint none db = (status 400, none, db)
store_event now fingerprint (some fields) db =
    get_or_create_event now fingerprint fields (find (has_fingerprint fingerprint) db.events) db

-- From the body on: its size, its type and its signature.
unfoldable pub receive : Externals → ℕ → Request → Db → Response
unfolding store_event
receive ext now r db =
    if ltb max_webhook_body_bytes r.body_bytes
    then (status 413, none, db)
    else if not (str_eq r.content_type "application/json")
    then (status 415, none, db)
    else if not (ext.verify r.raw_body r.signature)
    then (status 401, none, db)
    else store_event now (ext.sha256 r.raw_body) (valid_payload (ext.decode r.raw_body)) db

-- A header that announces too much is refused before the body is read.
unfoldable pub check_length : ContentLength → Response → Db → Response
check_length absent rest db = rest
check_length not_a_number rest db = (status 400, none, db)
check_length (bytes n) rest db =
    if ltb max_webhook_body_bytes n then (status 413, none, db) else rest

unfoldable pub saleor_webhook_view : Externals → ℕ → Request → Db → Response
unfolding receive check_length
saleor_webhook_view ext now r db = check_length r.content_length (receive ext now r db) db
