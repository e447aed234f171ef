-- ===== src/Api/Checkout.antt =====
-- Eve/api/v1/views.py: `CheckoutView.post`, which joins the profiles, the carts and `place_order_once`.
pub mod Replay
pub mod Again
pub mod Empties
use Prim.Native.String.{count as str_length}
use django_app_eve.Prelude.{
  ℕ, String, Option, none, some, Bool, true, false, List, find, not, ◌||◌, ltb, str_eq, strip,
  if◌then◌else◌,
}
use django_app_eve.Core.Cache.{Cache}
use django_app_eve.Accounts.Profiles.{Profile, get_or_create}
use django_app_eve.Ecommerce.Cart.{Cart, get_cart, clear_cart}
use django_app_eve.Payments.Models.{Order}
use django_app_eve.Payments.Rows.{is_order_of}
use django_app_eve.Payments.Checkout.{
  Outcome, placed, refused, failed_checkout, crashed, Digests, Env, scoped_idempotency_key, World,
  place_order_once,
}
use django_app_eve.Payments.CheckoutView.{cart_items}

abbrev pub max_idempotency_key_length : ℕ
max_idempotency_key_length = 64

-- 201 with a new order, 200 with the order of an earlier request, an error with its status and code,
-- or an exception that is not caught.
pub data Answer : Type 0 where
  created : Order → Answer
  replayed : Order → Answer
  error : ℕ → String → Answer
  server_error : Answer

-- What a request brings: the setting, the user, the Idempotency-Key header, the time, the token of
-- the lease and what Saleor answers.
pub record Post : Type 0 where
  pub is_enabled : Bool
  pub user : ℕ
  pub header : Option String
  pub now : ℕ
  pub lease_key : String
  pub token : String
  pub env : Env

-- `(request.headers.get("Idempotency-Key") or "").strip()`
unfoldable pub key_of : Option String → String
key_of none = ""
key_of (some text) = strip text

-- `not key or len(key) > MAX_IDEMPOTENCY_KEY_LENGTH`
abbrev pub is_bad_key : String → Bool
is_bad_key key = str_eq key "" || ltb max_idempotency_key_length (str_length key)

module _ (c : Cache) (digests : Digests) where
  pub record Desk : Type 0 where
    pub world : World c
    pub carts : List Cart
    pub profiles : List Profile

  abbrev pub Seen : Type 0
  Seen = Answer × Desk

  -- After `place_order_once`; `none` is CacheLeaseUnavailable.
  unfoldable pub on_outcome : Post → Option Outcome → Desk → Seen
  on_outcome p none s = (error 503 "checkout_unavailable", s)
  on_outcome p (some failed_checkout) s = (error 409 "checkout_failed", s)
  on_outcome p (some crashed) s = (server_error, s)
  on_outcome p (some refused) s = (error 409 "checkout_in_progress", s)
  on_outcome p (some (placed o)) s =
      (created o, record s { carts = clear_cart p.now p.user s.carts })

  unfoldable pub finish_placing : Post → Desk → Option Outcome × World c → Seen
  unfolding on_outcome
  finish_placing p s (r, w) = on_outcome p r (record s { world = w })

  -- The cart's document, made if it is missing, and the order.
  unfoldable pub place : Post → String → Desk → Seen
  unfolding finish_placing
  place p key s =
      let (cart, carts) = get_cart p.now p.user s.carts in
      finish_placing p (record s { carts = carts })
        (place_order_once c digests p.env p.lease_key p.token p.user key (cart_items cart.items)
          s.world)

  unfoldable pub unless_existing : Post → String → Option Order → Desk → Seen
  unfolding place
  unless_existing p key (some o) s = (replayed o, s)
  unless_existing p key none s = place p key s

  unfoldable pub check_key : Post → String → Desk → Seen
  unfolding unless_existing
  check_key p key s =
      if is_bad_key key
      then (error 400 "idempotency_key_required", s)
      else unless_existing p key
          (find (is_order_of p.user (scoped_idempotency_key digests p.user key))
            s.world.1.db.orders)
          s

  unfoldable pub checkout_post : Post → Desk → Seen
  unfolding check_key
  checkout_post p s =
      if not p.is_enabled
      then (error 503 "checkout_disabled", s)
      else (let (profile, profiles) = get_or_create p.user s.profiles in
          let s' = record s { profiles = profiles } in
          if not profile.email_verified
          then (error 403 "email_not_verified", s')
          else check_key p (key_of p.header) s')
