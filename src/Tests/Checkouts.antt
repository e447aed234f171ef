-- ===== src/Tests/Checkouts.antt =====
-- The theorems about placing an order, at a cart of one line and an upstream that answers.
use django_app_eve.Prelude.{
  String, ◌≡◌, refl, true, false, Option, none, some, List, [], ◌∷◌, find, arith,
}
use django_app_eve.Core.Cache.{Value, text, ok}
use django_app_eve.Payments.Models.{Order, value}
use django_app_eve.Payments.SaleorCheckout.{
  CartItem, payload, api_error, build_lines, create_checkout, complete_checkout,
}
use django_app_eve.Payments.Rows.{
  Journal, insert_if_free, insert_order, send, save_attempt, new_order,
}
use django_app_eve.Payments.Checkout.{
  placed, refused, Digests, Env, scoped_idempotency_key, insert_attempt, commit_order, on_completed,
  on_created, run_attempt, get_or_create_attempt, with_lines, unless_placed, place_order,
  place_order_once,
}
use django_app_eve.Payments.Checkout.Safe.{IsSafe}
use django_app_eve.Payments.Checkout.AtMostOnce.{Request}
use django_app_eve.Payments.Checkout.Exclusive.{
  place_order_once-free, place_order_once-busy, place_order_once-down,
}
use django_app_eve.Ecommerce.Cart.{Cart}
use django_app_eve.Payments.CheckoutView.{Visit, Shop}
use django_app_eve.Tests.Caches.{dict_cache, dict_laws, empty_dict, with_entry, down_cache, down}

abbrev pub digests : Digests
digests = record { sha256 = λ s. s; scope = λ user key. key; fingerprint = λ lines. "fp" }

abbrev pub items : List CartItem
items = record { variant_id = some "v1"; quantity = 2 } ∷ []

-- Saleor answers both mutations.
abbrev pub answering : Env
answering = record {
  now = 50;
  created = payload false (some "c1");
  answered =
      payload false
        (some (record { order_id = "o1"; total_amount = "12.00"; total_currency = "EUR" }));
}

-- Saleor makes the checkout, and does not answer its completion.
abbrev pub silent : Env
silent = record { now = 40; created = payload false (some "c1"); answered = api_error }

abbrev pub empty : Journal
empty = record { db = record { orders = []; attempts = []; events = []; next_pk = 1 }; calls = [] }

pub empty-IsSafe : IsSafe empty
empty-IsSafe = record {
  valid = record {
    order_pk = tt;
    order_saleor_id = tt;
    order_below = tt;
    attempt_pk = tt;
    attempt_key = tt;
    attempt_below = tt;
    event_pk = tt;
    event_fingerprint = tt;
    event_below = tt;
  };
  once = λ k. omega arith;
  locked = λ k sent. absurd (omega (arith, sent));
}

-- Two users, the same key given twice by one of them, and one request that is not the owner.
abbrev requests : List Request
requests =
    record { env = silent; user = 7; raw_key = "k1"; items = items; owner = true }
    ∷ record { env = answering; user = 7; raw_key = "k1"; items = items; owner = true }
    ∷ record { env = answering; user = 8; raw_key = "k2"; items = items; owner = false }
    ∷ []

abbrev pub made : Order
made = record {
  pk = 2;
  user = 7;
  saleor_order_id = "o1";
  saleor_checkout_id = "c1";
  idempotency_key = some "k1";
  total_amount = "12.00";
  currency = "EUR";
  status = "pending";
}

abbrev pub after_order : Journal
after_order = (place_order digests answering 7 "k1" items true empty).1

pub orders : place_order digests answering 7 "k1" items true empty ≡ (placed made, after_order)
unfolding place_order find unless_placed with_lines build_lines get_or_create_attempt run_attempt
    on_created create_checkout on_completed complete_checkout commit_order insert_order
    insert_if_free send save_attempt insert_attempt new_order value
orders = refl

place_order_once-free_example :
    let r =
      place_order_once dict_cache digests answering "checkout:user:7" "t" 7 "k1" items
        (empty_dict, empty) in
    let own =
      place_order digests answering 7 (scoped_idempotency_key digests 7 "k1") items true empty in
    (r.0 ≡ some own.0) × (r.1.1 ≡ own.1) × (dict_cache.get "checkout:user:7" r.1.0 ≡ ok none)
place_order_once-free_example =
    place_order_once-free dict_cache dict_laws digests answering "checkout:user:7" "t" 7 "k1" items
      empty_dict empty refl

abbrev taken : String → Option Value
taken = with_entry "checkout:user:7" (text "other") empty_dict

place_order_once-busy_example :
    let r =
      place_order_once dict_cache digests answering "checkout:user:7" "t" 7 "k1" items
        (taken, empty) in
    (r.0 ≡ some refused)
    × (r.1.1 ≡ empty)
    × (dict_cache.get "checkout:user:7" r.1.0 ≡ ok (some (text "other")))
place_order_once-busy_example =
    place_order_once-busy dict_cache dict_laws digests answering "checkout:user:7" "t" 7 "k1" items
      taken empty (text "other") refl

place_order_once-down_example :
    place_order_once down_cache digests answering "checkout:user:7" "t" 7 "k1" items (tt, empty)
    ≡ (none, (tt, empty))
place_order_once-down_example =
    place_order_once-down down_cache digests answering "checkout:user:7" "t" 7 "k1" items tt empty
      down

-- A user with one item in the cart, who sends the form with the key "k1".
abbrev pub carts : List Cart
carts =
    record {
      user_id = 7;
      items =
          record {
            product_id = "p1";
            slug = "p1";
            name = "p1";
            variant_id = some "v1";
            price_amount = "6.00";
            price_currency = "EUR";
            quantity = 2;
            thumbnail_url = none;
          }
          ∷ [];
      updated_at = 0;
    }
    ∷ []

abbrev visit : Visit
visit = record {
  is_enabled = true;
  email_verified = true;
  is_post = true;
  user = 7;
  new_key = "k9";
  now = 50;
  lease_key = "checkout:user:7";
  token = "t";
  env = answering;
}

abbrev shop : Shop dict_cache digests
shop = record { world = (empty_dict, empty); carts = carts; session_key = some "k1" }
