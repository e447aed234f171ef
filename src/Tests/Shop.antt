-- ===== src/Tests/Shop.antt =====
-- The theorems about the checkout and the cart of the API, at one user with one item.
use django_app_eve.Prelude.{
  ℕ, ◌+◌, ◌*◌, ◌≡◌, refl, true, false, none, some, List, [], ◌∷◌, find, strip, is_space, ◌&&◌, ◌==◌,
  if◌then◌else◌,
}
use django_app_eve.Core.Lease.{cache_lease}
use django_app_eve.Accounts.Profiles.{Profile, get_or_create}
use django_app_eve.Ecommerce.Cart.{Cart, Field, get_cart, find_cart}
use django_app_eve.Ecommerce.Cart.Bounds.{AllValid}
use django_app_eve.Ecommerce.Cart.View.{quantity_in}
use django_app_eve.Core.Cache.{ok}
use django_app_eve.Ecommerce.Catalogue
use django_app_eve.Ecommerce.Catalogue.{no_media, Sources}
use django_app_eve.Ecommerce.Storefront.{Money, Shelf}
use django_app_eve.Api.Serializers.{View, value}
use django_app_eve.Api.CartViews.{cart, cart_get}
use django_app_eve.Api.CartViews.Requests.{
  Request, page_add, api_add, api_set, api_cart, run_requests,
}
use django_app_eve.Api.CartViews.Bounded.{IsShown, run_requests-IsShown}
use django_app_eve.Prelude.Unique.{Unique}
use django_app_eve.Api.Orders.{order_retrieve}
use django_app_eve.Api.Orders.Visible.{order_retrieve-checkout_post}
use django_app_eve.Api.Checkout.{Post, Desk, replayed, checkout_post, key_of}
use django_app_eve.Api.Checkout.Replay.{order_of}
use django_app_eve.Api.Checkout.Again.{checkout_post-replay}
use django_app_eve.Payments.System.{run_all}
use django_app_eve.Payments.Tasks.Walks.{Walked}
use django_app_eve.Tests.Webhooks.{externals, between}
use django_app_eve.Api.Checkout.Empties.{is_created, checkout_post-empties}
use django_app_eve.Payments.Models.{Order, value as status_text}
use django_app_eve.Payments.CheckoutView.{cart_items}
use django_app_eve.Payments.SaleorCheckout.{build_lines, create_checkout, complete_checkout}
use django_app_eve.Payments.Rows.{send, save_attempt, insert_order, insert_if_free, new_order}
use django_app_eve.Payments.Checkout.{
  place_order_once, leased, place_order, unless_placed, with_lines, get_or_create_attempt,
  run_attempt, on_created, on_completed, commit_order, insert_attempt, scoped_idempotency_key,
}
use django_app_eve.Tests.Caches.{dict_cache, empty_dict}
use django_app_eve.Tests.Checkouts.{digests, answering, empty, empty-IsSafe, carts, silent, made}

abbrev verified : Profile
verified = record {
  user = 7;
  email_verified = true;
  is_long_term_patient = false;
  hospital_name = "";
  room_number = "";
  preferred_vr_mode = "";
}

abbrev desk : Desk dict_cache digests
desk = record { world = (empty_dict, empty); carts = carts; profiles = verified ∷ [] }

abbrev request : Post
request = record {
  is_enabled = true;
  user = 7;
  header = some " k1 ";
  now = 50;
  lease_key = "checkout:user:7";
  token = "t";
  env = answering;
}

checkout_post-empties_example :
    let (a, s') = checkout_post dict_cache digests request desk in
    quantity_in 7 "p1" s'.carts ≡ (if 7 == 7 && is_created a then 0 else quantity_in 7 "p1" carts)
checkout_post-empties_example = checkout_post-empties dict_cache digests request desk 7 "p1"

ordered : order_of (checkout_post dict_cache digests request desk).0 ≡ some made
unfolding checkout_post get_or_create find key_of strip place_order_once cache_lease leased
    place_order unless_placed with_lines build_lines cart_items get_cart find_cart
    get_or_create_attempt run_attempt create_checkout on_created on_completed complete_checkout
    commit_order insert_order insert_if_free send save_attempt insert_attempt new_order status_text
    is_space scoped_idempotency_key
ordered = refl

-- The request again: the cart is another by then, and a webhook has paid the order.
abbrev later : Desk dict_cache digests
later = record {
  world = (
    empty_dict,
    run_all digests externals between (checkout_post dict_cache digests request desk).1.world.1,
  );
  carts = [];
  profiles = verified ∷ [];
}

checkout_post-replay_example :
    (o' : Order) × Walked made o'
    × (checkout_post dict_cache digests (record request { env = silent; now = 80 }) later
        ≡ (replayed o', later))
unfolding find
checkout_post-replay_example =
    checkout_post-replay dict_cache digests externals between request
      (record request { env = silent; now = 80 }) desk later made verified empty-IsSafe ordered refl
      refl refl refl refl refl

-- Amounts in cents.
abbrev cents : Money
cents = record {
  Amount = ℕ;
  zero_amount = 0;
  float = λ text. some 600;
  plus = λ a b. a + b;
  times = λ a n. a * n;
  round = λ a. a;
}

abbrev tea : Catalogue.Product
tea = record {
  id = some "tea";
  name = some "Tea";
  slug = some "tea";
  thumbnail = none;
  media = no_media;
}

abbrev shelf : Shelf
shelf = record {
  parse = λ url. none;
  read = λ p. record {
    id = "tea";
    slug = "tea";
    name = "Tea";
    variant_id = some "v";
    gross = some (Field.num "6.00", Field.str "EUR");
    thumbnail_url = none;
  };
  decimal = λ c. none;
}

abbrev sources : Sources
sources = record {
  miss = ok false;
  fresh = ok (some tea);
  lease = none;
  upstream = none;
  polled = [];
  stale = ok none;
}

abbrev requests : List (ℕ × ℕ × Request)
requests =
    (1, 7, page_add none sources)
    ∷ (
      2,
      7,
      api_add (value "tea") (value (record { is_negative = false; size = 300 })) (λ s. sources),
    )
    ∷ (3, 7, api_set "tea" (value (record { is_negative = false; size = 20 })))
    ∷ (4, 8, api_cart)
    ∷ []

none_stored : (d : Cart) → none ≡ some d → ⊥
none_stored d h = cc

run_requests-IsShown_example :
    let carts' = run_requests cents shelf (λ s. true) requests [] in
    AllValid carts' × (v : View ℕ) × ((cart_get cents 9 7 carts').0 ≡ cart 200 v) × IsShown v
unfolding find find_cart
run_requests-IsShown_example =
    run_requests-IsShown cents shelf (λ s. true) requests [] 9 7 (λ v d h. absurd (none_stored d h))

order_retrieve-checkout_post_example :
    let r = checkout_post dict_cache digests request desk in
    order_retrieve 8 made.saleor_order_id r.1.world.1.db ≡ (if 8 == 7 then some made else none)
unfolding checkout_post get_or_create find key_of strip place_order_once cache_lease leased
    place_order unless_placed with_lines build_lines cart_items get_cart find_cart
    get_or_create_attempt run_attempt create_checkout on_created on_completed complete_checkout
    commit_order insert_order insert_if_free send save_attempt insert_attempt new_order status_text
    is_space scoped_idempotency_key
order_retrieve-checkout_post_example =
    order_retrieve-checkout_post dict_cache digests request desk made 8 ordered unique
  where
    unique :
        Unique
          (λ (x : Order). x.saleor_order_id)
          (checkout_post dict_cache digests request desk).1.world.1.db.orders
    unique = (tt, tt)
