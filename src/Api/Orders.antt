-- ===== src/Api/Orders.antt =====
-- Eve/api/v1/views.py: `OrderViewSet` and `ProfileView`, with their serializers, and
-- `payment_history_view` of Eve/payments/views.py. The rows of a table stand oldest first.
pub mod Visible
use mathlib.Core.List.{reverse}
use django_app_eve.Prelude.{
  ℕ, String, Option, none, some, Bool, true, false, List, [], ◌∷◌, map, find, select, ◌==◌, ◌&&◌,
  str_eq,
}
use django_app_eve.Accounts.Profiles.{Profile, get_or_create}
use django_app_eve.Accounts.Verification.{Member}
use django_app_eve.Payments.Models.{Order, CheckoutAttempt}
use django_app_eve.Payments.Reconcile.{is_uncertain_state}
use django_app_eve.Payments.Db.{Db}

-- `Order.objects.filter(user=…)`
unfoldable pub orders_of : ℕ → Db → List Order
orders_of user db = select (λ (o : Order). o.user == user) db.orders

-- What `OrderSerializer` shows.
pub record OrderView : Type 0 where
  pub id : ℕ
  pub saleor_order_id : String
  pub status : String
  pub amount : String
  pub currency : String

unfoldable pub order_view : Order → OrderView
order_view o = record {
  id = o.pk;
  saleor_order_id = o.saleor_order_id;
  status = o.status;
  amount = o.total_amount;
  currency = o.currency;
}

-- `OrderViewSet.list`, newest first.
unfoldable pub order_list : ℕ → Db → List OrderView
unfolding orders_of order_view
order_list user db = map order_view (reverse (orders_of user db))

-- `OrderViewSet.retrieve`; `none` is the answer 404.
unfoldable pub order_retrieve : ℕ → String → Db → Option Order
unfolding orders_of
order_retrieve user saleor_order_id db =
    find (λ (o : Order). str_eq o.saleor_order_id saleor_order_id) (orders_of user db)

-- What `ProfileSerializer` shows.
pub record ProfileBody : Type 0 where
  pub user : Member
  pub email_verified : Bool
  pub is_long_term_patient : Bool
  pub preferred_vr_mode : String

unfoldable pub profile_body : Member → Profile → ProfileBody
profile_body user p = record {
  user = user;
  email_verified = p.email_verified;
  is_long_term_patient = p.is_long_term_patient;
  preferred_vr_mode = p.preferred_vr_mode;
}

-- `ProfileView.get`
unfoldable pub profile_get : Member → List Profile → ProfileBody × List Profile
unfolding profile_body
profile_get user profiles =
    let (p, profiles') = get_or_create user.pk profiles in (profile_body user p, profiles')

abbrev pub is_open_attempt : ℕ → CheckoutAttempt → Bool
is_open_attempt user a = a.user == user && is_uncertain_state a.state

abbrev pub exists : Option CheckoutAttempt → Bool
exists none = false
exists (some a) = true

-- The orders, newest first, and whether a checkout of the user is still open.
unfoldable pub payment_history_view : ℕ → Db → List Order × Bool
unfolding orders_of
payment_history_view user db =
    (reverse (orders_of user db), exists (find (is_open_attempt user) db.attempts))
