-- ===== src/Payments/SaleorCheckout.antt =====
-- Eve/payments/services/saleor_checkout.py: the lines of a checkout, and the two mutations. What
-- Saleor answers is an argument.
use django_app_eve.Prelude.{
  ℕ, String, Option, none, some, Bool, true, false, List, [], ◌∷◌, ◌&&◌, leb, not, str_eq,
  if◌then◌else◌,
}

-- The fields of a cart item that the checkout reads. A quantity is an integer that `cart_service`
-- wrote; `none` is a product with no variant.
pub record CartItem : Type 0 where
  pub variant_id : Option String
  pub quantity : ℕ

pub record Line : Type 0 where
  pub variant_id : String
  pub quantity : ℕ

-- A call returns, raises CheckoutError, or raises anything else.
pub data Result {ℓ} (A : Type ℓ) : Type ℓ where
  ok : A → Result A
  checkout_error : Result A
  raised : Result A

infixl 5 ◌>>=◌
abbrev pub ◌>>=◌ {ℓ κ} : {A : Type ℓ} {B : Type κ} → Result A → (A → Result B) → Result B
ok a >>= f = f a
checkout_error >>= f = checkout_error
raised >>= f = raised

-- One turn of the loop of `build_lines`; an empty `variant_id` is falsy as well.
unfoldable pub line_of : CartItem → Result Line
line_of item = elim item.variant_id [
  | none ↦ checkout_error
  | some v ↦
      if not (str_eq v "") && (leb 1 item.quantity && leb item.quantity 99)
      then ok (record { variant_id = v; quantity = item.quantity })
      else checkout_error
]

unfoldable pub lines_of : List CartItem → Result (List Line)
lines_of [] = ok []
lines_of (item ∷ rest) = do line ← line_of item; lines ← lines_of rest; ok (line ∷ lines)

unfoldable pub non_empty : List Line → Result (List Line)
non_empty [] = checkout_error
non_empty lines = ok lines

unfoldable pub build_lines : List CartItem → Result (List Line)
unfolding lines_of line_of non_empty
build_lines items = do lines ← lines_of items; non_empty lines

-- How `saleor_graphql` answers a mutation: SaleorAPIError, or a payload with its `errors` (whether
-- there are any) and the object that the mutation made, `none` where its fields are missing.
pub data Answer (A : Type 0) : Type 0 where
  api_error : Answer A
  payload : Bool → Option A → Answer A

-- The end of `create_checkout` and of `complete_checkout`: errors first, then the object.
unfoldable pub read_answer : {A : Type 0} → Answer A → Result A
read_answer api_error = checkout_error
read_answer (payload true o) = checkout_error
read_answer (payload false none) = raised
read_answer (payload false (some a)) = ok a

-- `create_checkout` returns the id of the checkout (its totals are not used by the caller).
unfoldable pub create_checkout : List CartItem → Answer String → Result String
unfolding read_answer
create_checkout items answer = do lines ← build_lines items; read_answer answer

pub record Completed : Type 0 where
  pub order_id : String
  pub total_amount : String
  pub total_currency : String

unfoldable pub complete_checkout : Answer Completed → Result Completed
unfolding read_answer
complete_checkout answer = read_answer answer
