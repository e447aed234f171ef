-- ===== src/Ecommerce/Quantity.antt =====
-- `_parse_quantity` of Eve/ecommerce/views.py, over Python's `int` of a text. The value of a decimal
-- digit, which Unicode's tables give, is an argument.
use Prim.Native.Char.{Char, code}
use django_app_eve.Prelude.{
  ℕ, ◌+◌, ◌-◌, ◌*◌, ◌≤◌, ◌≡◌, refl, String, Option, none, some, Bool, true, false, not, ◌&&◌, leb,
  ◌==◌, strip, if◌then◌else◌, arith,
}
use django_app_eve.Ecommerce.Cart.{max_request_quantity}

-- An integer by its sign and its size.
pub record Integer : Type 0 where
  pub is_negative : Bool
  pub size : ℕ

module _ (decimal : Char → Option ℕ) where
  -- Digits, with single underscores between them; `after_digit` tells what stood before.
  unfoldable pub digits_from : Bool → ℕ → String → Option ℕ
  digits_from after_digit n String.[] = if after_digit then some n else none
  digits_from after_digit n (String.◌∷◌ c rest) = elim (decimal c) [
    | some v ↦ digits_from true (n * 10 + v) rest
    | none ↦
        let more = digits_from false n rest in if after_digit && code c == b'_' then more else none
  ]

  abbrev signed : Bool → Option ℕ → Option Integer
  signed is_negative none = none
  signed is_negative (some n) = some (record { is_negative = is_negative; size = n })

  unfoldable pub after_sign : String → Option Integer
  unfolding digits_from
  after_sign String.[] = none
  after_sign (String.◌∷◌ c rest) =
      if code c == b'-'
      then signed true (digits_from false 0 rest)
      else if code c == b'+'
      then signed false (digits_from false 0 rest)
      else signed false (digits_from false 0 (String.◌∷◌ c rest))

  -- `int(raw)`; `none` is ValueError.
  unfoldable pub int : String → Option Integer
  unfolding after_sign
  int raw = after_sign (strip raw)

  -- The range check. `-n` for an `n` from 1 on is below 1.
  unfoldable pub in_request_range : Option Integer → Option ℕ
  in_request_range none = none
  in_request_range (some i) =
      if not i.is_negative && (leb 1 i.size && leb i.size max_request_quantity)
      then some i.size
      else none

  -- `_parse_quantity`, of `request.POST.get("quantity", 1)`.
  unfoldable pub parse_quantity : Option String → Option ℕ
  unfolding int in_request_range
  parse_quantity none = in_request_range (some (record { is_negative = false; size = 1 }))
  parse_quantity (some raw) = in_request_range (int raw)

  in_request_range_bounds :
      (i : Option Integer) (n : ℕ)
      → in_request_range i ≡ some n
      → (1 ≤ n) × (n ≤ max_request_quantity)
  unfolding in_request_range
  in_request_range_bounds none n h = cc
  in_request_range_bounds (some i) n h = ground arith

  pub parse_quantity_bounds :
      (raw : Option String) (n : ℕ)
      → parse_quantity raw ≡ some n
      → (1 ≤ n) × (n ≤ max_request_quantity)
  unfolding parse_quantity
  parse_quantity_bounds none n h =
      in_request_range_bounds (some (record { is_negative = false; size = 1 })) n h
  parse_quantity_bounds (some raw) n h = in_request_range_bounds (int raw) n h

abbrev ascii : Char → Option ℕ
ascii c = let n = code c in if leb b'0' n && leb n b'9' then some (n - b'0') else none

reads : parse_quantity ascii (some " +1_2 ") ≡ some 12
unfolding parse_quantity strip
reads = refl

refuses : parse_quantity ascii (some "21") ≡ none
unfolding parse_quantity strip
refuses = refl

refuses_letters : parse_quantity ascii (some "1__2") ≡ none
unfolding parse_quantity strip
refuses_letters = refl
