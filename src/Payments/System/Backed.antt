-- ===== src/Payments/System/Backed.antt =====
-- A row of the journal that says "completed", and the order that belongs to it: what keeps the two together.
use mathlib.Core.Option.{some-injective}
use django_app_eve.Prelude.{
  ℕ, ◌≡◌, refl, sym, ap, ◌∙◌, inl, inr, ◌≢◌, String, Option, none, some, Bool, true, Bool-cases,
  List, [], ◌∷◌, ◌++◌, find, find-append, find-All, All, All-mono, Pointwise,
}
use django_app_eve.Prelude.Unique.{Unique}
use django_app_eve.Payments.Models.{Order, CheckoutAttempt, completed}
use django_app_eve.Payments.Db.{Db}
use django_app_eve.Payments.Rows.{is_order_of, insert_if_free, insert_order}
use django_app_eve.Payments.Tasks.Moves.{Moved}
use django_app_eve.Payments.System.Grown.{Adds}

-- The order that `place_order_once` looks up for the user and the key of a row.
abbrev pub HasOrder : List Order → CheckoutAttempt → Type 0
HasOrder orders a = (o : Order) × (find (is_order_of a.user a.idempotency_key) orders ≡ some o)

abbrev pub IsBacked : List Order → CheckoutAttempt → Type 0
IsBacked orders a = a.state ≡ completed → HasOrder orders a

-- Every completed row of the journal has its order.
abbrev pub Backed : Db → Type 0
Backed db = All (IsBacked db.orders) db.attempts

-- Lookups that succeed go on to succeed.
abbrev pub Keeps : List Order → List Order → Type 0
Keeps xs ys =
    (user : ℕ) (key : String) (o : Order)
    → find (is_order_of user key) xs ≡ some o
    → (o' : Order) × (find (is_order_of user key) ys ≡ some o')

pub Keeps-Adds : (xs ys : List Order) → Adds xs ys → Keeps xs ys
Keeps-Adds xs ys (inl same) user key o h = (o, ap (find (is_order_of user key)) same ∙ h)
Keeps-Adds xs ys (inr (added, p, e)) user key o h = (
  o,
  ap (find (is_order_of user key)) e
      ∙ (find-append (is_order_of user key) xs (added ∷ []) ∙ rw h refl),
)

is_order_of-Moved :
    (user : ℕ) (key : String) (o o' : Order)
    → Moved o o'
    → is_order_of user key o' ≡ is_order_of user key o
is_order_of-Moved user key o o' (inl same) = ap (is_order_of user key) same
is_order_of-Moved user key o o' (inr (a, b, at_a, at_b, e, t)) = ap (is_order_of user key) at_b

pub Keeps-Moved : (xs ys : List Order) → Pointwise Moved xs ys → Keeps xs ys
unfolding find
Keeps-Moved [] [] m user key o h = cc h
Keeps-Moved [] (y ∷ ys) m user key o h = absurd m
Keeps-Moved (x ∷ xs) [] m user key o h = absurd m
Keeps-Moved (x ∷ xs) (y ∷ ys) m user key o h =
    let same = is_order_of-Moved user key x y m.0 in
    elim (Bool-cases (is_order_of user key x)) [
      | inl e ↦ (y, rw same (rw e refl))
      | inr e ↦ rw same (rw e (Keeps-Moved xs ys m.1 user key o (rw e at h)))
    ]

pub Backed-Keeps :
    (xs ys : List Order) (attempts : List CheckoutAttempt)
    → Keeps xs ys
    → All (IsBacked xs) attempts
    → All (IsBacked ys) attempts
Backed-Keeps xs ys attempts k =
    All-mono (IsBacked xs) (IsBacked ys) attempts
      (λ a b done. let (o, found) = b done in k a.user a.idempotency_key o found)

-- The row of a primary key is one.
pub only_row :
    (xs : List CheckoutAttempt) (q : CheckoutAttempt → Bool) (a : CheckoutAttempt)
    → Unique (λ (r : CheckoutAttempt). r.pk) xs
    → find q xs ≡ some a
    → All (λ r. r.pk ≡ a.pk → r ≡ a) xs
unfolding find
only_row [] q a u h = tt
only_row (x ∷ xs) q a u h = elim (Bool-cases (q x)) [
  | inl e ↦
      let same : x ≡ a = some-injective x a (rw e at h) in
      (
        (λ p. same),
        All-mono _ _ xs (λ r ne p. absurd (ne (p ∙ ap (λ (y : CheckoutAttempt). y.pk) (sym same))))
            u.0,
      )
  | inr e ↦
      let later = rw e at h in
      (
        (λ p. absurd (find-All (λ r. r.pk ≢ x.pk) q xs u.0 later (sym p))),
        only_row xs q a u.1 later,
      )
]

appended :
    (p : Order → Bool) (xs : List Order) (o : Order)
    → p o ≡ true
    → (o' : Order) × (find p (xs ++ o ∷ []) ≡ some o')
unfolding find
appended p [] o e = (o, rw e refl)
appended p (x ∷ xs) o e = elim (Bool-cases (p x)) [
  | inl here ↦ (x, rw here refl)
  | inr past ↦ rw past (appended p xs o e)
]

-- The order that was inserted is found by its user and key, where its key was given.
pub insert_order-found :
    (row : ℕ → Order) (db db' : Db) (user : ℕ) (key : String)
    → ((n : ℕ) → is_order_of user key (row n) ≡ true)
    → insert_order row db ≡ some db'
    → (o : Order) × (find (is_order_of user key) db'.orders ≡ some o)
unfolding insert_order insert_if_free
insert_order-found row db db' user key p h = free (find _ db.orders) (find _ db.orders) h
  where
    free :
        (a b : Option Order)
        → insert_if_free a b (row db.next_pk) db ≡ some db'
        → (o : Order) × (find (is_order_of user key) db'.orders ≡ some o)
    free (some _) none e = cc e
    free (some _) (some _) e = cc e
    free none (some _) e = cc e
    free none none e =
        let at_end = appended (is_order_of user key) db.orders (row db.next_pk) (p db.next_pk) in
        (
          at_end.0,
          ap (find (is_order_of user key))
                (sym (ap (λ (d : Db). d.orders) (some-injective _ db' e)))
              ∙ at_end.1,
        )
