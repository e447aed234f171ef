-- ===== src/Core/Cache.antt =====
-- The cache that the workers share, as the program uses it: `django.core.cache.cache`, which is not
-- part of the repository. It is a parameter: a state, its operations, and the documented
-- behaviour that the program relies on. Two operations that follow one another in a theorem do so
-- before the entry's timeout.
use django_app_eve.Prelude.{ℕ, suc, String, ◌≡◌, ◌≢◌, Option, none, some, Bool, true, false}

-- What the program stores: counters, the tokens of leases, and flags.
pub data Value : Type 0 where
  num : ℕ → Value
  text : String → Value
  flag : Value

-- How a call ends: with a result, with ValueError (`incr` of a missing key), or with the error of a
-- cache that cannot be reached.
pub data Reply {ℓ} (A : Type ℓ) : Type ℓ where
  ok : A → Reply A
  value_error : Reply A
  unreachable : Reply A

pub record Cache : Type 1 where
  pub State : Type 0
  pub get : String → State → Reply (Option Value)
  -- `add` and `set` take the timeout in seconds
  pub add : String → Value → ℕ → State → Reply Bool × State
  pub set : String → Value → ℕ → State → Reply (Unit {0}) × State
  pub incr : String → State → Reply ℕ × State
  pub delete : String → State → Reply (Unit {0}) × State

module _ (c : Cache) where
  open c use {State, get, add, set, incr, delete}

  -- The documented behaviour of a cache that can be reached, at one key: what each operation answers
  -- and what a `get` of the key answers after it.
  pub record Laws : Type 0 where
    pub add_missing :
        (k : String) (v : Value) (t : ℕ) (s : State)
        → get k s ≡ ok none
        → ((add k v t s).0 ≡ ok true) × (get k (add k v t s).1 ≡ ok (some v))
    pub add_present :
        (k : String) (v w : Value) (t : ℕ) (s : State)
        → get k s ≡ ok (some w)
        → ((add k v t s).0 ≡ ok false) × (get k (add k v t s).1 ≡ ok (some w))
    pub set_lem :
        (k : String) (v : Value) (t : ℕ) (s : State) (o : Option Value)
        → get k s ≡ ok o
        → ((set k v t s).0 ≡ ok tt) × (get k (set k v t s).1 ≡ ok (some v))
    pub incr_num :
        (k : String) (n : ℕ) (s : State)
        → get k s ≡ ok (some (num n))
        → ((incr k s).0 ≡ ok (suc n)) × (get k (incr k s).1 ≡ ok (some (num (suc n))))
    pub delete_lem :
        (k : String) (s : State) (o : Option Value)
        → get k s ≡ ok o
        → ((delete k s).0 ≡ ok tt) × (get k (delete k s).1 ≡ ok none)
    -- an operation at one key leaves the other keys alone
    pub add_other :
        (k j : String) (v : Value) (t : ℕ) (s : State) → k ≢ j → get j (add k v t s).1 ≡ get j s
    pub set_other :
        (k j : String) (v : Value) (t : ℕ) (s : State) → k ≢ j → get j (set k v t s).1 ≡ get j s
    pub incr_other : (k j : String) (s : State) → k ≢ j → get j (incr k s).1 ≡ get j s
    pub delete_other : (k j : String) (s : State) → k ≢ j → get j (delete k s).1 ≡ get j s

  -- A cache that cannot be reached: every call raises.
  pub record IsDown (s : State) : Type 0 where
    pub get_raises : (k : String) → get k s ≡ unreachable
    pub add_raises : (k : String) (v : Value) (t : ℕ) → add k v t s ≡ (unreachable, s)
    pub set_raises : (k : String) (v : Value) (t : ℕ) → set k v t s ≡ (unreachable, s)
    pub incr_raises : (k : String) → incr k s ≡ (unreachable, s)
    pub delete_raises : (k : String) → delete k s ≡ (unreachable, s)
