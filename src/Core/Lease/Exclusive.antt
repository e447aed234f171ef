-- ===== src/Core/Lease/Exclusive.antt =====
-- A lease (Eve/core/cache_lock.py) while the cache can be reached, and when it cannot.
use django_app_eve.Prelude.{ℕ, String, ◌≡◌, ap, Option, none, some, Bool, true, false, eq_refl}
use django_app_eve.Core.Cache.{
  Cache, Laws, IsDown, Value, text, Reply, ok, value_error, unreachable,
}
use django_app_eve.Core.Lease.{holds, release, finish_lease, run_lease, cache_lease}

ok-injective : {a b : Bool} → ok a ≡ ok b → a ≡ b
ok-injective h = cc

module _ (c : Cache) (laws : Laws c) where
  open c use {State, get, add, delete}

  -- The release deletes the entry where it still holds this process's token.
  pub release-own :
      (key token : String) (s : State)
      → get key s ≡ ok (some (text token))
      → get key (release c key token true s) ≡ ok none
  unfolding release
  release-own key token s h = rw h (rw (eq_refl token) (laws.delete_lem key s _ h).1)

  -- An entry that is gone or was taken over by another process is left alone.
  pub release-other :
      (key token : String) (s : State) (o : Option Value)
      → get key s ≡ ok o
      → holds token o ≡ false
      → release c key token true s ≡ s
  unfolding release
  release-other key token s o h foreign = rw h (rw foreign)

  module _ {W R : Type 0} (cache_of : W → State) (put : State → W → W)
      (put_lem : (s : State) (w : W) → cache_of (put s w) ≡ s) (key token : String) (timeout : ℕ)
      (body : Bool → W → R × W) (w : W) where
    granted :
        (owner : Bool) (r : Reply Bool × State)
        → r.0 ≡ ok owner
        → run_lease c cache_of put key token body r w
          ≡ finish_lease c cache_of put key token owner (body owner (put r.1 w))
    unfolding run_lease
    granted owner (ok b, s) e =
        let same : b ≡ owner = ok-injective e in
        ap (λ x. finish_lease c cache_of put key token x (body x (put s w))) same
    granted owner (value_error, s) e = cc
    granted owner (unreachable, s) e = cc

    abbrev acquired : W
    acquired = put (add key (text token) timeout (cache_of w)).1 w

    -- On a free key the body runs as the owner, while the entry holds its token; afterwards the
    -- entry is released.
    pub cache_lease-free :
        get key (cache_of w) ≡ ok none
        → (cache_lease c cache_of put key token timeout body w
            ≡ finish_lease c cache_of put key token true (body true acquired))
          × (get key (cache_of acquired) ≡ ok (some (text token)))
    unfolding cache_lease
    cache_lease-free free =
        let (added, held) = laws.add_missing key (text token) timeout (cache_of w) free in
        (granted true _ added, rw (put_lem (add key (text token) timeout (cache_of w)).1 w) held)

    -- While an entry is there, another request for the lease runs its body as a non-owner. The request
    -- does not change the entry, and its end changes nothing in the cache.
    pub cache_lease-busy :
        (v : Value)
        → get key (cache_of w) ≡ ok (some v)
        → (cache_lease c cache_of put key token timeout body w ≡ (
          some (body false acquired).0,
          put (cache_of (body false acquired).1) (body false acquired).1,
        ))
          × (get key (cache_of acquired) ≡ ok (some v))
    unfolding cache_lease finish_lease release
    cache_lease-busy v busy =
        let (refused, held) = laws.add_present key (text token) v timeout (cache_of w) busy in
        (granted false _ refused, rw (put_lem (add key (text token) timeout (cache_of w)).1 w) held)

-- Where the cache cannot be reached the body does not run: CacheLeaseUnavailable is raised, whatever
-- the body.
pub cache_lease-down :
    (c : Cache) {W R : Type 0} (cache_of : W → c.State) (put : c.State → W → W) (key token : String)
    (timeout : ℕ) (body : Bool → W → R × W) (w : W)
    → IsDown c (cache_of w)
    → cache_lease c cache_of put key token timeout body w ≡ (none, put (cache_of w) w)
unfolding cache_lease
cache_lease-down c cache_of put key token timeout body w down =
    rw (down.add_raises key (text token) timeout)
