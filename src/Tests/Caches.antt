-- ===== src/Tests/Caches.antt =====
-- Two concrete caches: a dictionary, which has the documented behaviour, and one that is down.
use django_app_eve.Prelude.{
  ℕ, suc, String, ◌≡◌, ◌≢◌, refl, Bool, true, false, Option, none, some, str_eq, eq_iff, eq_refl,
  if◌then◌else◌, arith,
}
use django_app_eve.Core.Cache.{
  Cache, Laws, IsDown, Value, num, text, flag, Reply, ok, value_error, unreachable,
}

abbrev Dict : Type 0
Dict = String → Option Value

abbrev put : String → Option Value → Dict → Dict
put k v s = λ j. if str_eq k j then v else s j

abbrev add_at : String → Value → Option Value → Dict → Reply Bool × Dict
add_at k v none s = (ok true, put k (some v) s)
add_at k v (some _) s = (ok false, s)

abbrev incr_at : String → Option Value → Dict → Reply ℕ × Dict
incr_at k (some (num n)) s = (ok (suc n), put k (some (num (suc n))) s)
incr_at k _ s = (value_error, s)

abbrev pub dict_cache : Cache
dict_cache = record {
  State = Dict;
  get = λ k s. ok (s k);
  add = λ k v t s. add_at k v (s k) s;
  set = λ k v t s. (ok tt, put k (some v) s);
  incr = λ k s. incr_at k (s k) s;
  delete = λ k s. (ok tt, put k none s);
}

abbrev pub empty_dict : Dict
empty_dict k = none

-- The dictionary after an entry was written.
abbrev pub with_entry : String → Value → Dict → Dict
with_entry k v s = put k (some v) s

apart : (k j : String) → k ≢ j → str_eq k j ≡ false
apart k j ne = ground (arith, eq_iff k j, ne)

held : (s : Dict) (k : String) (o : Option Value) → ok (s k) ≡ ok o → s k ≡ o
held s k o h = cc

add_at-other :
    (k j : String) (v : Value) (o : Option Value) (s : Dict)
    → k ≢ j
    → ok ((add_at k v o s).1 j) ≡ ok (s j)
add_at-other k j v none s ne = rw (apart k j ne) refl
add_at-other k j v (some w) s ne = refl

incr_at-other :
    (k j : String) (o : Option Value) (s : Dict) → k ≢ j → ok ((incr_at k o s).1 j) ≡ ok (s j)
incr_at-other k j (some (num n)) s ne = rw (apart k j ne) refl
incr_at-other k j (some (text t)) s ne = refl
incr_at-other k j (some flag) s ne = refl
incr_at-other k j none s ne = refl

pub dict_laws : Laws dict_cache
dict_laws = record {
  add_missing = λ k v t s h. rw (held s k none h) (refl, rw (eq_refl k) refl);
  add_present = λ k v w t s h. rw (held s k (some w) h) (refl, h);
  set_lem = λ k v t s o h. (refl, rw (eq_refl k) refl);
  incr_num = λ k n s h. rw (held s k (some (num n)) h) (refl, rw (eq_refl k) refl);
  delete_lem = λ k s o h. (refl, rw (eq_refl k) refl);
  add_other = λ k j v t s ne. add_at-other k j v (s k) s ne;
  set_other = λ k j v t s ne. rw (apart k j ne) refl;
  incr_other = λ k j s ne. incr_at-other k j (s k) s ne;
  delete_other = λ k j s ne. rw (apart k j ne) refl;
}

abbrev pub down_cache : Cache
down_cache = record {
  State = Unit;
  get = λ k s. unreachable;
  add = λ k v t s. (unreachable, s);
  set = λ k v t s. (unreachable, s);
  incr = λ k s. (unreachable, s);
  delete = λ k s. (unreachable, s);
}

pub down : IsDown down_cache tt
down = record {
  get_raises = λ k. refl;
  add_raises = λ k v t. refl;
  set_raises = λ k v t. refl;
  incr_raises = λ k. refl;
  delete_raises = λ k. refl;
}
