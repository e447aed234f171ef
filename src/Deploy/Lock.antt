-- ===== src/Deploy/Lock.antt =====
-- `validate` of Eve/deploy/check_lock.py, over the lines of the lock file. `PIN` is written out as its only
-- way to match: a name, "==", a version, and a marker behind a semicolon.
pub mod Pinned
use Prim.Native.Char.{Char, code}
use django_app_eve.Prelude.{
  ℕ, zero, suc, ◌+◌, String, Bool, true, false, List, [], ◌∷◌, ◌&&◌, ◌||◌, not, leb, ◌==◌, strip,
  is_space, if◌then◌else◌, ◌≡◌, refl,
}

-- `[A-Za-z0-9_.-]`
unfoldable pub is_name : ℕ → Bool
is_name n =
    (leb b'A' n && leb n b'Z')
    || (leb b'a' n && leb n b'z')
    || (leb b'0' n && leb n b'9')
    || n == b'_'
    || n == b'.'
    || n == b'-'

-- `[^\s;]`
unfoldable pub is_version : Char → Bool
is_version c = not (is_space c) && not (code c == b';')

-- `(?:\s*;.*)?` where something follows the version.
unfoldable pub is_marker : String → Bool
is_marker String.[] = false
is_marker (String.◌∷◌ c rest) =
    let later = is_marker rest in if is_space c then later else code c == b';'

unfoldable pub ends_version : String → Bool
unfolding is_version is_marker
ends_version String.[] = true
ends_version (String.◌∷◌ c rest) =
    let later = ends_version rest in if is_version c then later else is_marker (String.◌∷◌ c rest)

abbrev has_version : String → Bool
has_version String.[] = false
has_version (String.◌∷◌ c rest) = is_version c && ends_version rest

abbrev is_equals : Char → Bool
is_equals c = code c == b'='

abbrev has_equals : String → Bool
has_equals (String.◌∷◌ c (String.◌∷◌ d rest)) = is_equals c && (is_equals d && has_version rest)
has_equals _ = false

-- After at least one character of the name.
unfoldable pub ends_name : String → Bool
unfolding is_name
ends_name String.[] = false
ends_name (String.◌∷◌ c rest) =
    let later = ends_name rest in if is_name (code c) then later else has_equals (String.◌∷◌ c rest)

-- `PIN.fullmatch(line)`
unfoldable pub is_pin : String → Bool
unfolding ends_name ends_version
is_pin String.[] = false
is_pin (String.◌∷◌ c rest) = is_name (code c) && ends_name rest

-- `.lower().replace("_", "-")` of a character of a name.
abbrev normal : ℕ → ℕ
normal n = if leb b'A' n && leb n b'Z' then n + 32 else if n == b'_' then b'-' else n

-- The package of a line that matched, by the numbers of its characters: the name has no "=".
unfoldable pub package_of : String → List ℕ
package_of String.[] = []
package_of (String.◌∷◌ c rest) =
    let later = package_of rest in if is_name (code c) then normal (code c) ∷ later else []

unfoldable pub same_package : List ℕ → List ℕ → Bool
same_package [] [] = true
same_package [] (b ∷ m) = false
same_package (a ∷ l) [] = false
same_package (a ∷ l) (b ∷ m) = a == b && same_package l m

unfoldable pub contains : List ℕ → List (List ℕ) → Bool
unfolding same_package
contains p [] = false
contains p (q ∷ rest) = let later = contains p rest in if same_package q p then true else later

pub data Failure : Type 0 where
  not_pinned : ℕ → Failure
  duplicate : ℕ → List ℕ → Failure
  no_dependencies : Failure

abbrev is_hash : String → Bool
is_hash String.[] = true
is_hash (String.◌∷◌ c rest) = code c == b'#'

-- `not line or line.startswith("#")`
unfoldable pub is_comment : String → Bool
is_comment line = is_hash line

-- The end of the loop.
abbrev pub none_found : List (List ℕ) → List Failure
none_found [] = no_dependencies ∷ []
none_found (p ∷ packages) = []

-- The failure of a pinned line in front of the later ones.
abbrev after_package : ℕ → List ℕ → Bool → List Failure → List Failure
after_package n p true later = duplicate n p ∷ later
after_package n p false later = later

-- The loop from line `n` on, with the packages so far.
unfoldable pub validate_from : ℕ → List (List ℕ) → List String → List Failure
unfolding contains is_comment is_pin package_of
validate_from n packages [] = none_found packages
validate_from n packages (raw ∷ rest) =
    let line = strip raw in
    let skip = validate_from (suc n) packages rest in
    let next = validate_from (suc n) (package_of line ∷ packages) rest in
    if is_comment line
    then skip
    else if is_pin line
    then after_package n (package_of line) (contains (package_of line) packages) next
    else not_pinned n ∷ skip

unfoldable pub validate : List String → List Failure
unfolding validate_from
validate lines = validate_from 1 [] lines

accepts : validate (" # locked" ∷ "Django==5.0 ; x" ∷ "" ∷ "a_b.c==1" ∷ []) ≡ []
unfolding validate strip is_space
accepts = refl

rejects :
    validate ("a-b==1" ∷ "A_B==2" ∷ "c>=1" ∷ [])
    ≡ duplicate 2 (b'a' ∷ b'-' ∷ b'b' ∷ []) ∷ not_pinned 3 ∷ []
unfolding validate strip is_space
rejects = refl
