-- ===== src/Prelude/Text.antt =====
-- Python's operations on texts that the code uses: `str.strip` and a slice `[:n]`.
use Prim.Native.Nat.{ℕ, zero, suc}
use Prim.Native.Char.{Char, code}
use Prim.Native.String.{String}
use mathlib.Core.Bool.{Bool, ◌&&◌, ◌||◌}
use mathlib.Core.Path.{◌≡◌, refl}
use django_app_eve.Prelude.Tests.{leb, ◌==◌, if◌then◌else◌}

-- The characters that `str.isspace` accepts.
unfoldable pub is_space : Char → Bool
is_space c =
    let n = code c in
    (leb 9 n && leb n 13)
    || (leb 28 n && leb n 32)
    || n == 133
    || n == 160
    || n == 5760
    || (leb 8192 n && leb n 8202)
    || n == 8232
    || n == 8233
    || n == 8239
    || n == 8287
    || n == 12288

unfoldable pub strip_left : String → String
strip_left String.[] = ""
strip_left (String.◌∷◌ c s) = let rest = strip_left s in if is_space c then rest else String.◌∷◌ c s

-- A space is kept where something that is no space follows it.
abbrev keep_right : Char → String → String
keep_right c String.[] = if is_space c then "" else String.◌∷◌ c String.[]
keep_right c (String.◌∷◌ d s) = String.◌∷◌ c (String.◌∷◌ d s)

unfoldable pub strip_right : String → String
strip_right String.[] = ""
strip_right (String.◌∷◌ c s) = keep_right c (strip_right s)

unfoldable pub strip : String → String
unfolding strip_left strip_right is_space
strip s = strip_right (strip_left s)

-- `s[:n]`
unfoldable pub cut : ℕ → String → String
cut zero s = ""
cut (suc n) String.[] = ""
cut (suc n) (String.◌∷◌ c s) = String.◌∷◌ c (cut n s)

strips : strip "  ab c " ≡ "ab c"
unfolding strip
strips = refl

cuts : cut 2 "abc" ≡ "ab"
unfolding cut
cuts = refl
