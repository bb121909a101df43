-- ===== src/Prelude/Strings.antt =====
-- C strings as the list of their bytes before the terminating NUL.
use Prim.Native.Char.{code}
use Prim.Native.Nat.{ℕ}
use Prim.Native.String.{String}
use mathlib.Core.Bool.{Bool, true, false, ◌&&◌}
use mathlib.Core.List.{List, [], ◌∷◌}
use mathlib.Core.Logic.{◌↔◌}
use mathlib.Core.Path.{◌≡◌}
use native.Mathlib.Omega.{arith}
use srepod.Prelude.Tests.{◌==◌}

abbrev pub CString : Type 0
CString = List ℕ

-- The bytes of an ASCII literal.
abbrev pub codes : String → CString
codes String.[] = []
codes (String.◌∷◌ c s) = code c ∷ codes s

-- `strcmp(a, b) == 0`
unfoldable pub str_eq : CString → CString → Bool
str_eq [] [] = true
str_eq (a ∷ s) (b ∷ t) = a == b && str_eq s t
str_eq _ _ = false

-- `strncmp(s, p, strlen(p)) == 0`, and `memcmp` where the buffer is that long
unfoldable pub starts_with : CString → CString → Bool
starts_with s [] = true
starts_with [] (b ∷ p) = false
starts_with (a ∷ s) (b ∷ p) = a == b && starts_with s p

pub str_eq_iff : (s t : CString) → (str_eq s t ≡ true) ↔ (s ≡ t)
unfolding str_eq
str_eq_iff (a ∷ s) (b ∷ t) = ground (arith, str_eq_iff s t)
str_eq_iff _ _ = ground arith

pub str_eq_refl : (s : CString) → str_eq s s ≡ true
str_eq_refl s = (str_eq_iff s s).1 (λ i. s)
