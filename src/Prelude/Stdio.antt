-- ===== src/Prelude/Stdio.antt =====
-- The parts of the C library's `stdio.h` that the sources parse text with, on strings without NUL.
use Prim.Native.Nat.{ℕ, zero, suc, ◌+◌, ◌-◌, ◌*◌}
use mathlib.Core.Bool.{Bool, true, false, ◌&&◌, ◌||◌}
use mathlib.Core.List.{List, [], ◌∷◌, ◌++◌}
use mathlib.Core.Option.{Option, none, some}
use srepod.Prelude.Int.{ℤ, pos, sub_ℕ}
use srepod.Prelude.Strings.{CString, starts_with}
use srepod.Prelude.Tests.{leb, ◌==◌, if◌then◌else◌, ◌>>=◌}

-- `isspace` in the C locale
unfoldable pub is_space : ℕ → Bool
is_space c = c == b' ' || (leb 9 c && leb c 13)

abbrev pub is_nil : CString → Bool
is_nil [] = true
is_nil (c ∷ s) = false

-- The buffers that calls of `fgets(buffer, n + 1, fp)` fill until `NULL`. `room` is what the current
-- buffer can still take and `held` what it holds.
unfoldable pub fgets_from : ℕ → ℕ → CString → CString → List CString
fgets_from n room held [] = if is_nil held then [] else held ∷ []
fgets_from n room held (c ∷ s) =
    let full = c == b'\n' || leb room 1 in
    let rest =
      fgets_from n (if full then n else room - 1) (if full then [] else held ++ c ∷ []) s in
    if full then (held ++ c ∷ []) ∷ rest else rest

-- A directive of `scanf` that takes at most `width` characters of a set: what it takes, and the rest.
unfoldable pub scan_run : (ℕ → Bool) → ℕ → CString → CString × CString
scan_run set zero s = ([], s)
scan_run set (suc width) [] = ([], [])
scan_run set (suc width) (c ∷ s) =
    let r = scan_run set width s in if set c then (c ∷ r.0, r.1) else ([], c ∷ s)

-- White space in a format, and before `%s` and `%d`.
unfoldable pub skip_space : CString → CString
skip_space [] = []
skip_space (c ∷ s) = if is_space c then skip_space s else c ∷ s

abbrev pub is_digit : ℕ → Bool
is_digit c = leb b'0' c && leb c b'9'

-- The value of a string of digits, in base ten.
unfoldable pub digits_value : ℕ → CString → ℕ
digits_value acc [] = acc
digits_value acc (c ∷ s) = digits_value (acc * 10 + (c - b'0')) s

-- The digits of a conversion that may take `width` characters.
unfoldable pub scan_digits : ℕ → CString → Option (ℕ × CString)
scan_digits width s =
    let (ds, rest) = scan_run is_digit width s in
    if is_nil ds then none else some (digits_value 0 ds, rest)

-- The sign, if there is one, counts as one character.
scan_sign : ℕ → CString → Option (ℤ × CString)
unfolding scan_digits
scan_sign width [] = none
scan_sign width (c ∷ s) =
    if c == b'-'
    then scan_digits (width - 1) s >>= (λ r. some (sub_ℕ 0 r.0, r.1))
    else if c == b'+'
    then scan_digits (width - 1) s >>= (λ r. some (pos r.0, r.1))
    else scan_digits width (c ∷ s) >>= (λ r. some (pos r.0, r.1))

-- `%<width>d`: white space, then a sign, which the width counts, and digits.
unfoldable pub scan_int : ℕ → CString → Option (ℤ × CString)
unfolding scan_sign
scan_int width s = scan_sign width (skip_space s)

-- A character of a format that stands for itself.
unfoldable pub scan_char : ℕ → CString → Option CString
scan_char c [] = none
scan_char c (d ∷ s) = if d == c then some s else none

-- `strstr(s, sub) != NULL`
unfoldable pub contains : CString → CString → Bool
contains [] sub = is_nil sub
contains (c ∷ s) sub = if starts_with (c ∷ s) sub then true else contains s sub
