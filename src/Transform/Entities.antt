-- ===== src/Transform/Entities.antt =====
-- src/transform_c/parser.c: what `escape` writes is read back by a reader of XML, and when it fits.
use srepod.Prelude.{
  ℕ, zero, suc, ◌*◌, ◌≤◌, Bool, true, false, not, ◌&&◌, ◌||◌, none, some, [], ◌∷◌, ◌++◌, ◌==◌,
  if◌then◌else◌, ◌≡◌, refl, arith, ◌∙◌, ap, CString, codes, starts_with, length, length-append,
  take, replicate,
}
use srepod.Transform.{escape_char, escape_all, escape}

-- The five entities of XML, read by one who has still to pass over `skip` characters.
unfoldable pub unescape : ℕ → CString → CString
unescape skip [] = []
unescape (suc skip) (c ∷ s) = unescape skip s
unescape zero (c ∷ s) =
    let one = unescape 0 s in
    let three = unescape 3 s in
    let four = unescape 4 s in
    let five = unescape 5 s in
    if c == b'&'
    then if starts_with s (codes "amp;")
      then b'&' ∷ four
      else if starts_with s (codes "lt;")
      then b'<' ∷ three
      else if starts_with s (codes "gt;")
      then b'>' ∷ three
      else if starts_with s (codes "apos;")
      then b'\'' ∷ five
      else if starts_with s (codes "quot;")
      then b'"' ∷ five
      else c ∷ one
    else c ∷ one

unescape-escape_char : (c : ℕ) (t : CString) → unescape 0 (escape_char c ++ t) ≡ c ∷ unescape 0 t
unfolding unescape escape_char starts_with
unescape-escape_char c t = ground arith

unescape-escape_all : (s : CString) → unescape 0 (escape_all s) ≡ s
unfolding escape_all
unescape-escape_all [] = unfold unescape in refl
unescape-escape_all (c ∷ s) =
    unescape-escape_char c (escape_all s) ∙ ap (◌∷◌ c) (unescape-escape_all s)

-- What `escape` writes is read back as the characters that it was given.
pub unescape-escape :
    (str : CString) (len : ℕ) (out : CString)
    → escape str len ≡ some out
    → unescape 0 out ≡ take len str
unfolding escape
unescape-escape str len out e =
    let n : escape_all (take len str) ≡ out = ground arith in
    rw (← n) (unescape-escape_all (take len str))

-- There is no quote of either kind.
abbrev pub has_no_quote : CString → Bool
has_no_quote [] = true
has_no_quote (c ∷ s) = not (c == b'\'' || c == b'"') && has_no_quote s

take-length : (s : CString) → take (length s) s ≡ s
take-length [] = refl
take-length (c ∷ s) = ap (◌∷◌ c) (take-length s)

length-escape_char : (c : ℕ) → (c == b'\'' || c == b'"') ≡ false → length (escape_char c) ≤ 5
unfolding escape_char
length-escape_char c k = ground arith

length-escape_all : (s : CString) → has_no_quote s ≡ true → length (escape_all s) ≤ 5 * length s
unfolding escape_all
length-escape_all [] k = omega arith
length-escape_all (c ∷ s) k =
    let a : (c == b'\'' || c == b'"') ≡ false = ground arith in
    let b : has_no_quote s ≡ true = ground arith in
    omega (
      arith,
      length-append (escape_char c) (escape_all s),
      length-escape_char c a,
      length-escape_all s b,
    )

length-escape_quotes : (n : ℕ) → length (escape_all (replicate n b'"')) ≡ 6 * n
unfolding escape_all escape_char
length-escape_quotes zero = refl
length-escape_quotes (suc n) = omega (arith, length-escape_quotes n)

take-replicate : (n c : ℕ) → take n (replicate n c) ≡ replicate n c
take-replicate zero c = refl
take-replicate (suc n) c = ap (◌∷◌ c) (take-replicate n c)

-- A text without a quote of either kind fits in the buffer. A text of double quotes alone, one at
-- least, does not: `escape` writes six characters for each, and has room for five.
pub escape-has_no_quote :
    (s : CString) (n : ℕ)
    → has_no_quote s ≡ true
    → 1 ≤ n
    → (escape s (length s) ≡ some (escape_all s)) × (escape (replicate n b'"') n ≡ none)
unfolding escape
escape-has_no_quote s n k l = (
  rw (take-length s) (ground (arith, length-escape_all s k)),
  rw (take-replicate n b'"') (ground (arith, length-escape_quotes n)),
)
