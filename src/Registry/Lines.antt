-- ===== src/Registry/Lines.antt =====
-- src/registry/unregister.c: the lines of a file, and the buffers that fgets fills with them.
use srepod.Prelude.{
  ℕ, ◌+◌, ◌-◌, ◌<◌, ◌==◌, false, List, [], ◌∷◌, ◌++◌, ◌≡◌, ap, refl, arith, inl, inr, Bool-cases,
  if◌then◌else◌, is_nil, leb, fgets_from, CString, All, length, length-append,
}

-- The lines of a text, each with its newline, of which the first begins with `held`.
unfoldable pub lines_from : CString → CString → List CString
lines_from held [] = if is_nil held then [] else held ∷ []
lines_from held (c ∷ s) =
    if c == b'\n' then (held ++ c ∷ []) ∷ lines_from [] s else lines_from (held ++ c ∷ []) s

abbrev pub lines : CString → List CString
lines s = lines_from [] s

-- A line fits into a buffer of 1024 bytes, and leaves room.
abbrev pub AllShort : List CString → Type 0
AllShort = All (λ line. length line < 1023)

snoc-ne_nil : (s : CString) (c : ℕ) → is_nil (s ++ c ∷ []) ≡ false
snoc-ne_nil [] c = refl
snoc-ne_nil (d ∷ s) c = refl

held-short :
    (held s : CString) → is_nil held ≡ false → AllShort (lines_from held s) → length held < 1023
unfolding lines_from
held-short held [] n a = let k = rw n at a in k.0
held-short held (c ∷ s) n a = elim (Bool-cases (c == b'\n')) [
  | inl e ↦ let k = rw e at a in omega (arith, k.0, length-append held (c ∷ []))
  | inr e ↦ omega (
    arith,
    held-short (held ++ c ∷ []) s (snoc-ne_nil held c) (rw e at a),
    length-append held (c ∷ []),
  )
]

pub fgets_from-lines :
    (room : ℕ) (held s : CString)
    → length held + room ≡ 1023
    → AllShort (lines_from held s)
    → fgets_from 1023 room held s ≡ lines_from held s
unfolding fgets_from lines_from
fgets_from-lines room held [] r a = refl
fgets_from-lines room held (c ∷ s) r a = elim (Bool-cases (c == b'\n')) [
  | inl e ↦ rw e (
      ap (λ ls. (held ++ c ∷ []) ∷ ls) (fgets_from-lines 1023 [] s refl (let k = rw e at a in k.1)))
  | inr e ↦
      let b : AllShort (lines_from (held ++ c ∷ []) s) = rw e at a in
      let l = held-short (held ++ c ∷ []) s (snoc-ne_nil held c) b in
      let k : leb room 1 ≡ false = ground (arith, l, length-append held (c ∷ []), r) in
      rw (e, k)
        (fgets_from-lines (room - 1) (held ++ c ∷ []) s
          (omega (arith, length-append held (c ∷ []), l, r)) b)
]
