-- ===== src/Config/Lines.antt =====
-- src/cconfig/cconfig.c: a line that `config_save` writes is read back by `config_open` as it was.
use srepod.Prelude.{
  ℕ, zero, suc, ◌+◌, ◌-◌, ◌≤◌, ◌<◌, Bool, true, false, not, ◌&&◌, ◌||◌, some, [], ◌∷◌, ◌++◌, ◌==◌,
  leb, is_nil, fgets_from, scan_run, arith, refl, ◌≡◌, ◌∙◌, ap, sym, is_space, skip_space, CString,
  length, length-append, append_assoc, append-nil,
}
use srepod.Config.{buff_size, scan_pair, saved_line, is_skipped}

-- Every character is in a set.
abbrev pub AllIn : (ℕ → Bool) → CString → Type 0
AllIn set [] = Unit
AllIn set (c ∷ s) = (set c ≡ true) × AllIn set s

abbrev pub all_in : (ℕ → Bool) → CString → Bool
all_in set [] = true
all_in set (c ∷ s) = set c && all_in set s

pub all_in-AllIn : (set : ℕ → Bool) (s : CString) → all_in set s ≡ true → AllIn set s
all_in-AllIn set [] e = tt
all_in-AllIn set (c ∷ s) e = (ground arith, all_in-AllIn set s (ground arith))

abbrev pub is_black : ℕ → Bool
is_black c = not (is_space c)

abbrev pub in_line : ℕ → Bool
in_line c = not (c == b'\n')

abbrev pub starts_black : CString → Bool
starts_black [] = false
starts_black (c ∷ s) = is_black c

-- A name that a line can carry: not empty, no white space, and no mark that makes the line a comment.
pub record IsName (name : CString) : Type 0 where
  pub ne_nil : is_nil name ≡ false
  pub black : AllIn is_black name
  pub plain : is_skipped name ≡ false

-- A value that a line can carry: not empty, on one line, and with no white space in front.
pub record IsValue (value : CString) : Type 0 where
  pub one_line : AllIn in_line value
  pub starts : starts_black value ≡ true

pub scan_run-AllIn :
    (set : ℕ → Bool) (width : ℕ) (s : CString) (c : ℕ) (rest : CString)
    → AllIn set s
    → set c ≡ false
    → length s < width
    → scan_run set width (s ++ c ∷ rest) ≡ (s, c ∷ rest)
unfolding scan_run
scan_run-AllIn set zero s c rest a n l = absurd (omega arith)
scan_run-AllIn set (suc width) [] c rest a n l = ground arith
scan_run-AllIn set (suc width) (x ∷ s) c rest a n l =
    ground (arith, scan_run-AllIn set width s c rest a.1 n)

pub skip_space-black :
    (s rest : CString) → is_nil s ≡ false → AllIn is_black s → skip_space (s ++ rest) ≡ s ++ rest
unfolding skip_space
skip_space-black [] rest n a = absurd (cc)
skip_space-black (c ∷ s) rest n a = ground (arith, a.0)

-- White space is skipped in front of a value that has none in front, whatever follows it.
skip_space-value :
    (v : CString) (c : ℕ) → starts_black v ≡ true → skip_space (b' ' ∷ (v ++ c ∷ [])) ≡ v ++ c ∷ []
unfolding skip_space is_space
skip_space-value [] c e = absurd (cc)
skip_space-value (x ∷ v) c e = ground arith

starts_black-is_nil : (v : CString) → starts_black v ≡ true → is_nil v ≡ false
starts_black-is_nil [] e = absurd (cc)
starts_black-is_nil (c ∷ v) e = refl

pub length-saved_line :
    (name value : CString) → length (saved_line name value) ≡ length name + length value + 2
length-saved_line name value =
    omega
      (arith, length-append name (b' ' ∷ (value ++ b'\n' ∷ [])), length-append value (b'\n' ∷ []))

pub scan_pair-saved_line :
    (name value : CString)
    → IsName name
    → IsValue value
    → length (saved_line name value) < buff_size
    → scan_pair (saved_line name value) ≡ some (name, value)
unfolding scan_pair
scan_pair-saved_line name value n v l =
    rw (skip_space-black name (b' ' ∷ (value ++ b'\n' ∷ [])) n.ne_nil n.black) (
      rw
        (scan_run-AllIn is_black buff_size name b' ' (value ++ b'\n' ∷ []) n.black
          (unfold is_space in refl) (omega (arith, length-saved_line name value)))
        (rw (
          skip_space-value value b'\n' v.starts,
          scan_run-AllIn in_line buff_size value b'\n' [] v.one_line refl
              (omega (arith, length-saved_line name value)),
          n.ne_nil,
          starts_black-is_nil value v.starts,
        )))

is_skipped-append :
    (name : CString) (rest : CString)
    → is_nil name ≡ false
    → is_skipped (name ++ b' ' ∷ rest) ≡ is_skipped name
unfolding is_skipped
is_skipped-append [] rest e = absurd (cc)
is_skipped-append (x ∷ []) rest e = ground arith
is_skipped-append (x ∷ y ∷ s) rest e = refl

pub is_skipped-saved_line :
    (name value : CString) → IsName name → is_skipped (saved_line name value) ≡ false
is_skipped-saved_line name value n = is_skipped-append name _ n.ne_nil ∙ n.plain

-- A line that fits in the buffer is what one call of `fgets` returns.
pub fgets_line :
    (n room : ℕ) (held s rest : CString)
    → AllIn in_line s
    → length s < room
    → fgets_from n room held (s ++ b'\n' ∷ rest)
      ≡ ((held ++ s) ++ b'\n' ∷ []) ∷ fgets_from n n [] rest
unfolding fgets_from
fgets_line n room held [] rest a l = rw append-nil
fgets_line n room held (c ∷ s) rest a l =
    let more : (c == b'\n' || leb room 1) ≡ false = ground (arith, a.0) in
    rw more (
      fgets_line n (room - 1) (held ++ c ∷ []) s rest a.1 (omega arith)
      ∙ rw (append_assoc held (c ∷ []) s))

pub AllIn-append : (set : ℕ → Bool) (s t : CString) → AllIn set s → AllIn set t → AllIn set (s ++ t)
AllIn-append set [] t a b = b
AllIn-append set (c ∷ s) t a b = (a.0, AllIn-append set s t a.1 b)

pub in_line-black : (s : CString) → AllIn is_black s → AllIn in_line s
unfolding is_space
in_line-black [] a = tt
in_line-black (c ∷ s) a = (ground (arith, a.0), in_line-black s a.1)

pub fgets-saved_line :
    (n : ℕ) (name value rest : CString)
    → IsName name
    → IsValue value
    → length (saved_line name value) ≤ n
    → fgets_from n n [] (saved_line name value ++ rest)
      ≡ saved_line name value ∷ fgets_from n n [] rest
fgets-saved_line n name value rest k v l =
    let body : CString = name ++ (b' ' ∷ value) in
    let e : saved_line name value ≡ body ++ b'\n' ∷ [] =
      sym (append_assoc name (b' ' ∷ value) (b'\n' ∷ [])) in
    rw (e, append_assoc)
      (fgets_line n n [] body rest
        (AllIn-append in_line name (b' ' ∷ value) (in_line-black name k.black) (refl, v.one_line))
        (let q : length (saved_line name value) ≡ length (body ++ b'\n' ∷ []) = ap length e in
          omega (arith, length-append body (b'\n' ∷ []))))
