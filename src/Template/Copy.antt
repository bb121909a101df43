-- ===== src/Template/Copy.antt =====
-- src/template/template.c: what of a template is copied, and what is replaced.
use srepod.Prelude.{
  ℕ, suc, ◌+◌, ◌-◌, ◌<◌, Bool, false, some, [], ◌∷◌, ◌++◌, ◌==◌, ◌>>=◌, pos, scan_int, scan_run,
  is_digit, is_space, skip_space, digits_value, CString, length, get_elem?, ◌≡◌, refl, arith, ap,
  ◌∙◌, sym, append-nil,
}
use srepod.Template.{
  ParseMode, Arguments, count_args, argument, expand, consumed, expand_from, parse_template,
}

-- There is no `$` in a text.
abbrev pub IsPlain : CString → Type 0
IsPlain [] = Unit
IsPlain (c ∷ s) = (c == b'$' ≡ false) × IsPlain s

-- The first character, if there is one, is no digit.
abbrev pub digit_first : CString → Bool
digit_first [] = false
digit_first (c ∷ s) = is_digit c

expand_plain :
    (mode : ParseMode) (args : Arguments) (sz c : ℕ) (s : CString)
    → c == b'$' ≡ false
    → expand mode args sz c s ≡ c ∷ []
unfolding expand
expand_plain mode args sz c s e = rw (e, expand)

consumed_plain : (c : ℕ) (s : CString) → c == b'$' ≡ false → consumed c s ≡ 0
unfolding consumed
consumed_plain c s e = rw (e, consumed)

pub expand_from-IsPlain :
    (mode : ParseMode) (args : Arguments) (sz : ℕ) (s t : CString)
    → IsPlain s
    → expand_from mode args sz 0 (s ++ t) ≡ s ++ expand_from mode args sz 0 t
unfolding expand_from
expand_from-IsPlain mode args sz [] t p = refl
expand_from-IsPlain mode args sz (c ∷ s) t p =
    rw (expand_plain mode args sz c (s ++ t) p.0, consumed_plain c (s ++ t) p.0)
      (ap (◌∷◌ c) (expand_from-IsPlain mode args sz s t p.1))

-- A single digit with no digit behind it.
scan_int_digit :
    (d : ℕ) (s : CString)
    → d < 10
    → digit_first s ≡ false
    → scan_int 2 ((b'0' + d) ∷ s) ≡ some (pos d, s)
unfolding scan_int skip_space is_space scan_run digits_value
scan_int_digit d [] l n = ground arith
scan_int_digit d (c ∷ s) l n = ground arith

drop_one :
    (mode : ParseMode) (args : Arguments) (sz c : ℕ) (s : CString)
    → expand_from mode args sz 1 (c ∷ s) ≡ expand_from mode args sz 0 s
unfolding expand_from
drop_one mode args sz c [] = refl
drop_one mode args sz c (x ∷ s) = refl

argument_lem :
    (args : Arguments) (sz d : ℕ) (p : CString)
    → d < sz
    → get_elem? args d ≡ some (some p)
    → argument args sz (pos d) ≡ some p
unfolding argument
argument_lem args sz d p l g = ground arith

one_consumed : (n : ℕ) → suc n - n ≡ 1
one_consumed n = omega arith

expand_dollar :
    (mode : ParseMode) (args : Arguments) (sz d : ℕ) (p s : CString)
    → d < sz
    → d < 10
    → get_elem? args d ≡ some (some p)
    → digit_first s ≡ false
    → expand_from mode args sz 0 (b'$' ∷ (b'0' + d) ∷ s) ≡ p ++ expand_from mode args sz 0 s
unfolding expand_from expand consumed
expand_dollar mode args sz d p s l k g n =
    rw (scan_int_digit d s k n, expand, consumed)
      (rw (argument_lem args sz d p l g, one_consumed (length s))
        (ap (◌++◌ p) (drop_one mode args sz (b'0' + d) s)))

expansion :
    (mode : ParseMode) (args : Arguments) (sz : ℕ) (t u : CString)
    → count_args args ≡ some sz
    → parse_template mode args t ≡ some u
    → u ≡ expand_from mode args sz 0 t
unfolding parse_template
expansion mode args sz t u c e = ground arith

-- Where the array has its `NULL`, a template without a `$` is copied as it is. One that such a text
-- begins, followed by a `$`, a digit that is the number of an argument, and a rest that begins with
-- no digit, becomes the text, the argument, and what the rest becomes.
pub parse_template_lem :
    (mode : ParseMode) (args : Arguments) (sz d : ℕ) (s p t u : CString)
    → count_args args ≡ some sz
    → IsPlain s
    → d < sz
    → d < 10
    → get_elem? args d ≡ some (some p)
    → digit_first t ≡ false
    → parse_template mode args t ≡ some u
    → (parse_template mode args s ≡ some s)
      × (parse_template mode args (s ++ (b'$' ∷ (b'0' + d) ∷ t)) ≡ some (s ++ (p ++ u)))
unfolding parse_template
parse_template_lem mode args sz d s p t u c a l k g n e =
    let w : u ≡ expand_from mode args sz 0 t = expansion mode args sz t u c e in
    (
      rw (c, ◌>>=◌)
          (ap some (
            ap (λ x. expand_from mode args sz 0 x) (sym (append-nil s))
            ∙ expand_from-IsPlain mode args sz s [] a
            ∙ (unfold expand_from in append-nil s))),
      rw (c, ◌>>=◌)
          (ap some (
            expand_from-IsPlain mode args sz s (b'$' ∷ (b'0' + d) ∷ t) a
            ∙ ap (◌++◌ s) (expand_dollar mode args sz d p t l k g n ∙ ap (◌++◌ p) (sym w)))),
    )
