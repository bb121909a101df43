-- ===== src/Gateway/Dates.antt =====
-- src/gateway.c: `has_valid_dates`.
use srepod.Prelude.{
  ℕ, ◌+◌, ◌-◌, ◌%◌, ◌^◌, ◌≤◌, ◌<◌, Bool, true, false, not, Option, none, some, [], ◌∷◌,
  if◌then◌else◌, ltb, ◌==◌, arith, refl, ◌≡◌, ◌↔◌, ◌∙◌, CString, codes, ℤ, pos, pos_part, neg_part,
  leb_ℤ, sym,
}
use srepod.Time.Order.{lex_le, leb_ℤ-tval_days}
use srepod.Time.Parse.{day_text, parse_date-text}
use srepod.Time.{DateStruct, day, rank, minus_one, parse_date, make_date}
use srepod.Gateway.{Check, pass, refuse, bad_argument}

-- The comparison of an enumeration with an `int` is one of unsigned numbers.
unfoldable pub as_unsigned : ℤ → ℕ
as_unsigned a = (pos_part a + (2 ^ 32 - neg_part a % 2 ^ 32)) % 2 ^ 32

abbrev pub illegal_date : Check
illegal_date = refuse bad_argument (codes "Illegal date")

abbrev pub illegal_granularity : Check
illegal_granularity = refuse bad_argument (codes "Illegal granularity")

unfoldable pub too_fine : ℤ → Option DateStruct → Bool
too_fine repository none = false
too_fine repository (some d) = ltb (as_unsigned repository) (rank d.granularity)

unfoldable pub order_check : Option DateStruct → Option DateStruct → Check
order_check none um = pass
order_check (some fm) none = pass
order_check (some fm) (some um) =
    if not (rank fm.granularity == rank um.granularity)
    then illegal_granularity
    else if not (leb_ℤ fm.tval um.tval)
    then illegal_date
    else pass

-- The outer `none` is a date that cannot be parsed.
unfoldable pub parse_given : Option CString → Option (Option DateStruct)
parse_given none = some none
parse_given (some s) = elim (parse_date s) [ none ↦ none | some d ↦ some (some d) ]

unfoldable pub granularity_check : ℤ → Option DateStruct → Option DateStruct → Check
granularity_check repository fm um =
    if too_fine repository fm
    then illegal_date
    else if too_fine repository um
    then illegal_granularity
    else order_check fm um

unfoldable pub parsed_check : ℤ → Option (Option DateStruct) → Option (Option DateStruct) → Check
parsed_check repository none um = illegal_date
parsed_check repository (some fm) none = illegal_date
parsed_check repository (some fm) (some um) = granularity_check repository fm um

unfoldable pub has_valid_dates : ℤ → Option CString → Option CString → Check
has_valid_dates repository none none = pass
has_valid_dates repository (some s) until =
    parsed_check repository (parse_given (some s)) (parse_given until)
has_valid_dates repository none (some t) =
    parsed_check repository (some none) (parse_given (some t))

-- A date that is given has been parsed, and is not finer than the dates of the repository.
abbrev pub IsGood : ℤ → Option (Option DateStruct) → Type 0
IsGood repository none = ⊥
IsGood repository (some none) = Unit
IsGood repository (some (some d)) = rank d.granularity ≤ as_unsigned repository

-- Two dates that are given are of one granularity, and the first is not later.
abbrev pub IsOrdered : Option (Option DateStruct) → Option (Option DateStruct) → Type 0
IsOrdered (some (some d)) (some (some e)) =
    (rank d.granularity ≡ rank e.granularity) × (leb_ℤ d.tval e.tval ≡ true)
IsOrdered _ _ = Unit

parsed_check_iff :
    (r : ℤ) (f u : Option (Option DateStruct))
    → (parsed_check r f u ≡ pass) ↔ (IsGood r f × IsGood r u × IsOrdered f u)
unfolding parsed_check granularity_check too_fine order_check
parsed_check_iff r none u = ((λ e. cc), (λ g. absurd g.0))
parsed_check_iff r (some f) none = ((λ e. cc), (λ g. absurd g.1))
parsed_check_iff r (some none) (some none) = ((λ e. (tt, tt, tt)), (λ g. refl))
parsed_check_iff r (some none) (some (some e)) =
    ((λ h. (tt, ground arith, tt)), (λ g. ground (arith, g.1)))
parsed_check_iff r (some (some d)) (some none) =
    ((λ h. (ground arith, tt, tt)), (λ g. ground (arith, g.0)))
parsed_check_iff r (some (some d)) (some (some e)) = (
  (λ h. (ground arith, ground arith, (ground arith, ground arith))),
  (λ g. ground (arith, g.0, g.1, g.2)),
)

-- `has_valid_dates` passes exactly the arguments that can be parsed and are not finer than the
-- repository, as unsigned numbers, and, if both are given, are of one granularity and in order.
pub has_valid_dates_iff :
    (r : ℤ) (from until : Option CString)
    → (has_valid_dates r from until ≡ pass) ↔ (
        IsGood r (parse_given from)
        × IsGood r (parse_given until)
        × IsOrdered (parse_given from) (parse_given until))
unfolding has_valid_dates
has_valid_dates_iff r none none = unfold parse_given in ((λ e. (tt, tt, tt)), (λ g. refl))
has_valid_dates_iff r (some s) until = parsed_check_iff r (parse_given (some s)) (parse_given until)
has_valid_dates_iff r none (some t) =
    unfold parse_given in parsed_check_iff r (some none) (parse_given (some t))

abbrev of_days : ℕ → ℕ → ℕ → DateStruct
of_days y mo d = make_date day (pos y) (pos mo) (pos d) minus_one minus_one minus_one

parse_given-day_text :
    (y mo d : ℕ)
    → (y < 10000) × (mo ≤ 12) × (d ≤ 31)
    → parse_given (some (day_text y mo d)) ≡ some (some (of_days y mo d))
unfolding parse_given
parse_given-day_text y mo d v =
    let e : parse_date (day_text y mo d) ≡ some (of_days y mo d) =
      (parse_date-text y mo d 0 0 0 (v.0, omega arith, omega arith) (omega arith)).0 in
    rw (e, parse_given)

-- Two days in the form of the standard, with months up to 12 and days up to 31, pass `has_valid_dates`,
-- whatever the granularity of the repository, exactly when the first is not later in the calendar than
-- the second.
pub has_valid_dates-days :
    (repository : ℤ) (y mo d y' mo' d' : ℕ)
    → (y < 10000) × (mo ≤ 12) × (d ≤ 31)
    → (y' < 10000) × (mo' ≤ 12) × (d' ≤ 31)
    → (has_valid_dates repository (some (day_text y mo d)) (some (day_text y' mo' d')) ≡ pass)
      ↔ (lex_le (y ∷ mo ∷ d ∷ []) (y' ∷ mo' ∷ d' ∷ []) ≡ true)
unfolding make_date
has_valid_dates-days repository y mo d y' mo' d' v w =
    let i = has_valid_dates_iff repository (some (day_text y mo d)) (some (day_text y' mo' d')) in
    let k = rw (parse_given-day_text y mo d v, parse_given-day_text y' mo' d' w) at i in
    let e = leb_ℤ-tval_days y mo d y' mo' d' v w in
    ((λ p. sym e ∙ (k.0 p).2.1), (λ q. k.1 (omega arith, omega arith, (refl, e ∙ q))))
