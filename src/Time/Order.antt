-- ===== src/Time/Order.antt =====
-- src/time/timefunc.c: the order of `tval` is the order of the dates.
use native.Mathlib.Nat.{add-zero}
use srepod.Prelude.{
  ◌∙◌, ap, ltb, leb, if◌then◌else◌, List, [], ◌∷◌, ℕ, ◌+◌, ◌*◌, ◌≤◌, ◌<◌, ◌≡◌, arith, pos, ◌+ℤ◌,
  scale, wrap32, sub_ℕ, Bool, true, false, leb_ℤ,
}
use srepod.Time.{tval_of, minus_one}

-- The numbers of a date that may stand on a calendar and a clock.
pub record IsDate (y mo d h mi s : ℕ) : Type 0 where
  pub year : y < 10000
  pub month : mo ≤ 12
  pub mday : d ≤ 31
  pub hour : h ≤ 23
  pub minute : mi ≤ 59
  pub sec : s ≤ 60

pub tval_of-pos :
    (y mo d h mi s : ℕ)
    → IsDate y mo d h mi s
    → tval_of (pos y) (pos mo) (pos d) (pos h) (pos mi) (pos s)
      ≡ pos (s + 100 * mi + 10000 * h + 1000000 * d + 100000000 * mo + 1000000000000 * y)
unfolding tval_of ◌+ℤ◌ scale wrap32
tval_of-pos y mo d h mi s v = ground arith

pub tval_of-days :
    (y mo d : ℕ)
    → y < 10000
    → mo ≤ 12
    → d ≤ 31
    → tval_of (pos y) (pos mo) (pos d) minus_one minus_one minus_one
      ≡ sub_ℕ (1000000 * d + 100000000 * mo + 1000000000000 * y) 10101
unfolding tval_of ◌+ℤ◌ scale wrap32
tval_of-days y mo d h k l = ground arith

-- The comparison of two lists of numbers from the left.
unfoldable pub lex_le : List ℕ → List ℕ → Bool
lex_le (a ∷ r) (b ∷ r') = if ltb a b then true else if ltb b a then false else lex_le r r'
lex_le _ _ = true

abbrev of_day : ℕ → ℕ → ℕ → ℕ
of_day y mo d = d + 100 * mo + 1000000 * y

abbrev of_time : ℕ → ℕ → ℕ → ℕ
of_time h mi s = s + 100 * mi + 10000 * h

-- The time counts only between dates of one day.
pack :
    (a b k l : ℕ)
    → a < 1000000
    → b < 1000000
    → leb (a + 1000000 * k) (b + 1000000 * l)
      ≡ (if ltb k l then true else if ltb l k then false else leb a b)
pack a b k l p q = ground arith

lex_days :
    (y mo d y' mo' d' : ℕ) (t t' : List ℕ)
    → (mo ≤ 12) × (d ≤ 31)
    → (mo' ≤ 12) × (d' ≤ 31)
    → lex_le (y ∷ mo ∷ d ∷ t) (y' ∷ mo' ∷ d' ∷ t') ≡ (
        if ltb (of_day y mo d) (of_day y' mo' d')
        then true
        else if ltb (of_day y' mo' d') (of_day y mo d)
        then false
        else lex_le t t')
unfolding lex_le
lex_days y mo d y' mo' d' t t' v v' = ground arith

lex_times :
    (h mi s h' mi' s' : ℕ)
    → (mi ≤ 59) × (s ≤ 60)
    → (mi' ≤ 59) × (s' ≤ 60)
    → lex_le (h ∷ mi ∷ s ∷ []) (h' ∷ mi' ∷ s' ∷ []) ≡ leb (of_time h mi s) (of_time h' mi' s')
unfolding lex_le
lex_times h mi s h' mi' s' v v' = ground arith

tval_packed :
    (y mo d h mi s : ℕ)
    → IsDate y mo d h mi s
    → tval_of (pos y) (pos mo) (pos d) (pos h) (pos mi) (pos s)
      ≡ pos (of_time h mi s + 1000000 * of_day y mo d)
tval_packed y mo d h mi s v = tval_of-pos y mo d h mi s v ∙ ap pos (omega arith)

-- Two dates with a time, in the ranges that the calendar and the clock have, are compared by `tval` as by
-- year, month, day, hour, minute and second.
pub leb_ℤ-tval :
    (y mo d h mi s y' mo' d' h' mi' s' : ℕ)
    → IsDate y mo d h mi s
    → IsDate y' mo' d' h' mi' s'
    → leb_ℤ
        (tval_of (pos y) (pos mo) (pos d) (pos h) (pos mi) (pos s))
        (tval_of (pos y') (pos mo') (pos d') (pos h') (pos mi') (pos s'))
      ≡ lex_le (y ∷ mo ∷ d ∷ h ∷ mi ∷ s ∷ []) (y' ∷ mo' ∷ d' ∷ h' ∷ mi' ∷ s' ∷ [])
unfolding leb_ℤ
leb_ℤ-tval y mo d h mi s y' mo' d' h' mi' s' v v' =
    rw (tval_packed y mo d h mi s v, tval_packed y' mo' d' h' mi' s' v', add-zero, add-zero)
      (pack (of_time h mi s) (of_time h' mi' s') (of_day y mo d) (of_day y' mo' d') (omega arith)
          (omega arith)
        ∙ rw (
          lex_days y mo d y' mo' d' (h ∷ mi ∷ s ∷ []) (h' ∷ mi' ∷ s' ∷ []) (v.month, v.mday)
              (v'.month, v'.mday),
          lex_times h mi s h' mi' s' (v.minute, v.sec) (v'.minute, v'.sec),
        ))

-- Two dates without a time are compared by `tval` as by year, month and day.
pub leb_ℤ-tval_days :
    (y mo d y' mo' d' : ℕ)
    → (y < 10000) × (mo ≤ 12) × (d ≤ 31)
    → (y' < 10000) × (mo' ≤ 12) × (d' ≤ 31)
    → leb_ℤ
        (tval_of (pos y) (pos mo) (pos d) minus_one minus_one minus_one)
        (tval_of (pos y') (pos mo') (pos d') minus_one minus_one minus_one)
      ≡ lex_le (y ∷ mo ∷ d ∷ []) (y' ∷ mo' ∷ d' ∷ [])
unfolding lex_le leb_ℤ
leb_ℤ-tval_days y mo d y' mo' d' v v' =
    rw (tval_of-days y mo d v.0 v.1 v.2, tval_of-days y' mo' d' v'.0 v'.1 v'.2) (ground arith)
