-- ===== src/Time.antt =====
-- src/time/timefunc.c: the dates of the OAI protocol, at the granularity of days or of seconds.
pub mod Order
pub mod Parse
use srepod.Prelude.{
  ℕ, Bool, true, false, Option, none, some, [], ◌==◌, if◌then◌else◌, ◌>>=◌, ℤ, pos, negsuc, ◌+ℤ◌,
  scale, wrap32, scan_int, scan_char, CString, length,
}

-- `DAY` is 0 and `SECOND` is 1.
pub data Granularity : Type 0 where
  day second : Granularity

abbrev pub rank : Granularity → ℕ
rank day = 0
rank second = 1

pub record DateStruct : Type 0 where
  pub year : ℤ
  pub month : ℤ
  pub mday : ℤ
  pub hour : ℤ
  pub minute : ℤ
  pub sec : ℤ
  pub granularity : Granularity
  pub tval : ℤ

abbrev pub minus_one : ℤ
minus_one = negsuc 0

-- `tval`. All but the year's term is computed in `int`, which wraps around.
unfoldable pub tval_of : ℤ → ℤ → ℤ → ℤ → ℤ → ℤ → ℤ
tval_of y mo d h mi s =
    wrap32 (s +ℤ scale 100 mi +ℤ scale 10000 h +ℤ scale 1000000 d +ℤ scale 100000000 mo)
    +ℤ scale 1000000000000 y

unfoldable pub make_date : Granularity → ℤ → ℤ → ℤ → ℤ → ℤ → ℤ → DateStruct
make_date g y mo d h mi s = record {
  year = y;
  month = mo;
  mday = d;
  hour = h;
  minute = mi;
  sec = s;
  granularity = g;
  tval = tval_of y mo d h mi s;
}

-- `"%4d-%2d-%2d"`
unfoldable pub scan_day : CString → Option (ℤ × ℤ × ℤ × CString)
scan_day s = do
  (y, s₁) ← scan_int 4 s
  s₂ ← scan_char b'-' s₁
  (mo, s₃) ← scan_int 2 s₂
  s₄ ← scan_char b'-' s₃
  (d, s₅) ← scan_int 2 s₄
  some (y, mo, d, s₅)

-- `"T%2d:%2d:%2dZ"`; what follows the last number changes no count.
unfoldable pub scan_time : CString → Option (ℤ × ℤ × ℤ)
scan_time s = do
  s₁ ← scan_char b'T' s
  (h, s₂) ← scan_int 2 s₁
  s₃ ← scan_char b':' s₂
  (mi, s₄) ← scan_int 2 s₃
  s₅ ← scan_char b':' s₄
  (sec, _) ← scan_int 2 s₅
  some (h, mi, sec)

scan_date : CString → Option DateStruct
unfolding scan_day
scan_date s = do
  (y, mo, d, _) ← scan_day s
  some (make_date day y mo d minus_one minus_one minus_one)

scan_date_time : CString → Option DateStruct
unfolding scan_day scan_time
scan_date_time s = do
  (y, mo, d, rest) ← scan_day s
  (h, mi, sec) ← scan_time rest
  some (make_date second y mo d h mi sec)

-- `parse_date`; `none` is -1. No caller passes a null pointer.
unfoldable pub parse_date : CString → Option DateStruct
unfolding scan_date scan_date_time
parse_date s =
    if length s == 10 then scan_date s else if length s == 20 then scan_date_time s else none
