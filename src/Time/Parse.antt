-- ===== src/Time/Parse.antt =====
-- src/time/timefunc.c: dates in the form of the standard are read as the numbers that they show.
use srepod.Prelude.{
  ℕ, ◌+◌, ◌/◌, ◌%◌, ◌<◌, ◌≡◌, arith, pos, some, [], ◌∷◌, ◌++◌, scan_run, scan_int, scan_char,
  is_space, skip_space, digits_value, CString, ◌>>=◌,
}
use srepod.Time.{day, second, make_date, minus_one, parse_date, scan_day, scan_time}

abbrev digit : ℕ → ℕ
digit n = b'0' + n % 10

-- `%02d` and `%04d`, of numbers with that many digits.
abbrev pub two_digits : ℕ → CString
two_digits n = digit (n / 10) ∷ digit n ∷ []

abbrev pub four_digits : ℕ → CString
four_digits n = digit (n / 1000) ∷ digit (n / 100) ∷ digit (n / 10) ∷ digit n ∷ []

-- `YYYY-MM-DD`
abbrev pub day_text : ℕ → ℕ → ℕ → CString
day_text y mo d = four_digits y ++ (b'-' ∷ (two_digits mo ++ (b'-' ∷ two_digits d)))

-- `THH:MM:SSZ`
abbrev pub time_text : ℕ → ℕ → ℕ → CString
time_text h mi s =
    b'T' ∷ (two_digits h ++ (b':' ∷ (two_digits mi ++ (b':' ∷ (two_digits s ++ (b'Z' ∷ []))))))

scan_two :
    (n : ℕ) (rest : CString) → n < 100 → scan_int 2 (two_digits n ++ rest) ≡ some (pos n, rest)
unfolding scan_int skip_space is_space scan_run digits_value
scan_two n rest l = ground arith

scan_four :
    (n : ℕ) (rest : CString) → n < 10000 → scan_int 4 (four_digits n ++ rest) ≡ some (pos n, rest)
unfolding scan_int skip_space is_space scan_run digits_value
scan_four n rest l = ground arith

scan_day-day_text :
    (y mo d : ℕ) (rest : CString)
    → y < 10000
    → mo < 100
    → d < 100
    → scan_day (day_text y mo d ++ rest) ≡ some (pos y, pos mo, pos d, rest)
unfolding scan_day scan_char
scan_day-day_text y mo d rest a b c =
    rw (scan_four y (b'-' ∷ (two_digits mo ++ (b'-' ∷ (two_digits d ++ rest)))) a, ◌>>=◌)
      (rw (scan_two mo (b'-' ∷ (two_digits d ++ rest)) b, ◌>>=◌) (rw (scan_two d rest c, ◌>>=◌)))

scan_time-time_text :
    (h mi s : ℕ)
    → h < 100
    → mi < 100
    → s < 100
    → scan_time (time_text h mi s) ≡ some (pos h, pos mi, pos s)
unfolding scan_time scan_char
scan_time-time_text h mi s a b c =
    rw (scan_two h (b':' ∷ (two_digits mi ++ (b':' ∷ (two_digits s ++ (b'Z' ∷ []))))) a, ◌>>=◌)
      (rw (scan_two mi (b':' ∷ (two_digits s ++ (b'Z' ∷ []))) b, ◌>>=◌)
        (rw (scan_two s (b'Z' ∷ []) c, ◌>>=◌)))

-- A text `YYYY-MM-DD` is read as the three numbers that it shows, at the granularity of days, and a
-- text `YYYY-MM-DDTHH:MM:SSZ` as the six, at that of seconds, whether or not there is such a day.
pub parse_date-text :
    (y mo d h mi s : ℕ)
    → (y < 10000) × (mo < 100) × (d < 100)
    → (h < 100) × (mi < 100) × (s < 100)
    → (parse_date (day_text y mo d)
        ≡ some (make_date day (pos y) (pos mo) (pos d) minus_one minus_one minus_one))
      × (parse_date (day_text y mo d ++ time_text h mi s)
          ≡ some (make_date second (pos y) (pos mo) (pos d) (pos h) (pos mi) (pos s)))
unfolding parse_date
parse_date-text y mo d h mi s v w = (
  rw (scan_day-day_text y mo d [] v.0 v.1 v.2, ◌>>=◌),
  rw (scan_day-day_text y mo d (time_text h mi s) v.0 v.1 v.2, ◌>>=◌)
      (rw (scan_time-time_text h mi s w.0 w.1 w.2, ◌>>=◌)),
)
