-- ===== src/Tests/Dates.antt =====
-- src/time/timefunc.c and src/template/template.c: two days and two times, and a template.
use srepod.Prelude.{◌+◌, true, none, some, [], ◌∷◌, ◌++◌, ◌≡◌, ◌↔◌, refl, arith, codes, pos}
use srepod.Gateway.Dates.{has_valid_dates, has_valid_dates-days}
use srepod.Gateway.{pass}
use srepod.Template.Copy.{IsPlain, parse_template_lem}
use srepod.Template.{loose, Arguments, count_args, parse_template, expand_from, expand, consumed}
use srepod.Time.Order.{IsDate, lex_le}
use srepod.Time.Parse.{day_text, time_text, parse_date-text}
use srepod.Time.{day, second, minus_one, parse_date, make_date}

evening : IsDate 2002 6 30 23 59 60
evening = record {
  year = omega arith;
  month = omega arith;
  mday = omega arith;
  hour = omega arith;
  minute = omega arith;
  sec = omega arith;
}

morning : IsDate 2002 7 1 0 0 0
morning = record {
  year = omega arith;
  month = omega arith;
  mday = omega arith;
  hour = omega arith;
  minute = omega arith;
  sec = omega arith;
}

parse_date-text_example :
    (parse_date (day_text 2002 6 30)
      ≡ some (make_date day (pos 2002) (pos 6) (pos 30) minus_one minus_one minus_one))
    × (parse_date (day_text 2002 6 30 ++ time_text 23 59 1)
        ≡ some (make_date second (pos 2002) (pos 6) (pos 30) (pos 23) (pos 59) (pos 1)))
parse_date-text_example =
    parse_date-text 2002 6 30 23 59 1 (omega arith, omega arith, omega arith)
      (omega arith, omega arith, omega arith)

has_valid_dates-days_example :
    (has_valid_dates (pos 1) (some (day_text 2002 6 30)) (some (day_text 2002 7 1)) ≡ pass)
    ↔ (lex_le (2002 ∷ 6 ∷ 30 ∷ []) (2002 ∷ 7 ∷ 1 ∷ []) ≡ true)
has_valid_dates-days_example =
    has_valid_dates-days (pos 1) 2002 6 30 2002 7 1 (omega arith, omega arith, omega arith)
      (omega arith, omega arith, omega arith)

abbrev status_arguments : Arguments
status_arguments = some (codes "404") ∷ some (codes "Bad request") ∷ none ∷ []

status_arguments-count : count_args status_arguments ≡ some 2
unfolding count_args
status_arguments-count = refl

rest-parsed : parse_template loose status_arguments (codes "!") ≡ some (codes "!")
unfolding parse_template count_args expand_from expand consumed
rest-parsed = refl

error_is-IsPlain : IsPlain (codes "Error ")
error_is-IsPlain = (refl, (refl, (refl, (refl, (refl, (refl, tt))))))

parse_template_lem_example :
    (parse_template loose status_arguments (codes "Error ") ≡ some (codes "Error "))
    × (parse_template loose status_arguments (codes "Error " ++ (b'$' ∷ (b'0' + 0) ∷ codes "!"))
        ≡ some (codes "Error " ++ (codes "404" ++ codes "!")))
parse_template_lem_example =
    parse_template_lem loose status_arguments 2 0 (codes "Error ") (codes "404") (codes "!")
      (codes "!") status_arguments-count error_is-IsPlain (omega arith) (omega arith) refl refl
      rest-parsed
