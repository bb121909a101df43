-- ===== src/Gateway/Keys/Query.antt =====
-- What the CGI library documents of its calls, as a query of names and values.
use srepod.Prelude.{
  ℕ, ◌+◌, ◌≤◌, true, false, Option, none, some, List, [], ◌∷◌, if◌then◌else◌, arith, refl, ◌≡◌,
  CString, str_eq, str_eq_iff, length, is_some,
}
use srepod.Gateway.Keys.{Cgi, is_one_of}

abbrev pub Query : Type 0
Query = List (CString × CString)

unfoldable pub count_name : CString → Query → ℕ
count_name k [] = 0
count_name k ((n, v) ∷ q) = (if str_eq n k then 1 else 0) + count_name k q

unfoldable pub first_value : CString → Query → Option CString
first_value k [] = none
first_value k ((n, v) ∷ q) = if str_eq n k then some v else first_value k q

-- The library answers for the query `q`, of which `cgi_getentrystr` finds the first value of a name.
pub record Answers (cgi : Cgi) (q : Query) : Type 0 where
  pub entries : cgi.num_entries ≡ length q
  pub counts : (k : CString) → cgi.getnumentries k ≡ count_name k q
  pub values : (k : CString) → cgi.getentrystr k ≡ first_value k q

-- How many entries have a name in a list.
unfoldable pub count_in : List CString → Query → ℕ
count_in ks [] = 0
count_in ks ((n, v) ∷ q) = (if is_one_of n ks then 1 else 0) + count_in ks q

pub count_in-le : (ks : List CString) (q : Query) → count_in ks q ≤ length q
unfolding count_in
count_in-le ks [] = omega arith
count_in-le ks ((n, v) ∷ q) = ground (arith, count_in-le ks q)

pub count_in-nil : (q : Query) → count_in [] q ≡ 0
unfolding count_in is_one_of
count_in-nil [] = refl
count_in-nil ((n, v) ∷ q) = ground (arith, count_in-nil q)

-- With a new name in front the entries of that name come on top.
pub count_in-cons :
    (k : CString) (ks : List CString) (q : Query)
    → is_one_of k ks ≡ false
    → count_in (k ∷ ks) q ≡ count_name k q + count_in ks q
unfolding count_in count_name is_one_of
count_in-cons k ks [] h = refl
count_in-cons k ks ((n, v) ∷ q) h = ground (arith, count_in-cons k ks q, str_eq_iff n k)

-- The names of a query are all in a list.
abbrev pub AllNamed : List CString → Query → Type 0
AllNamed ks [] = Unit
AllNamed ks (e ∷ q) = (is_one_of e.0 ks ≡ true) × AllNamed ks q

pub AllNamed-count_in : (ks : List CString) (q : Query) → count_in ks q ≡ length q → AllNamed ks q
unfolding count_in
AllNamed-count_in ks [] h = tt
AllNamed-count_in ks ((n, v) ∷ q) h =
    (ground (arith, count_in-le ks q), AllNamed-count_in ks q (ground (arith, count_in-le ks q)))

pub first_value-count :
    (k : CString) (q : Query) → 1 ≤ count_name k q → is_some (first_value k q) ≡ true
unfolding count_name first_value
first_value-count k [] h = absurd (omega arith)
first_value-count k ((n, v) ∷ q) h = ground (arith, first_value-count k q)
