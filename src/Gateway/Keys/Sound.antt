-- ===== src/Gateway/Keys/Sound.antt =====
-- src/gateway.c: what a query is that `has_valid_keys` passes.
use srepod.Prelude.{
  ℕ, ◌+◌, ◌≤◌, true, false, some, List, [], ◌∷◌, if◌then◌else◌, arith, sym, ◌∙◌, ◌≡◌, ◌≢◌, inl, inr,
  CString, codes, length, Option-cases, ◌==◌,
}
use srepod.Gateway.Keys.Query.{
  Query, Answers, count_name, count_in, count_in-cons, count_in-nil, AllNamed, AllNamed-count_in,
  first_value,
}
use srepod.Gateway.Keys.{
  Cgi, counted, stopped, scan_keys, value_check, verb_check, arguments_check, has_valid_keys,
  is_one_of, valid_verbs,
}
use srepod.Gateway.{pass}

-- No name stands twice in a list.
abbrev pub Distinct : List CString → Type 0
Distinct [] = Unit
Distinct (k ∷ ks) = (is_one_of k ks ≡ false) × Distinct ks

-- Each key is given at most once, and what is given for it passes `is_uri`.
abbrev pub AllGood : Cgi → List CString → Type 0
AllGood cgi [] = Unit
AllGood cgi (k ∷ ks) =
    (cgi.getnumentries k ≤ 1) × (value_check (cgi.getentrystr k) ≡ pass) × AllGood cgi ks

scan_keys_step :
    (cgi : Cgi) (k : CString) (ks : List CString) (n m : ℕ)
    → scan_keys cgi (k ∷ ks) n ≡ counted m
    → (cgi.getnumentries k ≤ 1)
      × (value_check (cgi.getentrystr k) ≡ pass)
      × (scan_keys cgi ks (n + cgi.getnumentries k) ≡ counted m)
unfolding scan_keys
scan_keys_step cgi k ks n m e = (
  ground arith,
  ground arith,
  scan_keys_on cgi k ks n (if cgi.getnumentries k == 1 then n + 1 else n) m (ground arith)
      (ground arith),
)
  where
    scan_keys_on :
        (cgi : Cgi) (k : CString) (ks : List CString) (n n' m : ℕ)
        → n' ≡ n + cgi.getnumentries k
        → scan_keys cgi ks n' ≡ counted m
        → scan_keys cgi ks (n + cgi.getnumentries k) ≡ counted m
    scan_keys_on cgi k ks n n' m p e = rw (← p) e

-- The loop stops with an error only.
scan_keys-ne-stopped : (cgi : Cgi) (ks : List CString) (n : ℕ) → scan_keys cgi ks n ≢ stopped pass
unfolding scan_keys
scan_keys-ne-stopped cgi [] n e = cc
scan_keys-ne-stopped cgi (k ∷ ks) n e =
    ground (arith, scan_keys-ne-stopped cgi ks (if cgi.getnumentries k == 1 then n + 1 else n))

scan_keys-counted :
    (cgi : Cgi) (q : Query) (ks : List CString) (n m : ℕ)
    → Answers cgi q
    → Distinct ks
    → scan_keys cgi ks n ≡ counted m
    → (m ≡ n + count_in ks q) × AllGood cgi ks
scan_keys-counted cgi q [] n m a d e = (unfold scan_keys in ground (arith, count_in-nil q), tt)
scan_keys-counted cgi q (k ∷ ks) n m a d e =
    let (l, v, r) = scan_keys_step cgi k ks n m e in
    let (s, g) = scan_keys-counted cgi q ks (n + cgi.getnumentries k) m a d.1 r in
    (omega (arith, count_in-cons k ks q d.0, a.counts k), (l, v, g))

arguments_check_inv :
    (cgi : Cgi) (ks : List CString)
    → arguments_check cgi ks ≡ pass
    → (cgi.num_entries ≤ 7) × (scan_keys cgi ks 0 ≡ counted cgi.num_entries)
unfolding arguments_check
arguments_check_inv cgi ks e = ground (arith, scan_keys-ne-stopped cgi ks 0)

verb_check_inv :
    (cgi : Cgi)
    → verb_check cgi ≡ pass
    → (cgi.getnumentries (codes "verb") ≡ 1)
      × (v : CString) × (cgi.getentrystr (codes "verb") ≡ some v)
      × (is_one_of v valid_verbs ≡ true)
unfolding verb_check
verb_check_inv cgi e = elim (Option-cases (cgi.getentrystr (codes "verb"))) [
  | inl n ↦ absurd (ground arith)
  | inr (v, n) ↦ (ground arith, v, n, ground arith)
]

-- A query that the gateway answers: it has one of the six verbs, once; each of its names is one of
-- the valid keys and stands in it once; and the value of each valid key passes `is_uri`.
pub record IsValidQuery (cgi : Cgi) (ks : List CString) (q : Query) : Type 0 where
  pub verb_once : count_name (codes "verb") q ≡ 1
  pub verb :
      (v : CString) × (first_value (codes "verb") q ≡ some v) × (is_one_of v valid_verbs ≡ true)
  pub bounded : length q ≤ 7
  pub named : AllNamed ks q
  pub good : AllGood cgi ks

-- Where the list has distinct keys and the CGI library answers as its documentation says,
-- `has_valid_keys` passes only a query with one of the six verbs, once, with at most seven names, which
-- are all in the list and stand once each, and with a value that passes `is_uri` for each valid key.
pub has_valid_keys-IsValidQuery :
    (cgi : Cgi) (q : Query) (ks : List CString)
    → Answers cgi q
    → Distinct ks
    → has_valid_keys cgi ks ≡ pass
    → IsValidQuery cgi ks q
unfolding has_valid_keys
has_valid_keys-IsValidQuery cgi q ks a d e =
    let (v, c) : (verb_check cgi ≡ pass) × (arguments_check cgi ks ≡ pass) = ground arith in
    let (n, w, l, o) = verb_check_inv cgi v in
    let (b, s) = arguments_check_inv cgi ks c in
    let (t, g) = scan_keys-counted cgi q ks 0 cgi.num_entries a d s in
    record {
      verb_once = sym (a.counts _) ∙ n;
      verb = (w, sym (a.values _) ∙ l, o);
      bounded = omega (arith, a.entries);
      named = AllNamed-count_in ks q (omega (arith, a.entries));
      good = g;
    }
