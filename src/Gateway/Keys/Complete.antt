-- ===== src/Gateway/Keys/Complete.antt =====
-- src/gateway.c: `has_valid_keys` passes every valid query, and no other.
use srepod.Prelude.{
  ℕ, ◌+◌, ◌≤◌, true, some, List, [], ◌∷◌, if◌then◌else◌, ◌==◌, arith, refl, ap, ◌∙◌, ◌≡◌, ◌↔◌,
  CString, codes, length,
}
use srepod.Gateway.Keys.Query.{
  Query, Answers, count_name, count_in, count_in-cons, count_in-nil, AllNamed,
}
use srepod.Gateway.Keys.Sound.{Distinct, AllGood, IsValidQuery, has_valid_keys-IsValidQuery}
use srepod.Gateway.Keys.{
  Cgi, KeyScan, counted, scan_keys, value_check, verb_check, arguments_check, has_valid_keys,
  is_one_of, valid_verbs,
}
use srepod.Gateway.{pass}

count_in-AllNamed : (ks : List CString) (q : Query) → AllNamed ks q → count_in ks q ≡ length q
unfolding count_in
count_in-AllNamed ks [] a = refl
count_in-AllNamed ks ((n, v) ∷ q) a = let r = count_in-AllNamed ks q a.1 in ground (arith, a.0)

scan_keys-good :
    (cgi : Cgi) (k : CString) (ks : List CString) (n : ℕ) (r : KeyScan)
    → cgi.getnumentries k ≤ 1
    → value_check (cgi.getentrystr k) ≡ pass
    → scan_keys cgi ks (n + cgi.getnumentries k) ≡ r
    → scan_keys cgi (k ∷ ks) n ≡ r
unfolding scan_keys
scan_keys-good cgi k ks n r l v e =
    let c : (if cgi.getnumentries k == 1 then n + 1 else n) ≡ n + cgi.getnumentries k =
      ground arith in
    let s : scan_keys cgi ks (if cgi.getnumentries k == 1 then n + 1 else n) ≡ r =
      ap (scan_keys cgi ks) c ∙ e in
    ground (arith, s, v, l)

scan_keys-AllGood :
    (cgi : Cgi) (q : Query) (ks : List CString) (n : ℕ)
    → Answers cgi q
    → Distinct ks
    → AllGood cgi ks
    → scan_keys cgi ks n ≡ counted (n + count_in ks q)
scan_keys-AllGood cgi q [] n a d g = unfold scan_keys in ap counted (omega (arith, count_in-nil q))
scan_keys-AllGood cgi q (k ∷ ks) n a d g = scan_keys-good cgi k ks n _ g.0 g.1 (
    scan_keys-AllGood cgi q ks (n + cgi.getnumentries k) a d.1 g.2
    ∙ ap counted (omega (arith, count_in-cons k ks q d.0, a.counts k)))

verb_check-pass :
    (cgi : Cgi) (v : CString)
    → cgi.getnumentries (codes "verb") ≡ 1
    → cgi.getentrystr (codes "verb") ≡ some v
    → is_one_of v valid_verbs ≡ true
    → verb_check cgi ≡ pass
unfolding verb_check
verb_check-pass cgi v n e o = rw (n, e) (ground (arith, o))

count_name-le : (k : CString) (q : Query) → count_name k q ≤ length q
unfolding count_name
count_name-le k [] = omega arith
count_name-le k ((n, v) ∷ q) = ground (arith, count_name-le k q)

IsValidQuery-has_valid_keys :
    (cgi : Cgi) (q : Query) (ks : List CString)
    → Answers cgi q
    → Distinct ks
    → IsValidQuery cgi ks q
    → has_valid_keys cgi ks ≡ pass
unfolding has_valid_keys arguments_check
IsValidQuery-has_valid_keys cgi q ks a d i =
    let (w, l, o) = i.verb in
    let v =
      verb_check-pass cgi w (a.counts (codes "verb") ∙ i.verb_once) (a.values (codes "verb") ∙ l)
        o in
    let s : scan_keys cgi ks 0 ≡ counted (length q) =
      scan_keys-AllGood cgi q ks 0 a d i.good
      ∙ ap counted (omega (arith, count_in-AllNamed ks q i.named)) in
    let one : 1 ≤ length q = omega (arith, count_name-le (codes "verb") q, i.verb_once) in
    rw (v, s, a.entries) (ground (arith, i.bounded))

-- Where the list has distinct keys and the CGI library answers as its documentation says,
-- `has_valid_keys` passes exactly the queries with one of the six verbs, once, with at most seven names,
-- which are all in the list, and with one value at most for each valid key, which passes `is_uri`.
pub has_valid_keys_iff :
    (cgi : Cgi) (q : Query) (ks : List CString)
    → Answers cgi q
    → Distinct ks
    → (has_valid_keys cgi ks ≡ pass) ↔ IsValidQuery cgi ks q
has_valid_keys_iff cgi q ks a d =
    (has_valid_keys-IsValidQuery cgi q ks a d, IsValidQuery-has_valid_keys cgi q ks a d)
