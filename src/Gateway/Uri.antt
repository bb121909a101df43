-- ===== src/Gateway/Uri.antt =====
-- src/gateway.c: `is_uri`.
use mathlib.Core.Path.{subst}
use srepod.Prelude.{
  ℕ, Bool, true, false, ◌&&◌, ◌||◌, [], ◌∷◌, ◌==◌, if◌then◌else◌, arith, refl, ◌≡◌, ◌⊎◌, inl, inr,
  ◌↔◌, ◌∙◌, Bool-cases, ◌≢◌, ==_iff, CString, codes,
}

-- `index(set, c) != NULL`, for a character other than NUL
unfoldable pub index : CString → ℕ → Bool
index [] c = false
index (d ∷ set) c = d == c || index set c

abbrev reserved : CString
reserved = codes ";/?:@&=+$,"

abbrev mark : CString
mark = codes "-_.!~*'()"

abbrev alphanum : CString
alphanum = codes "abcdefghijklmnopqrstuvwyxzABCDEFGHIJKLMNOPQRSTUVWXYZ0123456789"

unfoldable pub is_hex : ℕ → Bool
unfolding index
is_hex = index (codes "0123456789ABCDEF")

unfoldable pub is_legal : ℕ → Bool
unfolding index
is_legal c = index reserved c || index mark c || index alphanum c

-- What a run of `is_uri` comes to: it returns 0, it returns -1, or it reads past the end.
pub data UriResult : Type 0 where
  accepted rejected past_end : UriResult

-- The body of the loop and its test, with `p` at the head of the string. The terminating NUL is found
-- by `index` in every set, and so is legal, also as the second digit of an escape; as the first one
-- it makes the code read on behind it.
unfoldable pub uri_rest : CString → UriResult
uri_rest [] = accepted
uri_rest (c ∷ []) = if is_legal c then accepted else if c == b'%' then past_end else rejected
uri_rest (c ∷ a ∷ []) =
    let next = uri_rest (a ∷ []) in
    if is_legal c then next else if c == b'%' && is_hex a then accepted else rejected
uri_rest (c ∷ a ∷ b ∷ s) =
    let next = uri_rest (a ∷ b ∷ s) in
    let behind = uri_rest s in
    if is_legal c then next else if c == b'%' && is_hex a && is_hex b then behind else rejected

-- `while (*p++)` steps over the first character before the body looks at one.
unfoldable pub is_uri : CString → UriResult
is_uri [] = accepted
is_uri (c ∷ s) = uri_rest s

-- The strings that `uri_rest` accepts: legal characters and escapes, of which one at the end may lack
-- its second digit.
pub data IsUriRest : CString → Type 0 where
  nil : IsUriRest []
  legal : {c : ℕ} {s : CString} → is_legal c ≡ true → IsUriRest s → IsUriRest (c ∷ s)
  escape :
      {c a b : ℕ} {s : CString}
      → c ≡ b'%'
      → is_hex a ≡ true
      → is_hex b ≡ true
      → IsUriRest s
      → IsUriRest (c ∷ a ∷ b ∷ s)
  cut_escape : {c a : ℕ} → c ≡ b'%' → is_hex a ≡ true → IsUriRest (c ∷ a ∷ [])

percent-is_legal : {c : ℕ} → c ≡ b'%' → is_legal c ≡ false
percent-is_legal e = rw e (unfold is_legal in refl)

escape_inv :
    (p x y : Bool) (behind r : UriResult)
    → (if p && x && y then behind else rejected) ≡ r
    → r ≢ rejected
    → (p ≡ true) × (x ≡ true) × (y ≡ true) × (behind ≡ r)
escape_inv p x y behind r e n = ground arith

-- What an escape that is no end does.
uri_rest-escape_inv :
    (c a b : ℕ) (s : CString) (r : UriResult)
    → is_legal c ≡ false
    → uri_rest (c ∷ a ∷ b ∷ s) ≡ r
    → r ≢ rejected
    → (c ≡ b'%') × (is_hex a ≡ true) × (is_hex b ≡ true) × (uri_rest s ≡ r)
unfolding uri_rest
uri_rest-escape_inv c a b s r h e n =
    let (p, x, y, k) = escape_inv (c == b'%') (is_hex a) (is_hex b) (uri_rest s) r (rw h at e) n in
    ((==_iff c b'%').0 p, x, y, k)

uri_rest-IsUriRest : (s : CString) → uri_rest s ≡ accepted → IsUriRest s
unfolding uri_rest
uri_rest-IsUriRest [] e = nil
uri_rest-IsUriRest (c ∷ []) e = elim (Bool-cases (is_legal c)) [
  | inl h ↦ legal h nil
  | inr h ↦ absurd (ground arith)
]
uri_rest-IsUriRest (c ∷ a ∷ []) e = elim (Bool-cases (is_legal c)) [
  | inl h ↦ legal h (uri_rest-IsUriRest (a ∷ []) (ground arith))
  | inr h ↦ cut_escape (ground arith) (ground arith)
]
uri_rest-IsUriRest (c ∷ a ∷ b ∷ s) e = elim (Bool-cases (is_legal c)) [
  | inl h ↦ legal h (uri_rest-IsUriRest (a ∷ b ∷ s) (ground arith))
  | inr h ↦
      let (p, x, y, k) = uri_rest-escape_inv c a b s accepted h e (λ q. cc) in
      escape p x y (uri_rest-IsUriRest s k)
]

uri_rest-legal : (c : ℕ) (s : CString) → is_legal c ≡ true → uri_rest (c ∷ s) ≡ uri_rest s
unfolding uri_rest
uri_rest-legal c [] h = ground arith
uri_rest-legal c (a ∷ []) h = ground arith
uri_rest-legal c (a ∷ b ∷ s) h = ground arith

IsUriRest-uri_rest : {s : CString} → IsUriRest s → uri_rest s ≡ accepted
unfolding uri_rest
IsUriRest-uri_rest nil = refl
IsUriRest-uri_rest (legal {c} {s} h t) = uri_rest-legal c s h ∙ IsUriRest-uri_rest t
IsUriRest-uri_rest (escape e h k t) = rw (percent-is_legal e) (ground (arith, IsUriRest-uri_rest t))
IsUriRest-uri_rest (cut_escape e h) = rw (percent-is_legal e) (ground arith)

-- `is_uri` accepts exactly the strings of which all but the first character are legal characters and
-- escapes, an escape at the end with one digit at least. The first character is anything.
pub is_uri_iff :
    (s : CString)
    → (is_uri s ≡ accepted) ↔ (s ≡ [] ⊎ (c : ℕ) × (t : CString) × (s ≡ c ∷ t) × IsUriRest t)
unfolding is_uri
is_uri_iff [] = ((λ _. inl refl), (λ _. refl))
is_uri_iff (c ∷ s) = (
  (λ e. inr (c, s, refl, uri_rest-IsUriRest s e)),
  elim [ inl e ↦ cc | inr (d, t, e, u) ↦ IsUriRest-uri_rest (subst IsUriRest (cc) u) ],
)

-- Where the loop runs off the end: a lone `%` behind characters that it accepts.
pub data EndsInPercent : CString → Type 0 where
  here : {c : ℕ} → c ≡ b'%' → EndsInPercent (c ∷ [])
  legal : {c : ℕ} {s : CString} → is_legal c ≡ true → EndsInPercent s → EndsInPercent (c ∷ s)
  escape :
      {c a b : ℕ} {s : CString}
      → c ≡ b'%'
      → is_hex a ≡ true
      → is_hex b ≡ true
      → EndsInPercent s
      → EndsInPercent (c ∷ a ∷ b ∷ s)

EndsInPercent-uri_rest : {s : CString} → EndsInPercent s → uri_rest s ≡ past_end
unfolding uri_rest
EndsInPercent-uri_rest (here e) = rw (percent-is_legal e) (ground arith)
EndsInPercent-uri_rest (EndsInPercent.legal {c} {s} h t) =
    uri_rest-legal c s h ∙ EndsInPercent-uri_rest t
EndsInPercent-uri_rest (EndsInPercent.escape e h k t) =
    rw (percent-is_legal e) (ground (arith, EndsInPercent-uri_rest t))

uri_rest-EndsInPercent : (s : CString) → uri_rest s ≡ past_end → EndsInPercent s
unfolding uri_rest
uri_rest-EndsInPercent [] e = absurd (cc)
uri_rest-EndsInPercent (c ∷ []) e = here (ground arith)
uri_rest-EndsInPercent (c ∷ a ∷ []) e =
    EndsInPercent.legal (ground arith) (uri_rest-EndsInPercent (a ∷ []) (ground arith))
uri_rest-EndsInPercent (c ∷ a ∷ b ∷ s) e = elim (Bool-cases (is_legal c)) [
  | inl h ↦ EndsInPercent.legal h (uri_rest-EndsInPercent (a ∷ b ∷ s) (ground arith))
  | inr h ↦
      let (p, x, y, k) = uri_rest-escape_inv c a b s past_end h e (λ q. cc) in
      EndsInPercent.escape p x y (uri_rest-EndsInPercent s k)
]

-- `is_uri` reads past the end of its argument exactly when what follows the first character is
-- accepted up to a lone `%` at the end.
pub is_uri-past_end_iff : (c : ℕ) (s : CString) → (is_uri (c ∷ s) ≡ past_end) ↔ EndsInPercent s
unfolding is_uri
is_uri-past_end_iff c s = (uri_rest-EndsInPercent s, EndsInPercent-uri_rest)
