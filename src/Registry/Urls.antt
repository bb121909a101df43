-- ===== src/Registry/Urls.antt =====
-- src/registry/registry.c: which urls `valid_url` accepts, and what `substr` reads to find out.
use srepod.Prelude.{
  ℕ, zero, suc, ◌+◌, ◌-◌, ◌≤◌, Bool, true, false, ◌&&◌, none, some, List, [], ◌∷◌, ◌++◌, ◌≡◌, ◌↔◌,
  ◌==◌, inl, inr, refl, arith, ◌∙◌, ap, ◌>>=◌, CString, codes, starts_with, length, drop, take,
  Bool-cases, >>=-eq-some,
}
use srepod.Registry.{copy_from, string_of, substr, all_url_chars, valid_url}

-- No byte of a string is its NUL.
abbrev pub IsString : CString → Type 0
IsString [] = Unit
IsString (c ∷ s) = (c == 0 ≡ false) × IsString s

drop-IsString : (n : ℕ) (s : CString) → IsString s → IsString (drop n s)
drop-IsString zero s a = a
drop-IsString (suc n) [] a = tt
drop-IsString (suc n) (c ∷ s) a = drop-IsString n s a.1

drop-append : (n : ℕ) (s t : CString) → n ≤ length s → drop n (s ++ t) ≡ drop n s ++ t
drop-append zero s t l = refl
drop-append (suc n) [] t l = absurd (omega arith)
drop-append (suc n) (c ∷ s) t l = drop-append n s t (omega arith)

string_of-zeros : (m p : List ℕ) → copy_from 0 m ≡ some p → string_of p ≡ []
unfolding copy_from string_of
string_of-zeros [] p e = absurd (cc)
string_of-zeros (c ∷ m) p e = elim (Bool-cases (c == 0)) [
  | inl k ↦
      let (q, a, b) = >>=-eq-some (copy_from 0 m) _ (rw k at e) in
      let n : p ≡ c ∷ q = ground arith in rw (n, k) refl
  | inr k ↦ let n : p ≡ [] = ground arith in rw n refl
]

string_of-copy_from :
    (l : ℕ) (s m p : List ℕ)
    → IsString s
    → l ≤ length s
    → copy_from l (s ++ m) ≡ some p
    → string_of p ≡ take l s
unfolding copy_from string_of
string_of-copy_from zero s m p a l e = string_of-zeros (s ++ m) p e
string_of-copy_from (suc n) [] m p a l e = absurd (omega arith)
string_of-copy_from (suc n) (c ∷ s) m p a l e =
    let (q, b, d) = >>=-eq-some (copy_from n (s ++ m)) _ e in
    let k : p ≡ c ∷ q = ground arith in
    rw (k, a.0) (ap (◌∷◌ c) (string_of-copy_from n s m q a.1 (omega arith) b))

-- `substr` up to the end of a string reads past its NUL: where that is the last byte of the memory,
-- there is no result.
copy_from-end : (s : List ℕ) → IsString s → copy_from (length s) (s ++ 0 ∷ []) ≡ none
unfolding copy_from
copy_from-end [] a = refl
copy_from-end (c ∷ s) a = rw (copy_from-end s a.1, ◌>>=◌) refl

length-drop : (n : ℕ) (s : CString) → length (drop n s) ≡ length s - n
length-drop zero s = omega arith
length-drop (suc n) [] = omega arith
length-drop (suc n) (c ∷ s) = omega (arith, length-drop n s)

starts_with-length : (s p : CString) → starts_with s p ≡ true → length p ≤ length s
unfolding starts_with
starts_with-length s [] e = omega arith
starts_with-length [] (b ∷ p) e = absurd (cc)
starts_with-length (a ∷ s) (b ∷ p) e =
    let k : starts_with s p ≡ true = ground arith in omega (arith, starts_with-length s p k)

starts_with-take :
    (n : ℕ) (s p : CString) → length p ≤ n → starts_with (take n s) p ≡ starts_with s p
unfolding starts_with
starts_with-take n s [] l = refl
starts_with-take zero s (b ∷ p) l = absurd (omega arith)
starts_with-take (suc n) [] (b ∷ p) l = refl
starts_with-take (suc n) (a ∷ s) (b ∷ p) l =
    ap (◌&&◌ (a == b)) (starts_with-take n s p (omega arith))

-- What `substr` finds is what stands there in the string.
substr_lem :
    (behind : List ℕ) (url p : CString) (start l : ℕ)
    → IsString url
    → start + l ≤ length url
    → substr behind url start l ≡ some p
    → p ≡ take l (drop start url)
unfolding substr
substr_lem behind url p start l a k e =
    let (q, b, c) = >>=-eq-some (copy_from l (drop start (url ++ 0 ∷ behind))) _ e in
    let d : copy_from l (drop start url ++ 0 ∷ behind) ≡ some q =
      rw (drop-append start url (0 ∷ behind) (omega arith)) at b in
    let n : p ≡ string_of q = ground arith in
    n
    ∙ string_of-copy_from l (drop start url) (0 ∷ behind) q (drop-IsString start url a)
        (omega (arith, length-drop start url)) d

-- Where `valid_url` returns, it accepts exactly the strings that begin with http://, of which the last
-- four characters are .xml, and that have no character but those it allows.
pub valid_url_iff :
    (behind : List ℕ) (url : CString) (b : Bool)
    → IsString url
    → valid_url behind url ≡ some b
    → (b ≡ true) ↔ (
        (starts_with url (codes "http://") ≡ true)
        × (starts_with (drop (length url - 4) url) (codes ".xml") ≡ true)
        × (all_url_chars url ≡ true))
unfolding valid_url
valid_url_iff behind url b a e = elim (Bool-cases (starts_with url (codes "http://"))) [
  | inr k ↦
      let n : false ≡ b = ground arith in ((λ x. absurd (cc)), (λ x. absurd (ground (arith, x.0))))
  | inl k ↦
      let (p, f, g) = >>=-eq-some (substr behind url (length url - 4) 4) _ (rw k at e) in
      let l = starts_with-length url (codes "http://") k in
      let n = substr_lem behind url p (length url - 4) 4 a (omega (arith, l)) f in
      let h : starts_with p (codes ".xml")
          ≡ starts_with (drop (length url - 4) url) (codes ".xml") =
        rw n (starts_with-take 4 (drop (length url - 4) url) (codes ".xml") (omega arith)) in
      ((λ x. (k, ground arith, ground arith)), (λ x. ground (arith, x.1, x.2)))
]

-- Where the NUL of a url that begins with http:// is the last byte of the memory, `valid_url` reads past
-- it, for `substr` does not stop at a NUL but goes on behind one.
pub valid_url-past_end :
    (url : CString)
    → IsString url
    → starts_with url (codes "http://") ≡ true
    → valid_url [] url ≡ none
unfolding valid_url substr
valid_url-past_end url a k =
    let l = starts_with-length url (codes "http://") k in
    let s = drop (length url - 4) url in
    let four : length s ≡ 4 = length-drop (length url - 4) url ∙ omega (arith, l) in
    let end : copy_from 4 (s ++ 0 ∷ []) ≡ none =
      rw four at (copy_from-end s (drop-IsString (length url - 4) url a)) in
    rw (k, drop-append (length url - 4) url (0 ∷ []) (omega arith)) (rw (end, ◌>>=◌) refl)
