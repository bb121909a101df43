-- ===== src/HttpHead/Fields.antt =====
-- src/oai-gdbm/http_head.c: which fields the lines of an answer fill.
use srepod.HttpHead.Callback.{IsUnset, parse_header-IsUnset, parse_header-status}
use srepod.HttpHead.{
  HeadStruct, Line, Parsed, handled, aborted, out_of_bounds, is_minus_one, init_header,
  max_head_size, parse_header, status_line, scan_status, perform, simple_header, max_url_length,
}
use mathlib.Core.Path.{subst}
use srepod.Prelude.{
  ℕ, ◌+◌, ◌/◌, ◌%◌, ◌≤◌, ◌<◌, Bool, true, false, ◌||◌, Option, none, some, List, [], ◌∷◌, ◌++◌, ◌≡◌,
  ◌∙◌, refl, arith, Option-cases, Bool-cases, inl, inr, leb, pos, CString, codes, length,
  starts_with, scan_run, scan_int, skip_space, is_space, digits_value,
}

-- What one call of the callback comes to, as the loop sees it.
perform-cases :
    (hs r : HeadStruct) (line : Line) (lines : List Line)
    → perform hs (line ∷ lines) ≡ some (some r)
    → (hs' : HeadStruct) × (b : List ℕ) × (parse_header line.behind line.text hs ≡ handled hs' b)
      × (perform hs' lines ≡ some (some r))
unfolding perform
perform-cases hs r line lines e = by_result (parse_header line.behind line.text hs) refl e
  where
    by_result :
        (o : Parsed)
        → parse_header line.behind line.text hs ≡ o
        → elim o [ out_of_bounds ↦ none | aborted _ _ ↦ some none | handled h _ ↦ perform h lines ]
          ≡ some (some r)
        → (hs' : HeadStruct) × (b : List ℕ) × (parse_header line.behind line.text hs
            ≡ handled hs' b)
          × (perform hs' lines ≡ some (some r))
    by_result out_of_bounds q k = absurd (ground arith)
    by_result (aborted h b) q k = absurd (ground arith)
    by_result (handled h b) q k = (h, b, q, k)

perform-IsUnset :
    (hs r : HeadStruct) (lines : List Line)
    → IsUnset hs
    → perform hs lines ≡ some (some r)
    → IsUnset r
unfolding perform
perform-IsUnset hs r [] u e = let q : hs ≡ r = cc in subst IsUnset q u
perform-IsUnset hs r (line ∷ lines) u e =
    let (hs', b, p, k) = perform-cases hs r line lines e in
    perform-IsUnset hs' r lines (parse_header-IsUnset line.behind line.text b hs hs' u p) k

perform-status :
    (hs r : HeadStruct) (lines : List Line)
    → is_minus_one hs.status_code ≡ false
    → perform hs lines ≡ some (some r)
    → r.status_code ≡ hs.status_code
unfolding perform
perform-status hs r [] n e = let q : hs ≡ r = cc in rw (← q)
perform-status hs r (line ∷ lines) n e =
    let (hs', b, p, k) = perform-cases hs r line lines e in
    let s = parse_header-status line.behind line.text b hs hs' n p in
    perform-status hs' r lines (rw s n) k ∙ s

simple_header-perform :
    (request : CString → CString → Option (List Line)) (suffix url t : CString) (hs : HeadStruct)
    → simple_header request suffix url t ≡ some (some hs)
    → (lines : List Line) × (request (url ++ suffix) (codes "If-Modified-Since: " ++ t)
        ≡ some lines)
      × (perform init_header lines ≡ some (some hs))
unfolding simple_header
simple_header-perform request suffix url t hs e =
    let since : CString = codes "If-Modified-Since: " ++ t in
    let out : Bool =
      leb max_url_length (length (url ++ suffix)) || leb max_url_length (length since) in
    elim (Bool-cases out) [
      | inl o ↦ absurd (let k : none ≡ some (some hs) = rw o at e in cc)
      | inr o ↦ elim (Option-cases (request (url ++ suffix) since)) [
        | inl n ↦ absurd (let k : some none ≡ some (some hs) = rw n at (rw o at e) in ground arith)
        | inr (lines, n) ↦ (lines, n, rw n at (rw o at e))
      ]
    ]

-- The time, the proxies and the encoding that a server sends are never read: whatever it answers, the
-- fields last_modified, via and content_encoding are null behind simple_header.
pub simple_header-IsUnset :
    (request : CString → CString → Option (List Line)) (suffix url t : CString) (hs : HeadStruct)
    → simple_header request suffix url t ≡ some (some hs)
    → IsUnset hs
unfolding init_header
simple_header-IsUnset request suffix url t hs e =
    let (lines, a, k) = simple_header-perform request suffix url t hs e in
    perform-IsUnset init_header hs lines
      (record { no_last_modified = refl; no_via = refl; no_content_encoding = refl }) k

abbrev digit : ℕ → ℕ
digit n = b'0' + n % 10

-- A status line of HTTP/1.1.
abbrev pub reply_line : ℕ → CString → List ℕ
reply_line n reason =
    codes "HTTP/1.1 " ++ (digit (n / 100) ∷ digit (n / 10) ∷ digit n ∷ b' ' ∷ reason)

status_line-reply_line :
    (behind : List ℕ) (n : ℕ) (reason : CString) (hs : HeadStruct)
    → n < 1000
    → length (reply_line n reason) ≤ max_head_size
    → is_minus_one hs.status_code ≡ true
    → parse_header behind (reply_line n reason) hs
      ≡ handled (record hs { status_code = pos n }) (reply_line n reason ++ behind)
unfolding parse_header status_line scan_status scan_int skip_space is_space scan_run digits_value
    starts_with
status_line-reply_line behind n reason hs l m k = ground (arith, k)

-- Where the first line of an answer is a status line of HTTP/1.1 with three digits, and not too long,
-- the status that simple_header leaves is its number, whatever lines follow, other status lines
-- included.
pub simple_header-status :
    (request : CString → CString → Option (List Line)) (suffix url t : CString) (hs : HeadStruct)
    (behind : List ℕ) (lines : List Line) (n : ℕ) (reason : CString)
    → simple_header request suffix url t ≡ some (some hs)
    → request (url ++ suffix) (codes "If-Modified-Since: " ++ t)
      ≡ some (record { text = reply_line n reason; behind = behind } ∷ lines)
    → n < 1000
    → length (reply_line n reason) ≤ max_head_size
    → hs.status_code ≡ pos n
unfolding init_header
simple_header-status request suffix url t hs behind lines n reason e r l m =
    let (all, a, k) = simple_header-perform request suffix url t hs e in
    let first : Line = record { text = reply_line n reason; behind = behind } in
    let q : all ≡ first ∷ lines = cc in
    let (hs', b, p, j) = perform-cases init_header hs first lines (rw q at k) in
    let s = status_line-reply_line behind n reason init_header l m refl in
    let c : hs'.status_code ≡ pos n = ground (arith, s, p) in
    perform-status hs' hs lines (rw c) j ∙ c
