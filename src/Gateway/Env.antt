-- ===== src/Gateway/Env.antt =====
-- src/gateway.c: `has_secure_env`.
use srepod.Prelude.{
  ℕ, ◌≤◌, Bool, true, false, Option, none, some, if◌then◌else◌, ltb, arith, refl, ◌≡◌, ◌⊎◌, inl,
  inr, CString, codes, str_eq, str_eq_iff, length, Option-cases, ◌∙◌, ap,
}
use srepod.Gateway.Uri.{accepted, rejected, past_end, is_uri}
use srepod.Gateway.{Check, pass, refuse, overread, http_404, Environment}

abbrev pub sec_max_content_length : ℕ
sec_max_content_length = 1024

abbrev pub bad_request : Check
bad_request = refuse http_404 (codes "Bad request")

-- A variable that must be there, and must not be long.
unfoldable pub has_short : Environment → CString → Bool
has_short env name = elim (env name) [
  | none ↦ false
  | some p ↦ if ltb sec_max_content_length (length p) then false else true
]

-- The check of `PATH_INFO`, which need not be there.
unfoldable pub path_info_check : Option CString → Check
path_info_check none = pass
path_info_check (some p) =
    if ltb sec_max_content_length (length p)
    then bad_request
    else elim (is_uri p) [ accepted ↦ pass | rejected ↦ bad_request | past_end ↦ overread ]

unfoldable pub method_check : Environment → CString → Check
method_check env p =
    if ltb 4 (length p)
    then bad_request
    else if str_eq p (codes "GET")
    then if has_short env (codes "QUERY_STRING")
      then path_info_check (env (codes "PATH_INFO"))
      else bad_request
    else if str_eq p (codes "POST")
    then if has_short env (codes "CONTENT_LENGTH")
      then path_info_check (env (codes "PATH_INFO"))
      else bad_request
    else bad_request

unfoldable pub has_secure_env : Environment → Check
has_secure_env env = elim (env (codes "REQUEST_METHOD")) [
  | none ↦ bad_request
  | some p ↦ method_check env p
]

-- A variable that is set, to at most 1024 characters.
abbrev pub IsShort : Environment → CString → Type 0
IsShort env name = (p : CString) × (env name ≡ some p) × (length p ≤ 1024)

-- The environments that the gateway goes on with.
pub record IsSecure (env : Environment) : Type 0 where
  pub method :
      (env (codes "REQUEST_METHOD") ≡ some (codes "GET")) × IsShort env (codes "QUERY_STRING")
      ⊎ (env (codes "REQUEST_METHOD") ≡ some (codes "POST")) × IsShort env (codes "CONTENT_LENGTH")
  pub path :
      (env (codes "PATH_INFO") ≡ none)
      ⊎ ((p : CString) × (env (codes "PATH_INFO") ≡ some p)
          × (length p ≤ 1024)
          × (is_uri p ≡ accepted))

path_lem :
    (o : Option CString)
    → path_info_check o ≡ pass
    → (o ≡ none) ⊎ ((p : CString) × (o ≡ some p) × (length p ≤ 1024) × (is_uri p ≡ accepted))
unfolding path_info_check
path_lem none e = inl refl
path_lem (some p) e = inr (p, refl, ground arith, ground arith)

short_lem : (env : Environment) (name : CString) → has_short env name ≡ true → IsShort env name
unfolding has_short
short_lem env name e = elim (Option-cases (env name)) [
  | inl n ↦ absurd (ground arith)
  | inr (p, n) ↦ (p, n, ground arith)
]

method_lem :
    (env : Environment) (p : CString)
    → method_check env p ≡ pass
    → ((str_eq p (codes "GET") ≡ true) × (has_short env (codes "QUERY_STRING") ≡ true)
        ⊎ (str_eq p (codes "POST") ≡ true) × (has_short env (codes "CONTENT_LENGTH") ≡ true))
      × (path_info_check (env (codes "PATH_INFO")) ≡ pass)
unfolding method_check
method_lem env p e = ground arith

-- `has_secure_env` passes only a GET or a POST request whose query or content length is set and
-- short, and whose path, if it has one, is short and accepted by `is_uri`.
pub has_secure_env-IsSecure : (env : Environment) → has_secure_env env ≡ pass → IsSecure env
has_secure_env-IsSecure env e = elim (Option-cases (env (codes "REQUEST_METHOD"))) [
  | inl n ↦ absurd (unfold has_secure_env in ground arith)
  | inr (p, n) ↦
      let k : method_check env p ≡ pass = unfold has_secure_env in ground arith in
      let (m, q) = method_lem env p k in
      record {
        method = elim m [
          | inl (g, s) ↦ inl (n ∙ ap some ((str_eq_iff p _).0 g), short_lem env _ s)
          | inr (g, s) ↦ inr (n ∙ ap some ((str_eq_iff p _).0 g), short_lem env _ s)
        ];
        path = path_lem (env (codes "PATH_INFO")) q;
      }
]
