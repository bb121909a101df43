-- ===== src/Registry/Allowed.antt =====
-- src/registry/registry.c: what a request must pass before it changes anything.
use srepod.Prelude.{
  Bool, true, false, ◌&&◌, Option, none, some, ◌≡◌, ◌⊎◌, inl, inr, arith, >>=-eq-some, Bool-cases,
  is_nil, CString, codes, str_eq, length, ◌==◌, str_eq_iff, if◌then◌else◌,
}
use srepod.Registry.{valid_url}
use srepod.Registry.Pages.{cmd_registry, cmd_success, cmd_error}
use srepod.Registry.Requests.{
  Outcome, request_failed, request_shown, check_spool, check_registered, check_digest,
  process_request, is_registered, needs_digest, digest_of, or_empty,
}
use srepod.Registry.Store.{Site}
use srepod.Session.{Session, Process}

-- The url is valid, the digest is that of the secret, the address and the url, if one is needed, and
-- the url is not in the configuration.
pub record IsAllowed (site : Site) (p : Process) (query : CString → Option CString) : Type 0 where
  pub valid : valid_url site.behind (or_empty (query (codes "url"))) ≡ some true
  pub confirmed :
      (needs_digest site ≡ false)
      ⊎ (or_empty (query (codes "md5")) ≡ digest_of site (or_empty (query (codes "url"))))
  pub unregistered : is_registered site p.disk (or_empty (query (codes "url"))) ≡ some (some false)

module _ (site : Site) (p : Process) (o : Outcome) where
  pub request_failed-process : (e : CString) → request_failed site p e ≡ some o → o.process ≡ p
  unfolding request_failed
  request_failed-process e h =
      let (s, _, k) = >>=-eq-some (cmd_error site.pages e) _ h in ground arith

  pub request_shown-process :
      (r : Bool) (t : CString) → request_shown site p r t ≡ some o → o.process ≡ p
  unfolding request_shown
  request_shown-process r t h =
      let (s, _, k) = >>=-eq-some (cmd_success site.pages r t) _ h in ground arith

  -- A url that passes the configuration is not in it.
  check_registered-inv :
      (st : Session) (url : CString)
      → check_registered site p st url ≡ some o
      → (o.process ≡ p) ⊎ (is_registered site p.disk url ≡ some (some false))
  unfolding check_registered
  check_registered-inv st url h =
      let (r, a, k) = >>=-eq-some (is_registered site p.disk url) _ h in by_result r a k
    where
      by_result :
          (r : Option Bool)
          → is_registered site p.disk url ≡ some r
          → elim r [
            | none ↦ request_failed site p (codes "configuration error")
            | some registered ↦
                if registered
                then request_failed site p (codes "static repository already registered!")
                else check_spool site p st url
          ]
            ≡ some o
          → (o.process ≡ p) ⊎ (is_registered site p.disk url ≡ some (some false))
      by_result none a k = inl (request_failed-process _ k)
      by_result (some true) a k = inl (request_failed-process _ k)
      by_result (some false) a k = inr a

  check_digest-inv :
      (st : Session) (url email md5 : CString)
      → check_digest site p st url email md5 ≡ some o
      → (o.process ≡ p)
        ⊎ ((needs_digest site ≡ false) ⊎ (md5 ≡ digest_of site url))
          × (is_registered site p.disk url ≡ some (some false))
  unfolding check_digest
  check_digest-inv st url email md5 h = elim (Bool-cases (needs_digest site)) [
    | inr n ↦ elim (check_registered-inv st url (rw n at h)) [
      | inl q ↦ inl q
      | inr q ↦ inr (inl n, q)
    ]
    | inl n ↦ elim (Bool-cases (is_nil md5)) [
      | inl m ↦ inl (request_shown-process _ _ (rw (n, m) at h))
      | inr m ↦ elim (Bool-cases (length md5 == 32 && str_eq md5 (digest_of site url))) [
        | inr d ↦ inl (request_failed-process _ (rw (n, m, d) at h))
        | inl d ↦ elim (check_registered-inv st url (rw (n, m, d) at h)) [
          | inl q ↦ inl q
          | inr q ↦ inr (inr ((str_eq_iff md5 (digest_of site url)).0 (ground arith)), q)
        ]
      ]
    ]
  ]

-- A request leaves the locks and the disk as they are, unless its url is valid, its digest is that of
-- the secret, the address and the url, or none is needed, and its url is not in the configuration.
pub process_request-IsAllowed :
    (site : Site) (p : Process) (st : Session) (query : CString → Option CString) (o : Outcome)
    → process_request site p st query ≡ some o
    → (o.process ≡ p) ⊎ IsAllowed site p query
unfolding process_request
process_request-IsAllowed site p st query o h =
    elim (Bool-cases (is_nil (or_empty (query (codes "init_url"))))) [
      | inr i ↦
          let (s, _, k) =
            >>=-eq-some
              (cmd_registry site.pages (or_empty (query (codes "init_url")))
                (or_empty (query (codes "init_email"))))
              _ (rw i at h) in
          inl (ground arith)
      | inl i ↦
          let (v, a, k) =
            >>=-eq-some (valid_url site.behind (or_empty (query (codes "url")))) _ (rw i at h) in
          elim (Bool-cases v) [
            | inr n ↦ inl (request_failed-process site p o _ (rw n at k))
            | inl n ↦
                elim (check_digest-inv site p o st (or_empty (query (codes "url")))
                  (or_empty (query (codes "email"))) (or_empty (query (codes "md5"))) (rw n at k)) [
                    | inl q ↦ inl q
                    | inr (c, q) ↦
                        inr (record { valid = rw n at a; confirmed = c; unregistered = q })
                  ]
          ]
    ]
