-- ===== src/Registry/Terminated.antt =====
-- src/registry/terminator.c: when a request leaves a lock, and what the daemon reads in it.
use srepod.Prelude.{
  ap, ◌∙◌, ◌==◌, ◌&&◌, true, false, Option, none, some, ◌≡◌, ◌⊎◌, inl, inr, arith, >>=-eq-some,
  Bool-cases, Option-cases, is_nil, CString, codes, str_eq, length, str_eq_iff,
}
use srepod.Registry.{valid_url}
use srepod.Registry.Allowed.{request_failed-process, request_shown-process}
use srepod.Registry.Pages.{page_part}
use srepod.Registry.Requests.{Outcome, request_failed, needs_digest, or_empty}
use srepod.Registry.Store.{Site}
use srepod.Registry.Terminator.{
  secdigest, getdbfile, cmd_terminate, lock_database, find_database, check_md5, process_request,
}
use srepod.Session.{Process, create_lock, lock_left, is_locked}
use srepod.Session.Files.{Disk}
use srepod.Session.Locked.{create_lock-is_locked, lock_left-is_locked}

-- The url is valid, the digest is that of the terminator's secret, the address and the url, if one is
-- needed, the url is in the configuration, and its database has no lock.
pub record IsTerminable (site : Site) (p : Process) (query : CString → Option CString)
    : Type 0 where
  pub valid : valid_url site.behind (or_empty (query (codes "url"))) ≡ some true
  pub confirmed :
      (needs_digest site ≡ false)
      ⊎ (or_empty (query (codes "md5")) ≡ secdigest site (or_empty (query (codes "url"))))
  pub dbfile : CString
  pub registered : getdbfile site p.disk (or_empty (query (codes "url"))) ≡ some (some dbfile)
  pub free : is_locked site.host p.disk dbfile ≡ false

module _ (site : Site) (p : Process) (memory : Option CString) (o : Outcome) where
  lock_database-inv :
      (url dbfile : CString)
      → lock_database site p memory url dbfile ≡ some o
      → (o.process ≡ p) ⊎ (is_locked site.host p.disk dbfile ≡ false)
  unfolding lock_database
  lock_database-inv url dbfile h = elim (Bool-cases (is_locked site.host p.disk dbfile)) [
    | inr n ↦ inr n
    | inl l ↦
        let e = create_lock-is_locked site.host site.now p.disk dbfile (or_empty memory) in
        elim (Option-cases (create_lock site.host site.now p.disk dbfile (or_empty memory))) [
          | inl n ↦ inl (
              request_failed-process site (record p { disk = lock_left site.host p.disk dbfile }) o
                _ (rw (n, lock_database) at h)
              ∙ ap (λ (d : Disk). record p { disk = d })
                  (lock_left-is_locked site.host p.disk dbfile l))
          | inr (r, n) ↦ absurd (ground (arith, rw (n, l) at e))
        ]
  ]

  find_database-inv :
      (url : CString)
      → find_database site p memory url ≡ some o
      → (o.process ≡ p)
        ⊎ (dbfile : CString) × (getdbfile site p.disk url ≡ some (some dbfile))
          × (is_locked site.host p.disk dbfile ≡ false)
  unfolding find_database
  find_database-inv url h =
      let (r, a, k) = >>=-eq-some (getdbfile site p.disk url) _ h in by_result r a k
    where
      by_result :
          (r : Option CString)
          → getdbfile site p.disk url ≡ some r
          → elim r [
            | none ↦ request_failed site p (codes "static repository is not registered!")
            | some dbfile ↦ lock_database site p memory url dbfile
          ]
            ≡ some o
          → (o.process ≡ p)
            ⊎ (dbfile : CString) × (getdbfile site p.disk url ≡ some (some dbfile))
              × (is_locked site.host p.disk dbfile ≡ false)
      by_result none a k = inl (request_failed-process site p o _ k)
      by_result (some dbfile) a k = elim (lock_database-inv url dbfile k) [
        | inl q ↦ inl q
        | inr n ↦ inr (dbfile, a, n)
      ]

  check_md5-inv :
      (url md5 : CString)
      → check_md5 site p memory url md5 ≡ some o
      → (o.process ≡ p)
        ⊎ ((needs_digest site ≡ false) ⊎ (md5 ≡ secdigest site url))
          × (dbfile : CString) × (getdbfile site p.disk url ≡ some (some dbfile))
          × (is_locked site.host p.disk dbfile ≡ false)
  unfolding check_md5
  check_md5-inv url md5 h = elim (Bool-cases (needs_digest site)) [
    | inr n ↦ elim (find_database-inv url (rw n at h)) [
      | inl q ↦ inl q
      | inr (f, q, l) ↦ inr (inl n, f, q, l)
    ]
    | inl n ↦ elim (Bool-cases (is_nil md5)) [
      | inl m ↦ inl (request_shown-process site p o _ _ (rw (n, m) at h))
      | inr m ↦ elim (Bool-cases (length md5 == 32 && str_eq md5 (secdigest site url))) [
        | inr d ↦ inl (request_failed-process site p o _ (rw (n, m, d) at h))
        | inl d ↦ elim (find_database-inv url (rw (n, m, d) at h)) [
          | inl q ↦ inl q
          | inr (f, q, l) ↦
              inr (inr ((str_eq_iff md5 (secdigest site url)).0 (ground arith)), f, q, l)
        ]
      ]
    ]
  ]

  cmd_terminate-process :
      (html : Option CString) (url : CString)
      → cmd_terminate site p html url ≡ some o
      → o.process ≡ p
  unfolding cmd_terminate
  cmd_terminate-process html url h =
      let (s, _, k) = >>=-eq-some (page_part html _) _ h in ground arith

-- A request to terminate leaves the locks and the disk as they are, unless its url is valid, its
-- digest is that of the secret, the address and the url, or none is needed, its url is in the
-- configuration, and the database that it has there has no lock.
pub process_request-IsTerminable :
    (site : Site) (p : Process) (html memory : Option CString) (query : CString → Option CString)
    (o : Outcome)
    → process_request site p html memory query ≡ some o
    → (o.process ≡ p) ⊎ IsTerminable site p query
unfolding process_request
process_request-IsTerminable site p html memory query o h =
    elim (Bool-cases (is_nil (or_empty (query (codes "url"))))) [
      | inl i ↦ inl (cmd_terminate-process site p memory o html _ (rw i at h))
      | inr i ↦
          let (v, a, k) =
            >>=-eq-some (valid_url site.behind (or_empty (query (codes "url")))) _ (rw i at h) in
          elim (Bool-cases v) [
            | inr n ↦ inl (request_failed-process site p o _ (rw n at k))
            | inl n ↦
                elim (check_md5-inv site p memory o (or_empty (query (codes "url")))
                  (or_empty (query (codes "md5"))) (rw n at k)) [
                    | inl q ↦ inl q
                    | inr (c, dbfile, q, f) ↦ inr (record {
                      valid = rw n at a;
                      confirmed = c;
                      dbfile = dbfile;
                      registered = q;
                      free = f;
                    })
                  ]
          ]
    ]
