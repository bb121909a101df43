-- ===== src/Registry/Later.antt =====
-- src/registry/registry.c: a later request for a url, behind the tests of `process_request`.
use srepod.Prelude.{
  ◌<◌, true, false, Option, some, ◌≡◌, ◌⊎◌, ◌∙◌, inl, inr, refl, arith, ◌>>=◌, Bool-cases, is_nil,
  CString, codes, str_eq, length, str_eq_iff,
}
use srepod.Registry.{is_file, valid_url}
use srepod.Registry.Pending.{check_spool-pending}
use srepod.Registry.Requests.{
  Outcome, request_shown, tmp_dbfile, lock_copy, check_spool, check_registered, check_digest,
  process_request, is_registered, needs_digest, digest_of, or_empty,
}
use srepod.Registry.Store.{Site}
use srepod.Session.{Session, Process, is_locked}
use srepod.Session.Locked.{lock_of}
use srepod.Session.ReadWrite.{IsWord}

confirmed-check_digest :
    (site : Site) (p : Process) (st : Session) (url email md5 : CString)
    → (needs_digest site ≡ false) ⊎ (length md5 ≡ 32) × (md5 ≡ digest_of site url)
    → check_digest site p st url email md5 ≡ check_registered site p st url
unfolding check_digest
confirmed-check_digest site p st url email md5 (inl n) = rw n refl
confirmed-check_digest site p st url email md5 (inr (l, e)) =
    let k : str_eq md5 (digest_of site url) ≡ true = (str_eq_iff md5 (digest_of site url)).1 e in
    elim (Bool-cases (needs_digest site)) [
      | inr n ↦ rw n refl
      | inl n ↦ elim (Bool-cases (is_nil md5)) [
        | inl m ↦ absurd (ground (arith, l, m))
        | inr m ↦ rw (n, m, l, k) refl
      ]
    ]

new-check_spool :
    (site : Site) (p : Process) (st : Session) (url : CString)
    → is_registered site p.disk url ≡ some (some false)
    → check_registered site p st url ≡ check_spool site p st url
unfolding check_registered
new-check_spool site p st url e = rw (check_registered, e, ◌>>=◌) refl

valid-check_digest :
    (site : Site) (p : Process) (st : Session) (query : CString → Option CString)
    → is_nil (or_empty (query (codes "init_url"))) ≡ true
    → valid_url site.behind (or_empty (query (codes "url"))) ≡ some true
    → process_request site p st query
      ≡ check_digest site p st
          (or_empty (query (codes "url")))
          (or_empty (query (codes "email")))
          (or_empty (query (codes "md5")))
unfolding process_request
valid-check_digest site p st query i v = rw i (rw (v, ◌>>=◌) refl)

-- Where neither a lock, nor a database, nor a copy of a lock is in the spool directory, and check_spool
-- takes a url with the status 0, a later request for this url on the disk as it is then is shown, with a
-- refresh, as pending, and leaves the locks and the disk as they are. The later request passes the
-- tests before check_spool: it has no init_url, its url is valid, its digest is right, or none is
-- needed, and its url is not in the configuration. The names of the temporary database and the url are
-- words that fit in their fields, and the name of the lock fits as well.
pub process_request-pending :
    (site v : Site) (p q : Process) (st st' : Session) (url : CString)
    (query : CString → Option CString) (o : Outcome)
    → is_locked site.host p.disk (tmp_dbfile site url) ≡ false
    → is_file p.disk (tmp_dbfile site url) ≡ false
    → is_file p.disk (lock_copy (tmp_dbfile site url)) ≡ false
    → check_spool site p st url ≡ some o
    → o.status ≡ 0
    → length (lock_of site.host (tmp_dbfile site url)) < 1024
    → IsWord (tmp_dbfile site url)
    → IsWord url
    → v.host ≡ site.host
    → q.disk ≡ o.process.disk
    → is_nil (or_empty (query (codes "init_url"))) ≡ true
    → or_empty (query (codes "url")) ≡ url
    → valid_url v.behind url ≡ some true
    → (needs_digest v ≡ false)
      ⊎ (length (or_empty (query (codes "md5"))) ≡ 32)
        × (or_empty (query (codes "md5")) ≡ digest_of v url)
    → is_registered v q.disk url ≡ some (some false)
    → process_request v q st' query
      ≡ request_shown v q true (codes "Processing request : request is pending...please wait...")
process_request-pending site v p q st st' url query o n f c e z l x y h d i u a k g =
    let r = valid-check_digest v q st' query i (rw u a) in
    rw u at r
    ∙ confirmed-check_digest v q st' url (or_empty (query (codes "email")))
        (or_empty (query (codes "md5"))) k
    ∙ new-check_spool v q st' url g
    ∙ check_spool-pending site v p q st st' url o n f c e z l x y h d
