-- ===== src/Registry/Pending.antt =====
-- src/registry/registry.c: a request that has been taken is shown as pending.
use srepod.Prelude.{
  ℕ, zero, suc, ◌<◌, ◌≤◌, Bool, true, false, some, [], ◌∷◌, take, ◌≡◌, refl, arith, ◌>>=◌, ◌∙◌, ap,
  inl, inr, >>=-eq-some, Option-cases, CString, codes, length, str_eq_refl,
}
use srepod.HashTable.{hash_del}
use srepod.Registry.{is_file, lockstatus}
use srepod.Registry.Allowed.{request_shown-process}
use srepod.Registry.Pages.{cmd_error}
use srepod.Registry.Requests.{
  Outcome, request_failed, request_shown, show_status, status_page, lock_copy, tmp_dbfile,
  link_copy, ask_daemon, check_spool,
}
use srepod.Registry.Status.{lockstatus-create_lock}
use srepod.Registry.Store.{Site}
use srepod.Session.Files.{Disk, find_name, link_path, open_excl}
use srepod.Session.Locked.{lock_of, is_locked-create_lock, create_lock-new_lock}
use srepod.Session.ReadWrite.{IsWord}
use srepod.Session.{
  Host, Session, Process, create_lock, new_lock, lock_left, is_locked, close_lock, open_lock,
  fopen_lock, read_lock, clip,
}

link_path-inv :
    (d d' : Disk) (old new : CString)
    → link_path d old new ≡ some d'
    → (i : ℕ) × (find_name old d.names ≡ some i) × (d' ≡ record d { names = (new, i) ∷ d.names })
unfolding link_path
link_path-inv d d' old new e =
    let (i, a, k) = >>=-eq-some (find_name old d.names) _ e in (i, a, ground arith)

-- Another name of a file changes nothing for its first name.
find_name-link_path :
    (d d' : Disk) (old new : CString)
    → link_path d old new ≡ some d'
    → find_name old d'.names ≡ find_name old d.names
unfolding find_name
find_name-link_path d d' old new e = let (i, a, k) = link_path-inv d d' old new e in ground arith

files-link_path :
    (d d' : Disk) (old new : CString) → link_path d old new ≡ some d' → d'.files ≡ d.files
files-link_path d d' old new e = let (i, a, k) = link_path-inv d d' old new e in ground arith

pub close_lock-disk : (p p' : Process) (st : Session) → close_lock p st ≡ some p' → p'.disk ≡ p.disk
unfolding close_lock
close_lock-disk p p' st e =
    let (h, a, k) = >>=-eq-some (hash_del p.lock_hash st.lockfile) _ e in ground arith

-- What a registry that takes a request leaves: a lock, and the copy of it.
pub record IsTaken (site : Site) (p q : Process) (url dbfile : CString) : Type 0 where
  pub lock : Session
  pub disk : Disk
  pub created : create_lock site.host site.now p.disk dbfile url ≡ some (lock, disk)
  pub linked : link_path disk lock.lockfile (lock_copy dbfile) ≡ some q.disk

request_failed-status :
    (site : Site) (p : Process) (e : CString) (o : Outcome)
    → request_failed site p e ≡ some o
    → o.status ≡ 1
unfolding request_failed
request_failed-status site p e o h =
    let (s, _, k) = >>=-eq-some (cmd_error site.pages e) _ h in ground arith

ask_daemon-IsTaken :
    (site : Site) (p : Process) (url dbfile : CString) (o : Outcome)
    → ask_daemon site p url dbfile ≡ some o
    → o.status ≡ 0
    → IsTaken site p o.process url dbfile
unfolding ask_daemon link_copy
ask_daemon-IsTaken site p url dbfile o e z =
    elim (Option-cases (create_lock site.host site.now p.disk dbfile url)) [
      | inl n ↦ absurd (
          omega (
            arith,
            request_failed-status site (record p { disk = lock_left site.host p.disk dbfile })
                (codes "url is locked") o (rw (n, ask_daemon) at e),
            z,
          ))
      | inr ((lock, d), n) ↦ elim (Option-cases (link_path d lock.lockfile (lock_copy dbfile))) [
        | inl m ↦ absurd (
            omega (
              arith,
              request_failed-status site (record p { disk = d }) (codes "configuration error") o
                  (rw (m, link_copy) at (rw (n, ask_daemon) at e)),
              z,
            ))
        | inr (d', m) ↦
            let (p', a, k) =
              >>=-eq-some (close_lock (record p { disk = d' }) lock) _
                (rw (m, link_copy) at (rw (n, ask_daemon) at e)) in
            let l =
              request_shown-process site p' o true (codes "Processing request : please wait ...")
                k in
            let c = close_lock-disk (record p { disk = d' }) p' lock a in
            let q : o.process.disk ≡ d' = ap (λ (x : Process). x.disk) l ∙ c in
            record { lock = lock; disk = d; created = n; linked = rw q m }
      ]
    ]

pub take-all : (n : ℕ) (s : CString) → length s ≤ n → take n s ≡ s
take-all zero [] l = refl
take-all zero (c ∷ s) l = absurd (omega arith)
take-all (suc n) [] l = refl
take-all (suc n) (c ∷ s) l = ap (◌∷◌ c) (take-all n s (omega arith))

create_lock-lockfile :
    (host : Host) (now : ℕ) (d d' : Disk) (dbfile url : CString) (st : Session)
    → create_lock host now d dbfile url ≡ some (st, d')
    → st.lockfile ≡ clip (lock_of host dbfile)
unfolding new_lock
create_lock-lockfile host now d d' dbfile url st e =
    let (o, a, k) =
      >>=-eq-some (open_excl d (lock_of host dbfile)) _
        (create_lock-new_lock host now d dbfile url e) in
    ground arith

-- A status is read from the file that the name of the lock has.
lockstatus-same :
    (host : Host) (d d' : Disk) (dorefresh : Bool) (st : Session) (key : CString)
    → find_name (lock_of host key) d'.names ≡ find_name (lock_of host key) d.names
    → d'.files ≡ d.files
    → lockstatus host d' dorefresh st key ≡ lockstatus host d dorefresh st key
unfolding lockstatus open_lock fopen_lock read_lock
lockstatus-same host d d' dorefresh st key e f =
    elim (Option-cases (find_name (lock_of host key) d.names)) [
      | inl n ↦ let m = e ∙ n in ground (arith, n, m)
      | inr (i, n) ↦ let m = e ∙ n in ground (arith, n, m)
    ]

module _ (site : Site) (p q : Process) (url dbfile : CString) (t : IsTaken site p q url dbfile)
    (short : length (lock_of site.host dbfile) < 1024) where
  lockfile : t.lock.lockfile ≡ lock_of site.host dbfile
  lockfile =
      create_lock-lockfile site.host site.now p.disk t.disk dbfile url t.lock t.created
      ∙ take-all 1023 (lock_of site.host dbfile) (omega arith)

  -- The lock is found as it was before the copy was linked to it.
  same_lock :
      find_name (lock_of site.host dbfile) q.disk.names
      ≡ find_name (lock_of site.host dbfile) t.disk.names
  same_lock =
      rw lockfile at (find_name-link_path t.disk q.disk t.lock.lockfile (lock_copy dbfile) t.linked)

  taken-is_locked : is_locked site.host q.disk dbfile ≡ true
  unfolding is_locked
  taken-is_locked = rw same_lock (
      is_locked-create_lock site.host site.now p.disk dbfile url dbfile t.created
      ∙ rw (str_eq_refl (lock_of site.host dbfile)))

  taken-lockstatus :
      (dorefresh : Bool) (st : Session)
      → IsWord dbfile
      → IsWord url
      → lockstatus site.host q.disk dorefresh st dbfile
        ≡ some (true, some (codes "request is pending...please wait..."))
  taken-lockstatus dorefresh st x y =
      lockstatus-same site.host t.disk q.disk dorefresh st dbfile same_lock
        (files-link_path t.disk q.disk t.lock.lockfile (lock_copy dbfile) t.linked)
      ∙ lockstatus-create_lock site.host site.now p.disk t.disk dorefresh dbfile url t.lock st
          t.created x y

-- Where neither a lock, nor a database, nor a copy of a lock is in the spool directory, and check_spool
-- takes a url with the status 0, a later check_spool of it on the disk as it is then shows it, with a
-- refresh, as pending, and leaves the locks and the disk as they are. The names of the temporary
-- database and the url are words that fit in their fields, and the name of the lock fits as well.
pub check_spool-pending :
    (site v : Site) (p q : Process) (st st' : Session) (url : CString) (o : Outcome)
    → is_locked site.host p.disk (tmp_dbfile site url) ≡ false
    → is_file p.disk (tmp_dbfile site url) ≡ false
    → is_file p.disk (lock_copy (tmp_dbfile site url)) ≡ false
    → check_spool site p st url ≡ some o
    → o.status ≡ 0
    → length (lock_of site.host (tmp_dbfile site url)) < 1024
    → IsWord (tmp_dbfile site url)
    → IsWord url
    → v.host ≡ site.host
    → q.disk ≡ o.process.disk
    → check_spool v q st' url
      ≡ request_shown v q true (codes "Processing request : request is pending...please wait...")
unfolding check_spool show_status status_page tmp_dbfile
check_spool-pending site v p q st st' url o n f c e z l x y h d =
    let dbfile : CString = tmp_dbfile site url in
    let t : IsTaken site p o.process url dbfile =
      ask_daemon-IsTaken site p url dbfile o (rw (n, f, c) at e) z in
    let a : is_locked v.host q.disk dbfile ≡ true =
      rw (h, d) (taken-is_locked site p o.process url dbfile t l) in
    let b : lockstatus v.host q.disk false st' dbfile
        ≡ some (true, some (codes "request is pending...please wait...")) =
      rw (h, d) (taken-lockstatus site p o.process url dbfile t l false st' x y) in
    let w : tmp_dbfile v url ≡ dbfile = rw h in rw (w, a, b, ◌>>=◌) refl
