-- ===== src/Registry/Marked.antt =====
-- src/registry/terminator.c: the lock that a request to terminate leaves, as the daemon reads it.
use srepod.HashTable.{hash}
use srepod.HashTable.Shape.{IsHashTable, hash_ops_total}
use srepod.Prelude.{
  ℕ, ◌<◌, true, false, Option, some, [], ◌∷◌, ◌++◌, ◌≡◌, ◌⊎◌, ◌∙◌, inl, inr, refl, arith, ◌>>=◌,
  >>=-eq-some, Bool-cases, is_nil, CString, codes, str_eq, length, str_eq_refl, str_eq_iff, pos,
  length-append, ltb, ap, starts_with, length-set,
}
use srepod.Registry.{valid_url}
use srepod.Registry.Pages.{cmd_success}
use srepod.Registry.Pending.{take-all}
use srepod.Registry.Requests.{request_shown, needs_digest, or_empty}
use srepod.Registry.Store.{Site}
use srepod.Registry.Terminator.{
  secdigest, getdbfile, terminate_url, success_text, mark_lock, lock_database, find_database,
  check_md5, process_request,
}
use srepod.Session.{
  Host, Session, Process, create_lock, new_lock, can_lock, is_locked, close_lock, write_lock,
  open_lock, fopen_lock, read_lock, lock_text, clip,
}
use srepod.Session.Files.{Disk, find_name, open_excl, write_file}
use srepod.Session.Locked.{lock_of}
use srepod.Session.ReadWrite.{IsWord, write_lock-read_lock}

-- A lock that has just been created: its session, and where its file is.
record IsCreated (host : Host) (dbfile : CString) (st : Session) (d : Disk) : Type 0 where
  lockfile : st.lockfile ≡ clip (lock_of host dbfile)
  database : st.database ≡ clip dbfile
  status : st.status ≡ pos 0
  named : find_name (lock_of host dbfile) d.names ≡ some st.fd
  there : st.fd < length d.files

create_lock-IsCreated :
    (host : Host) (now : ℕ) (d : Disk) (dbfile url : CString)
    → can_lock host dbfile ≡ true
    → is_locked host d dbfile ≡ false
    → (st : Session) × (d' : Disk) × (create_lock host now d dbfile url ≡ some (st, d'))
      × IsCreated host dbfile st d'
unfolding create_lock new_lock is_locked open_excl write_file find_name
create_lock-IsCreated host now d dbfile url able free = (
  record {
    lockfile = clip (lock_of host dbfile);
    database = clip dbfile;
    url = clip url;
    status = pos 0;
    fd = length d.files;
    modified = now;
  },
  write_file
      (record {
        names = (lock_of host dbfile, length d.files) ∷ d.names;
        files = d.files ++ record { content = []; mtime = 0 } ∷ [];
      })
      now (length d.files) (lock_text dbfile url (pos 0)),
  rw able (rw (free, ◌>>=◌) refl),
  record {
    lockfile = refl;
    database = refl;
    status = refl;
    named = rw (str_eq_refl (lock_of host dbfile)) refl;
    there = omega (
      arith,
      length-set (d.files ++ record { content = []; mtime = 0 } ∷ []) (length d.files)
          (record { content = lock_text dbfile url (pos 0); mtime = now }),
      length-append d.files (record { content = []; mtime = 0 } ∷ []),
    );
  },
)

write_lock-names :
    (now : ℕ) (d d' : Disk) (st st' : Session)
    → write_lock now d st ≡ some (st', d')
    → d'.names ≡ d.names
unfolding write_lock write_file
write_lock-names now d d' st st' e =
    let (s, a, k) = >>=-eq-some (read_lock (write_file d now st.fd _) st) _ e in ground arith

open_lock-named :
    (host : Host) (d : Disk) (dbfile : CString) (st : Session) {fd : ℕ}
    → find_name (lock_of host dbfile) d.names ≡ some fd
    → open_lock host d dbfile st
      ≡ some (record st { lockfile = clip (lock_of host dbfile); fd = fd })
unfolding open_lock fopen_lock
open_lock-named host d dbfile st e = rw (e, ◌>>=◌) refl

-- The lock is written with the url of the termination, and closed.
module _ (site : Site) (p : Process) (d : Disk) (st : Session) (url dbfile output : CString) {i : ℕ}
    (c : IsCreated site.host dbfile st d) (shape : IsHashTable p.lock_hash)
    (hashed : hash (clip (lock_of site.host dbfile)) ≡ some i) (base : IsWord dbfile)
    (word : IsWord (terminate_url url))
    (page : cmd_success site.pages false success_text ≡ some output) where
  marked : Session
  marked = record st { url = terminate_url url }

  -- What a client that opens the lock afterwards has read in it.
  abbrev IsMarked : Disk → Type 0
  IsMarked e =
      (other : Session)
      → (st' : Session) × (open_lock site.host e dbfile other ≡ some st')
        × (read_lock e st'
            ≡ some (record st' {
              database = dbfile;
              url = terminate_url url;
              status = pos 0;
              modified = site.now;
            }))

  same_database : st.database ≡ dbfile
  same_database = c.database ∙ take-all 1023 dbfile (omega (arith, base.fits))

  database-IsWord : IsWord st.database
  database-IsWord = rw same_database base

  -- Whoever writes the session leaves it to all clients.
  write_lock-IsMarked :
      (e : Disk)
      → write_lock site.now d marked ≡ some (record marked { modified = site.now }, e)
      → IsMarked e
  unfolding marked
  write_lock-IsMarked e a other =
      let own : Session = record other { lockfile = clip (lock_of site.host dbfile); fd = st.fd } in
      let (e', a', r) =
        write_lock-read_lock d site.now 0 marked own c.there refl database-IsWord word c.status
          (omega arith) in
      let k : e ≡ e' = ground (arith, a, a') in
      let n = write_lock-names site.now d e marked (record marked { modified = site.now }) a in
      (
        own,
        open_lock-named site.host e dbfile other
            (ap (find_name (lock_of site.host dbfile)) n ∙ c.named),
        rw k (rw (same_database, c.status) at r),
      )

  mark_lock-IsMarked :
      (q : Process) × (mark_lock site (record p { disk = d }) st url
        ≡ some (record { status = 0; output = output; process = q }))
      × IsMarked q.disk
  unfolding mark_lock marked close_lock request_shown
  mark_lock-IsMarked =
      let (e, a, _) =
        write_lock-read_lock d site.now 0 marked marked c.there refl database-IsWord word c.status
          (omega arith) in
      let (h, del) =
        (hash_ops_total p.lock_hash (clip (lock_of site.host dbfile)) [] shape hashed).1 in
      let l : ltb (length (terminate_url url)) 1024 ≡ true = ground (arith, word.fits) in
      (
        record { lock_hash = h; disk = e },
        rw l (rw (a, ◌>>=◌) (rw c.lockfile (rw (del, ◌>>=◌) (rw (page, ◌>>=◌) refl)))),
        write_lock-IsMarked e a,
      )

valid_url-ne_nil : (behind url : CString) → valid_url behind url ≡ some true → is_nil url ≡ false
unfolding valid_url starts_with
valid_url-ne_nil behind [] e = absurd (ground arith)
valid_url-ne_nil behind (c ∷ url) e = refl

confirmed-check_md5 :
    (site : Site) (p : Process) (memory : Option CString) (url md5 : CString)
    → (needs_digest site ≡ false) ⊎ (length md5 ≡ 32) × (md5 ≡ secdigest site url)
    → check_md5 site p memory url md5 ≡ find_database site p memory url
unfolding check_md5
confirmed-check_md5 site p memory url md5 (inl n) = rw n refl
confirmed-check_md5 site p memory url md5 (inr (l, e)) =
    let k : str_eq md5 (secdigest site url) ≡ true = (str_eq_iff md5 (secdigest site url)).1 e in
    elim (Bool-cases (needs_digest site)) [
      | inr n ↦ rw n refl
      | inl n ↦ elim (Bool-cases (is_nil md5)) [
        | inl m ↦ absurd (ground (arith, l, m))
        | inr m ↦ rw (n, m, l, k) refl
      ]
    ]

valid-check_md5 :
    (site : Site) (p : Process) (html memory : Option CString) (query : CString → Option CString)
    → valid_url site.behind (or_empty (query (codes "url"))) ≡ some true
    → process_request site p html memory query
      ≡ check_md5 site p memory (or_empty (query (codes "url"))) (or_empty (query (codes "md5")))
unfolding process_request
valid-check_md5 site p html memory query valid =
    let url : CString = or_empty (query (codes "url")) in
    rw (valid_url-ne_nil site.behind url valid) (rw (valid, ◌>>=◌) refl)

registered-lock_database :
    (site : Site) (p : Process) (memory : Option CString) (url dbfile : CString)
    → getdbfile site p.disk url ≡ some (some dbfile)
    → find_database site p memory url ≡ lock_database site p memory url dbfile
unfolding find_database
registered-lock_database site p memory url dbfile registered =
    rw (find_database, registered, ◌>>=◌) refl

module _ (site : Site) (p : Process) (html : Option CString) (query : CString → Option CString)
    (init url dbfile output : CString) {i : ℕ} where
  -- A request to terminate a valid url succeeds, where its digest is right, or none is needed, its url
  -- has a database in the configuration that has no lock, the host lets a lock be created, the memory
  -- for the url holds some string,
  -- and the page can be made. A client that opens the lock of the database afterwards reads the
  -- database, the url with #TERMINATE behind it, and the status of a request that is pending. The
  -- names of the database and that url are words that fit in their fields, the name of the lock has a
  -- hash value, and the table of the locks has the right shape.
  pub process_request-marked :
      query (codes "url") ≡ some url
      → valid_url site.behind url ≡ some true
      → (needs_digest site ≡ false)
        ⊎ (length (or_empty (query (codes "md5"))) ≡ 32)
          × (or_empty (query (codes "md5")) ≡ secdigest site url)
      → getdbfile site p.disk url ≡ some (some dbfile)
      → can_lock site.host dbfile ≡ true
      → is_locked site.host p.disk dbfile ≡ false
      → IsHashTable p.lock_hash
      → hash (clip (lock_of site.host dbfile)) ≡ some i
      → IsWord dbfile
      → IsWord (terminate_url url)
      → cmd_success site.pages false success_text ≡ some output
      → (q : Process) × (process_request site p html (some init) query
          ≡ some (record { status = 0; output = output; process = q }))
        × ((other : Session)
            → (st : Session) × (open_lock site.host q.disk dbfile other ≡ some st)
              × (read_lock q.disk st
                  ≡ some (record st {
                    database = dbfile;
                    url = terminate_url url;
                    status = pos 0;
                    modified = site.now;
                  })))
  unfolding lock_database
  process_request-marked named valid confirmed registered able free shape hashed base word page =
      let (st, d, a, c) = create_lock-IsCreated site.host site.now p.disk dbfile init able free in
      let (q, m, r) =
        mark_lock-IsMarked site p d st url dbfile output c shape hashed base word page in
      let n : or_empty (query (codes "url")) ≡ url = rw named refl in
      let k = valid-check_md5 site p html (some init) query (rw n valid) in
      (
        q,
        rw n at k
            ∙ confirmed-check_md5 site p (some init) url (or_empty (query (codes "md5"))) confirmed
            ∙ registered-lock_database site p (some init) url dbfile registered
            ∙ rw (lock_database, a) m,
        r,
      )
