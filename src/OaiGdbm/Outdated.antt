-- ===== src/OaiGdbm/Outdated.antt =====
-- src/oai-gdbm/oai-gdbm.c: a repository that is not up to date is locked, and stays so.
use srepod.Gateway.Main.{gateway_locked}
use srepod.HashTable.{hash, hash_del}
use srepod.HashTable.Shape.{IsHashTable, hash_ops_total}
use srepod.HttpHead.{HeadStruct, simple_header}
use srepod.OaiGdbm.{Gdbm, got, get_url, get_lmf, get_status}
use srepod.OaiGdbm.Open.{
  World, located, locate, open_found, open_database, open_free, open_locked, check_answer,
  ask_daemon, locked_result, is_code, oai_open_repository,
}
use srepod.OaiGdbm.Opened.{Got-cases}
use srepod.Prelude.{
  ℕ, true, false, Option, none, some, ◌≡◌, refl, arith, ◌>>=◌, >>=-eq-some, Option-cases,
  Bool-cases, inl, inr, ℤ, pos, CString, length, str_eq_refl, ◌∙◌,
}
use srepod.Session.{
  Session, Process, can_lock, is_locked, open_lock, close_lock, read_lock, create_lock, clip,
}
use srepod.Session.Files.{Disk}
use srepod.Session.Locked.{
  lock_of, create_lock-is_locked, is_locked-create_lock, open_lock-create_lock,
}
use srepod.Session.ReadWrite.{IsWord, read_lock-lock_text}

-- The process and the lock that `oai_open_repository` leaves when it asks for a new copy.
pub record IsAsked (w : World) (now : ℕ) (p p' : Process) (dbfile url : CString) : Type 0 where
  pub lock : Session
  pub disk : Disk
  pub created : create_lock w.host now p.disk dbfile url ≡ some (lock, disk)
  pub left : p'.disk ≡ disk

module _ (w : World) (now : ℕ) (p p' : Process) (dbfile url : CString) where
  ask_daemon-IsAsked :
      can_lock w.host dbfile ≡ true
      → is_locked w.host p.disk dbfile ≡ false
      → ask_daemon w now p dbfile url ≡ some (gateway_locked, p')
      → IsAsked w now p p' dbfile url
  unfolding ask_daemon close_lock
  ask_daemon-IsAsked y u e = elim (Option-cases (create_lock w.host now p.disk dbfile url)) [
    | inl n ↦ absurd (ground (arith, n, y, u, create_lock-is_locked w.host now p.disk dbfile url))
    | inr ((st, d), n) ↦
        let (q, b, l) =
          >>=-eq-some (close_lock (record p { disk = d }) st) _ (rw (n, ask_daemon) at e) in
        let (h, c, k) = >>=-eq-some (hash_del p.lock_hash st.lockfile) _ b in
        record { lock = st; disk = d; created = n; left = ground arith }
  ]

  check_answer-IsAsked :
      (status : ℤ) (answer : Option HeadStruct)
      → can_lock w.host dbfile ≡ true
      → is_locked w.host p.disk dbfile ≡ false
      → check_answer w now p dbfile url status answer ≡ some (gateway_locked, p')
      → IsAsked w now p p' dbfile url
  unfolding check_answer
  check_answer-IsAsked status none y u e = absurd (ground arith)
  check_answer-IsAsked status (some hs) y u e = elim (Bool-cases (is_code 200 hs.status_code)) [
    | inl c ↦ ask_daemon-IsAsked y u (rw c at e)
    | inr c ↦ absurd (ground arith)
  ]

  open_free-IsAsked :
      {g : Gdbm}
      → can_lock w.host dbfile ≡ true
      → is_locked w.host p.disk dbfile ≡ false
      → w.open_db dbfile ≡ some g
      → get_url w.machine g ≡ got url
      → open_free w now p dbfile ≡ some (gateway_locked, p')
      → IsAsked w now p p' dbfile url
  unfolding open_free
  open_free-IsAsked {g} y u o a e = elim (Option-cases (get_status w.machine g)) [
    | inl s ↦ absurd (ground (arith, o, s, e))
    | inr (status, s) ↦ elim (Got-cases (get_lmf w.machine g)) [
      | inl b ↦ absurd (ground (arith, o, s, a, b, e))
      | inr (inl b) ↦ absurd (ground (arith, o, s, a, b, e))
      | inr (inr (lmf, b)) ↦
          let (answer, c, k) =
            >>=-eq-some (simple_header w.request w.suffix url lmf) _
              (rw (o, open_free, s, a, b) at e) in
          check_answer-IsAsked status answer y u k
    ]
  ]

close_lock_total :
    (p : Process) (st : Session) {i : ℕ}
    → IsHashTable p.lock_hash
    → hash st.lockfile ≡ some i
    → (p' : Process) × (close_lock p st ≡ some p') × (p'.disk ≡ p.disk)
unfolding close_lock
close_lock_total p st w e =
    let (h, k) = (hash_ops_total p.lock_hash st.lockfile st.lockfile w e).1 in
    (record p { lock_hash = h }, rw (k, ◌>>=◌), refl)

-- A database that has just been locked is found locked, with the status of a request.
open_locked-IsAsked :
    (w v : World) (now : ℕ) (p p' q : Process) (st : Session) (dbfile url : CString) {i : ℕ}
    → IsAsked w now p p' dbfile url
    → v.host ≡ w.host
    → v.log_argument ≡ true
    → q.disk ≡ p'.disk
    → IsWord dbfile
    → IsWord url
    → IsHashTable q.lock_hash
    → hash (clip (lock_of w.host dbfile)) ≡ some i
    → (q' : Process) × (open_locked v q st dbfile ≡ some (gateway_locked, q')) × (q'.disk ≡ q.disk)
unfolding open_locked locked_result
open_locked-IsAsked w v now p p' q st dbfile url a h r' d x y t e =
    let (o, f) = open_lock-create_lock w.host now p.disk a.disk dbfile url a.lock st a.created in
    let st₁ : Session = record st {
      lockfile = clip (lock_of w.host dbfile);
      fd = length p.disk.files;
    } in
    let st₂ : Session = record st₁ {
      database = dbfile;
      url = url;
      status = pos 0;
      modified = now;
    } in
    let (q', c, k) = close_lock_total q st₂ t e in
    let s : q.disk ≡ a.disk = d ∙ a.left in
    let o' : open_lock v.host q.disk dbfile st ≡ some st₁ = rw (h, s) o in
    let r : read_lock q.disk st₁ ≡ some st₂ =
      rw s (read_lock-lock_text a.disk now 0 st₁ dbfile url x y (omega arith) f) in
    (q', rw (open_locked, r') (rw (o', r, ◌>>=◌) (rw (c, ◌>>=◌))), k)

-- Where oai_open_repository finds a database free, the host lets a lock be created, and it returns
-- OPEN_GATEWAY_LOCKED, it has locked the database: every later call for it, on the disk as it is then,
-- returns OPEN_GATEWAY_LOCKED too, and changes no file, whatever the database, the server and the clock
-- then say. It does so where a string can be read in the place of the argument that its call of log does
-- not pass. The names of the database and its url are words that fit in their fields, and the lock file
-- has a hash value.
pub oai_open_repository-outdated :
    (w v : World) (now later : ℕ) (p p' q : Process) (st st' : Session) (dbfile url : CString)
    {g : Gdbm} {i : ℕ}
    → locate w ≡ some (located dbfile)
    → can_lock w.host dbfile ≡ true
    → is_locked w.host p.disk dbfile ≡ false
    → w.open_db dbfile ≡ some g
    → get_url w.machine g ≡ got url
    → oai_open_repository w now p st ≡ some (gateway_locked, p')
    → IsWord dbfile
    → IsWord url
    → hash (clip (lock_of w.host dbfile)) ≡ some i
    → v.host ≡ w.host
    → v.log_argument ≡ true
    → locate v ≡ some (located dbfile)
    → q.disk ≡ p'.disk
    → IsHashTable q.lock_hash
    → (q' : Process) × (oai_open_repository v later q st' ≡ some (gateway_locked, q'))
      × (q'.disk ≡ q.disk)
unfolding oai_open_repository open_found open_database
oai_open_repository-outdated w v now later p p' q st st' dbfile url l able u o b e x y i h r m d t =
    let free : open_free w now p dbfile ≡ some (gateway_locked, p') =
      rw u at (rw (l, oai_open_repository, ◌>>=◌) at e) in
    let a = open_free-IsAsked w now p p' dbfile url able u o b free in
    let (q', k, s) = open_locked-IsAsked w v now p p' q st' dbfile url a h r d x y t i in
    let locked : is_locked v.host q.disk dbfile ≡ true =
      rw (h, d, a.left)
        (is_locked-create_lock w.host now p.disk dbfile url dbfile a.created
          ∙ rw (str_eq_refl (lock_of w.host dbfile))) in
    (q', rw (m, oai_open_repository, ◌>>=◌) (rw locked k), s)
