-- ===== src/Session/Locking.antt =====
-- src/session/session.c: what one round of the loop of `next_lock` does to a lock file.
use mathlib.Core.Path.{subst}
use srepod.Prelude.{
  ℕ, true, Option, none, some, List, [], ◌∷◌, ◌≡◌, inl, inr, refl, arith, ◌>>=◌, ◌∙◌, CString,
  codes, str_eq, str_eq_refl, Option-cases, get_elem?, drop, Bool-cases, >>=-eq-some,
}
use srepod.HashTable.Lookup.{hash_val-hash_add}
use srepod.HashTable.Shape.{IsHashTable, hash_add-IsHashTable}
use srepod.HashTable.{HashTable, hash_val, hash_add}
use srepod.Session.Files.{Disk, find_name}
use srepod.Session.{
  Session, Process, LockType, Visit, skipped, taken, is_wanted, visit_lock, visit_open, visit_free,
  read_line, read_lines, read_lock, scan_word,
}

-- A path is in the table of locks, in the sense of `next_lock`.
abbrev pub IsHeld : Process → CString → Type 0
IsHeld p path = (v : CString) × (hash_val p.lock_hash path ≡ some (some v))

-- What `next_lock` returns: the session is that of a lock file of the disk that was not held, and is
-- held now; with the flag for unprocessed locks its status is 0.
pub record IsNext (flag : LockType) (p p' : Process) (st : Session) : Type 0 where
  pub free : hash_val p.lock_hash st.lockfile ≡ some none
  pub held : hash_val p'.lock_hash st.lockfile ≡ some (some (codes "locked"))
  pub file : find_name st.lockfile p.disk.names ≡ some st.fd
  pub wanted : is_wanted flag st ≡ true

-- Reading changes neither the descriptor nor the name of the lock file.
read_line-lockfile :
    (st st' : Session) (buffer : CString)
    → read_line st buffer ≡ some st'
    → (st'.lockfile ≡ st.lockfile) × (st'.fd ≡ st.fd)
unfolding read_line
read_line-lockfile st st' buffer e = elim (Option-cases (scan_word st.database (drop 9 buffer))) [
  | inl a ↦ elim (Option-cases (scan_word st.url (drop 4 buffer))) [
    | inl b ↦ (ground arith, ground arith)
    | inr (w, b) ↦ (ground arith, ground arith)
  ]
  | inr (v, a) ↦ elim (Option-cases (scan_word st.url (drop 4 buffer))) [
    | inl b ↦ (ground arith, ground arith)
    | inr (w, b) ↦ (ground arith, ground arith)
  ]
]

read_lines-lockfile :
    (st st' : Session) (lines : List CString)
    → read_lines st lines ≡ some st'
    → (st'.lockfile ≡ st.lockfile) × (st'.fd ≡ st.fd)
unfolding read_lines
read_lines-lockfile st st' [] e = (ground arith, ground arith)
read_lines-lockfile st st' (l ∷ lines) e =
    let (s, a, b) = >>=-eq-some (read_line st l) _ e in
    let (c, d) = read_line-lockfile st s l a in
    let (f, g) = read_lines-lockfile s st' lines b in (f ∙ c, g ∙ d)

read_lock-lockfile :
    (d : Disk) (st st' : Session)
    → read_lock d st ≡ some st'
    → (st'.lockfile ≡ st.lockfile) × (st'.fd ≡ st.fd)
unfolding read_lock
read_lock-lockfile d st st' e =
    let (f, _, a) = >>=-eq-some (get_elem? d.files st.fd) _ e in
    let (s, b, c) = >>=-eq-some (read_lines st _) _ a in
    let (g, h) = read_lines-lockfile st s _ b in (ground (arith, g), ground (arith, h))

-- How a round leaves the table and the disk: nothing is free that was not, and what was held is held.
pub record Grown (p p' : Process) : Type 0 where
  pub disk : p'.disk ≡ p.disk
  pub shape : IsHashTable p.lock_hash → IsHashTable p'.lock_hash
  pub free :
      (q : CString) → hash_val p'.lock_hash q ≡ some none → hash_val p.lock_hash q ≡ some none
  pub held : (q v : CString) → hash_val p.lock_hash q ≡ some (some v) → IsHeld p' q

pub Grown-refl : (p : Process) → Grown p p
Grown-refl p = record { disk = refl; shape = λ w. w; free = λ q e. e; held = λ q v e. (v, e) }

pub Grown-trans : (p q r : Process) → Grown p q → Grown q r → Grown p r
Grown-trans p q r a b = record {
  disk = b.disk ∙ a.disk;
  shape = λ w. b.shape (a.shape w);
  free = λ x e. a.free x (b.free x e);
  held = λ x v e. let (w, f) = a.held x v e in b.held x w f;
}

Grown-hash_add :
    (p : Process) (path : CString) (h : HashTable)
    → hash_add p.lock_hash path (codes "locked") ≡ some h
    → Grown p (record p { lock_hash = h })
Grown-hash_add p path h e = record {
  disk = refl;
  shape = λ w. hash_add-IsHashTable p.lock_hash path (codes "locked") w e;
  free = λ q f. ground (arith, hash_val-hash_add p.lock_hash path (codes "locked") q e);
  held = λ q v f. elim (Bool-cases (str_eq path q)) [
    | inl k ↦
        (codes "locked", ground (arith, hash_val-hash_add p.lock_hash path (codes "locked") q e))
    | inr k ↦ (v, ground (arith, hash_val-hash_add p.lock_hash path (codes "locked") q e))
  ];
}

-- A round either skips the lock, and then the table has grown, or takes it.
abbrev pub Visited : LockType → Process → Visit → Type 0
Visited flag p (skipped p' st) = Grown p p'
Visited flag p (taken p' st) = Grown p p' × IsNext flag p p' st

visit_free-Visited :
    (flag : LockType) (p : Process) (st : Session) (path : CString) (v : Visit)
    → hash_val p.lock_hash path ≡ some none
    → find_name path p.disk.names ≡ some st.fd
    → st.lockfile ≡ path
    → visit_free flag p st path ≡ some v
    → Visited flag p v
unfolding visit_free
visit_free-Visited flag p st path v f o l e =
    let (h, a, k) = >>=-eq-some (hash_add p.lock_hash path (codes "locked")) _ e in
    let (st', b, m) = >>=-eq-some (read_lock p.disk st) _ k in
    let g = Grown-hash_add p path h a in
    let (x, y) = read_lock-lockfile p.disk st st' b in
    elim (Bool-cases (is_wanted flag st')) [
      | inl w ↦
          let n : taken (record p { lock_hash = h }) st' ≡ v = ground arith in
          subst (Visited flag p) n (
            g,
            record {
              free = rw (x, l) f;
              held =
                  rw (x, l)
                    (hash_val-hash_add p.lock_hash path (codes "locked") path a
                      ∙ rw (str_eq_refl path) refl);
              file = rw (x, y, l) o;
              wanted = w;
            },
          )
      | inr w ↦
          let n : skipped (record p { lock_hash = h }) st' ≡ v = ground arith in
          subst (Visited flag p) n g
    ]

visit_open-Visited :
    (flag : LockType) (p : Process) (st : Session) (path : CString) (fd : ℕ) (held : Option CString)
    (v : Visit)
    → hash_val p.lock_hash path ≡ some held
    → find_name path p.disk.names ≡ some fd
    → visit_open flag p st path fd held ≡ some v
    → Visited flag p v
unfolding visit_open
visit_open-Visited flag p st path fd (some x) v f o e =
    let n : skipped p st ≡ v = ground arith in subst (Visited flag p) n (Grown-refl p)
visit_open-Visited flag p st path fd none v f o e =
    visit_free-Visited flag p (record st { fd = fd; lockfile = path }) path v f o refl e

pub visit_lock-Visited :
    (flag : LockType) (p : Process) (st : Session) (path : CString) (o : Option ℕ) (v : Visit)
    → find_name path p.disk.names ≡ o
    → visit_lock flag p st path o ≡ some v
    → Visited flag p v
unfolding visit_lock
visit_lock-Visited flag p st path none v k e =
    let n : skipped p st ≡ v = ground arith in subst (Visited flag p) n (Grown-refl p)
visit_lock-Visited flag p st path (some fd) v k e =
    let (held, a, b) = >>=-eq-some (hash_val p.lock_hash path) _ e in
    visit_open-Visited flag p st path fd held v a k b

-- What is found stays what it was before the table has grown.
pub IsNext-Grown :
    (flag : LockType) (p q r : Process) (st : Session)
    → Grown p q
    → IsNext flag q r st
    → IsNext flag p r st
IsNext-Grown flag p q r st g n = record {
  free = g.free st.lockfile n.free;
  held = n.held;
  file = rw (← g.disk) n.file;
  wanted = n.wanted;
}

abbrev pub process_of : Visit → Process
process_of (skipped p st) = p
process_of (taken p st) = p

visit_free-IsHeld :
    (flag : LockType) (p : Process) (st : Session) (path : CString) (v : Visit)
    → visit_free flag p st path ≡ some v
    → IsHeld (process_of v) path
unfolding visit_free
visit_free-IsHeld flag p st path v e =
    let (h, a, k) = >>=-eq-some (hash_add p.lock_hash path (codes "locked")) _ e in
    let (st', b, m) = >>=-eq-some (read_lock p.disk st) _ k in
    let w : hash_val h path ≡ some (some (codes "locked")) =
      hash_val-hash_add p.lock_hash path (codes "locked") path a ∙ rw (str_eq_refl path) refl in
    (codes "locked", ground (arith, w))

visit_open-IsHeld :
    (flag : LockType) (p : Process) (st : Session) (path : CString) (fd : ℕ) (held : Option CString)
    (v : Visit)
    → hash_val p.lock_hash path ≡ some held
    → visit_open flag p st path fd held ≡ some v
    → IsHeld (process_of v) path
unfolding visit_open
visit_open-IsHeld flag p st path fd (some x) v f e = (x, ground (arith, f))
visit_open-IsHeld flag p st path fd none v f e =
    visit_free-IsHeld flag p (record st { fd = fd; lockfile = path }) path v e

-- A lock file that the loop of `next_lock` has visited, whether it has taken it or passed it over, is
-- skipped at every later visit with the same table: it is not read again, whatever the flag then is.
pub visit_lock-once :
    (flag again : LockType) (p : Process) (st s : Session) (path : CString) (fd fd' : ℕ) (v : Visit)
    → visit_lock flag p st path (some fd) ≡ some v
    → visit_lock again (process_of v) s path (some fd') ≡ some (skipped (process_of v) s)
unfolding visit_lock visit_open
visit_lock-once flag again p st s path fd fd' v e =
    let (held, a, b) = >>=-eq-some (hash_val p.lock_hash path) _ e in
    let (x, k) = visit_open-IsHeld flag p st path fd held v a b in rw (k, ◌>>=◌) refl
