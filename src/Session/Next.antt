-- ===== src/Session/Next.antt =====
-- src/session/session.c: which lock `next_lock` returns, and which locks it leaves in `lock_hash`.
use mathlib.Core.Path.{subst}
use srepod.Prelude.{
  Bool, true, false, Option, some, List, [], ◌∷◌, ◌++◌, ◌≡◌, inl, inr, refl, arith, CString, codes,
  starts_with, Bool-cases, >>=-eq-some,
}
use srepod.HashTable.{hash_val}
use srepod.Session.Files.{find_name}
use srepod.Session.{
  Host, Session, Process, LockType, Visit, skipped, taken, visit_lock, go_on, next_entries,
  next_lock, spool_dir, lock_prefix,
}
use srepod.Session.Locking.{
  IsHeld, IsNext, IsNext-Grown, Grown, Grown-refl, Grown-trans, Visited, visit_lock-Visited,
}

-- The same for the result of the loop.
abbrev Result : LockType → Process → Bool × Process × Session → Type 0
Result flag p (true, p', st) = Grown p p' × IsNext flag p p' st
Result flag p (false, p', st) = Grown p p'

Result-Grown :
    (flag : LockType) (p q : Process) (r : Bool × Process × Session)
    → Grown p q
    → Result flag q r
    → Result flag p r
Result-Grown flag p q (true, p', st) g (a, n) =
    (Grown-trans p q p' g a, IsNext-Grown flag p q p' st g n)
Result-Grown flag p q (false, p', st) g a = Grown-trans p q p' g a

go_on-Result :
    (flag : LockType) (p : Process) (v : Visit)
    (rest : Process → Session → Option (Bool × Process × Session)) (r : Bool × Process × Session)
    → Visited flag p v
    → ((q : Process) (s : Session) → rest q s ≡ some r → Result flag q r)
    → go_on v rest ≡ some r
    → Result flag p r
unfolding go_on
go_on-Result flag p (skipped q s) rest r g k e = Result-Grown flag p q r g (k q s e)
go_on-Result flag p (taken q s) rest r g k e =
    let n : (true, q, s) ≡ r = ground arith in subst (Result flag p) n g

next_entries-Result :
    (flag : LockType) (dir : CString) (p : Process) (st : Session) (names : List CString)
    (r : Bool × Process × Session)
    → next_entries flag dir p st names ≡ some r
    → Result flag p r
unfolding next_entries
next_entries-Result flag dir p st [] r e =
    let n : (false, p, st) ≡ r = ground arith in subst (Result flag p) n (Grown-refl p)
next_entries-Result flag dir p st (name ∷ names) r e =
    elim (Bool-cases (starts_with name lock_prefix)) [
      | inr k ↦ next_entries-Result flag dir p st names r (rw k at e)
      | inl k ↦
          let path : CString = dir ++ codes "/" ++ name in
          let (v, a, b) =
            >>=-eq-some (visit_lock flag p st path (find_name path p.disk.names)) _ (rw k at e) in
          go_on-Result flag p v _ r
            (visit_lock-Visited flag p st path (find_name path p.disk.names) v refl a)
            (λ q s f. next_entries-Result flag dir q s names r f) b
    ]

-- Where `next_lock` finds a lock, it is that of a file on the disk that this process did not hold, and
-- it is held from then on; with the flag for unprocessed locks its status is 0.
pub next_lock-IsNext :
    (host : Host) (flag : LockType) (p p' : Process) (st st' : Session)
    → next_lock host flag p st ≡ some (true, p', st')
    → IsNext flag p p' st'
unfolding next_lock
next_lock-IsNext host flag p p' st st' e =
    (next_entries-Result flag (spool_dir host) p st _ (true, p', st') e).1

Result-Grown_inv :
    (flag : LockType) (p : Process) (r : Bool × Process × Session) → Result flag p r → Grown p r.1
Result-Grown_inv flag p (true, p', st) g = g.0
Result-Grown_inv flag p (false, p', st) g = g

pub next_lock-Grown :
    (host : Host) (flag : LockType) (p p' : Process) (st st' : Session) (b : Bool)
    → next_lock host flag p st ≡ some (b, p', st')
    → Grown p p'
unfolding next_lock
next_lock-Grown host flag p p' st st' b e =
    Result-Grown_inv flag p (b, p', st')
      (next_entries-Result flag (spool_dir host) p st _ (b, p', st') e)

-- A lock that a process holds is held behind every `next_lock`, and the disk stays as it is.
pub next_lock-IsHeld :
    (host : Host) (flag : LockType) (p p' : Process) (st st' : Session) (b : Bool)
    (path v : CString)
    → next_lock host flag p st ≡ some (b, p', st')
    → hash_val p.lock_hash path ≡ some (some v)
    → IsHeld p' path × (p'.disk ≡ p.disk)
next_lock-IsHeld host flag p p' st st' b path v e h =
    let g = next_lock-Grown host flag p p' st st' b e in (g.held path v h, g.disk)
