-- ===== src/Daemon/Loop.antt =====
-- src/daemon/main.c: what holds of the slots between the steps of the daemon, and the changes that keep it.
use mathlib.Core.Path.{subst}
use srepod.Prelude.{
  ℕ, zero, suc, Bool, some, List, [], ◌∷◌, ◌≡◌, inl, inr, refl, arith, ◌∙◌, ap, sym, subst-some,
  length, All, ℤ, CString, Bool-cases, >>=-eq-some,
}
use srepod.HashTable.Shape.{IsHashTable}
use srepod.Session.{Process}
use srepod.Daemon.Check.{count_lock, IsPending, Rounds-count_live, check_status-Rounds}
use srepod.Daemon.Locks.{LockState, Locks, Rounds-Locks, Rounds-IsHashTable}
use srepod.Daemon.Slots.{RequestStatus, Slot, free, live, dangling, same_pid}
use srepod.Daemon.{max_requests, check_status, set_status, store_pid}

abbrev pub IsAlive : Slot → Type 0
IsAlive dangling = ⊥
IsAlive _ = Unit

-- The slots and the table of locks agree: no slot is dangling, no lock file has two requests, and the
-- process holds the lock of each request.
pub record IsSound (p : Process) (slots : List Slot) : Type 0 where
  pub shape : IsHashTable p.lock_hash
  pub size : length slots ≡ max_requests
  pub alive : All IsAlive slots
  pub locks : Locks p slots

IsPending-IsAlive : (slots : List Slot) → All IsPending slots → All IsAlive slots
IsPending-IsAlive [] a = tt
IsPending-IsAlive (free ∷ slots) a = (tt, IsPending-IsAlive slots a.1)
IsPending-IsAlive (live r ∷ slots) a = (tt, IsPending-IsAlive slots a.1)
IsPending-IsAlive (dangling ∷ slots) a = absurd a.0

pub check_status-IsSound :
    (p p' : Process) (slots slots' : List Slot) (n : ℕ)
    → IsSound p slots
    → check_status p slots ≡ some (n, p', slots')
    → IsSound p' slots'
check_status-IsSound p p' slots slots' n s e =
    let t = check_status-Rounds p slots n p' slots' e in
    let (_, l, a) = Rounds-count_live t in
    record {
      shape = Rounds-IsHashTable t s.shape;
      size = l ∙ s.size;
      alive = IsPending-IsAlive slots' a;
      locks = Rounds-Locks t s.shape s.locks;
    }

-- A change of the slots that leaves the requests and their lock files.
pub record Same (slots slots' : List Slot) : Type 0 where
  size : length slots' ≡ length slots
  alive : All IsAlive slots → All IsAlive slots'
  count : (q : CString) → count_lock q slots' ≡ count_lock q slots

pub Same-IsSound :
    (p : Process) (slots slots' : List Slot)
    → Same slots slots'
    → IsSound p slots
    → IsSound p slots'
Same-IsSound p slots slots' c s = record {
  shape = s.shape;
  size = c.size ∙ s.size;
  alive = c.alive s.alive;
  locks = λ q. subst (LockState p q) (sym (c.count q)) (s.locks q);
}

Same-cons :
    (s : Slot) (slots slots' : List Slot) → Same slots slots' → Same (s ∷ slots) (s ∷ slots')
unfolding count_lock
Same-cons free slots slots' c = record {
  size = ap suc c.size;
  alive = λ a. (tt, c.alive a.1);
  count = c.count;
}
Same-cons dangling slots slots' c = record {
  size = ap suc c.size;
  alive = λ a. absurd a.0;
  count = c.count;
}
Same-cons (live r) slots slots' c = record {
  size = ap suc c.size;
  alive = λ a. (tt, c.alive a.1);
  count = λ q. omega (arith, c.count q);
}

pub Same-refl : (slots : List Slot) → Same slots slots
Same-refl slots = record { size = refl; alive = λ a. a; count = λ q. refl }

pub store_pid-Same : (slots : List Slot) (i : ℕ) (pid : ℤ) → Same slots (store_pid slots i pid)
unfolding store_pid count_lock
store_pid-Same [] i pid = Same-refl []
store_pid-Same (live r ∷ slots) zero pid = record {
  size = refl;
  alive = λ a. (tt, a.1);
  count = λ q. refl;
}
store_pid-Same (free ∷ slots) zero pid = Same-refl (free ∷ slots)
store_pid-Same (dangling ∷ slots) zero pid = Same-refl (dangling ∷ slots)
store_pid-Same (s ∷ slots) (suc i) pid = Same-cons s slots _ (store_pid-Same slots i pid)

pub set_status-Same :
    (pid : ℤ) (x : RequestStatus) (slots slots' : List Slot) (b : Bool)
    → set_status pid x slots ≡ some (b, slots')
    → Same slots slots'
unfolding set_status count_lock
set_status-Same pid x [] slots' b e = subst-some (λ r. Same [] r.1) e (Same-refl [])
set_status-Same pid x (free ∷ slots) slots' b e =
    let ((b', rest), a, c) = >>=-eq-some (set_status pid x slots) _ e in
    subst-some (λ r. Same (free ∷ slots) r.1) c
      (Same-cons free slots rest (set_status-Same pid x slots rest b' a))
set_status-Same pid x (dangling ∷ slots) slots' b e = absurd (cc)
set_status-Same pid x (live r ∷ slots) slots' b e = elim (Bool-cases (same_pid r.pid pid)) [
  | inl k ↦
      subst-some (λ r'. Same (live r ∷ slots) r'.1) (rw k at e)
        (record { size = refl; alive = λ a. (tt, a.1); count = λ q. refl })
  | inr k ↦
      let ((b', rest), a, c) = >>=-eq-some (set_status pid x slots) _ (rw k at e) in
      subst-some (λ r'. Same (live r ∷ slots) r'.1) c
        (Same-cons (live r) slots rest (set_status-Same pid x slots rest b' a))
]
