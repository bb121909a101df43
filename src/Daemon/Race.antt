-- ===== src/Daemon/Race.antt =====
-- src/daemon/main.c: what a failing `fork`, and a child that exits early, leave behind.
use srepod.Prelude.{
  ℕ, zero, suc, ◌<◌, false, none, some, List, [], ◌∷◌, ◌≡◌, refl, arith, ◌∙◌, inl, inr, ◌>>=◌,
  subst-some, length, get_elem?, get_elem?-set, ℤ, Option-cases, >>=-eq-some,
}
use srepod.Session.{Host, Process, close_lock}
use srepod.Daemon.Slots.{RequestStatus, Slot, free, live, dangling, same_pid}
use srepod.Daemon.{
  Daemon, Fork, forked, fork_failed, Outcome, check_slot, check_status, set_status, early_signal,
  spawn_child, process_lock, loop_round,
}

check_status-dangling :
    (p : Process) (slots : List Slot) (i : ℕ)
    → get_elem? slots i ≡ some dangling
    → check_status p slots ≡ none
unfolding check_status check_slot
check_status-dangling p [] i e = absurd (cc)
check_status-dangling p (s ∷ slots) zero e = let k : s ≡ dangling = cc in rw k refl
check_status-dangling p (s ∷ slots) (suc i) e = elim (Option-cases (check_slot p s)) [
  | inl k ↦ rw (k, ◌>>=◌) refl
  | inr ((n, q, s'), k) ↦ rw (k, ◌>>=◌) (rw (check_status-dangling q slots i e, ◌>>=◌) refl)
]

spawn_child-dangling :
    (d d' : Daemon) (i : ℕ) (o : Outcome)
    → i < length d.requests
    → spawn_child fork_failed d i ≡ some (o, d')
    → get_elem? d'.requests i ≡ some dangling
unfolding spawn_child
spawn_child-dangling d d' i o l e =
    let (p, a, b) = >>=-eq-some (close_lock d.process d.session) _ e in
    subst-some (λ r. get_elem? r.1.requests i ≡ some dangling) b
      (get_elem?-set d.requests i i dangling l ∙ ground arith)

-- Where `fork` fails for a request the slot keeps the pointer to the memory that is freed: the next
-- round of the loop reads it, whatever `fork` then does.
pub fork_failed-loop_round :
    (host : Host) (again : Fork) (d d' : Daemon) (i : ℕ) (slots : List Slot) (o : Outcome)
    → i < length slots
    → process_lock fork_failed d (some (i, slots)) ≡ some (o, d')
    → loop_round host again d' ≡ none
unfolding process_lock loop_round
fork_failed-loop_round host again d d' i slots o l e =
    let k = spawn_child-dangling (record d { requests = slots }) d' i o l e in
    rw (check_status-dangling d'.process d'.requests i k, ◌>>=◌) refl

-- No request has the pid, and no slot is dangling.
abbrev pub IsUnknown : ℤ → List Slot → Type 0
IsUnknown pid [] = Unit
IsUnknown pid (free ∷ slots) = IsUnknown pid slots
IsUnknown pid (live r ∷ slots) = (same_pid r.pid pid ≡ false) × IsUnknown pid slots
IsUnknown pid (dangling ∷ slots) = ⊥

set_status-IsUnknown :
    (pid : ℤ) (x : RequestStatus) (slots : List Slot)
    → IsUnknown pid slots
    → set_status pid x slots ≡ some (false, slots)
unfolding set_status
set_status-IsUnknown pid x [] u = refl
set_status-IsUnknown pid x (free ∷ slots) u = rw (set_status-IsUnknown pid x slots u, ◌>>=◌) refl
set_status-IsUnknown pid x (live r ∷ slots) u =
    rw (u.0, set_status-IsUnknown pid x slots u.1, ◌>>=◌) refl
set_status-IsUnknown pid x (dangling ∷ slots) u = absurd u

-- Where no request has the pid of a new child, and no slot is dangling, the signal of a child that exits
-- before its pid is stored is lost: the round ends as if the child were still running.
pub spawn_child-early :
    (d : Daemon) (i : ℕ) (pid : ℤ) (x : RequestStatus)
    → IsUnknown pid d.requests
    → spawn_child (forked pid (some x)) d i ≡ spawn_child (forked pid none) d i
unfolding spawn_child early_signal
spawn_child-early d i pid x u = rw (set_status-IsUnknown pid x d.requests u, ◌>>=◌) refl
