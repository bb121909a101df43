-- ===== src/Daemon/Steps.antt =====
-- src/daemon/main.c: the steps of the daemon, with signals between the rounds of its loop.
use srepod.Prelude.{
  ℕ, Bool, true, false, ◌&&◌, Option, none, some, List, ◌≡◌, refl, inl, inr, codes, if◌then◌else◌,
  ◌==◌, subst-some, ℤ, Bool-cases, >>=-eq-some,
}
use srepod.Session.Next.{next_lock-Grown, next_lock-IsNext}
use srepod.Session.Locking.{IsHeld}
use srepod.Session.{Host, Process, Session, unprocessed_types, next_lock, close_lock}
use srepod.Daemon.Check.{count_lock}
use srepod.Daemon.Loop.{
  IsSound, Same-IsSound, store_pid-Same, set_status-Same, check_status-IsSound,
}
use srepod.Daemon.Round.{Grown-IsSound, count_lock-IsNext, get_request-IsSound, close_lock-IsSound}
use srepod.Daemon.Slots.{RequestStatus, Slot}
use srepod.Daemon.{
  Daemon, forked, Outcome, slept, check_status, set_status, get_request, store_pid, early_signal,
  spawn_child, process_lock, look_for_lock, loop_round, child_exited, shutdown_asked, exit_request,
}

-- What a result of a round leaves is sound.
abbrev SoundAfter : Outcome × Daemon → Type 0
SoundAfter r = IsSound r.1.process r.1.requests

early_signal-IsSound :
    (p : Process) (pid : ℤ) (early : Option RequestStatus) (slots slots' : List Slot)
    → IsSound p slots
    → early_signal pid early slots ≡ some slots'
    → IsSound p slots'
unfolding early_signal
early_signal-IsSound p pid none slots slots' s e = subst-some (IsSound p) e s
early_signal-IsSound p pid (some x) slots slots' s e =
    let ((b, rest), a, c) = >>=-eq-some (set_status pid x slots) _ e in
    subst-some (IsSound p) c (Same-IsSound p slots rest (set_status-Same pid x slots rest b a) s)

spawn_child-IsSound :
    (pid : ℤ) (early : Option RequestStatus) (d : Daemon) (i : ℕ) (r : Outcome × Daemon)
    → IsSound d.process d.requests
    → spawn_child (forked pid early) d i ≡ some r
    → SoundAfter r
unfolding spawn_child
spawn_child-IsSound pid early d i r s e =
    let (slots, a, b) = >>=-eq-some (early_signal pid early d.requests) _ e in
    subst-some SoundAfter b (
      Same-IsSound d.process slots (store_pid slots i pid) (store_pid-Same slots i pid)
        (early_signal-IsSound d.process pid early d.requests slots s a))

process_lock-IsSound :
    (pid : ℤ) (early : Option RequestStatus) (d : Daemon) (o : Option (ℕ × List Slot))
    (r : Outcome × Daemon)
    → IsSound d.process d.requests
    → count_lock d.session.lockfile d.requests ≡ 0
    → IsHeld d.process d.session.lockfile
    → get_request d.requests d.session ≡ o
    → process_lock (forked pid early) d o ≡ some r
    → SoundAfter r
unfolding process_lock
process_lock-IsSound pid early d none r s c h g e =
    let (q, a, b) = >>=-eq-some (close_lock d.process d.session) _ e in
    subst-some SoundAfter b (close_lock-IsSound d.process q d.session d.requests s c a)
process_lock-IsSound pid early d (some (i, slots)) r s c h g e =
    spawn_child-IsSound pid early (record d { requests = slots }) i r
      (get_request-IsSound d.process d.session d.requests slots i s c h g) e

after_next_lock-IsSound :
    (host : Host) (pid : ℤ) (early : Option RequestStatus) (d : Daemon) (found : Bool) (p : Process)
    (st : Session) (r : Outcome × Daemon)
    → IsSound d.process d.requests
    → next_lock host unprocessed_types d.process d.session ≡ some (found, p, st)
    → (if found
        then process_lock
            (forked pid early)
            (record d { process = p; session = st })
            (get_request d.requests st)
        else some (slept, record d { process = p; session = st }))
      ≡ some r
    → SoundAfter r
after_next_lock-IsSound host pid early d true p st r s a b =
    let g = next_lock-Grown host unprocessed_types d.process p d.session st true a in
    let n = next_lock-IsNext host unprocessed_types d.process p d.session st a in
    process_lock-IsSound pid early (record d { process = p; session = st })
      (get_request d.requests st) r (Grown-IsSound d.process p d.requests g s)
      (count_lock-IsNext d.process p st d.requests s n) (codes "locked", n.held) refl b
after_next_lock-IsSound host pid early d false p st r s a b =
    let g = next_lock-Grown host unprocessed_types d.process p d.session st false a in
    subst-some SoundAfter b (Grown-IsSound d.process p d.requests g s)

look_for_lock-IsSound :
    (host : Host) (pid : ℤ) (early : Option RequestStatus) (d : Daemon) (r : Outcome × Daemon)
    → IsSound d.process d.requests
    → look_for_lock host (forked pid early) d ≡ some r
    → SoundAfter r
unfolding look_for_lock
look_for_lock-IsSound host pid early d r s e =
    let ((found, p, st), a, b) =
      >>=-eq-some (next_lock host unprocessed_types d.process d.session) _ e in
    after_next_lock-IsSound host pid early d found p st r s a b

loop_round-IsSound :
    (host : Host) (pid : ℤ) (early : Option RequestStatus) (d : Daemon) (r : Outcome × Daemon)
    → IsSound d.process d.requests
    → loop_round host (forked pid early) d ≡ some r
    → SoundAfter r
unfolding loop_round
loop_round-IsSound host pid early d r s e =
    let ((n, p, slots), a, b) = >>=-eq-some (check_status d.process d.requests) _ e in
    let s' = check_status-IsSound d.process p d.requests slots n s a in
    elim (Bool-cases (d.do_shutdown && n == 0)) [
      | inl k ↦ subst-some SoundAfter (rw k at b) s'
      | inr k ↦
          look_for_lock-IsSound host pid early (record d { process = p; requests = slots }) r s'
            (rw k at b)
    ]

child_exited-IsSound :
    (pid : ℤ) (status : Option ℕ) (d d' : Daemon)
    → IsSound d.process d.requests
    → child_exited pid status d ≡ some d'
    → IsSound d'.process d'.requests
unfolding child_exited
child_exited-IsSound pid status d d' s e =
    let ((b, slots), a, c) = >>=-eq-some (set_status pid (exit_request status) d.requests) _ e in
    subst-some (λ x. IsSound x.process x.requests) c
      (Same-IsSound d.process d.requests slots
        (set_status-Same pid (exit_request status) d.requests slots b a) s)

-- A step: a round of the loop in which no `fork` fails, or a signal.
pub data Step (host : Host) : Daemon → Daemon → Type 0 where
  round :
      {d d' : Daemon} (pid : ℤ) (early : Option RequestStatus) (o : Outcome)
      → loop_round host (forked pid early) d ≡ some (o, d')
      → Step host d d'
  child :
      {d d' : Daemon} (pid : ℤ) (status : Option ℕ)
      → child_exited pid status d ≡ some d'
      → Step host d d'
  shutdown : {d : Daemon} → Step host d (shutdown_asked d)

-- Any number of steps.
pub data Steps (host : Host) : Daemon → Daemon → Type 0 where
  stay : {d : Daemon} → Steps host d d
  go : {d d' e : Daemon} → Step host d d' → Steps host d' e → Steps host d e

Step-IsSound :
    {host : Host} {d d' : Daemon}
    → Step host d d'
    → IsSound d.process d.requests
    → IsSound d'.process d'.requests
unfolding shutdown_asked
Step-IsSound {host} (round {d} {d'} pid early o e) s =
    loop_round-IsSound host pid early d (o, d') s e
Step-IsSound (child {d} {d'} pid status e) s = child_exited-IsSound pid status d d' s e
Step-IsSound shutdown s = s

-- If no two requests have the same lock file, the daemon holds the lock of each, there are five slots,
-- and no slot points to memory that has been freed, then all this stays so, however rounds of the loop
-- and signals follow each other, as long as no `fork` fails.
pub Steps-IsSound :
    {host : Host} {d d' : Daemon}
    → Steps host d d'
    → IsSound d.process d.requests
    → IsSound d'.process d'.requests
Steps-IsSound stay s = s
Steps-IsSound (go t u) s = Steps-IsSound u (Step-IsSound t s)
