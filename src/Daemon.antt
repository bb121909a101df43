-- ===== src/Daemon.antt =====
-- src/daemon/main.c and src/daemon/child.c: the slots of the requests that are processed, the loop
-- that fills them from the lock files, and the signals that say that a child has finished.
pub mod Slots
pub mod Child
pub mod Check
pub mod Locks
pub mod Loop
pub mod Round
pub mod Steps
pub mod Race
use srepod.Prelude.{
  ℕ, zero, suc, ◌+◌, Bool, true, false, ◌&&◌, Option, none, some, List, [], ◌∷◌, ◌==◌,
  if◌then◌else◌, ◌>>=◌, ℤ, pos, negsuc, set,
}
use srepod.Session.{Host, Session, Process, unprocessed_types, next_lock, release_lock, close_lock}
use srepod.Daemon.Slots.{
  RequestStatus, pending, finished, failed, Request, Slot, free, live, dangling, find_free,
  same_pid, minus_one,
}

-- The slots, the process that holds the locks, the variable `session` of `loop`, and the flag that
-- SIGUSR1 sets.
pub record Daemon : Type 0 where
  pub requests : List Slot
  pub process : Process
  pub session : Session
  pub do_shutdown : Bool

unfoldable pub is_done : RequestStatus → Bool
is_done pending = false
is_done finished = true
is_done failed = true

-- A request that has finished or failed: `release_lock`, `free_request`, and the slot set to `NULL`.
-- Any other is pending, and counted.
unfoldable pub check_request : Bool → Process → Request → Option (ℕ × Process × Slot)
check_request true p r = do q ← release_lock p r.session; some (0, q, free)
check_request false p r = some (1, p, live r)

unfoldable pub check_slot : Process → Slot → Option (ℕ × Process × Slot)
check_slot p free = some (0, p, free)
check_slot p dangling = none
check_slot p (live r) = check_request (is_done r.status) p r

-- `check_status`: the number of pending requests, and what is left. `none` is a read of memory that
-- has been freed, or an access out of bounds of `lock_hash`.
unfoldable pub check_status : Process → List Slot → Option (ℕ × Process × List Slot)
check_status p [] = some (0, p, [])
check_status p (s ∷ slots) = do
  (k, q, s') ← check_slot p s
  (n, p', rest) ← check_status q slots
  some (k + n, p', s' ∷ rest)

-- `set_status`: the first slot with the pid; the Boolean says whether there is one.
unfoldable pub set_status : ℤ → RequestStatus → List Slot → Option (Bool × List Slot)
set_status pid s [] = some (false, [])
set_status pid s (free ∷ slots) = do (b, rest) ← set_status pid s slots; some (b, free ∷ rest)
set_status pid s (dangling ∷ slots) = none
set_status pid s (live r ∷ slots) =
    let rest = set_status pid s slots in
    if same_pid r.pid pid
    then some (true, live (record r { status = s }) ∷ slots)
    else rest >>= (λ x. some (x.0, live r ∷ x.1))

-- `get_request`: the index of the slot that now holds the session; `none` is `NULL`.
unfoldable pub get_request : List Slot → Session → Option (ℕ × List Slot)
get_request slots session = do
  i ← find_free slots
  some (i, set slots i (live (record { pid = minus_one; status = pending; session = session })))

-- What `fork` comes to in the parent: it fails; or there is a child, of which SIGCHLD may arrive, with
-- a status, before its pid is stored.
pub data Fork : Type 0 where
  fork_failed : Fork
  forked : ℤ → Option RequestStatus → Fork

pub data Outcome : Type 0 where
  exited slept went_on : Outcome

-- The handler of SIGCHLD, if the signal arrives before the pid is stored.
unfoldable pub early_signal : ℤ → Option RequestStatus → List Slot → Option (List Slot)
early_signal pid none slots = some slots
early_signal pid (some s) slots = do (_, slots') ← set_status pid s slots; some slots'

-- `r->pid = childpid`
unfoldable pub store_pid : List Slot → ℕ → ℤ → List Slot
store_pid [] i pid = []
store_pid (live r ∷ slots) zero pid = live (record r { pid = pid }) ∷ slots
store_pid (s ∷ slots) zero pid = s ∷ slots
store_pid (s ∷ slots) (suc i) pid = s ∷ store_pid slots i pid

-- The end of a round that has given the slot `i` to a lock. Where `fork` fails the memory of the
-- request is freed, but the slot keeps the pointer.
unfoldable pub spawn_child : Fork → Daemon → ℕ → Option (Outcome × Daemon)
spawn_child fork_failed d i = do
  p ← close_lock d.process d.session
  some (slept, record d { process = p; requests = set d.requests i dangling })
spawn_child (forked pid early) d i = do
  slots ← early_signal pid early d.requests
  some (went_on, record d { requests = store_pid slots i pid })

-- A round with a lock for which a slot has been looked for.
unfoldable pub process_lock : Fork → Daemon → Option (ℕ × List Slot) → Option (Outcome × Daemon)
process_lock fork d none = do
  p ← close_lock d.process d.session
  some (slept, record d { process = p })
process_lock fork d (some (i, slots)) = spawn_child fork (record d { requests = slots }) i

unfoldable pub look_for_lock : Host → Fork → Daemon → Option (Outcome × Daemon)
look_for_lock host fork d = do
  (found, p, st) ← next_lock host unprocessed_types d.process d.session
  let d' : Daemon = record d { process = p; session = st }
  if found then process_lock fork d' (get_request d.requests st) else some (slept, d')

-- A round of `loop`.
unfoldable pub loop_round : Host → Fork → Daemon → Option (Outcome × Daemon)
loop_round host fork d = do
  (n, p, slots) ← check_status d.process d.requests
  let d' : Daemon = record d { process = p; requests = slots }
  if d.do_shutdown && n == 0 then some (exited, d') else look_for_lock host fork d'

-- `sig_handler`: a child that has exited, with its status or by a signal, and SIGUSR1.
unfoldable pub exit_request : Option ℕ → RequestStatus
exit_request none = failed
exit_request (some exit_status) = if exit_status == 0 then finished else failed

unfoldable pub child_exited : ℤ → Option ℕ → Daemon → Option Daemon
child_exited pid exit_status d = do
  (_, slots) ← set_status pid (exit_request exit_status) d.requests
  some (record d { requests = slots })

unfoldable pub shutdown_asked : Daemon → Daemon
shutdown_asked d = record d { do_shutdown = true }

abbrev pub max_requests : ℕ
max_requests = 5
