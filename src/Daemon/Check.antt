-- ===== src/Daemon/Check.antt =====
-- src/daemon/main.c: what `check_status` leaves of the slots, of the table of locks and of the spool.
use srepod.Prelude.{
  subst-some, ℕ, zero, suc, ◌+◌, Bool, true, false, Option, none, some, List, [], ◌∷◌, ◌≡◌, refl,
  arith, ◌∙◌, ap, if◌then◌else◌, length, get_elem?, All, CString, str_eq, str_eq_refl, >>=-eq-some,
}
use srepod.HashTable.{hash_del}
use srepod.Session.Files.{find_name, unlink_path, find_name-remove_name}
use srepod.Session.{Process, Session, release_lock}
use srepod.Daemon.Slots.{Request, Slot, free, live, dangling}
use srepod.Daemon.{is_done, check_request, check_slot, check_status}

-- How many requests there are.
unfoldable pub count_live : List Slot → ℕ
count_live [] = 0
count_live (free ∷ slots) = count_live slots
count_live (dangling ∷ slots) = count_live slots
count_live (live r ∷ slots) = count_live slots + 1

-- How many requests there are for a lock file.
unfoldable pub count_lock : CString → List Slot → ℕ
count_lock q [] = 0
count_lock q (live r ∷ slots) = (if str_eq r.session.lockfile q then 1 else 0) + count_lock q slots
count_lock q (s ∷ slots) = count_lock q slots

-- A slot that is free, or holds a request that is not done.
abbrev pub IsPending : Slot → Type 0
IsPending free = Unit
IsPending (live r) = is_done r.status ≡ false
IsPending dangling = ⊥

-- What a round does to the slot `s`: it keeps a slot that is free or pending, and frees one that is
-- done, whose lock is released.
pub data Round : Process → Slot → ℕ → Process → Slot → Type 0 where
  empty : {p : Process} → Round p free 0 p free
  waits : {p : Process} {r : Request} → is_done r.status ≡ false → Round p (live r) 1 p (live r)
  done :
      {p q : Process} {r : Request}
      → is_done r.status ≡ true
      → release_lock p r.session ≡ some q
      → Round p (live r) 0 q free

-- The loop, slot by slot.
pub data Rounds : Process → List Slot → ℕ → Process → List Slot → Type 0 where
  end : {p : Process} → Rounds p [] 0 p []
  next :
      {p q p' : Process} {s s' : Slot} {slots rest : List Slot} {k n : ℕ}
      → Round p s k q s'
      → Rounds q slots n p' rest
      → Rounds p (s ∷ slots) (k + n) p' (s' ∷ rest)

check_request-Round :
    (b : Bool) (p : Process) (r : Request) (k : ℕ) (q : Process) (s' : Slot)
    → is_done r.status ≡ b
    → check_request b p r ≡ some (k, q, s')
    → Round p (live r) k q s'
unfolding check_request
check_request-Round true p r k q s' d e =
    let (q', a, b) = >>=-eq-some (release_lock p r.session) _ e in
    subst-some (λ x. Round p (live r) x.0 x.1 x.2) b (done d a)
check_request-Round false p r k q s' d e =
    subst-some (λ x. Round p (live r) x.0 x.1 x.2) e (waits d)

check_slot-Round :
    (p : Process) (s : Slot) (k : ℕ) (q : Process) (s' : Slot)
    → check_slot p s ≡ some (k, q, s')
    → Round p s k q s'
unfolding check_slot
check_slot-Round p free k q s' e = subst-some (λ x. Round p free x.0 x.1 x.2) e empty
check_slot-Round p dangling k q s' e = absurd (cc)
check_slot-Round p (live r) k q s' e = check_request-Round (is_done r.status) p r k q s' refl e

pub check_status-Rounds :
    (p : Process) (slots : List Slot) (n : ℕ) (p' : Process) (slots' : List Slot)
    → check_status p slots ≡ some (n, p', slots')
    → Rounds p slots n p' slots'
unfolding check_status
check_status-Rounds p [] n p' slots' e = subst-some (λ x. Rounds p [] x.0 x.1 x.2) e end
check_status-Rounds p (s ∷ slots) n p' slots' e =
    let ((k, q, s'), a, b) = >>=-eq-some (check_slot p s) _ e in
    let ((m, p₁, rest), c, d) = >>=-eq-some (check_status q slots) _ b in
    subst-some (λ x. Rounds p (s ∷ slots) x.0 x.1 x.2) d
      (next (check_slot-Round p s k q s' a) (check_status-Rounds q slots m p₁ rest c))

pub release_lock_inv :
    (p q : Process) (st : Session)
    → release_lock p st ≡ some q
    → (hash_del p.lock_hash st.lockfile ≡ some q.lock_hash)
      × (q.disk ≡ unlink_path p.disk st.lockfile)
unfolding release_lock
release_lock_inv p q st e =
    let (h, a, b) = >>=-eq-some (hash_del p.lock_hash st.lockfile) _ e in
    (a ∙ ground arith, ground arith)

pub Rounds-count_live :
    {p p' : Process} {slots slots' : List Slot} {n : ℕ}
    → Rounds p slots n p' slots'
    → (n ≡ count_live slots') × (length slots' ≡ length slots) × All IsPending slots'
unfolding count_live
Rounds-count_live end = (refl, refl, tt)
Rounds-count_live (next empty t) =
    let (a, b, c) = Rounds-count_live t in (omega (arith, a), ap suc b, (tt, c))
Rounds-count_live (next (waits d) t) =
    let (a, b, c) = Rounds-count_live t in (omega (arith, a), ap suc b, (d, c))
Rounds-count_live (next (done d r) t) =
    let (a, b, c) = Rounds-count_live t in (omega (arith, a), ap suc b, (tt, c))

-- `check_status` returns the number of the requests that it leaves, all of which are pending. No slot
-- is added or lost.
pub check_status-count_live :
    (p p' : Process) (slots slots' : List Slot) (n : ℕ)
    → check_status p slots ≡ some (n, p', slots')
    → (n ≡ count_live slots') × (length slots' ≡ length slots) × All IsPending slots'
check_status-count_live p p' slots slots' n e =
    Rounds-count_live (check_status-Rounds p slots n p' slots' e)

Round-find_name :
    {p p' : Process} {s s' : Slot} {n : ℕ} (q : CString)
    → Round p s n p' s'
    → find_name q p.disk.names ≡ none
    → find_name q p'.disk.names ≡ none
unfolding unlink_path
Round-find_name q empty e = e
Round-find_name q (waits d) e = e
Round-find_name q (done {p} {q = p'} {r} d k) e =
    rw ((release_lock_inv p p' r.session k).1, find_name-remove_name) (ground (arith, e))

Rounds-find_name :
    {p p' : Process} {slots slots' : List Slot} {n : ℕ} (q : CString)
    → Rounds p slots n p' slots'
    → find_name q p.disk.names ≡ none
    → find_name q p'.disk.names ≡ none
Rounds-find_name q end e = e
Rounds-find_name q (next r t) e = Rounds-find_name q t (Round-find_name q r e)

-- What a request comes to: it is still there if it was pending; if it was done its slot is free, and
-- its lock file has no name any more.
pub data Settled (r : Request) (p' : Process) (s : Option Slot) : Type 0 where
  still : is_done r.status ≡ false → s ≡ some (live r) → Settled r p' s
  gone :
      is_done r.status ≡ true
      → s ≡ some free
      → find_name r.session.lockfile p'.disk.names ≡ none
      → Settled r p' s

pub unlinked :
    (p q : Process) (st : Session)
    → release_lock p st ≡ some q
    → find_name st.lockfile q.disk.names ≡ none
unfolding unlink_path
unlinked p q st e =
    rw ((release_lock_inv p q st e).1, find_name-remove_name) (rw (str_eq_refl st.lockfile) refl)

Rounds-Settled :
    {p p' : Process} {slots slots' : List Slot} {n : ℕ} (i : ℕ) (r : Request)
    → Rounds p slots n p' slots'
    → get_elem? slots i ≡ some (live r)
    → Settled r p' (get_elem? slots' i)
Rounds-Settled i r end e = absurd (cc)
Rounds-Settled (suc i) r (next a t) e = Rounds-Settled i r t e
Rounds-Settled zero r (next empty t) e = absurd (cc)
Rounds-Settled zero r (next (waits {r = r'} d) t) e =
    let k : r' ≡ r = cc in still (rw k at d) (ap (λ x. some (live x)) k)
Rounds-Settled zero r (next (done {p} {q} {r = r'} d l) t) e =
    let k : r' ≡ r = cc in
    gone (rw k at d) refl
      (rw k at (Rounds-find_name r'.session.lockfile t (unlinked p q r'.session l)))

-- Behind `check_status` each request is settled: one that was pending stays as it is, and one that has
-- finished or failed has left its slot, and its lock file is deleted.
pub check_status-Settled :
    (p p' : Process) (slots slots' : List Slot) (n i : ℕ) (r : Request)
    → check_status p slots ≡ some (n, p', slots')
    → get_elem? slots i ≡ some (live r)
    → Settled r p' (get_elem? slots' i)
check_status-Settled p p' slots slots' n i r e k =
    Rounds-Settled i r (check_status-Rounds p slots n p' slots' e) k
