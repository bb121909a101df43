-- ===== src/Daemon/Locks.antt =====
-- src/daemon/main.c: the requests in the slots hold their locks, each of its own, and `check_status`
-- keeps it so.
use srepod.Prelude.{
  ℕ, ◌≤◌, none, some, List, ◌∷◌, ◌≡◌, ◌⊎◌, inl, inr, refl, arith, ◌∙◌, ap, sym, if◌then◌else◌,
  CString, str_eq, str_eq_iff, str_eq_refl, Bool-cases,
}
use srepod.HashTable.Shape.{IsHashTable, hash_del-IsHashTable, hash_val-hash_del}
use srepod.HashTable.{hash_val}
use srepod.Session.Locking.{IsHeld}
use srepod.Session.{Process, Session, release_lock}
use srepod.Daemon.Check.{count_lock, Round, empty, waits, done, Rounds, end, next, release_lock_inv}
use srepod.Daemon.Slots.{Request, Slot, live}

-- The number `n` of requests for the lock file `q`, of which the process holds the lock if there is one.
abbrev pub LockState : Process → CString → ℕ → Type 0
LockState p q n = (n ≡ 0) ⊎ (n ≡ 1) × IsHeld p q

abbrev pub Locks : Process → List Slot → Type 0
Locks p slots = (q : CString) → LockState p q (count_lock q slots)

-- What `hash_val` finds under the other names when a lock is released.
pub release_lock-hash_val :
    (p p' : Process) (st : Session) (q : CString)
    → IsHashTable p.lock_hash
    → release_lock p st ≡ some p'
    → hash_val p'.lock_hash q ≡ (if str_eq st.lockfile q then some none else hash_val p.lock_hash q)
release_lock-hash_val p p' st q w e =
    hash_val-hash_del p.lock_hash st.lockfile q w (release_lock_inv p p' st e).0

pub Round-IsHashTable :
    {p p' : Process} {s s' : Slot} {n : ℕ}
    → Round p s n p' s'
    → IsHashTable p.lock_hash
    → IsHashTable p'.lock_hash
Round-IsHashTable empty w = w
Round-IsHashTable (waits d) w = w
Round-IsHashTable (done {p} {q} {r} d k) w =
    hash_del-IsHashTable p.lock_hash r.session.lockfile w (release_lock_inv p q r.session k).0

pub Rounds-IsHashTable :
    {p p' : Process} {slots slots' : List Slot} {n : ℕ}
    → Rounds p slots n p' slots'
    → IsHashTable p.lock_hash
    → IsHashTable p'.lock_hash
Rounds-IsHashTable end w = w
Rounds-IsHashTable (next r t) w = Rounds-IsHashTable t (Round-IsHashTable r w)

Rounds-count_lock :
    {p p' : Process} {slots slots' : List Slot} {n : ℕ} (q : CString)
    → Rounds p slots n p' slots'
    → count_lock q slots' ≤ count_lock q slots
unfolding count_lock
Rounds-count_lock q end = omega arith
Rounds-count_lock q (next empty t) = Rounds-count_lock q t
Rounds-count_lock q (next (waits d) t) = omega (arith, Rounds-count_lock q t)
Rounds-count_lock q (next (done d k) t) = omega (arith, Rounds-count_lock q t)

-- A name that no request has keeps its value.
Rounds-hash_val :
    {p p' : Process} {slots slots' : List Slot} {n : ℕ} (q : CString)
    → Rounds p slots n p' slots'
    → IsHashTable p.lock_hash
    → count_lock q slots ≡ 0
    → hash_val p'.lock_hash q ≡ hash_val p.lock_hash q
unfolding count_lock
Rounds-hash_val q end w c = refl
Rounds-hash_val q (next empty t) w c = Rounds-hash_val q t w c
Rounds-hash_val q (next (waits d) t) w c = Rounds-hash_val q t w (omega arith)
Rounds-hash_val q (next (done {p} {q = p₁} {r} d k) t) w c =
    Rounds-hash_val q t (Round-IsHashTable (done {r = r} d k) w) (omega arith)
    ∙ release_lock-hash_val p p₁ r.session q w k
    ∙ ground arith

Locks-tail :
    (p : Process) (r : Request) (slots : List Slot) → Locks p (live r ∷ slots) → Locks p slots
unfolding count_lock
Locks-tail p r slots l q = elim (l q) [
  | inl e ↦ inl (omega arith)
  | inr (e, h) ↦ elim (Bool-cases (str_eq r.session.lockfile q)) [
    | inl k ↦ inl (ground arith)
    | inr k ↦ inr (ground arith, h)
  ]
]

Locks-head :
    (p : Process) (r : Request) (slots : List Slot)
    → Locks p (live r ∷ slots)
    → (count_lock r.session.lockfile slots ≡ 0) × IsHeld p r.session.lockfile
unfolding count_lock
Locks-head p r slots l =
    let s = str_eq_refl r.session.lockfile in
    elim (l r.session.lockfile) [ inl e ↦ absurd (ground arith) | inr (e, h) ↦ (ground arith, h) ]

-- A request leaves with its lock.
Locks-release :
    (p p' : Process) (r : Request) (slots : List Slot)
    → IsHashTable p.lock_hash
    → release_lock p r.session ≡ some p'
    → Locks p (live r ∷ slots)
    → Locks p' slots
unfolding count_lock
Locks-release p p' r slots w k l q = elim (Bool-cases (str_eq r.session.lockfile q)) [
  | inl e ↦
      let f : r.session.lockfile ≡ q = (str_eq_iff r.session.lockfile q).0 e in
      inl (rw f at ((Locks-head p r slots l).0))
  | inr e ↦
      let v : hash_val p'.lock_hash q ≡ hash_val p.lock_hash q =
        release_lock-hash_val p p' r.session q w k ∙ ground arith in
      elim (Locks-tail p r slots l q) [ inl c ↦ inl c | inr (c, (x, h)) ↦ inr (c, (x, v ∙ h)) ]
]

Locks-cons :
    (p : Process) (r : Request) (slots : List Slot)
    → count_lock r.session.lockfile slots ≡ 0
    → IsHeld p r.session.lockfile
    → Locks p slots
    → Locks p (live r ∷ slots)
unfolding count_lock
Locks-cons p r slots c h l q = elim (Bool-cases (str_eq r.session.lockfile q)) [
  | inl e ↦
      let f : r.session.lockfile ≡ q = (str_eq_iff r.session.lockfile q).0 e in
      let c' : count_lock q slots ≡ 0 = rw f at c in
      inr (ground arith, (h.0, ap (hash_val p.lock_hash) (sym f) ∙ h.1))
  | inr e ↦ elim (l q) [ inl c ↦ inl (ground arith) | inr (c, k) ↦ inr (ground arith, k) ]
]

pub Rounds-Locks :
    {p p' : Process} {slots slots' : List Slot} {n : ℕ}
    → Rounds p slots n p' slots'
    → IsHashTable p.lock_hash
    → Locks p slots
    → Locks p' slots'
unfolding count_lock
Rounds-Locks end w l = l
Rounds-Locks (next empty t) w l = Rounds-Locks t w l
Rounds-Locks (next {p' = p₁} {slots} {rest} (waits {p} {r} d) t) w l =
    let (c, h) = Locks-head p r slots l in
    Locks-cons p₁ r rest (omega (arith, Rounds-count_lock r.session.lockfile t, c))
      (h.0, Rounds-hash_val r.session.lockfile t w c ∙ h.1)
      (Rounds-Locks t w (Locks-tail p r slots l))
Rounds-Locks (next {slots} (done {p} {q} {r} d k) t) w l =
    Rounds-Locks t (Round-IsHashTable (done {r = r} d k) w) (Locks-release p q r slots w k l)
