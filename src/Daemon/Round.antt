-- ===== src/Daemon/Round.antt =====
-- src/daemon/main.c: a round of `loop` keeps one request for a lock file, and the steps of the daemon do.
use srepod.Prelude.{
  ℕ, suc, ◌+◌, none, some, List, [], ◌∷◌, ◌≡◌, inl, inr, refl, arith, ◌∙◌, ap, sym, if◌then◌else◌,
  subst-some, set, length-set, All, CString, str_eq, str_eq_iff, Bool-cases, >>=-eq-some,
}
use srepod.HashTable.Shape.{hash_del-IsHashTable, hash_val-hash_del}
use srepod.HashTable.{hash_val, hash_del}
use srepod.Session.Locking.{IsHeld, IsNext, Grown}
use srepod.Session.{Process, Session, unprocessed_types, close_lock}
use srepod.Daemon.Check.{count_lock}
use srepod.Daemon.Loop.{IsAlive, IsSound}
use srepod.Daemon.Slots.{pending, Request, Slot, free, live, dangling, find_free, minus_one}
use srepod.Daemon.{get_request}

pub Grown-IsSound :
    (p q : Process) (slots : List Slot) → Grown p q → IsSound p slots → IsSound q slots
Grown-IsSound p q slots g s = record {
  shape = g.shape s.shape;
  size = s.size;
  alive = s.alive;
  locks = λ x. elim (s.locks x) [ inl c ↦ inl c | inr (c, (v, h)) ↦ inr (c, g.held x v h) ];
}

-- The lock that `next_lock` returns has no request.
pub count_lock-IsNext :
    (p q : Process) (st : Session) (slots : List Slot)
    → IsSound p slots
    → IsNext unprocessed_types p q st
    → count_lock st.lockfile slots ≡ 0
count_lock-IsNext p q st slots s n = elim (s.locks st.lockfile) [
  | inl c ↦ c
  | inr (c, (v, h)) ↦ let k : some none ≡ some (some v) = sym n.free ∙ h in absurd (cc)
]

-- What it takes for the slot `i` to be given to a request.
abbrev IsGiven : List Slot → Request → ℕ → Type 0
IsGiven slots r i =
    (All IsAlive slots → All IsAlive (set slots i (live r)))
    × ((q : CString)
        → count_lock q (set slots i (live r))
          ≡ (if str_eq r.session.lockfile q then 1 else 0) + count_lock q slots)

IsGiven-cons :
    (s : Slot) (slots : List Slot) (r : Request) (i : ℕ)
    → IsGiven slots r i
    → IsGiven (s ∷ slots) r (suc i)
unfolding count_lock
IsGiven-cons free slots r i (c, d) = ((λ a. (tt, c a.1)), d)
IsGiven-cons dangling slots r i (c, d) = ((λ a. absurd a.0), d)
IsGiven-cons (live x) slots r i (c, d) = ((λ a. (tt, c a.1)), (λ q. omega (arith, d q)))

find_free-IsGiven :
    (slots : List Slot) (i : ℕ) (r : Request) → find_free slots ≡ some i → IsGiven slots r i
unfolding find_free count_lock
find_free-IsGiven [] i r e = absurd (cc)
find_free-IsGiven (free ∷ slots) i r e =
    subst-some (IsGiven (free ∷ slots) r) e ((λ a. (tt, a.1)), (λ q. refl))
find_free-IsGiven (live x ∷ slots) i r e =
    let (j, a, b) = >>=-eq-some (find_free slots) _ e in
    subst-some (IsGiven (live x ∷ slots) r) b
      (IsGiven-cons (live x) slots r j (find_free-IsGiven slots j r a))
find_free-IsGiven (dangling ∷ slots) i r e =
    let (j, a, b) = >>=-eq-some (find_free slots) _ e in
    subst-some (IsGiven (dangling ∷ slots) r) b
      (IsGiven-cons dangling slots r j (find_free-IsGiven slots j r a))

pub get_request-IsSound :
    (p : Process) (st : Session) (slots slots' : List Slot) (i : ℕ)
    → IsSound p slots
    → count_lock st.lockfile slots ≡ 0
    → IsHeld p st.lockfile
    → get_request slots st ≡ some (i, slots')
    → IsSound p slots'
unfolding get_request
get_request-IsSound p st slots slots' i s c h e =
    let (j, a, b) = >>=-eq-some (find_free slots) _ e in
    let r : Request = record { pid = minus_one; status = pending; session = st } in
    let (al, ct) = find_free-IsGiven slots j r a in
    subst-some (λ x. IsSound p x.1) b
      (record {
        shape = s.shape;
        size = length-set slots j (live r) ∙ s.size;
        alive = al s.alive;
        locks = λ q. elim (Bool-cases (str_eq st.lockfile q)) [
          | inl k ↦
              let f : st.lockfile ≡ q = (str_eq_iff st.lockfile q).0 k in
              let z : count_lock q slots ≡ 0 = rw f at c in
              inr (ct q ∙ ground arith, (h.0, ap (hash_val p.lock_hash) (sym f) ∙ h.1))
          | inr k ↦ elim (s.locks q) [
            | inl z ↦ inl (ct q ∙ ground arith)
            | inr (z, w) ↦ inr (ct q ∙ ground arith, w)
          ]
        ];
      })

close_lock_inv :
    (p q : Process) (st : Session)
    → close_lock p st ≡ some q
    → hash_del p.lock_hash st.lockfile ≡ some q.lock_hash
unfolding close_lock
close_lock_inv p q st e =
    let (h, a, b) = >>=-eq-some (hash_del p.lock_hash st.lockfile) _ e in a ∙ ground arith

-- A lock that has no request is given back.
pub close_lock-IsSound :
    (p q : Process) (st : Session) (slots : List Slot)
    → IsSound p slots
    → count_lock st.lockfile slots ≡ 0
    → close_lock p st ≡ some q
    → IsSound q slots
close_lock-IsSound p q st slots s c e =
    let d = close_lock_inv p q st e in
    record {
      shape = hash_del-IsHashTable p.lock_hash st.lockfile s.shape d;
      size = s.size;
      alive = s.alive;
      locks = λ x. elim (Bool-cases (str_eq st.lockfile x)) [
        | inl k ↦ let f : st.lockfile ≡ x = (str_eq_iff st.lockfile x).0 k in inl (rw f at c)
        | inr k ↦
            let v : hash_val q.lock_hash x ≡ hash_val p.lock_hash x =
              hash_val-hash_del p.lock_hash st.lockfile x s.shape d ∙ ground arith in
            elim (s.locks x) [ inl z ↦ inl z | inr (z, (w, h)) ↦ inr (z, (w, v ∙ h)) ]
      ];
    }
