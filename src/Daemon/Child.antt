-- ===== src/Daemon/Child.antt =====
-- src/daemon/child.c, and the child's part of `spawn_child` in src/daemon/main.c: the process that
-- makes the cache of one request.
use srepod.Prelude.{
  ℕ, ◌/◌, ◌%◌, Bool, true, false, ◌&&◌, Option, none, some, ◌++◌, ◌≡◌, inl, inr, ◌==◌, ltb, arith,
  ap, subst-some, if◌then◌else◌, ◌>>=◌, is_nil, is_some, CString, codes, length, ℤ, pos, negsuc,
  scan_int, Bool-cases, >>=-eq-some,
}
use srepod.Config.{Config, config_param}
use srepod.Session.Files.{Disk, find_name}
use srepod.Session.{Process, Session, release_lock, read_lock}
use srepod.Daemon.Check.{unlinked}

-- What the child asks of its host: its home, the configuration, the wait status of a command that it runs
-- with what the command leaves on the disk, and whether its calls succeed.
pub record ChildHost : Type 0 where
  pub gwhome : CString
  pub config : Config
  pub system : CString → Disk → ℕ × Disk
  pub chdir : Bool
  pub setgid : ℤ → Bool
  pub setuid : ℤ → Bool

-- `"%s/bin/%s %s %s"`
abbrev pub command_of : ChildHost → CString → Session → CString
command_of c cache_app st =
    c.gwhome ++ codes "/bin/" ++ cache_app ++ codes " " ++ st.database ++ codes " " ++ st.url

-- `WEXITSTATUS`, of an `int` read as an unsigned number: what the command exits with, and 0 for a
-- command that a signal has ended.
unfoldable pub exit_status : ℕ → ℕ
exit_status status = status / 256 % 256

-- The command has run; where its exit status is not 0 the lock is read again.
unfoldable pub command_result : Session → ℕ × Disk → Option (Bool × Disk)
command_result st (status, d) =
    if exit_status status == 0 then some (true, d) else read_lock d st >>= (λ _. some (false, d))

-- `process_request`: whether it returns 0, and the disk behind it. `none` is an access out of bounds:
-- of the table of the configuration, of `cmdstring`, or of a field of the session.
unfoldable pub process_request : ChildHost → Disk → Session → Option (Bool × Disk)
process_request c d st =
    if is_nil st.url
    then some (false, d)
    else if is_nil st.database
    then some (false, d)
    else config_param c.config (codes "create_cache") >>= (λ cache_app.
      if is_nil cache_app
      then some (false, d)
      else if ltb 2047 (length (command_of c cache_app st))
      then none
      else command_result st (c.system (command_of c cache_app st) d))

-- `atoi`
unfoldable pub atoi : CString → ℤ
atoi s = elim (scan_int (length s) s) [ none ↦ pos 0 | some (n, _) ↦ n ]

-- An id that is not negative is set.
unfoldable pub set_id : (ℤ → Bool) → ℤ → Bool
set_id call (pos n) = call (pos n)
set_id call (negsuc n) = true

-- The child has an answer of `process_request`: on failure the lock is released if there is a database.
unfoldable pub finish_child : Process → Session → Bool → Option (ℕ × Process)
finish_child p st true = some (0, p)
finish_child p st false =
    if is_some (find_name st.database p.disk.names)
    then release_lock p st >>= (λ q. some (1, q))
    else some (1, p)

-- The child has its directory and its ids, or it has not.
unfoldable pub start_child : Bool → ChildHost → Process → Session → Option (ℕ × Process)
start_child false c p st = some (2, p)
start_child true c p st = do
  (ok, d) ← process_request c p.disk st
  finish_child (record p { disk = d }) st ok

-- The child's part of `spawn_child`: its exit status and what it leaves, of which the disk is shared.
unfoldable pub run_child : ChildHost → Process → Session → Option (ℕ × Process)
run_child c p st = do
  uid ← config_param c.config (codes "uid")
  gid ← config_param c.config (codes "gid")
  start_child (c.chdir && set_id c.setgid (atoi gid) && set_id c.setuid (atoi uid)) c p st

-- What a child that exits has done: with 0 it has run its command, of which the exit status is 0; with 1 it has deleted
-- its lock file, or there is no database; with 2 it has done nothing.
pub data ChildExit (c : ChildHost) (p : Process) (st : Session) : ℕ → Process → Type 0 where
  served :
      {q : Process} (cache_app : CString) (status : ℕ)
      → config_param c.config (codes "create_cache") ≡ some cache_app
      → c.system (command_of c cache_app st) p.disk ≡ (status, q.disk)
      → exit_status status ≡ 0
      → ChildExit c p st 0 q
  released : {q : Process} → find_name st.lockfile q.disk.names ≡ none → ChildExit c p st 1 q
  no_database : {q : Process} → find_name st.database q.disk.names ≡ none → ChildExit c p st 1 q
  not_started : ChildExit c p st 2 p

finish_child-failed :
    (c : ChildHost) (p₀ p : Process) (st : Session) (n : ℕ) (q : Process)
    → finish_child p st false ≡ some (n, q)
    → ChildExit c p₀ st n q
unfolding finish_child
finish_child-failed c p₀ p st n q e =
    elim (Bool-cases (is_some (find_name st.database p.disk.names))) [
      | inl k ↦
          let (r, a, b) = >>=-eq-some (release_lock p st) _ (rw k at e) in
          subst-some (λ x. ChildExit c p₀ st x.0 x.1) b (released (unlinked p r st a))
      | inr k ↦ subst-some (λ x. ChildExit c p₀ st x.0 x.1) (rw k at e) (no_database (ground arith))
    ]

command_result-true :
    (st : Session) (r : ℕ × Disk) (d : Disk)
    → command_result st r ≡ some (true, d)
    → (exit_status r.0 ≡ 0) × (r.1 ≡ d)
unfolding command_result
command_result-true st (n, d') d e = elim (Bool-cases (exit_status n == 0)) [
  | inl k ↦ (ground arith, ground arith)
  | inr k ↦ let (s, a, b) = >>=-eq-some (read_lock d' st) _ (rw k at e) in absurd (cc)
]

process_request-true :
    (c : ChildHost) (d d' : Disk) (st : Session)
    → process_request c d st ≡ some (true, d')
    → (cache_app : CString) × (config_param c.config (codes "create_cache") ≡ some cache_app)
      × (exit_status (c.system (command_of c cache_app st) d).0 ≡ 0)
      × ((c.system (command_of c cache_app st) d).1 ≡ d')
unfolding process_request
process_request-true c d d' st e = elim (Bool-cases (is_nil st.url)) [
  | inl k ↦ absurd (ground arith)
  | inr k ↦ elim (Bool-cases (is_nil st.database)) [
    | inl l ↦ absurd (ground arith)
    | inr l ↦
        let (cache_app, a, b) =
          >>=-eq-some (config_param c.config (codes "create_cache")) _ (rw (k, l) at e) in
        elim (Bool-cases (is_nil cache_app)) [
          | inl m ↦ absurd (ground arith)
          | inr m ↦ elim (Bool-cases (ltb 2047 (length (command_of c cache_app st)))) [
            | inl n ↦ absurd (ground arith)
            | inr n ↦
                let (z, w) =
                  command_result-true st (c.system (command_of c cache_app st) d) d'
                    (rw (m, n) at b) in
                (cache_app, a, z, w)
          ]
        ]
  ]
]

finish_child-ChildExit :
    (c : ChildHost) (p : Process) (st : Session) (ok : Bool) (d : Disk) (n : ℕ) (q : Process)
    → process_request c p.disk st ≡ some (ok, d)
    → finish_child (record p { disk = d }) st ok ≡ some (n, q)
    → ChildExit c p st n q
unfolding finish_child
finish_child-ChildExit c p st false d n q a b =
    finish_child-failed c p (record p { disk = d }) st n q b
finish_child-ChildExit c p st true d n q a b =
    let (cache_app, f, z, w) = process_request-true c p.disk d st a in
    let status = (c.system (command_of c cache_app st) p.disk).0 in
    subst-some (λ x. ChildExit c p st x.0 x.1) b
      (served cache_app status f (ap (λ (x : Disk). (status, x)) w) z)

start_child-ChildExit :
    (b : Bool) (c : ChildHost) (p : Process) (st : Session) (n : ℕ) (q : Process)
    → start_child b c p st ≡ some (n, q)
    → ChildExit c p st n q
unfolding start_child
start_child-ChildExit false c p st n q e = subst-some (λ x. ChildExit c p st x.0 x.1) e not_started
start_child-ChildExit true c p st n q e =
    let ((ok, d), a, b) = >>=-eq-some (process_request c p.disk st) _ e in
    finish_child-ChildExit c p st ok d n q a b

-- A child exits with 0 only when its command has run on the disk that it found, and has exited with 0
-- or been ended by a signal, and with the disk that the command has left; with 1 only when its lock file has no name any more, or there is
-- no database; and with 2 when it has changed nothing.
pub run_child-ChildExit :
    (c : ChildHost) (p : Process) (st : Session) (n : ℕ) (q : Process)
    → run_child c p st ≡ some (n, q)
    → ChildExit c p st n q
unfolding run_child
run_child-ChildExit c p st n q e =
    let (uid, a, b) = >>=-eq-some (config_param c.config (codes "uid")) _ e in
    let (gid, f, g) = >>=-eq-some (config_param c.config (codes "gid")) _ b in
    start_child-ChildExit (c.chdir && set_id c.setgid (atoi gid) && set_id c.setuid (atoi uid)) c p
      st n q g
