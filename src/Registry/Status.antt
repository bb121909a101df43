-- ===== src/Registry/Status.antt =====
-- src/registry/registry.c: its environment beside that of the gateway, and the status of a new lock.
use srepod.Prelude.{
  ℕ, Bool, true, not, ◌&&◌, Option, none, some, ◌≡◌, ◌↔◌, inl, inr, refl, arith, ◌>>=◌, length, ltb,
  CString, codes, Option-cases,
}
use srepod.Gateway.Env.{has_secure_env, method_check, path_info_check}
use srepod.Gateway.Uri.{accepted, is_uri}
use srepod.Gateway.{pass, Environment}
use srepod.Session.Files.{Disk}
use srepod.Session.Locked.{open_lock-create_lock}
use srepod.Session.ReadWrite.{IsWord, read_lock-lock_text}
use srepod.Session.{Host, Session, create_lock, lock_name, lock_prefix, clip}
use srepod.Registry.{valid_env, valid_method, lockstatus, status_text}

-- A path that the gateway accepts for its characters.
abbrev pub IsUriPath : Option CString → Type 0
IsUriPath none = Unit
IsUriPath (some p) = is_uri p ≡ accepted

path_iff :
    (o : Option CString) (b : Bool)
    → (b && elim o [ none ↦ true | some path ↦ not (ltb 1024 (length path)) ] ≡ true) × IsUriPath o
      ↔ ((b ≡ true) × (path_info_check o ≡ pass))
unfolding path_info_check
path_iff none b = ((λ x. (ground (arith, x.0), refl)), (λ x. (ground (arith, x.0), tt)))
path_iff (some p) b = (
  (λ x. (ground (arith, x.0), ground (arith, x.0, x.1))),
  (λ x. (ground (arith, x.0, x.1), ground (arith, x.1))),
)

method_iff :
    (env : Environment) (p : CString)
    → (method_check env p ≡ pass)
      ↔ ((valid_method env p ≡ true) × (path_info_check (env (codes "PATH_INFO")) ≡ pass))
unfolding method_check valid_method
method_iff env p = ((λ x. (ground (arith, x), ground (arith, x))), (λ x. ground (arith, x.0, x.1)))

-- The gateway accepts an environment exactly if the registry does, and the path, if there is one, is
-- accepted by `is_uri`.
pub has_secure_env-valid_env :
    (env : Environment)
    → (has_secure_env env ≡ pass) ↔ ((valid_env env ≡ true) × IsUriPath (env (codes "PATH_INFO")))
unfolding has_secure_env valid_env
has_secure_env-valid_env env = elim (Option-cases (env (codes "REQUEST_METHOD"))) [
  | inl n ↦ ((λ x. absurd (ground arith)), (λ x. absurd (ground (arith, x.0))))
  | inr (p, n) ↦
      let m = method_iff env p in
      let q = path_iff (env (codes "PATH_INFO")) (valid_method env p) in
      (
        (λ x. rw (n, valid_env) (q.1 (m.0 (rw (n, has_secure_env) at x)))),
        (λ x. rw (n, has_secure_env) (m.1 (q.0 (rw (n, valid_env) at x)))),
      )
]

-- Where the lock of a database has just been created for a url, and both are words that fit in their
-- fields, the registry shows that the request is pending, and asks for a refresh.
pub lockstatus-create_lock :
    (host : Host) (now : ℕ) (d d' : Disk) (dorefresh : Bool) (dbfile url : CString)
    (st st₀ : Session)
    → create_lock host now d dbfile url ≡ some (st, d')
    → IsWord dbfile
    → IsWord url
    → lockstatus host d' dorefresh st₀ dbfile
      ≡ some (true, some (codes "request is pending...please wait..."))
unfolding lockstatus status_text
lockstatus-create_lock host now d d' dorefresh dbfile url st st₀ e a b =
    let (o, f) = open_lock-create_lock host now d d' dbfile url st st₀ e in
    let st₁ : Session = record st₀ {
      lockfile = clip (lock_name host dbfile lock_prefix);
      fd = length d.files;
    } in
    rw (o, lockstatus, read_lock-lock_text d' now 0 st₁ dbfile url a b (omega arith) f, ◌>>=◌) refl
