-- ===== src/Session/Locked.antt =====
-- src/session/session.c: what `create_lock` and `release_lock` do to `is_locked`.
use srepod.Prelude.{
  ℕ, ◌&&◌, true, false, not, some, [], ◌∷◌, ◌++◌, ◌≡◌, refl, arith, inl, inr, is_some,
  if◌then◌else◌, ◌>>=◌, CString, str_eq, str_eq_refl, >>=-eq-some, Bool-cases, subst-some, length,
  length-append, get_elem?, pos,
}
use srepod.HashTable.{hash_del}
use srepod.Session.Files.{
  Disk, find_name, open_excl, unlink_path, write_file, find_name-remove_name, write_file-content,
}
use srepod.Session.{
  Host, can_lock, new_lock, lock_left, Session, Process, lock_name, lock_prefix, create_lock,
  is_locked, release_lock, open_lock, fopen_lock, lock_text, clip,
}

-- The lock file that `create_lock` and `is_locked` name for a database.
abbrev pub lock_of : Host → CString → CString
lock_of host dbfile = lock_name host dbfile lock_prefix

-- `create_lock` succeeds exactly where `is_locked` finds no lock for the database, and the host lets it.
pub create_lock-is_locked :
    (host : Host) (now : ℕ) (d : Disk) (dbfile url : CString)
    → is_some (create_lock host now d dbfile url)
      ≡ (can_lock host dbfile && not (is_locked host d dbfile))
unfolding create_lock new_lock is_locked open_excl
create_lock-is_locked host now d dbfile url = ground arith

-- Where there is a lock already `create_lock` leaves the disk as it is.
pub lock_left-is_locked :
    (host : Host) (d : Disk) (dbfile : CString)
    → is_locked host d dbfile ≡ true
    → lock_left host d dbfile ≡ d
unfolding lock_left is_locked open_excl
lock_left-is_locked host d dbfile l = ground (arith, l)

-- What has been created has been created by the body.
pub create_lock-new_lock :
    (host : Host) (now : ℕ) (d : Disk) (dbfile url : CString) {r : Session × Disk}
    → create_lock host now d dbfile url ≡ some r
    → new_lock host now d dbfile url ≡ some r
unfolding create_lock
create_lock-new_lock host now d dbfile url e = elim (Bool-cases (can_lock host dbfile)) [
  | inl k ↦ rw k at e
  | inr k ↦ absurd (let z = rw k at e in ground arith)
]

-- Behind a `create_lock` that succeeds the database is locked, and any other is as it was, unless
-- its lock file has the same name.
pub is_locked-create_lock :
    (host : Host) (now : ℕ) (d : Disk) (dbfile url q : CString) {st : Session} {d' : Disk}
    → create_lock host now d dbfile url ≡ some (st, d')
    → is_locked host d' q
      ≡ (if str_eq (lock_of host q) (lock_of host dbfile) then true else is_locked host d q)
unfolding create_lock new_lock is_locked open_excl write_file find_name
is_locked-create_lock host now d dbfile url q e = ground arith

release_lock-disk :
    (p p' : Process) (st : Session)
    → release_lock p st ≡ some p'
    → p'.disk ≡ unlink_path p.disk st.lockfile
unfolding release_lock
release_lock-disk p p' st e =
    let (h, _, k) = >>=-eq-some (hash_del p.lock_hash st.lockfile) _ e in ground arith

-- Behind a `release_lock` of the session that a database has the database is not locked, and any
-- other is as it was, unless its lock file has the same name.
pub is_locked-release_lock :
    (host : Host) (p p' : Process) (st : Session) (dbfile q : CString)
    → release_lock p st ≡ some p'
    → st.lockfile ≡ lock_of host dbfile
    → is_locked host p'.disk q
      ≡ (if str_eq (lock_of host dbfile) (lock_of host q) then false else is_locked host p.disk q)
unfolding is_locked unlink_path
is_locked-release_lock host p p' st dbfile q e l =
    rw (release_lock-disk p p' st e, l, find_name-remove_name) (ground arith)

-- A lock that has just been created is opened, and has its first content.
pub open_lock-create_lock :
    (host : Host) (now : ℕ) (d d' : Disk) (dbfile url : CString) (st st₀ : Session)
    → create_lock host now d dbfile url ≡ some (st, d')
    → (open_lock host d' dbfile st₀
        ≡ some (record st₀ {
          lockfile = clip (lock_name host dbfile lock_prefix);
          fd = length d.files;
        }))
      × (get_elem? d'.files (length d.files)
          ≡ some (record { content = lock_text dbfile url (pos 0); mtime = now }))
unfolding new_lock open_lock fopen_lock open_excl write_file find_name
open_lock-create_lock host now d d' dbfile url st st₀ e =
    let e' = create_lock-new_lock host now d dbfile url e in
    let lf : CString = lock_name host dbfile lock_prefix in
    let n : ℕ = length d.files in
    let text : CString = lock_text dbfile url (pos 0) in
    let o : Disk = record {
      names = (lf, n) ∷ d.names;
      files = d.files ++ record { content = []; mtime = 0 } ∷ [];
    } in
    elim (Bool-cases (is_some (find_name lf d.names))) [
      | inl k ↦ absurd (ground (arith, e'))
      | inr k ↦
          subst-some
            (λ r.
              (open_lock host r.1 dbfile st₀ ≡ some (record st₀ { lockfile = clip lf; fd = n }))
              × (get_elem? r.1.files n ≡ some (record { content = text; mtime = now })))
            (rw k at e')
            (
              rw (str_eq_refl lf, ◌>>=◌) refl,
              write_file-content o now n text
                  (omega (arith, length-append d.files (record { content = []; mtime = 0 } ∷ []))),
            )
    ]
