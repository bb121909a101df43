-- ===== src/OaiGdbm/Opened.antt =====
-- src/oai-gdbm/oai-gdbm.c: when `oai_open_repository` opens a repository.
use srepod.Gateway.Main.{OpenResult, success}
use srepod.HttpHead.{HeadStruct, simple_header}
use srepod.OaiGdbm.{Gdbm, Got, missing, overflow, got, get_url, get_lmf, get_status}
use srepod.OaiGdbm.Open.{
  World, Located, located, not_located, locate, open_found, open_database, open_free, open_locked,
  check_answer, ask_daemon, locked_result, look_up_path, check_database, is_positive, is_code,
  oai_open_repository,
}
use srepod.Prelude.{
  ℕ, true, false, Option, none, some, ◌≡◌, refl, arith, >>=-eq-some, Option-cases, Bool-cases, inl,
  inr, ◌⊎◌, ℤ, pos, negsuc, CString,
}
use srepod.Session.{Session, Process, is_locked, open_lock, close_lock, read_lock, create_lock}

-- The database is the one that is asked for, no lock stands for it, and its server has said, for the
-- url and the time that it holds, that there is nothing newer. It is not marked as invalid.
pub record IsFresh (w : World) (p : Process) : Type 0 where
  pub dbfile : CString
  pub found : locate w ≡ some (located dbfile)
  pub unlocked : is_locked w.host p.disk dbfile ≡ false
  pub g : Gdbm
  pub opened : w.open_db dbfile ≡ some g
  pub status : ℤ
  pub read : get_status w.machine g ≡ some status
  pub valid : is_positive status ≡ false
  pub url : CString
  pub has_url : get_url w.machine g ≡ got url
  pub lmf : CString
  pub has_lmf : get_lmf w.machine g ≡ got lmf
  pub answer : HeadStruct
  pub answered : simple_header w.request w.suffix url lmf ≡ some (some answer)
  pub not_modified : is_code 304 answer.status_code ≡ true

locked-ne-success : (s : ℤ) → locked_result s ≡ success → ⊥
unfolding locked_result
locked-ne-success (pos n) e = ground arith
locked-ne-success (negsuc n) e = ground arith

module _ (w : World) (now : ℕ) (p p' : Process) where
  open_locked-success :
      (st : Session) (dbfile : CString) → open_locked w p st dbfile ≡ some (success, p') → ⊥
  unfolding open_locked
  open_locked-success st dbfile e = elim (Bool-cases w.log_argument) [
    | inr m ↦ ground (arith, m, e)
    | inl m ↦ elim (Option-cases (open_lock w.host p.disk dbfile st)) [
      | inl n ↦ ground (arith, m, n, e)
      | inr (st₁, n) ↦
          let (st₂, a, k) =
            >>=-eq-some (read_lock p.disk st₁) _ (rw n at (rw (open_locked, m) at e)) in
          let (q, b, l) = >>=-eq-some (close_lock p st₂) _ k in locked-ne-success st₂.status (cc)
    ]
  ]

  ask_daemon-success :
      (dbfile url : CString) → ask_daemon w now p dbfile url ≡ some (success, p') → ⊥
  unfolding ask_daemon
  ask_daemon-success dbfile url e = elim (Option-cases (create_lock w.host now p.disk dbfile url)) [
    | inl n ↦ ground (arith, n, e)
    | inr ((st, d), n) ↦
        let (q, b, l) =
          >>=-eq-some (close_lock (record p { disk = d }) st) _ (rw (n, ask_daemon) at e) in
        ground arith
  ]

  check_answer-success :
      (dbfile url : CString) (status : ℤ) (answer : Option HeadStruct)
      → check_answer w now p dbfile url status answer ≡ some (success, p')
      → (hs : HeadStruct) × (answer ≡ some hs)
        × (is_code 304 hs.status_code ≡ true)
        × (is_positive status ≡ false)
        × (p' ≡ p)
  unfolding check_answer
  check_answer-success dbfile url status none e = absurd (ground arith)
  check_answer-success dbfile url status (some hs) e =
      elim (Bool-cases (is_code 200 hs.status_code)) [
        | inl c ↦ absurd (ask_daemon-success dbfile url (rw c at e))
        | inr c ↦ (hs, refl, ground arith, ground arith, ground arith)
      ]

pub Got-cases : (o : Got) → (o ≡ missing) ⊎ ((o ≡ overflow) ⊎ ((u : CString) × (o ≡ got u)))
Got-cases missing = inl refl
Got-cases overflow = inr (inl refl)
Got-cases (got u) = inr (inr (u, refl))

module _ (w : World) (now : ℕ) (p p' : Process) where
  -- From the answer of the server on, with what has been read of the database.
  open_free-answered :
      (dbfile url lmf : CString) (g : Gdbm) (status : ℤ)
      → locate w ≡ some (located dbfile)
      → is_locked w.host p.disk dbfile ≡ false
      → w.open_db dbfile ≡ some g
      → get_status w.machine g ≡ some status
      → get_url w.machine g ≡ got url
      → get_lmf w.machine g ≡ got lmf
      → open_free w now p dbfile ≡ some (success, p')
      → IsFresh w p × (p' ≡ p)
  unfolding open_free
  open_free-answered dbfile url lmf g status l u o s a b e =
      let (answer, c, k) =
        >>=-eq-some (simple_header w.request w.suffix url lmf) _
          (rw (o, open_free, s, a, b) at e) in
      let (hs, q, n, v, r) = check_answer-success w now p p' dbfile url status answer k in
      (
        record {
          dbfile = dbfile;
          found = l;
          unlocked = u;
          g = g;
          opened = o;
          status = status;
          read = s;
          valid = v;
          url = url;
          has_url = a;
          lmf = lmf;
          has_lmf = b;
          answer = hs;
          answered = rw q at c;
          not_modified = n;
        },
        r,
      )

  open_free-success :
      (dbfile : CString)
      → locate w ≡ some (located dbfile)
      → is_locked w.host p.disk dbfile ≡ false
      → open_free w now p dbfile ≡ some (success, p')
      → IsFresh w p × (p' ≡ p)
  unfolding open_free
  open_free-success dbfile l u e = elim (Option-cases (w.open_db dbfile)) [
    | inl o ↦ absurd (ground (arith, o, e))
    | inr (g, o) ↦ elim (Option-cases (get_status w.machine g)) [
      | inl s ↦ absurd (ground (arith, o, s, e))
      | inr (status, s) ↦ elim (Got-cases (get_url w.machine g)) [
        | inl a ↦ absurd (ground (arith, o, s, a, e))
        | inr (inl a) ↦ absurd (ground (arith, o, s, a, e))
        | inr (inr (url, a)) ↦ elim (Got-cases (get_lmf w.machine g)) [
          | inl b ↦ absurd (ground (arith, o, s, a, b, e))
          | inr (inl b) ↦ absurd (ground (arith, o, s, a, b, e))
          | inr (inr (lmf, b)) ↦ open_free-answered dbfile url lmf g status l u o s a b e
        ]
      ]
    ]
  ]

check_database-ne-success :
    (o : Option CString) {r : OpenResult} → check_database o ≡ not_located r → r ≡ success → ⊥
unfolding check_database
check_database-ne-success o e s = ground arith

locate-ne-success : (w : World) {r : OpenResult} → locate w ≡ some (not_located r) → r ≡ success → ⊥
unfolding locate look_up_path check_database
locate-ne-success w e s = ground arith

-- Where oai_open_repository returns OPEN_SUCCESS the database is the one that is asked for and has no
-- lock, its server has answered 304 to a request with the url and the time that the database holds,
-- and its status is not positive. The locks and the disk are as they were.
pub oai_open_repository-IsFresh :
    (w : World) (now : ℕ) (p p' : Process) (st : Session)
    → oai_open_repository w now p st ≡ some (success, p')
    → IsFresh w p × (p' ≡ p)
unfolding oai_open_repository open_found open_database
oai_open_repository-IsFresh w now p p' st e =
    let (l, a, k) = >>=-eq-some (locate w) _ e in found l a k
  where
    found :
        (l : Located)
        → locate w ≡ some l
        → open_found w now p st l ≡ some (success, p')
        → IsFresh w p × (p' ≡ p)
    found (not_located r) a k = absurd (locate-ne-success w a (cc))
    found (located dbfile) a k = elim (Bool-cases (is_locked w.host p.disk dbfile)) [
      | inl u ↦ absurd (open_locked-success w now p p' st dbfile (rw u at k))
      | inr u ↦ open_free-success w now p p' dbfile a u (rw u at k)
    ]
