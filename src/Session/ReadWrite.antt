-- ===== src/Session/ReadWrite.antt =====
-- src/session/session.c: what is written to a lock file is read back.
use srepod.Prelude.{
  ℕ, ◌+◌, ◌<◌, ℤ, true, false, some, List, [], ◌∷◌, ◌++◌, ◌≡◌, refl, arith, ◌>>=◌, ◌∙◌, ap,
  length-append, pos, CString, codes, is_nil, is_space, skip_space, scan_run, scan_int,
  digits_value, fgets_from, starts_with, length, get_elem?,
}
use srepod.Config.Lines.{
  AllIn, is_black, in_line, fgets_line, scan_run-AllIn, skip_space-black, AllIn-append,
  in_line-black, all_in, all_in-AllIn,
}
use srepod.Session.Files.{Disk, write_file, write_file-content}
use srepod.Session.{
  Session, lock_text, scan_word, scan_status, decimal, int_text, read_line, read_lines, read_lock,
  write_lock,
}

-- A text that a field holds and `%s` reads: no white space, and room for the NUL.
pub record IsWord (s : CString) : Type 0 where
  pub ne_nil : is_nil s ≡ false
  pub black : AllIn is_black s
  pub fits : length s < 1024

scan_word-IsWord : (field s : CString) → IsWord s → scan_word field (s ++ b'\n' ∷ []) ≡ some s
unfolding scan_word
scan_word-IsWord field s w =
    rw
      (
        skip_space-black s (b'\n' ∷ []) w.ne_nil w.black,
        scan_run-AllIn is_black 1024 s b'\n' [] w.black (unfold is_space in refl) w.fits,
        w.ne_nil,
      )
      (ground (arith, w.fits))

scan_status-digit :
    (field : ℤ) (n : ℕ) → n < 10 → scan_status field (int_text (pos n) ++ b'\n' ∷ []) ≡ pos n
unfolding scan_status decimal scan_int skip_space is_space scan_run digits_value
scan_status-digit field n l = ground arith

-- A status of one digit, as all of `enum session_status` are.
digit_text-in_line :
    (n : ℕ) → n < 10 → AllIn in_line (int_text (pos n)) × (length (int_text (pos n)) ≡ 1)
unfolding decimal
digit_text-in_line n l = (ground arith, ground arith)

one_line :
    (k s rest : CString)
    → all_in in_line k ≡ true
    → AllIn in_line s
    → length k + length s < 2047
    → fgets_from 2047 2047 [] ((k ++ s) ++ b'\n' ∷ rest)
      ≡ ((k ++ s) ++ b'\n' ∷ []) ∷ fgets_from 2047 2047 [] rest
one_line k s rest a b l =
    fgets_line 2047 2047 [] (k ++ s) rest (AllIn-append in_line k s (all_in-AllIn in_line k a) b)
      (omega (arith, length-append k s))

abbrev lock_lines : CString → CString → ℤ → List CString
lock_lines database url status =
    ((codes "database=" ++ database) ++ b'\n' ∷ [])
    ∷ ((codes "url=" ++ url) ++ b'\n' ∷ [])
    ∷ ((codes "status=" ++ int_text status) ++ b'\n' ∷ [])
    ∷ []

fgets-lock_text :
    (database url : CString) (n : ℕ)
    → IsWord database
    → IsWord url
    → n < 10
    → fgets_from 2047 2047 [] (lock_text database url (pos n)) ≡ lock_lines database url (pos n)
fgets-lock_text database url n a b l =
    let (q, m) = digit_text-in_line n l in
    let status : CString = codes "status=" ++ int_text (pos n) in
    one_line (codes "database=") database ((codes "url=" ++ url) ++ b'\n' ∷ (status ++ b'\n' ∷ []))
      refl (in_line-black database a.black) (omega (arith, a.fits))
    ∙ ap (◌∷◌ ((codes "database=" ++ database) ++ b'\n' ∷ [])) (
        one_line (codes "url=") url (status ++ b'\n' ∷ []) refl (in_line-black url b.black)
          (omega (arith, b.fits))
        ∙ ap (◌∷◌ ((codes "url=" ++ url) ++ b'\n' ∷ [])) (
            one_line (codes "status=") (int_text (pos n)) [] refl q (omega arith)
            ∙ ap (◌∷◌ (status ++ b'\n' ∷ [])) (unfold fgets_from in refl)))

read_lines-lock_lines :
    (st : Session) (database url : CString) (n : ℕ)
    → IsWord database
    → IsWord url
    → n < 10
    → read_lines st (lock_lines database url (pos n))
      ≡ some (record st { database = database; url = url; status = pos n })
unfolding read_lines read_line starts_with
read_lines-lock_lines st database url n a b l =
    rw (scan_word-IsWord st.database database a, ◌>>=◌)
      (rw (scan_word-IsWord st.url url b, ◌>>=◌) (rw (scan_status-digit st.status n l) refl))

-- What `read_lock` makes of a session whose file holds a lock text.
pub read_lock-lock_text :
    (d : Disk) (now n : ℕ) (st : Session) (database url : CString)
    → IsWord database
    → IsWord url
    → n < 10
    → get_elem? d.files st.fd
      ≡ some (record { content = lock_text database url (pos n); mtime = now })
    → read_lock d st
      ≡ some (record st { database = database; url = url; status = pos n; modified = now })
unfolding read_lock
read_lock-lock_text d now n st database url a b l e =
    rw (e, ◌>>=◌)
      (rw (
        fgets-lock_text database url n a b l,
        read_lines-lock_lines st database url n a b l,
        ◌>>=◌,
      ))

-- A session whose database and url are words that fit in their fields, and whose status has one
-- digit, is written by `write_lock` with no change but that of the time. Any session that has the
-- same file open then reads this database, url and status from it, and the time of the writing.
pub write_lock-read_lock :
    (d : Disk) (now n : ℕ) (st other : Session)
    → st.fd < length d.files
    → other.fd ≡ st.fd
    → IsWord st.database
    → IsWord st.url
    → st.status ≡ pos n
    → n < 10
    → (d' : Disk) × (write_lock now d st ≡ some (record st { modified = now }, d'))
      × (read_lock d' other
          ≡ some (record other {
            database = st.database;
            url = st.url;
            status = st.status;
            modified = now;
          }))
write_lock-read_lock d now n st other f o a b s l =
    let d' : Disk = write_file d now st.fd (lock_text st.database st.url (pos n)) in
    let g = write_file-content d now st.fd (lock_text st.database st.url (pos n)) f in
    (
      d',
      unfold write_lock in
          rw
            (
              s,
              read_lock-lock_text d' now n (record st { status = pos n }) st.database st.url a b l
                  g,
              ◌>>=◌,
            )
            refl,
      rw s (
          read_lock-lock_text d' now n other st.database st.url a b l
            (ap (get_elem? d'.files) o ∙ g)),
    )
