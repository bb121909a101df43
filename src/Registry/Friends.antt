-- ===== src/Registry/Friends.antt =====
-- src/registry/unregister.c: what un_friends leaves of the file of friends.
use srepod.Prelude.{
  leb, ◌&&◌, true, contains, ℕ, zero, suc, ◌<◌, ◌==◌, ◌||◌, Bool, true, false, none, some, List, [],
  ◌∷◌, ◌++◌, ◌≡◌, ◌∙◌, refl, arith, ◌>>=◌, inl, inr, Bool-cases, Option-cases, >>=-eq-some,
  if◌then◌else◌, fgets_from, CString, ap, length, ltb, drop, set, get_elem?, get_elem?-set, str_eq,
  str_eq_iff, str_eq_refl,
}
use srepod.Registry.{substr}
use srepod.Registry.Lines.{lines, AllShort, fgets_from-lines}
use srepod.Registry.Store.{Site, open_create, write_over}
use srepod.Registry.Unregister.{
  as_format, kept_lines, search_text, friends_tmp, write_friends, un_friends,
}
use srepod.Session.Files.{
  Disk, File, find_name, remove_name, write_file, rename_path, same_file, content_of,
  get_elem?-snoc, find_name-remove_name,
}

abbrev pub has_percent : CString → Bool
has_percent [] = false
has_percent (c ∷ s) = c == b'%' || has_percent s

-- What may stand between a % and the letter of a conversion: flags, a width, a precision, a size.
abbrev pub is_modifier : ℕ → Bool
is_modifier c =
    (leb b'0' c && leb c b'9')
    || c == b'.'
    || c == b'-'
    || c == b'+'
    || c == b' '
    || c == b'#'
    || c == b'h'
    || c == b'l'
    || c == b'L'

-- d, i, o, u, x, X, e, E, f, F, g, G, a, A, c, s, p, n
abbrev pub is_conversion : ℕ → Bool
is_conversion c =
    c == b'd'
    || c == b'i'
    || c == b'o'
    || c == b'u'
    || c == b'x'
    || c == b'X'
    || c == b'e'
    || c == b'E'
    || c == b'f'
    || c == b'F'
    || c == b'g'
    || c == b'G'
    || c == b'a'
    || c == b'A'
    || c == b'c'
    || c == b's'
    || c == b'p'
    || c == b'n'

-- What stands behind a % makes a conversion that takes an argument, as 7E does.
unfoldable pub takes_argument : CString → Bool
takes_argument [] = false
takes_argument (c ∷ s) =
    let rest = takes_argument s in if is_modifier c then rest else is_conversion c

-- No line has a %.
abbrev pub AllPlain : List CString → Type 0
AllPlain [] = Unit
AllPlain (line ∷ lines) = (has_percent line ≡ false) × AllPlain lines

-- The text of the lines in which `search` does not occur.
abbrev pub lines_without : CString → List CString → CString
lines_without search [] = []
lines_without search (line ∷ lines) =
    (if contains line search then [] else line) ++ lines_without search lines

as_format-plain : (s : CString) → has_percent s ≡ false → as_format s ≡ some s
unfolding as_format
as_format-plain [] e = refl
as_format-plain (c ∷ []) e = ground arith
as_format-plain (c ∷ d ∷ s) e = ground (arith, as_format-plain (d ∷ s))

kept_lines-plain :
    (search : CString) (lines : List CString)
    → AllPlain lines
    → kept_lines search lines ≡ some (lines_without search lines)
unfolding kept_lines
kept_lines-plain search [] a = refl
kept_lines-plain search (line ∷ lines) a = elim (Bool-cases (contains line search)) [
  | inl k ↦ rw (k, kept_lines-plain search lines a.1) refl
  | inr k ↦
      rw (k, as_format-plain line a.0, ◌>>=◌) (rw (kept_lines-plain search lines a.1, ◌>>=◌) refl)
]

-- What stands before the % has none.
as_format-percent :
    (a b : CString)
    → has_percent a ≡ false
    → takes_argument b ≡ true
    → as_format (a ++ b'%' ∷ b) ≡ none
unfolding as_format takes_argument
as_format-percent [] [] p n = refl
as_format-percent [] (c ∷ b) p n = ground arith
as_format-percent (x ∷ []) b p n = ground (arith, as_format-percent [] b refl n)
as_format-percent (x ∷ y ∷ a) b p n = ground (arith, as_format-percent (y ∷ a) b)

kept_lines-percent :
    (search : CString) (before after : List CString) (a b : CString)
    → contains (a ++ b'%' ∷ b) search ≡ false
    → has_percent a ≡ false
    → takes_argument b ≡ true
    → kept_lines search (before ++ (a ++ b'%' ∷ b) ∷ after) ≡ none
unfolding kept_lines
kept_lines-percent search [] after a b k p n = rw k (rw (as_format-percent a b p n, ◌>>=◌) refl)
kept_lines-percent search (line ∷ before) after a b k p n =
    let e = kept_lines-percent search before after a b k p n in
    elim (Bool-cases (contains line search)) [
      | inl s ↦ rw (s, e) refl
      | inr s ↦ elim (Option-cases (as_format line)) [
        | inl l ↦ rw (s, l, ◌>>=◌) refl
        | inr (t, l) ↦ rw (s, l, ◌>>=◌) (rw (e, ◌>>=◌) refl)
      ]
    ]

get_elem?-after :
    (fs : List File) (f : File) (i : ℕ) {g : File}
    → get_elem? fs i ≡ some g
    → (get_elem? (fs ++ f ∷ []) i ≡ some g) × (i < length fs)
get_elem?-after [] f i e = absurd (ground arith)
get_elem?-after (h ∷ fs) f zero e = (e, omega arith)
get_elem?-after (h ∷ fs) f (suc i) e =
    let (k, l) = get_elem?-after fs f i e in (k, omega (arith, l))

length-snoc : (fs : List File) (f : File) → length (fs ++ f ∷ []) ≡ suc (length fs)
length-snoc [] f = refl
length-snoc (h ∷ fs) f = omega (arith, length-snoc fs f)

append_nil : (s : CString) → s ++ [] ≡ s
append_nil [] = refl
append_nil (c ∷ s) = ap (λ t. c ∷ t) (append_nil s)

drop_nil : (n : ℕ) → drop {A = ℕ} n [] ≡ []
drop_nil zero = refl
drop_nil (suc n) = refl

content_of_inv :
    (d : Disk) (path : CString) {t : CString}
    → content_of d path ≡ some t
    → (i : ℕ) × (f : File) × (find_name path d.names ≡ some i)
      × (get_elem? d.files i ≡ some f)
      × (f.content ≡ t)
unfolding content_of
content_of_inv d path e =
    let (i, a, k) = >>=-eq-some (find_name path d.names) _ e in
    let (f, b, l) = >>=-eq-some (get_elem? d.files i) _ k in (i, f, a, b, ground (arith, l))

content_of_eq :
    (d : Disk) (path : CString) {i : ℕ} {f : File}
    → find_name path d.names ≡ some i
    → get_elem? d.files i ≡ some f
    → content_of d path ≡ some f.content
unfolding content_of
content_of_eq d path a b = rw (a, ◌>>=◌) (rw (b, ◌>>=◌) refl)

-- A file that is not there is created, written, and renamed.
module _ (d : Disk) (now : ℕ) (tmp friends text : CString) {old : CString}
    (free : find_name tmp d.names ≡ none) (there : content_of d friends ≡ some old) where
  abbrev new_file : File
  new_file = record { content = text; mtime = now }

  abbrev no_file : File
  no_file = record { content = []; mtime = 0 }

  abbrev replaced : Disk
  replaced = record {
    names =
        (friends, length d.files)
        ∷ remove_name friends (remove_name tmp ((tmp, length d.files) ∷ d.names));
    files = set (d.files ++ no_file ∷ []) (length d.files) new_file;
  }

  existing-ne : (q : CString) {t : CString} → content_of d q ≡ some t → str_eq q tmp ≡ false
  existing-ne q e =
      let (i, f, a, _, _) = content_of_inv d q e in
      elim (Bool-cases (str_eq q tmp)) [
        | inl e ↦
            let k : q ≡ tmp = (str_eq_iff q tmp).0 e in
            absurd (let z = rw (k, free) at a in ground arith)
        | inr e ↦ e
      ]

  created : Disk
  created = record { names = (tmp, length d.files) ∷ d.names; files = d.files ++ no_file ∷ [] }

  made : open_create d tmp ≡ (length d.files, created)
  unfolding open_create created
  made = rw (open_create, free) refl

  written : write_over created now (length d.files) text ≡ record {
    names = (tmp, length d.files) ∷ d.names;
    files = set (d.files ++ no_file ∷ []) (length d.files) new_file;
  }
  unfolding write_over write_file created
  written =
      rw (write_over, get_elem?-snoc d.files no_file)
        (rw (drop_nil (length text), append_nil text) refl)

  later_file : {i : ℕ} → i < length d.files → same_file (length d.files) (some i) ≡ false
  unfolding same_file
  later_file l = ground (arith, l)

  renamed : rename_path (write_over created now (length d.files) text) tmp friends ≡ some replaced
  unfolding rename_path find_name
  renamed =
      let (i, f, a, b, _) = content_of_inv d friends there in
      let (_, l) = get_elem?-after d.files no_file i b in
      rw written (rw (str_eq_refl tmp) (rw (existing-ne friends there, a) (rw (later_file l) refl)))

  replaced-content : content_of replaced friends ≡ some text
  unfolding find_name
  replaced-content =
      content_of_eq replaced friends {i = length d.files} {f = new_file}
        (rw (str_eq_refl friends) refl)
        (ground (
          arith,
          get_elem?-set (d.files ++ no_file ∷ []) (length d.files) (length d.files) new_file,
          length-snoc d.files no_file,
        ))

  replaced-other :
      (q : CString) {t : CString}
      → str_eq q friends ≡ false
      → content_of d q ≡ some t
      → content_of replaced q ≡ some t
  unfolding find_name
  replaced-other q n e =
      let (i, f, a, b, c) = content_of_inv d q e in
      let (k, l) = get_elem?-after d.files no_file i b in
      content_of_eq replaced q {i = i} {f = f}
        (rw n (
          find_name-remove_name q friends (remove_name tmp ((tmp, length d.files) ∷ d.names))
          ∙ ground (
            arith,
            find_name-remove_name q tmp ((tmp, length d.files) ∷ d.names),
            str_eq_iff friends q,
            str_eq_iff q friends,
            str_eq_iff tmp q,
            str_eq_iff q tmp,
            existing-ne q e,
          )))
        (ground (
          arith,
          get_elem?-set (d.files ++ no_file ∷ []) (length d.files) i new_file,
          length-snoc d.files no_file,
        ))
      ∙ ap some c

module _ (site : Site) (d : Disk) (spool base friends url : CString) {content frag : CString}
    (there : content_of d friends ≡ some content)
    (path : substr site.behind url 6 (length url) ≡ some frag)
    (fits : length (search_text base frag) < 1024) where
  -- Up to the loop.
  un_friends-loop :
      un_friends site d spool base friends url
      ≡ write_friends site
          (open_create d (friends_tmp spool)).1
          (open_create d (friends_tmp spool)).0
          (friends_tmp spool)
          (search_text base frag)
          friends
          content
  unfolding un_friends
  un_friends-loop =
      let l : ltb (length (search_text base frag)) 1024 ≡ true = ground (arith, fits) in
      rw (un_friends, there) (rw (path, ◌>>=◌) (rw l refl))

  -- Where the file of friends is there, each of its lines has less than 1023 bytes and no %, there is
  -- no friends.tmp yet, and the text that is looked for fits into its array, un_friends succeeds: the
  -- file of friends is left with its lines in their order, less those in which the base url of the
  -- repository stands as an element, and every other file that had a name has it still, with its
  -- content.
  pub un_friends-plain :
      find_name (friends_tmp spool) d.names ≡ none
      → AllShort (lines content)
      → AllPlain (lines content)
      → (d' : Disk) × (un_friends site d spool base friends url ≡ some (true, d'))
        × (content_of d' friends ≡ some (lines_without (search_text base frag) (lines content)))
        × ((q t : CString)
            → str_eq q friends ≡ false
            → content_of d q ≡ some t
            → content_of d' q ≡ some t)
  unfolding write_friends
  un_friends-plain free short plain =
      let tmp : CString = friends_tmp spool in
      let text : CString = lines_without (search_text base frag) (lines content) in
      let k : kept_lines (search_text base frag) (fgets_from 1023 1023 [] content) ≡ some text =
        rw (fgets_from-lines 1023 [] content refl short)
          (kept_lines-plain (search_text base frag) (lines content) plain) in
      (
        replaced d site.now tmp friends text free there,
        un_friends-loop
            ∙ rw (made d site.now tmp friends text free there)
                (rw (k, ◌>>=◌) (rw (renamed d site.now tmp friends text free there) refl)),
        replaced-content d site.now tmp friends text free there,
        λ q t. replaced-other d site.now tmp friends text free there q,
      )

  -- Where each line of the file of friends has less than 1023 bytes, and one that is to be kept has a %
  -- with a conversion behind it that takes an argument, as %7E in a url is one, and no % before that,
  -- un_friends calls fprintf with this format and no argument, whatever the other lines are.
  pub un_friends-percent :
      (before after : List CString) (a b : CString)
      → AllShort (lines content)
      → lines content ≡ before ++ (a ++ b'%' ∷ b) ∷ after
      → contains (a ++ b'%' ∷ b) (search_text base frag) ≡ false
      → has_percent a ≡ false
      → takes_argument b ≡ true
      → un_friends site d spool base friends url ≡ none
  unfolding write_friends
  un_friends-percent before after a b short split k p n =
      let e : kept_lines (search_text base frag) (fgets_from 1023 1023 [] content) ≡ none =
        rw (fgets_from-lines 1023 [] content refl short)
          (rw split (kept_lines-percent (search_text base frag) before after a b k p n)) in
      un_friends-loop ∙ rw (e, ◌>>=◌) refl
