-- ===== src/Template.antt =====
-- src/template/template.c: a template with `$<number>` for the arguments.
pub mod Copy
use srepod.Prelude.{
  ℕ, zero, suc, ◌+◌, ◌-◌, ◌/◌, ◌%◌, Bool, true, false, not, ◌||◌, Option, none, some, List, [], ◌∷◌,
  ◌++◌, ◌==◌, ltb, leb, if◌then◌else◌, ◌>>=◌, ℤ, pos, negsuc, scan_int, CString, length, get_elem?,
  take,
}

pub data ParseMode : Type 0 where
  loose strict : ParseMode

-- An array of pointers, of which `none` is `NULL`.
abbrev pub Arguments : Type 0
Arguments = List (Option CString)

-- `args_template(n, ...)`: at most `n` arguments, up to the first `NULL` and with it.
unfoldable pub args_template : ℕ → Arguments → Arguments
args_template zero args = []
args_template (suc n) [] = []
args_template (suc n) (none ∷ args) = none ∷ []
args_template (suc n) (some p ∷ args) = some p ∷ args_template n args

-- `while(args[c++] != NULL) sz++`; `none` is a read past the end of the array.
unfoldable pub count_args : Arguments → Option ℕ
count_args [] = none
count_args (none ∷ args) = some 0
count_args (some p ∷ args) = do n ← count_args args; some (n + 1)

abbrev pub two_digit_text : ℕ → CString
two_digit_text n = if ltb n 10 then (b'0' + n) ∷ [] else (b'0' + n / 10) ∷ (b'0' + n % 10) ∷ []

-- `"$%d"`, of a number that `%2d` has read
abbrev pub dollar_text : ℤ → CString
dollar_text (pos n) = b'$' ∷ two_digit_text n
dollar_text (negsuc n) = b'$' ∷ b'-' ∷ two_digit_text (suc n)

-- The argument of a number that is in range.
unfoldable pub argument : Arguments → ℕ → ℤ → Option CString
argument args sz (negsuc n) = none
argument args sz (pos n) =
    if ltb n sz then (elim (get_elem? args n) [ none ↦ none | some p ↦ p ]) else none

abbrev when_strict : ParseMode → CString → CString
when_strict loose s = []
when_strict strict s = s

-- What is written for the character `c` with `s` behind it.
unfoldable pub expand : ParseMode → Arguments → ℕ → ℕ → CString → CString
expand mode args sz c s =
    if c == b'$'
    then elim (scan_int 2 s) [
      | none ↦ when_strict mode (b'$' ∷ [])
      | some (d, _) ↦ elim (argument args sz d) [
        | some p ↦ p
        | none ↦ when_strict mode (dollar_text d)
      ]
    ]
    else c ∷ []

-- How many of the characters behind `c` have been read with it.
unfoldable pub consumed : ℕ → CString → ℕ
consumed c s =
    if c == b'$'
    then elim (scan_int 2 s) [ none ↦ 0 | some (_, rest) ↦ length s - length rest ]
    else 0

-- The loop over the file, of which `skip` characters have been read already.
unfoldable pub expand_from : ParseMode → Arguments → ℕ → ℕ → CString → CString
expand_from mode args sz skip [] = []
expand_from mode args sz (suc skip) (c ∷ s) = expand_from mode args sz skip s
expand_from mode args sz zero (c ∷ s) =
    expand mode args sz c s ++ expand_from mode args sz (consumed c s) s

-- What is written for a file that can be opened; its length is the number that is returned.
unfoldable pub parse_template : ParseMode → Arguments → CString → Option CString
parse_template mode args file = do sz ← count_args args; some (expand_from mode args sz 0 file)
