-- ===== src/Gateway/Main/Dispatch.antt =====
-- src/gateway.c: the order in which `main` makes its tests, and what each outcome shows.
use srepod.Prelude.{ℕ, Option, none, some, CString, codes, ◌≡◌, inl, inr, refl, arith, Option-cases}
use srepod.Gateway.Commands.{Reply, printed, failed, crashed, Request}
use srepod.Gateway.Keys.{has_valid_keys}
use srepod.Gateway.Main.{
  OpenResult, success, Exit, exit_error, cmd_error, serve, serve_keys, serve_open, serve_verb,
  finish, dispatch, open_error, valid_arguments, page_body, shown_as, page,
}
use srepod.Gateway.{Check, pass, refuse, overread, ErrorCode}
use srepod.Template.{args_template, parse_template, count_args}

-- The part of a run in which a verb is answered.
pub record Answered (r : Request) (opened : OpenResult) (x : Exit) : Type 0 where
  pub keys : has_valid_keys r.cgi valid_arguments ≡ pass
  pub opens : opened ≡ success
  pub verb : CString
  pub given : r.cgi.getentrystr (codes "verb") ≡ some verb
  pub count : ℕ
  pub reply : dispatch r verb ≡ printed count x.output

open_error_inv : (o : OpenResult) → open_error o ≡ none → o ≡ success
unfolding open_error
open_error_inv success e = refl
open_error_inv _ e = absurd (cc)

exit_error-status :
    (h : Option CString) (r : Request) (e : ErrorCode) (m : CString) (x : Exit)
    → exit_error h r e m ≡ some x
    → x.status ≡ 1
exit_error-status h r e m x k = elim (Option-cases (cmd_error h r e m)) [
  | inl n ↦ absurd (ground arith)
  | inr (o, n) ↦ ground arith
]

-- What a run with status 0 has met, step by step from the end.
finish_inv :
    (h : Option CString) (r : Request) (y : Reply) (x : Exit)
    → finish h r y ≡ some x
    → x.status ≡ 0
    → (n : ℕ) × (y ≡ printed n x.output)
unfolding finish
finish_inv h r (printed n s) x e z = (n, ground arith)
finish_inv h r (failed c m) x e z = absurd (omega (arith, exit_error-status h r c m x e))
finish_inv h r crashed x e z = absurd (cc)

record Verb (r : Request) (v : Option CString) (x : Exit) : Type 0 where
  verb : CString
  given : v ≡ some verb
  count : ℕ
  reply : dispatch r verb ≡ printed count x.output

serve_verb_inv :
    (h : Option CString) (r : Request) (v : Option CString) (x : Exit)
    → serve_verb h r v ≡ some x
    → x.status ≡ 0
    → Verb r v x
unfolding serve_verb
serve_verb_inv h r none x e z = absurd (cc)
serve_verb_inv h r (some verb) x e z =
    let (n, k) = finish_inv h r (dispatch r verb) x e z in
    record { verb = verb; given = refl; count = n; reply = k }

serve_open_inv :
    (h : Option CString) (r : Request) (o : Option (ErrorCode × CString)) (x : Exit)
    → serve_open h r o ≡ some x
    → x.status ≡ 0
    → (o ≡ none) × Verb r (r.cgi.getentrystr (codes "verb")) x
unfolding serve_open
serve_open_inv h r none x e z = (refl, serve_verb_inv h r _ x e z)
serve_open_inv h r (some (c, m)) x e z = absurd (omega (arith, exit_error-status h r c m x e))

serve_keys_inv :
    (h : Option CString) (r : Request) (opened : OpenResult) (c : Check) (x : Exit)
    → serve_keys h r opened c ≡ some x
    → x.status ≡ 0
    → (c ≡ pass) × (open_error opened ≡ none) × Verb r (r.cgi.getentrystr (codes "verb")) x
unfolding serve_keys
serve_keys_inv h r opened pass x e z =
    let (o, v) = serve_open_inv h r (open_error opened) x e z in (refl, o, v)
serve_keys_inv h r opened (refuse c m) x e z = absurd (omega (arith, exit_error-status h r c m x e))
serve_keys_inv h r opened overread x e z = absurd (cc)

-- A run behind the tests of the environment and the redirections ends with status 0 only where a
-- verb is answered: the keys are valid, the repository is open, and the output is what the command
-- of the verb prints, whole.
pub serve-Answered :
    (h : Option CString) (r : Request) (opened : OpenResult) (x : Exit)
    → serve h r opened ≡ some x
    → x.status ≡ 0
    → Answered r opened x
unfolding serve
serve-Answered h r opened x e z =
    let (k, o, v) = serve_keys_inv h r opened _ x e z in
    record {
      keys = k;
      opens = open_error_inv opened o;
      verb = v.verb;
      given = v.given;
      count = v.count;
      reply = v.reply;
    }

-- With a template of the operator's own, every error that is shown as a page makes `cmd_error` read
-- past the end of the array of arguments, which has no `NULL` at its end.
pub cmd_error-template :
    (file : CString) (r : Request) (e : ErrorCode) (m code : CString)
    → shown_as e ≡ page code
    → cmd_error (some file) r e m ≡ none
unfolding cmd_error page_body parse_template args_template count_args
cmd_error-template file r e m code k = rw (k, cmd_error)
