-- ===== src/Transform/Copy.antt =====
-- src/transform_c/parser.c: what stands inside the metadata of a record is copied.
use mathlib.Core.Path.{subst}
use srepod.Prelude.{
  ℕ, zero, suc, ℤ, ◌+◌, Bool, if◌then◌else◌, contains, ◌<◌, true, false, Option, some, List, [], ◌∷◌, ◌++◌, ◌≡◌, ◌∙◌, ap, refl, sym, arith,
  ◌>>=◌, CString, codes, >>=-eq-some, length, length-append, append_assoc, append-nil,
}
use srepod.Transform.{escape}
use srepod.Transform.Parser.{
  Parser, Attributes, process_metadata, tmpsize, escape2, start_tag, end_tag, down,
}
use srepod.Transform.Stacks.{Stack}
use srepod.Transform.Start.{count_found}
use srepod.Transform.Handlers.{
  Setting, Event, start_event, end_event, text_event, comment_event, processing_event, handle_all,
  handle,
}
use srepod.Transform.Inside.{
  inside, count_end, start-inside, end-inside, text-inside, comment-inside, instruction-inside,
}

-- The content of an element.
mutual
  pub data Node : Type 0 where
    element : CString → Attributes → Nodes → Node
    text : CString → Node
    comment : CString → Node
    instruction : CString → CString → Node

  pub data Nodes : Type 0 where
    end_nodes : Nodes
    node_then : Node → Nodes → Nodes

-- The calls that the library for XML makes for a content.
unfoldable mutual
  pub node_events : Node → List Event
  node_events (element el attr nodes) = start_event el attr ∷ (events nodes ++ end_event el ∷ [])
  node_events (text s) = text_event s ∷ []
  node_events (comment s) = comment_event s ∷ []
  node_events (instruction target s) = processing_event target s ∷ []

  pub events : Nodes → List Event
  events end_nodes = []
  events (node_then n nodes) = node_events n ++ events nodes

-- The content as XML, where an element is written without the prefix `oai:`. `none` is an attribute or
-- a text that does not fit into its array.
unfoldable mutual
  pub node_text : Node → Option CString
  node_text (element el attr nodes) = do
    t ← start_tag (escape2 el) attr
    ts ← nodes_text nodes
    some (t ++ (ts ++ end_tag (escape2 el)))
  node_text (text s) = escape s (length s)
  node_text (comment s) = do t ← escape s (length s); some (codes "<!--" ++ (t ++ codes "-->"))
  node_text (instruction target s) =
      some (codes "<?" ++ (target ++ (codes " " ++ (s ++ codes "?>"))))

  pub nodes_text : Nodes → Option CString
  nodes_text end_nodes = some []
  nodes_text (node_then n nodes) = do t ← node_text n; ts ← nodes_text nodes; some (t ++ ts)

-- How often an element begins, and an element with `Repository` in its name.
unfoldable mutual
  pub elements : Node → ℕ
  elements (element el attr nodes) = elements_all nodes + 1
  elements (text s) = 0
  elements (comment s) = 0
  elements (instruction target s) = 0

  pub elements_all : Nodes → ℕ
  elements_all end_nodes = 0
  elements_all (node_then n nodes) = elements n + elements_all nodes

unfoldable mutual
  pub repositories : Node → ℕ
  repositories (element el attr nodes) =
      (if contains (escape2 el) (codes "Repository") then 1 else 0) + repositories_all nodes
  repositories (text s) = 0
  repositories (comment s) = 0
  repositories (instruction target s) = 0

  pub repositories_all : Nodes → ℕ
  repositories_all end_nodes = 0
  repositories_all (node_then n nodes) = repositories n + repositories_all nodes

-- `z - n`
unfoldable pub lower : ℕ → ℤ → ℤ
lower zero z = z
lower (suc n) z = down (lower n z)

lower_add : (a b : ℕ) (z : ℤ) → lower (a + b) z ≡ lower b (lower a z)
unfolding lower
lower_add a zero z = let k : a + 0 ≡ a = omega arith in rw k refl
lower_add a (suc b) z =
    let k : a + suc b ≡ suc (a + b) = omega arith in rw k (ap down (lower_add a b z))

-- The state behind elements of these numbers, but for what is copied.
abbrev counted : ℕ → ℕ → Parser → Parser
counted n k st = record st { depth = lower n st.depth; total_found = st.total_found + k }

counted_add :
    (a b k l : ℕ) (st : Parser)
    → counted b l (counted a k st) ≡ counted (a + b) (k + l) st
counted_add a b k l st =
    let p : st.total_found + k + l ≡ st.total_found + (k + l) = omega arith in
    λ j. record st { depth = (sym (lower_add a b st.depth)) j; total_found = p j }

found-eq : (b : Bool) (k t : ℕ) → (if b then t + 1 else t) + k ≡ t + ((if b then 1 else 0) + k)
found-eq true k t = omega arith
found-eq false k t = omega arith

counted-element :
    (el : CString) (attr : Attributes) (nodes : Nodes) (st : Parser)
    → count_end (counted (elements_all nodes) (repositories_all nodes) (count_found st (escape2 el)))
      ≡ counted (elements (element el attr nodes)) (repositories (element el attr nodes)) st
unfolding elements repositories lower
counted-element el attr nodes st =
    let b = contains (escape2 el) (codes "Repository") in
    let p : suc (elements_all nodes) ≡ elements_all nodes + 1 = omega arith in
    λ j. record st {
      depth = lower (p j) st.depth;
      total_found = found-eq b (repositories_all nodes) st.total_found j;
    }

handle_all-step :
    (g : Setting) (st : Parser) (e : Event) (ys : List Event) {st' : Parser}
    → handle g st e ≡ some st'
    → handle_all g st (e ∷ ys) ≡ handle_all g st' ys
unfolding handle_all
handle_all-step g st e ys h = rw (h, ◌>>=◌) refl

-- What comes first fits, where all of it does.
length-front : (s t u : CString) → length (s ++ (t ++ u)) < tmpsize → length (s ++ t) < tmpsize
length-front s t u l = omega (arith, length-append s t, length-append s (t ++ u), length-append t u)

node_text-inv :
    (el : CString) (attr : Attributes) (nodes : Nodes) {t : CString}
    → node_text (element el attr nodes) ≡ some t
    → (a ts : CString) × (start_tag (escape2 el) attr ≡ some a)
      × (nodes_text nodes ≡ some ts)
      × (a ++ (ts ++ end_tag (escape2 el)) ≡ t)
unfolding node_text
node_text-inv el attr nodes e =
    let (a, p, k) = >>=-eq-some (start_tag (escape2 el) attr) _ e in
    let (ts, q, l) = >>=-eq-some (nodes_text nodes) _ k in (a, ts, p, q, ground (arith, l))

nodes_text-inv :
    (n : Node) (nodes : Nodes) {t : CString}
    → nodes_text (node_then n nodes) ≡ some t
    → (a ts : CString) × (node_text n ≡ some a) × (nodes_text nodes ≡ some ts) × (a ++ ts ≡ t)
unfolding nodes_text
nodes_text-inv n nodes e =
    let (a, p, k) = >>=-eq-some (node_text n) _ e in
    let (ts, q, l) = >>=-eq-some (nodes_text nodes) _ k in (a, ts, p, q, ground (arith, l))

comment_text-inv :
    (s : CString) {t : CString}
    → node_text (comment s) ≡ some t
    → (a : CString) × (escape s (length s) ≡ some a) × (codes "<!--" ++ (a ++ codes "-->") ≡ t)
unfolding node_text
comment_text-inv s e =
    let (a, p, k) = >>=-eq-some (escape s (length s)) _ e in (a, p, ground (arith, k))

-- A state where the text of the record has grown by three pieces.
three_pieces :
    (st : Parser) (level : ℕ) (tags : Stack) (tmp a b c : CString)
    → inside st level tags (((tmp ++ a) ++ b) ++ c) ≡ inside st level tags (tmp ++ (a ++ (b ++ c)))
three_pieces st level tags tmp a b c =
    ap (inside st level tags) (append_assoc (tmp ++ a) b c ∙ append_assoc tmp a (b ++ c))

module _ (g : Setting) where
  no_element :
      (st : Parser) (level : ℕ) (tags : Stack) (tmp : CString) (ys : List Event)
      → handle_all g (inside st level tags tmp) ys
        ≡ handle_all g (inside (counted 0 0 st) level tags tmp) ys
  unfolding lower
  no_element st level tags tmp ys =
      let p : st.total_found ≡ st.total_found + 0 = omega arith in
      λ j. handle_all g (inside (record st { total_found = p j }) level tags tmp) ys

  mutual
    unfolding node_events node_text elements repositories lower

    node-copied :
        (n : Node) (st : Parser) (level : ℕ) (tags : Stack) (tmp t : CString) (ys : List Event)
        → 3 < level
        → node_text n ≡ some t
        → length (tmp ++ t) < tmpsize
        → handle_all g (inside st level tags tmp) (node_events n ++ ys)
          ≡ handle_all g (inside (counted (elements n) (repositories n) st) level tags (tmp ++ t)) ys
    node-copied (text s) st level tags tmp t ys d e l =
        handle_all-step g (inside st level tags tmp) (text_event s) ys
          (text-inside g st level tags tmp s e l)
        ∙ no_element st level tags (tmp ++ t) ys
    node-copied (comment s) st level tags tmp t ys d e l =
        let (a, p, q) = comment_text-inv s e in
        handle_all-step g (inside st level tags tmp) (comment_event s) ys
          (comment-inside g st level tags tmp s p q l)
        ∙ no_element st level tags (tmp ++ t) ys
    node-copied (instruction target s) st level tags tmp t ys d e l =
        let u : CString = codes "<?" ++ (target ++ (codes " " ++ (s ++ codes "?>"))) in
        let q : u ≡ t = ground arith in
        handle_all-step g (inside st level tags tmp) (processing_event target s) ys
          (instruction-inside g st level tags tmp target s q l)
        ∙ no_element st level tags (tmp ++ t) ys
    node-copied (element el attr nodes) st level tags tmp t ys d e l =
        let (a, ts, p, q, r) = node_text-inv el attr nodes e in
        let c : CString = end_tag (escape2 el) in
        let st₁ : Parser = count_found st (escape2 el) in
        let st₂ : Parser = counted (elements_all nodes) (repositories_all nodes) st₁ in
        let l₁ : length (tmp ++ (a ++ (ts ++ c))) < tmpsize =
          subst (λ x. length (tmp ++ x) < tmpsize) (sym r) l in
        let l₂ : length ((tmp ++ a) ++ (ts ++ c)) < tmpsize =
          subst (λ x. length x < tmpsize) (sym (append_assoc tmp a (ts ++ c))) l₁ in
        let l₃ : length (((tmp ++ a) ++ ts) ++ c) < tmpsize =
          subst (λ x. length x < tmpsize) (sym (append_assoc (tmp ++ a) ts c)) l₂ in
        let s₁ =
          handle_all-step g (inside st level tags tmp) (start_event el attr)
            ((events nodes ++ end_event el ∷ []) ++ ys)
            (start-inside g st level tags tmp el attr p (length-front tmp a (ts ++ c) l₁)) in
        let s₂ =
          nodes-copied nodes st₁ (level + 1) (escape2 el ∷ tags) (tmp ++ a) ts (end_event el ∷ ys)
            (omega (arith, d)) q (length-front (tmp ++ a) ts c l₂) in
        let s₃ =
          handle_all-step g (inside st₂ (level + 1) (escape2 el ∷ tags) ((tmp ++ a) ++ ts))
            (end_event el) ys
            (end-inside g st₂ level tags ((tmp ++ a) ++ ts) el (escape2 el) (omega (arith, d)) l₃) in
        s₁
        ∙ ap (handle_all g (inside st₁ (level + 1) (escape2 el ∷ tags) (tmp ++ a)))
            (append_assoc (events nodes) (end_event el ∷ []) ys)
        ∙ s₂
        ∙ s₃
        ∙ ap (λ (x : Parser). handle_all g x ys)
            (three_pieces (count_end st₂) level tags tmp a ts c
              ∙ ap (λ x. inside (count_end st₂) level tags (tmp ++ x)) r
              ∙ ap (λ (x : Parser). inside x level tags (tmp ++ t))
                  (counted-element el attr nodes st))

    nodes-copied :
        (nodes : Nodes) (st : Parser) (level : ℕ) (tags : Stack) (tmp t : CString) (ys : List Event)
        → 3 < level
        → nodes_text nodes ≡ some t
        → length (tmp ++ t) < tmpsize
        → handle_all g (inside st level tags tmp) (events nodes ++ ys)
          ≡ handle_all g
              (inside (counted (elements_all nodes) (repositories_all nodes) st) level tags (tmp ++ t))
              ys
    nodes-copied end_nodes st level tags tmp t ys d e l =
        let q : t ≡ [] = ground arith in
        ap (λ x. handle_all g (inside st level tags x) ys)
          (sym (append-nil tmp) ∙ ap (λ x. tmp ++ x) (sym q))
        ∙ no_element st level tags (tmp ++ t) ys
    nodes-copied (node_then n nodes) st level tags tmp t ys d e l =
        let (a, ts, p, q, r) = nodes_text-inv n nodes e in
        let st₁ : Parser = counted (elements n) (repositories n) st in
        let st₂ : Parser = counted (elements_all nodes) (repositories_all nodes) st₁ in
        let l₁ : length (tmp ++ (a ++ ts)) < tmpsize =
          subst (λ x. length (tmp ++ x) < tmpsize) (sym r) l in
        let l₂ : length ((tmp ++ a) ++ ts) < tmpsize =
          subst (λ x. length x < tmpsize) (sym (append_assoc tmp a ts)) l₁ in
        ap (handle_all g (inside st level tags tmp))
          (append_assoc (node_events n) (events nodes) ys)
        ∙ node-copied n st level tags tmp a (events nodes ++ ys) d p (length-front tmp a ts l₁)
        ∙ nodes-copied nodes st₁ level tags (tmp ++ a) ts ys d q l₂
        ∙ ap (λ x. handle_all g (inside st₂ level tags x) ys)
            (append_assoc tmp a ts ∙ ap (λ x. tmp ++ x) r)
        ∙ ap (λ (x : Parser). handle_all g (inside x level tags (tmp ++ t)) ys)
            (counted_add (elements n) (elements_all nodes) (repositories n) (repositories_all nodes)
              st)

-- A record is copied, its metadata is open, and `level` counts at least the four elements that are.
pub record IsInside (st : Parser) : Type 0 where
  pub started : st.in_process ≡ false
  pub metadata : st.insidemetadata ≡ true
  pub copying : st.carryon ≡ true
  pub waiting : st.pass ≡ process_metadata
  pub deep : 3 < st.level
