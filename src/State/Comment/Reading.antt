-- ===== src/State/Comment/Reading.antt =====
-- How the expression for the state's block reads a comment.
use Prim.Native.Char.{Char, code}
use space_elysiajs_orpc.Prelude.{
  ℕ, String, Bool, true, false, Option, none, some, List, [], ◌∷◌, eqb, ◌≡◌, refl, arith, ap, ◌∙◌,
  ◌&&◌, ◌||◌, Bool-cases, inl, inr, if◌then◌else◌,
}
use space_elysiajs_orpc.Prelude.Gluing.{glue, last_code}
use space_elysiajs_orpc.Regexp.{
  Re, seq, group, star, reluctant, run, step, exec, group_of, Place, Then, captured, exec_from,
}
use space_elysiajs_orpc.Regexp.Classes.{literal, space, is_space, anything, all_of}
use space_elysiajs_orpc.Regexp.Repetition.{
  at_place, star_take, star_stop, reluctant_to, Fails, or_else-some, or_else-none, captured_between,
  NoMatch, exec_from-glue,
}
use space_elysiajs_orpc.State.Comment.{state_block}

-- A backtick stands right after a line feed, or first where `after` says so.
unfoldable pub fenced : Bool → String → Bool
fenced after String.[] = false
fenced after (String.◌∷◌ c s) = (after && eqb (code c) b'`') || fenced (eqb (code c) 10) s

abbrev done : Then
done q = some q

abbrev fence : Re
fence = all_of (literal "\n```" ∷ [])

fence_fails :
    (b : Option ℕ) (g : List (ℕ × String)) (c : Char) (s rest : String)
    → fenced false (String.◌∷◌ c s) ≡ false
    → run fence (at_place b (String.◌∷◌ c (glue s (glue "\n```" rest))) g) done ≡ none
unfolding run step fenced
fence_fails b g c String.[] rest h = elim (Bool-cases (eqb 10 (code c))) [
  | inl e ↦ rw e refl
  | inr e ↦ rw e refl
]
fence_fails b g c (String.◌∷◌ d s) rest h = elim (Bool-cases (eqb 10 (code c))) [
  | inl e ↦ elim (Bool-cases (eqb b'`' (code d))) [ inl f ↦ ground arith | inr f ↦ rw (e, f) refl ]
  | inr e ↦ rw e refl
]

-- From the block's text on: what is captured is the text before the closing fence.
abbrev capture : Re
capture = all_of (group 1 (reluctant anything) ∷ literal "\n```" ∷ [])

pub fenced_start : (s : String) → fenced true s ≡ false → fenced false s ≡ false
unfolding fenced
fenced_start String.[] h = refl
fenced_start (String.◌∷◌ c s) h = ground arith

fenced_rest :
    (c : Char) (s : String) → fenced false (String.◌∷◌ c s) ≡ false → fenced false s ≡ false
unfolding fenced
fenced_rest c s h = elim (Bool-cases (eqb (code c) 10)) [
  | inl e ↦ fenced_start s (rw e at h)
  | inr e ↦ rw e at h
]

-- What is captured from a place on, and the fence after it.
abbrev closing : Place → Then
closing p q = run fence (record q { groups = (1, captured p q) ∷ q.groups }) done

fence_Fails :
    (p : Place) (b : Option ℕ) (s rest : String)
    → fenced false s ≡ false
    → Fails [] (closing p) b s (glue "\n```" rest)
unfolding Fails
fence_Fails p b String.[] rest h = tt
fence_Fails p b (String.◌∷◌ c s) rest h =
    (fence_fails b _ c s rest h, fence_Fails p (some (code c)) s rest (fenced_rest c s h))

abbrev captures : Option ℕ → String → String → Place
captures b raw rest = at_place b rest ((1, raw) ∷ [])

closing_lem :
    (b : Option ℕ) (raw rest : String)
    → closing
        (at_place b (glue raw (glue "\n```" rest)) [])
        (at_place (last_code b raw) (glue "\n```" rest) [])
      ≡ some (captures (some b'`') raw rest)
unfolding run step
closing_lem b raw rest =
    ap (λ t. some (captures (some b'`') t rest))
      (captured_between b (last_code b raw) [] [] raw (glue "\n```" rest))

capture_lem :
    (b : Option ℕ) (raw rest : String)
    → fenced false raw ≡ false
    → run capture (at_place b (glue raw (glue "\n```" rest)) []) done
      ≡ some (captures (some b'`') raw rest)
unfolding run
capture_lem b raw rest h =
    reluctant_to [] (closing (at_place b (glue raw (glue "\n```" rest)) [])) b raw _
      (glue "```" rest) _ (fence_Fails _ b raw rest h) (closing_lem b raw rest)

-- The line feed before a block that begins with a brace.
abbrev opened_block : Re
opened_block = seq (star space) (seq (literal "\n") capture)

opened_block_lem :
    (b : Option ℕ) (raw rest : String)
    → fenced false (glue "{" raw) ≡ false
    → run opened_block (at_place b (glue "\n{" (glue raw (glue "\n```" rest))) []) done
      ≡ some (captures (some b'`') (glue "{" raw) rest)
unfolding run step
opened_block_lem b raw rest h =
    let k : Then = λ q. run (seq (literal "\n") capture) q done in
    let text = glue raw (glue "\n```" rest) in
    star_take [] k is_space b _ (glue "{" text) refl
    ∙ or_else-none _ (star_stop [] k is_space (some 10) _ text refl)
    ∙ capture_lem (some 10) (glue "{" raw) rest h

spaces_then :
    (r : Re) (b : Option ℕ) (c : Char) (s : String) (x : Place)
    → is_space (code c) ≡ false
    → run r (at_place (some 32) (String.◌∷◌ c s) []) done ≡ some x
    → run (seq (star space) r) (at_place b (glue " " (String.◌∷◌ c s)) []) done ≡ some x
unfolding run
spaces_then r b c s x h e =
    star_take [] (λ q. run r q done) is_space b _ (String.◌∷◌ c s) refl
    ∙ or_else-some _ (star_stop [] (λ q. run r q done) is_space (some 32) c s h ∙ e)

-- What follows the marker: up to the first fence, and the block in it.
abbrev after_marker : Re
after_marker = seq (reluctant anything) (seq (literal "```json") opened_block)

after_marker_lem :
    (b : Option ℕ) (raw rest : String)
    → fenced false (glue "{" raw) ≡ false
    → run after_marker (at_place b (glue "\n\n```json\n{" (glue raw (glue "\n```" rest))) []) done
      ≡ some (captures (some b'`') (glue "{" raw) rest)
unfolding run step Fails
after_marker_lem b raw rest h =
    reluctant_to [] (λ q. run (seq (literal "```json") opened_block) q done) b "\n\n" _
      (glue "``json\n{" (glue raw (glue "\n```" rest))) _ (refl, (refl, tt))
      (opened_block_lem (some b'n') raw rest h)

abbrev pub marker : String
marker = "<!-- newsdeck-loop-state -->\n\n```json\n{"

marker_lem :
    (b : Option ℕ) (raw rest : String)
    → fenced false (glue "{" raw) ≡ false
    → run state_block (at_place b (glue marker (glue raw (glue "\n```" rest))) []) done
      ≡ some (captures (some b'`') (glue "{" raw) rest)
unfolding run step
marker_lem b raw rest h =
    let text = glue "\n\n```json\n{" (glue raw (glue "\n```" rest)) in
    spaces_then
      (seq (literal "newsdeck-loop-state") (seq (star space) (seq (literal "-->") after_marker)))
      (some b'-') _ (glue "ewsdeck-loop-state -->" text) _ refl
      (spaces_then (seq (literal "-->") after_marker) (some b'e') _ (glue "->" text) _ refl
        (after_marker_lem (some b'>') raw rest h))

-- Where a comment's opening is found.
unfoldable pub opens_comment : String → Bool
opens_comment (String.◌∷◌ a (String.◌∷◌ b (String.◌∷◌ c (String.◌∷◌ d s)))) =
    eqb b'<' (code a) && (eqb b'!' (code b) && (eqb b'-' (code c) && eqb b'-' (code d)))
opens_comment _ = false

unless : {x : Option Place} (b : Bool) → x ≡ none → (if b then x else none) ≡ none
unless true h = h
unless false h = refl

unless_all :
    (a b c d : Bool) (x : Option Place)
    → (a && (b && (c && d))) ≡ false
    → (if a then if b then if c then if d then x else none else none else none else none) ≡ none
unless_all false b c d x h = refl
unless_all true false c d x h = refl
unless_all true true false d x h = refl
unless_all true true true false x h = refl
unless_all true true true true x h = cc

no_block :
    (b : Option ℕ) (text : String)
    → opens_comment text ≡ false
    → run state_block (at_place b text []) done ≡ none
unfolding run step opens_comment
no_block b String.[] h = refl
no_block b (String.◌∷◌ c String.[]) h = unless (eqb b'<' (code c)) refl
no_block b (String.◌∷◌ c (String.◌∷◌ d String.[])) h =
    unless (eqb b'<' (code c)) (unless (eqb b'!' (code d)) refl)
no_block b (String.◌∷◌ c (String.◌∷◌ d (String.◌∷◌ e String.[]))) h =
    unless (eqb b'<' (code c)) (unless (eqb b'!' (code d)) (unless (eqb b'-' (code e)) refl))
no_block b (String.◌∷◌ c (String.◌∷◌ d (String.◌∷◌ e (String.◌∷◌ f s)))) h =
    unless_all (eqb b'<' (code c)) (eqb b'!' (code d)) (eqb b'-' (code e)) (eqb b'-' (code f)) _ h

-- No comment is opened at a place of the first text, before the second.
unfoldable pub Unopened : String → String → Type 0
Unopened String.[] rest = Unit
Unopened (String.◌∷◌ c s) rest =
    (opens_comment (String.◌∷◌ c (glue s rest)) ≡ false) × Unopened s rest

Unopened-NoMatch : (b : Option ℕ) (s rest : String) → Unopened s rest → NoMatch state_block b s rest
unfolding NoMatch Unopened
Unopened-NoMatch b String.[] rest h = tt
Unopened-NoMatch b (String.◌∷◌ c s) rest h =
    (no_block b (String.◌∷◌ c (glue s rest)) h.0, Unopened-NoMatch (some (code c)) s rest h.1)

-- Where no comment is opened before the marker, the block that follows it is what is captured.
pub block_is_read :
    (before raw rest : String)
    → fenced false (glue "{" raw) ≡ false
    → Unopened before (glue marker (glue raw (glue "\n```" rest)))
    → group_of 1 (exec state_block (glue before (glue marker (glue raw (glue "\n```" rest)))))
      ≡ some (glue "{" raw)
unfolding exec exec_from group_of
block_is_read before raw rest h k =
    let text = glue marker (glue raw (glue "\n```" rest)) in
    ap (group_of 1) (
      exec_from-glue state_block none before text (Unopened-NoMatch none before text k)
      ∙ or_else-some _ (marker_lem (last_code none before) raw rest h))
