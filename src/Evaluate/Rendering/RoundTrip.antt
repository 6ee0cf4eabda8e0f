-- ===== src/Evaluate/Rendering/RoundTrip.antt =====
-- The state that an evaluation writes into the comment is the state that the next one reads.
use Prim.Native.Char.{Char}
use space_elysiajs_orpc.Prelude.{
  ℕ, String, false, Option, some, [], ◌∷◌, ◌≡◌, refl, arith, ap, ◌∙◌, sym, concat, subst,
}
use space_elysiajs_orpc.Prelude.Gluing.{glue, concat-eq-glue_all, glue_assoc}
use space_elysiajs_orpc.Prelude.Text.Opening.{Shut}
use space_elysiajs_orpc.Regexp.{exec, group_of}
use space_elysiajs_orpc.State.{LoopState}
use space_elysiajs_orpc.State.Json.{stringify}
use space_elysiajs_orpc.State.Comment.{
  state_block, serialise_loop_state, parse_loop_state, read_block, or_initial, loop_state_marker,
}
use space_elysiajs_orpc.State.Comment.Reading.{
  fenced, fenced_start, Unopened, opens_comment, marker, block_is_read,
}
use space_elysiajs_orpc.State.Comment.Printing.{stringify-Fenceless, stringify-brace}
use space_elysiajs_orpc.Evaluate.Rendering.{
  PullRequestView, comment_of, render_pull_request_summary,
}
use space_elysiajs_orpc.Evaluate.Rendering.Closed.{IsTame, summary-Shut}

not_opened :
    (c : Char) (s rest : String)
    → Shut (String.◌∷◌ c s)
    → opens_comment (String.◌∷◌ c (glue s (glue "\n\n" rest))) ≡ false
unfolding opens_comment
not_opened c String.[] String.[] h = refl
not_opened c String.[] (String.◌∷◌ x r) h = ground arith
not_opened c (String.◌∷◌ d String.[]) rest h = ground arith
not_opened c (String.◌∷◌ d (String.◌∷◌ e String.[])) rest h = ground arith
not_opened c (String.◌∷◌ d (String.◌∷◌ e (String.◌∷◌ f s))) rest h = ground arith

newline_first : (t : String) → opens_comment (glue "\n" t) ≡ false
unfolding opens_comment
newline_first String.[] = refl
newline_first (String.◌∷◌ c String.[]) = refl
newline_first (String.◌∷◌ c (String.◌∷◌ d String.[])) = refl
newline_first (String.◌∷◌ c (String.◌∷◌ d (String.◌∷◌ e s))) = refl

Shut-Unopened : (s rest : String) → Shut s → Unopened (glue s "\n\n") rest
unfolding Unopened opens_comment
Shut-Unopened String.[] rest h = (newline_first (glue "\n" rest), (newline_first rest, tt))
Shut-Unopened (String.◌∷◌ c s) rest h = (
  ap (λ t. opens_comment (String.◌∷◌ c t)) (glue_assoc s "\n\n" rest) ∙ not_opened c s rest h,
  Shut-Unopened s rest (ground arith),
)

-- The comment is the summary, the marker and the printed state.
comment_text :
    (view : PullRequestView) (raw : String)
    → stringify view.state ≡ glue "{" raw
    → comment_of view
      ≡ glue
          (glue (render_pull_request_summary view) "\n\n")
          (glue marker (glue raw (glue "\n```" "\n")))
unfolding comment_of serialise_loop_state
comment_text view raw h =
    let summary = render_pull_request_summary view in
    let block = loop_state_marker ∷ "\n\n```json\n" ∷ stringify view.state ∷ "\n```" ∷ [] in
    let written : concat block ≡ glue marker (glue raw "\n```") =
      concat-eq-glue_all block
      ∙ ap (λ t. glue loop_state_marker (glue "\n\n```json\n" (glue t "\n```"))) h in
    concat-eq-glue_all (summary ∷ "\n\n" ∷ concat block ∷ "\n" ∷ [])
    ∙ ap (λ t. glue summary (glue "\n\n" (glue t "\n"))) written
    ∙ ap (λ t. glue summary (glue "\n\n" (glue marker t))) (glue_assoc raw "\n```" "\n")
    ∙ sym (glue_assoc summary "\n\n" (glue marker (glue raw "\n```\n")))

-- Under a schema library that reads a printed state back as what it was: whatever the model wrote
-- into the review's texts, the reasons and the details, the state in the comment that an evaluation
-- writes is the state that the next evaluation reads from it, provided that no file path of a
-- finding, no name or conclusion of a check, no source of a reason and no commit shown holds the
-- opening of an HTML comment.
pub parse_loop_state-comment_of :
    (read : String → Option LoopState) (view : PullRequestView) (issue : Option ℕ)
    → read (stringify view.state) ≡ some view.state
    → IsTame view
    → parse_loop_state read (some (comment_of view)) issue ≡ view.state
unfolding parse_loop_state read_block or_initial
parse_loop_state-comment_of read view issue h tame =
    let (raw, printed) = stringify-brace view.state in
    let rest = glue marker (glue raw (glue "\n```" "\n")) in
    let text = comment_text view raw printed in
    let free : fenced false (glue "{" raw) ≡ false =
      subst (λ t. fenced false t ≡ false) printed
        (fenced_start (stringify view.state) (stringify-Fenceless view.state)) in
    let found : group_of 1 (exec state_block (comment_of view)) ≡ some (stringify view.state) =
      ap (λ t. group_of 1 (exec state_block t)) text
      ∙ block_is_read (glue (render_pull_request_summary view) "\n\n") raw "\n" free
          (Shut-Unopened (render_pull_request_summary view) rest (summary-Shut view tame))
      ∙ ap (λ t. some t) (sym printed) in
    ap (λ o. read_block read o issue) found ∙ ap (λ o. or_initial o issue) h
