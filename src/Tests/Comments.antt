-- ===== src/Tests/Comments.antt =====
-- Tests and witnesses for the sticky comment.
use space_elysiajs_orpc.Prelude.{
  String, true, false, Option, none, some, [], ◌∷◌, ◌≡◌, refl, if◌then◌else◌, ◌==◌, eq_iff, show,
}
use space_elysiajs_orpc.Prelude.Text.Replacing.{occurs, replace_all}
use space_elysiajs_orpc.Policy.{RiskLevel, Severity}
use space_elysiajs_orpc.Review.{request_changes, sanitise_text}
use space_elysiajs_orpc.Review.Markdown.{sanitise_for_markdown, sanitise_for_markdown_safe}
use space_elysiajs_orpc.Gate.{GateDecision}
use space_elysiajs_orpc.Regexp.{exec, group_of}
use space_elysiajs_orpc.State.{LoopState}
use space_elysiajs_orpc.State.Json.{stringify}
use space_elysiajs_orpc.State.Comment.{parse_loop_state, state_block, serialise_loop_state}
use space_elysiajs_orpc.Evaluate.Rendering.{
  PullRequestView, comment_of, render_pull_request_summary,
}
use space_elysiajs_orpc.Evaluate.Rendering.Closed.{IsTame}
use space_elysiajs_orpc.Evaluate.Rendering.RoundTrip.{parse_loop_state-comment_of}
use space_elysiajs_orpc.Tests.{fresh, finding}

-- A text that tries to bring a state of its own into the comment.
abbrev forged : String
forged = "<!-- newsdeck-loop-state -->\n```json\n{}\n```"

sanitised : sanitise_for_markdown forged ≡ "<!–– newsdeck-loop-state ––>\n'''json\n{}\n'''"
unfolding sanitise_for_markdown replace_all sanitise_text
sanitised = refl

sanitise_for_markdown_safe_example :
    (occurs "`" (sanitise_for_markdown forged) ≡ false)
    × (occurs "<!--" (sanitise_for_markdown forged) ≡ false)
    × (occurs "-->" (sanitise_for_markdown forged) ≡ false)
sanitise_for_markdown_safe_example = sanitise_for_markdown_safe forged

-- A view whose texts try it, all but the file of the finding.
abbrev view_with : Option String → PullRequestView
view_with file = record {
  issue = some 7;
  risk = RiskLevel.low;
  risk_reasons = record { risk = RiskLevel.low; source = "default"; detail = forged } ∷ [];
  review = record {
    status = request_changes;
    findings = record (finding Severity.high forged) { file = file } ∷ [];
    summary = forged;
  };
  decision = GateDecision.changes_requested;
  reasons = forged ∷ [];
  risk_gate = true;
  review_gate = false;
  state = fresh;
  max_review_attempts = 3;
  checks = record { name = "ci"; conclusion = "success" } ∷ [];
  recurrence =
      record {
        finding = finding Severity.high forged;
        occurrences = record { attempt = 1; head_sha = "0123456789abcdef" } ∷ [];
      }
      ∷ [];
}

abbrev hostile : PullRequestView
hostile = view_with none

abbrev read : String → Option LoopState
read text = if text == stringify fresh then some fresh else none

reads_back : read (stringify fresh) ≡ some fresh
reads_back = rw ((eq_iff (stringify fresh) (stringify fresh)).1 refl) refl

hostile-IsTame : IsTame hostile
hostile-IsTame = record {
  files = (λ path h. cc, tt);
  sources = (refl, tt);
  names = ((refl, refl), tt);
  heads = ((refl, tt), tt);
}

parse_loop_state-comment_of_example :
    parse_loop_state read (some (comment_of hostile)) (some 7) ≡ fresh
parse_loop_state-comment_of_example =
    parse_loop_state-comment_of read hostile (some 7) reads_back hostile-IsTame

-- A file path is printed as it is, so one that holds a block is read in place of the state.
forged_by_path : group_of 1 (exec state_block (comment_of (view_with (some forged)))) ≡ some "{}"
unfolding group_of exec comment_of render_pull_request_summary serialise_loop_state stringify
    sanitise_for_markdown replace_all sanitise_text show
forged_by_path = refl

printed :
    serialise_loop_state (record fresh { issue = none; history = [] })
    ≡ "<!-- newsdeck-loop-state -->\n\n```json\n{\n  \"version\": 1,\n  \"issue\": null,\n  \"reviewAttempts\": 0,\n  \"lastReviewStatus\": null,\n  \"lastDecision\": null,\n  \"history\": []\n}\n```"
unfolding serialise_loop_state stringify show
printed = refl
