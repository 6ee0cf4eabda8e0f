-- ===== src/Evaluate/Rendering/Closed.antt =====
-- The rendered summary opens no HTML comment.
use Prim.Native.String
use space_elysiajs_orpc.Prelude.{
  ℕ, String, true, Option, none, some, List, [], ◌∷◌, map, concat, show, length, All, All-append,
  ◌≡◌, refl,
}
use space_elysiajs_orpc.Prelude.Text.Digits.{each, each-append}
use space_elysiajs_orpc.Prelude.Text.Opening.{
  Shut, quiet, Shut-fixed, Shut-last, Shut-join, All-map_Shut,
}
use space_elysiajs_orpc.Review.{Finding}
use space_elysiajs_orpc.Review.Markdown.{sanitise_for_markdown}
use space_elysiajs_orpc.Recurrence.{RecurringFinding, RecurrenceOccurrence}
use space_elysiajs_orpc.Regexp.{text_take}
use space_elysiajs_orpc.State.Json.{status_name}
use space_elysiajs_orpc.Evaluate.Rendering.{
  decision_label, risk_name, gate_name, RiskText, CheckRow, PullRequestView, row, table, issue_cell,
  finding_row, reason_line, risk_line, check_line, recurrence_line, status_rows, finding_sections,
  recurrence_sections, sections, heading_sections, risk_sections, check_sections, closing_sections,
  render_pull_request_summary,
}
use space_elysiajs_orpc.Evaluate.Rendering.Pieces.{
  safe, risk_quiet, status_quiet, decision_quiet, gate_quiet, show-quiet, reason_line-Shut,
  finding_row-Shut, risk_line-Shut, check_line-Shut, All-weaken, recurrence_line-Shut, row-Shut,
}

-- What the view holds that is printed as it is opens no comment.
pub record IsTame (view : PullRequestView) : Type 0 where
  pub files :
      All (λ (f : Finding). (path : String) → f.file ≡ some path → Shut path) view.review.findings
  pub sources : All (λ (r : RiskText). Shut r.source) view.risk_reasons
  pub names : All (λ (c : CheckRow). Shut c.name × Shut c.conclusion) view.checks
  pub heads :
      All
        (λ (r : RecurringFinding).
          All (λ (o : RecurrenceOccurrence). Shut (text_take 12 o.head_sha)) r.occurrences)
        view.recurrence

issue_quiet : (issue : Option ℕ) → each quiet (issue_cell issue) ≡ true
issue_quiet none = refl
issue_quiet (some n) =
    each-append quiet "#" (String.◌++◌ (show n) "") refl
      (each-append quiet (show n) "" (show-quiet n) refl)

coded_quiet :
    (name : String) → each quiet name ≡ true → each quiet (concat ("`" ∷ name ∷ "`" ∷ [])) ≡ true
coded_quiet name h =
    each-append quiet "`" (String.◌++◌ name (String.◌++◌ "`" "")) refl
      (each-append quiet name (String.◌++◌ "`" "") h refl)

attempts_quiet : (n m : ℕ) → each quiet (concat (show n ∷ " of " ∷ show m ∷ [])) ≡ true
attempts_quiet n m =
    let last = String.◌++◌ (show m) "" in
    each-append quiet (show n) (String.◌++◌ " of " last) (show-quiet n)
      (each-append quiet " of " last refl (each-append quiet (show m) "" (show-quiet m) refl))

table-Shut : (view : PullRequestView) → Shut (table (status_rows view))
unfolding table
table-Shut view =
    Shut-join "\n" ("| | |" ∷ "| --- | --- |" ∷ map row (status_rows view)) refl refl (
      refl,
      (
        refl,
        (
          row-Shut "Issue" (issue_cell view.issue) refl (issue_quiet view.issue),
          (
            row-Shut "Risk" (concat ("`" ∷ risk_name view.risk ∷ "`" ∷ [])) refl
                (coded_quiet (risk_name view.risk) (risk_quiet view.risk)),
            (
              row-Shut "Review" (concat ("`" ∷ status_name view.review.status ∷ "`" ∷ [])) refl
                  (coded_quiet (status_name view.review.status) (status_quiet view.review.status)),
              (
                row-Shut "Review attempts"
                    (concat (
                      show view.state.review_attempts
                      ∷ " of "
                      ∷ show view.max_review_attempts
                      ∷ []))
                    refl (attempts_quiet view.state.review_attempts view.max_review_attempts),
                (
                  row-Shut "Risk gate" (gate_name view.risk_gate) refl (gate_quiet view.risk_gate),
                  (
                    row-Shut "Review gate" (gate_name view.review_gate) refl
                        (gate_quiet view.review_gate),
                    (
                      row-Shut "Decision" (decision_label view.decision) refl
                          (decision_quiet view.decision),
                      tt,
                    ),
                  ),
                ),
              ),
            ),
          ),
        ),
      ),
    )

findings-Shut :
    (l : List Finding)
    → All (λ (f : Finding). (path : String) → f.file ≡ some path → Shut path) l
    → All Shut (finding_sections l)
unfolding finding_sections
findings-Shut [] h = tt
findings-Shut (f ∷ l) h = (
  refl,
  (
    Shut-fixed "**Findings (" (show (length (f ∷ l)) ∷ ")**" ∷ []) refl
        (Shut-fixed (show (length (f ∷ l))) (")**" ∷ []) (show-quiet (length (f ∷ l))) refl),
    (
      refl,
      (
        refl,
        (
          refl,
          (
            Shut-join "\n" (map finding_row (f ∷ l)) refl refl
                (All-map_Shut finding_row (f ∷ l) (All-weaken (f ∷ l) finding_row-Shut h)),
            tt,
          ),
        ),
      ),
    ),
  ),
)

recurrence-Shut :
    (l : List RecurringFinding)
    → All
        (λ (r : RecurringFinding).
          All (λ (o : RecurrenceOccurrence). Shut (text_take 12 o.head_sha)) r.occurrences)
        l
    → All Shut (recurrence_sections l)
unfolding recurrence_sections
recurrence-Shut [] h = tt
recurrence-Shut (r ∷ l) h = (
  refl,
  (refl, (refl, All-map_Shut recurrence_line (r ∷ l) (All-weaken (r ∷ l) recurrence_line-Shut h))),
)

always {ℓ κ} : {A : Type ℓ} {P : A → Type κ} (l : List A) → ((a : A) → P a) → All P l
always [] f = tt
always (a ∷ l) f = (f a, always l f)

-- The summary of a view that prints nothing untamed opens no HTML comment.
pub summary-Shut : (view : PullRequestView) → IsTame view → Shut (render_pull_request_summary view)
unfolding render_pull_request_summary sections
summary-Shut view h =
    let label = decision_label view.decision in
    let summary = sanitise_for_markdown view.review.summary in
    Shut-join "\n" (sections view) refl refl (
      All-append Shut (heading_sections view) _
        (
          Shut-fixed "### Autonomous loop — " (label ∷ []) refl
              (Shut-fixed label [] (decision_quiet view.decision) refl),
          (
            refl,
            (
              table-Shut view,
              (
                refl,
                (
                  refl,
                  (
                    refl,
                    All-map_Shut reason_line view.reasons (always view.reasons reason_line-Shut),
                  ),
                ),
              ),
            ),
          ),
        )
        (All-append Shut (risk_sections view) _
          (
            refl,
            (
              refl,
              (
                refl,
                All-map_Shut risk_line view.risk_reasons
                    (All-weaken view.risk_reasons risk_line-Shut h.sources),
              ),
            ),
          )
          (All-append Shut (check_sections view) _
            (
              refl,
              (
                refl,
                (
                  refl,
                  All-map_Shut check_line view.checks
                      (All-weaken view.checks (λ c p. check_line-Shut c p.0 p.1) h.names),
                ),
              ),
            )
            (All-append Shut (finding_sections view.review.findings) _
              (findings-Shut view.review.findings h.files)
              (All-append Shut (recurrence_sections view.recurrence) (closing_sections view)
                (recurrence-Shut view.recurrence h.heads)
                (
                  refl,
                  (
                    refl,
                    (
                      refl,
                      (
                        Shut-fixed "> " (summary ∷ []) refl
                            (Shut-last summary (safe view.review.summary)),
                        tt,
                      ),
                    ),
                  ),
                ))))))
