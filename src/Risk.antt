-- ===== src/Risk.antt =====
-- tooling/loop/src/risk.ts: the risk level of a pull request. The details of a reason are
-- constructors that hold the values which the source puts into the text.
pub mod Levels
pub mod Monotone
use space_elysiajs_orpc.Prelude.{
  ℕ, String, Bool, true, false, Option, none, some, List, [], ◌∷◌, ◌++◌, map, ltb, eqb, ◌&&◌, ◌||◌,
  not, if◌then◌else◌, filter, is_empty, length, head?, ◌==◌,
}
use space_elysiajs_orpc.Policy.{RiskLevel, risk_order, max_risk, PathRule, Escalations, LoopPolicy}
use space_elysiajs_orpc.Glob.{matches_any_glob}
use space_elysiajs_orpc.Diff.{DiffFile, PullRequestDiff, deletions}
use space_elysiajs_orpc.Detect.{DestructiveStatement, find_destructive_sql, removed_exports}
use space_elysiajs_orpc.Detect.Changes.{ChangeKind, DependencyChange, dependency_changes}
use space_elysiajs_orpc.ControlPlane.{
  ControlReason, ControlPlaneAssessment, assess_control_plane, stricter_risk,
}

pub data Detail : Type 0 where
  policy_default : Detail
  path_rule : String → ℕ → Option DiffFile → Detail
  risk_label : String → Detail
  too_many_files : ℕ → ℕ → Detail
  too_many_deletions : ℕ → ℕ → Detail
  destructive_migration : String → Option DestructiveStatement → Detail
  breaking_api : String → List String → Detail
  major_upgrade : DependencyChange → Detail
  control_plane : ControlReason → Detail
  base_governs : RiskLevel → RiskLevel → Detail
  proposal_raises : RiskLevel → Detail

-- `source` is told by the detail's constructor.
pub record RiskReason : Type 0 where
  pub risk : RiskLevel
  pub detail : Detail

pub record RiskAssessment : Type 0 where
  pub risk : RiskLevel
  pub reasons : List RiskReason
  pub affected : Bool
  pub policy_bearing : Bool
  pub control_reasons : List ControlReason

pub record RiskInput : Type 0 where
  pub diff : PullRequestDiff
  pub labels : List String
  pub policy : LoopPolicy

-- `RISK_LABEL.exec(label)?.[1]`
pub label_risk : String → Option RiskLevel
label_risk label =
    if label == "risk:low"
    then some RiskLevel.low
    else if label == "risk:medium"
    then some RiskLevel.medium
    else if label == "risk:high"
    then some RiskLevel.high
    else none

abbrev high_because : Detail → RiskReason
high_because detail = record { risk = RiskLevel.high; detail = detail }

path_reasons : List DiffFile → List PathRule → List RiskReason
path_reasons files [] = []
path_reasons files (rule ∷ rules) =
    let later = path_reasons files rules in
    let matched = filter (λ (f : DiffFile). matches_any_glob rule.patterns f.path) files in
    if is_empty matched
    then later
    else record {
      risk = rule.risk;
      detail = path_rule rule.reason (length matched) (head? matched);
    }
      ∷ later

label_reasons : List String → List RiskReason
unfolding label_risk
label_reasons [] = []
label_reasons (label ∷ labels) = elim (label_risk label) [
  | none ↦ label_reasons labels
  | some declared ↦ record { risk = declared; detail = risk_label label } ∷ label_reasons labels
]

migration_reasons : List String → List DiffFile → List RiskReason
migration_reasons globs [] = []
migration_reasons globs (file ∷ files) =
    let later = migration_reasons globs files in
    let destructive = find_destructive_sql file.added_lines in
    if matches_any_glob globs file.path && not (is_empty destructive)
    then high_because (destructive_migration file.path (head? destructive)) ∷ later
    else later

contract_reasons : List String → List DiffFile → List RiskReason
contract_reasons globs [] = []
contract_reasons globs (file ∷ files) =
    let later = contract_reasons globs files in
    let removed = removed_exports file in
    if matches_any_glob globs file.path && not (is_empty removed)
    then high_because (breaking_api file.path removed) ∷ later
    else later

abbrev is_upgraded : ChangeKind → Bool
is_upgraded ChangeKind.upgraded = true
is_upgraded _ = false

major_reasons : List DependencyChange → List RiskReason
major_reasons [] = []
major_reasons (change ∷ changes) =
    let later = major_reasons changes in
    if change.major && is_upgraded change.kind
    then high_because (major_upgrade change) ∷ later
    else later

control_reasons_of : List ControlReason → List RiskReason
control_reasons_of = map (λ r. high_because (control_plane r))

-- `risk = maxRisk(risk, reason.risk)` for each reason in turn.
pub raise : RiskLevel → List RiskReason → RiskLevel
raise risk [] = risk
raise risk (reason ∷ rest) = raise (max_risk risk reason.risk) rest

-- The parameters are those of Detect.Changes and of ControlPlane.
module _ (locale_le : String → String → Bool) (signals : String → String → Bool) where
  upgrade_reasons : List DiffFile → List RiskReason
  unfolding major_reasons
  upgrade_reasons [] = []
  upgrade_reasons (file ∷ files) =
      major_reasons (dependency_changes locale_le file) ++ upgrade_reasons files

  pub escalations : RiskInput → List RiskReason
  unfolding upgrade_reasons contract_reasons migration_reasons
  escalations input =
      let rules = input.policy.risk.escalations in
      let files = input.diff.files in
      let removed_lines = deletions input.diff in
      (if ltb rules.max_changed_files (length files)
        then high_because (too_many_files (length files) rules.max_changed_files) ∷ []
        else [])
      ++ ((if ltb rules.max_deleted_lines removed_lines
            then high_because (too_many_deletions removed_lines rules.max_deleted_lines) ∷ []
            else [])
          ++ (migration_reasons rules.destructive_migration_globs files
              ++ (contract_reasons rules.public_contract_globs files ++ upgrade_reasons files)))

  unfoldable pub classify_risk : RiskInput → RiskAssessment
  unfolding escalations raise path_reasons label_reasons control_reasons_of
  classify_risk input =
      let by_path = path_reasons input.diff.files input.policy.risk.paths in
      let by_label = label_reasons input.labels in
      let escalated = escalations input in
      let assessed = assess_control_plane signals input.diff input.policy in
      let default = input.policy.risk.default in
      let before = raise (raise (raise default by_path) by_label) escalated in
      record {
        risk = if assessed.affected then max_risk before RiskLevel.high else before;
        reasons =
            record { risk = default; detail = policy_default }
            ∷ (by_path
                ++ (by_label
                    ++ (escalated
                        ++ (if assessed.affected
                            then control_reasons_of assessed.reasons
                            else []))));
        affected = assessed.affected;
        policy_bearing = assessed.policy_bearing;
        control_reasons = assessed.reasons;
      }

  same_risk : RiskLevel → RiskLevel → Bool
  same_risk a b = eqb (risk_order a) (risk_order b)

  -- A head policy that is left out is `none`.
  unfoldable pub classify_risk_monotonic :
      PullRequestDiff → List String → LoopPolicy → Option LoopPolicy → RiskAssessment
  unfolding same_risk
  classify_risk_monotonic diff labels base_policy none =
      classify_risk (record { diff = diff; labels = labels; policy = base_policy })
  classify_risk_monotonic diff labels base_policy (some head_policy) =
      let base = classify_risk (record { diff = diff; labels = labels; policy = base_policy }) in
      let head = classify_risk (record { diff = diff; labels = labels; policy = head_policy }) in
      let risk = stricter_risk base.risk head.risk in
      record {
        risk = risk;
        reasons =
            base.reasons
            ++ (if same_risk head.risk base.risk
                then []
                else record {
                  risk = risk;
                  detail =
                      if same_risk risk base.risk
                      then base_governs head.risk base.risk
                      else proposal_raises head.risk;
                }
                  ∷ []);
        affected = base.affected || head.affected;
        policy_bearing = base.policy_bearing || head.policy_bearing;
        control_reasons = base.control_reasons;
      }
