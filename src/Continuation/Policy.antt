-- ===== src/Continuation/Policy.antt =====
-- CORE/runtime/continuation_policy.py: `decide_turn_close`.
use super_memory_brain.Base.{String, Bool, true, false, ◌&&◌, ◌||◌, not, ◌==◌, if◌then◌else◌}
use super_memory_brain.Json.{is_text, is_true, Value, obj, Fields, get_or_null, Python}
use super_memory_brain.Continuation.Reading.{
  has_blocking_blocker, requires_user_input, has_verified_terminal_completion,
}

pub data Decision : Type 0 where
  pause_with_blocker withhold_reconcile model_decides resume_parent_required : Decision
  continue_current_turn : Decision

pub data PolicyCode : Type 0 where
  resolution_invalid input_invalid resolution_unavailable action_withheld : PolicyCode
  reconciliation_required current_turn_unattested user_terminal_control : PolicyCode
  recorded_blocker no_automatic_action turn_outcome_required turn_blocked : PolicyCode
  completion_evidence_required verified_task_complete model_discretion : PolicyCode
  parent_unavailable resume_parent : PolicyCode

pub record TurnClose : Type 0 where
  pub decision : Decision
  pub code : PolicyCode
  pub terminal_reply_allowed : Bool
  pub requires_parent_resume : Bool
  pub must_continue : Bool
  pub model_discretion_ : Bool
  pub automatic_execution_allowed : Bool
  pub task_completion_claimed : Bool
  pub branch_status : String

abbrev allows_reply : Decision → Bool
allows_reply pause_with_blocker = true
allows_reply withhold_reconcile = true
allows_reply model_decides = true
allows_reply resume_parent_required = false
allows_reply continue_current_turn = false

abbrev is_discretion : Decision → Bool
is_discretion model_decides = true
is_discretion pause_with_blocker = false
is_discretion withhold_reconcile = false
is_discretion resume_parent_required = false
is_discretion continue_current_turn = false

abbrev is_automatic : Decision → Bool
is_automatic continue_current_turn = true
is_automatic pause_with_blocker = false
is_automatic withhold_reconcile = false
is_automatic resume_parent_required = false
is_automatic model_decides = false

-- `_result`
unfoldable pub result : Decision → PolicyCode → Bool → String → TurnClose
result decision code resume branch = record {
  decision = decision;
  code = code;
  terminal_reply_allowed = allows_reply decision;
  requires_parent_resume = resume;
  must_continue = resume;
  model_discretion_ = is_discretion decision;
  automatic_execution_allowed = is_automatic decision;
  task_completion_claimed = false;
  branch_status = branch;
}

-- `_withhold`
abbrev pub withhold : PolicyCode → TurnClose
withhold code = result withhold_reconcile code false ""

abbrev pub pause : PolicyCode → TurnClose
pause code = result pause_with_blocker code false ""

unfoldable pub is_turn_outcome : String → Bool
is_turn_outcome s =
    s == "unknown"
    || s == "ephemeral_insertion"
    || s == "active_work_progressed"
    || s == "side_branch_completed"
    || s == "side_branch_partial"
    || s == "blocked"

unfoldable pub is_user_control : String → Bool
is_user_control s = s == "unknown" || s == "none" || s == "stop" || s == "replace"

abbrev pub ends_in_discretion : String → Bool
ends_in_discretion s = s == "ephemeral_insertion" || s == "active_work_progressed"

-- The end of the function, for a side branch.
unfoldable pub close_branch : Fields → String → Bool → TurnClose
close_branch fields outcome evidence =
    if not evidence
    then withhold completion_evidence_required
    else if not (is_true (get_or_null "canResumeParent" fields))
    then withhold parent_unavailable
    else result resume_parent_required resume_parent true
        (if outcome == "side_branch_completed" then "completed" else "partial")

-- The decision by the outcome of the turn.
unfoldable pub close_by_outcome : Python → Fields → String → Bool → TurnClose
close_by_outcome py fields outcome evidence =
    if outcome == "unknown"
    then withhold turn_outcome_required
    else if outcome == "blocked"
    then pause turn_blocked
    else if ends_in_discretion outcome && has_verified_terminal_completion py fields
    then (if evidence then pause verified_task_complete else withhold completion_evidence_required)
    else if ends_in_discretion outcome
    then result model_decides model_discretion false ""
    else close_branch fields outcome evidence

-- The decision by the user's control, the blockers and the next action.
unfoldable pub close_controlled : Python → Fields → String → String → Bool → TurnClose
close_controlled py fields outcome control evidence =
    if control == "unknown"
    then withhold current_turn_unattested
    else if control == "stop" || control == "replace"
    then pause user_terminal_control
    else if has_blocking_blocker py (get_or_null "blockers" fields)
    then pause recorded_blocker
    else if requires_user_input py (get_or_null "nextAction" fields)
    then pause no_automatic_action
    else close_by_outcome py fields outcome evidence

unfoldable pub close_resolution : Python → Fields → String → String → Bool → TurnClose
close_resolution py fields outcome control evidence =
    if not (is_turn_outcome outcome) || not (is_user_control control)
    then withhold input_invalid
    else if not (is_true (get_or_null "ok" fields))
    then withhold resolution_unavailable
    else if not (is_text "allowed" (get_or_null "actionAuthorization" fields))
    then withhold action_withheld
    else if not (is_true (get_or_null "claimAllowed" fields))
        || is_true (get_or_null "needsConfirmation" fields)
    then withhold reconciliation_required
    else close_controlled py fields outcome control evidence

unfoldable pub decide_turn_close : Python → Value → String → String → Bool → TurnClose
decide_turn_close py (obj fields) outcome control evidence =
    close_resolution py fields outcome control evidence
decide_turn_close py _ outcome control evidence = withhold resolution_invalid
