-- ===== src/Continuation/Tests.antt =====
-- A side branch that is over, on a usable resolution.
use super_memory_brain.Base.{◌≡◌, refl, true}
use super_memory_brain.Json.{
  bool, text, arr, obj, end, Fields, none_left, field, get_or_null, Python,
}
use super_memory_brain.Text.{strip, words, join}
use super_memory_brain.Continuation.Reading.{has_blocking_blocker, requires_user_input}
use super_memory_brain.Continuation.Policy.{
  decide_turn_close, resume_parent_required, close_resolution, is_turn_outcome, is_user_control,
  close_controlled, close_by_outcome, close_branch, result,
}
use super_memory_brain.Continuation.Laws.{
  IsOpen, IsResumable, IsModest, decide_turn_close-IsModest, decide_turn_close-resumes,
}

abbrev python : Python
python = record { str = λ v. ""; lower = λ s. s; casefold = λ s. s }

abbrev resolution : Fields
resolution = field "ok" (bool true) (
    field "actionAuthorization" (text "allowed") (
      field "claimAllowed" (bool true) (
        field "blockers" (arr end) (
          field "nextAction" (text "run the tests")
            (field "canResumeParent" (bool true) none_left)))))

resumed :
    (decide_turn_close python (obj resolution) "side_branch_completed" "none" true).decision
    ≡ resume_parent_required
unfolding decide_turn_close get_or_null has_blocking_blocker requires_user_input strip words join
    close_resolution is_turn_outcome is_user_control close_controlled close_by_outcome close_branch
    result
resumed = refl

decide_turn_close-resumes_example :
    IsOpen python resolution "none" × IsResumable resolution "side_branch_completed" true
decide_turn_close-resumes_example =
    decide_turn_close-resumes python resolution "side_branch_completed" "none" true resumed

decide_turn_close-IsModest_example :
    IsModest (decide_turn_close python (obj resolution) "side_branch_completed" "none" true)
decide_turn_close-IsModest_example =
    decide_turn_close-IsModest python (obj resolution) "side_branch_completed" "none" true
