-- ===== src/Continuation/Laws.antt =====
-- What a turn-close decision of continuation_policy.py is worth.
use super_memory_brain.Base.{◌≡◌, String, Bool, true, false, not, ◌⊎◌, arith, eq_iff}
use super_memory_brain.Json.{is_text, is_true, Value, obj, Fields, get_or_null, Python}
use super_memory_brain.Continuation.Reading.{has_blocking_blocker, requires_user_input}
use super_memory_brain.Continuation.Policy.{
  resume_parent_required, TurnClose, result, close_branch, close_by_outcome, close_controlled,
  close_resolution, decide_turn_close, is_turn_outcome, is_user_control,
}

-- What must hold of a resolution and of the attestations for the turn to be let run on.
pub record IsOpen (py : Python) (fields : Fields) (control : String) : Type 0 where
  pub ok_ : is_true (get_or_null "ok" fields) ≡ true
  pub allowed : is_text "allowed" (get_or_null "actionAuthorization" fields) ≡ true
  pub claimed : is_true (get_or_null "claimAllowed" fields) ≡ true
  pub confirmed : is_true (get_or_null "needsConfirmation" fields) ≡ false
  pub uncontrolled : control ≡ "none"
  pub unblocked : has_blocking_blocker py (get_or_null "blockers" fields) ≡ false
  pub actionable : requires_user_input py (get_or_null "nextAction" fields) ≡ false

-- A side branch is over with its evidence, and the parent may go on.
pub record IsResumable (fields : Fields) (outcome : String) (evidence : Bool) : Type 0 where
  pub branch : (outcome ≡ "side_branch_completed") ⊎ (outcome ≡ "side_branch_partial")
  pub proved : evidence ≡ true
  pub parent : is_true (get_or_null "canResumeParent" fields) ≡ true

-- What every decision has in common.
pub record IsModest (r : TurnClose) : Type 0 where
  pub not_automatic : r.automatic_execution_allowed ≡ false
  pub no_claim : r.task_completion_claimed ≡ false
  pub continues : r.must_continue ≡ r.requires_parent_resume
  pub replies : r.terminal_reply_allowed ≡ not r.requires_parent_resume

close_branch-IsModest :
    (fields : Fields) (outcome : String) (evidence : Bool)
    → IsModest (close_branch fields outcome evidence)
unfolding close_branch result
close_branch-IsModest fields outcome evidence = ground arith

close_by_outcome-IsModest :
    (py : Python) (fields : Fields) (outcome : String) (evidence : Bool)
    → IsModest (close_by_outcome py fields outcome evidence)
unfolding close_by_outcome result
close_by_outcome-IsModest py fields outcome evidence =
    let b = close_branch-IsModest fields outcome evidence in
    ground (arith, b.not_automatic, b.no_claim, b.continues, b.replies)

close_controlled-IsModest :
    (py : Python) (fields : Fields) (outcome control : String) (evidence : Bool)
    → IsModest (close_controlled py fields outcome control evidence)
unfolding close_controlled result
close_controlled-IsModest py fields outcome control evidence =
    let b = close_by_outcome-IsModest py fields outcome evidence in
    ground (arith, b.not_automatic, b.no_claim, b.continues, b.replies)

close_resolution-IsModest :
    (py : Python) (fields : Fields) (outcome control : String) (evidence : Bool)
    → IsModest (close_resolution py fields outcome control evidence)
unfolding close_resolution result
close_resolution-IsModest py fields outcome control evidence =
    let b = close_controlled-IsModest py fields outcome control evidence in
    ground (arith, b.not_automatic, b.no_claim, b.continues, b.replies)

-- Whatever the caller passes, no decision allows automatic execution or claims that the task is
-- complete, and a final reply is allowed exactly if the parent need not be resumed.
pub decide_turn_close-IsModest :
    (py : Python) (resolution : Value) (outcome control : String) (evidence : Bool)
    → IsModest (decide_turn_close py resolution outcome control evidence)
unfolding decide_turn_close result
decide_turn_close-IsModest py (obj fields) outcome control evidence =
    close_resolution-IsModest py fields outcome control evidence
decide_turn_close-IsModest py _ outcome control evidence = ground arith

close_by_outcome-resumes :
    (py : Python) (fields : Fields) (outcome : String) (evidence : Bool)
    → is_turn_outcome outcome ≡ true
    → (close_by_outcome py fields outcome evidence).decision ≡ resume_parent_required
    → IsResumable fields outcome evidence
unfolding close_by_outcome close_branch result is_turn_outcome
close_by_outcome-resumes py fields outcome evidence o e = record {
  branch =
      ground (arith, eq_iff outcome "side_branch_completed", eq_iff outcome "side_branch_partial");
  proved = ground arith;
  parent = ground arith;
}

close_controlled-resumes :
    (py : Python) (fields : Fields) (outcome control : String) (evidence : Bool)
    → is_user_control control ≡ true
    → (close_controlled py fields outcome control evidence).decision ≡ resume_parent_required
    → (control ≡ "none")
      × (has_blocking_blocker py (get_or_null "blockers" fields) ≡ false)
      × (requires_user_input py (get_or_null "nextAction" fields) ≡ false)
      × ((close_by_outcome py fields outcome evidence).decision ≡ resume_parent_required)
unfolding close_controlled result is_user_control
close_controlled-resumes py fields outcome control evidence o e =
    ground (arith, eq_iff control "none")

-- The parent must be resumed only if the resolution is usable and unblocked, the user attests no
-- control, a side branch is over with its evidence, and the parent can be resumed.
pub decide_turn_close-resumes :
    (py : Python) (fields : Fields) (outcome control : String) (evidence : Bool)
    → (decide_turn_close py (obj fields) outcome control evidence).decision ≡ resume_parent_required
    → IsOpen py fields control × IsResumable fields outcome evidence
unfolding decide_turn_close close_resolution result
decide_turn_close-resumes py fields outcome control evidence e =
    let o : is_turn_outcome outcome ≡ true = ground arith in
    let c : is_user_control control ≡ true = ground arith in
    let k : (close_controlled py fields outcome control evidence).decision
        ≡ resume_parent_required =
      ground arith in
    let (none_, unblocked_, action_, rest) =
      close_controlled-resumes py fields outcome control evidence c k in
    (
      record {
        ok_ = ground arith;
        allowed = ground arith;
        claimed = ground arith;
        confirmed = ground arith;
        uncontrolled = none_;
        unblocked = unblocked_;
        actionable = action_;
      },
      close_by_outcome-resumes py fields outcome evidence o rest,
    )
