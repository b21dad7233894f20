-- ===== src/TurnIntent/Table.antt =====
-- CORE/runtime/turn_intent.py: `TURN_INTENTS`, `_spec` with its defaults, and `_SPECS`.
use super_memory_brain.Base.{
  String, Bool, true, false, Option, none, some, List, [], ◌∷◌, ◌==◌, if◌then◌else◌,
}

pub data Intent : Type 0 where
  direct greeting side_message task_status continuity design_evaluate plan_proposal : Intent
  issue_continuity issue_runtime issue_memory issue_ui user_correction memory_write : Intent

abbrev pub intent_name : Intent → String
intent_name direct = "direct"
intent_name greeting = "greeting"
intent_name side_message = "side_message"
intent_name task_status = "task_status"
intent_name continuity = "continuity"
intent_name design_evaluate = "design_evaluate"
intent_name plan_proposal = "plan_proposal"
intent_name issue_continuity = "super_brain_issue_continuity"
intent_name issue_runtime = "super_brain_issue_runtime"
intent_name issue_memory = "super_brain_issue_memory"
intent_name issue_ui = "super_brain_issue_ui"
intent_name user_correction = "user_correction"
intent_name memory_write = "memory_write"

abbrev pub turn_intents : List Intent
turn_intents =
    direct ∷ greeting ∷ side_message ∷ task_status ∷ continuity ∷ design_evaluate ∷ plan_proposal
    ∷ issue_continuity ∷ issue_runtime ∷ issue_memory ∷ issue_ui ∷ user_correction ∷ memory_write
    ∷ []

-- The intent of a name in a list of intents: `_SPECS.get(kind)`.
unfoldable pub named_in : String → List Intent → Option Intent
named_in name [] = none
named_in name (intent ∷ intents) =
    if intent_name intent == name then some intent else named_in name intents

unfoldable pub intent_of : String → Option Intent
unfolding named_in
intent_of name = named_in name turn_intents

pub record Spec : Type 0 where
  pub signals : List String
  pub governed : Bool
  pub response_profile : String
  pub problem_nature : String
  pub learning_target : String
  pub memory_use : String
  pub project_evidence : Bool
  pub plan_approval : String
  pub execution_assist_required : Bool
  pub execution_assist_allowed : Bool
  pub route_class : String
  pub activation_tier : String
  pub requires_task_pointer : Bool
  pub requires_project_proof : Bool
  pub requires_capability_route : Bool
  pub user_visible_state : String
  pub activation_route : String

-- `_spec()`
abbrev pub default_spec : Spec
default_spec = record {
  signals = [];
  governed = true;
  response_profile = "direct";
  problem_nature = "";
  learning_target = "none";
  memory_use = "scope_bound_recall";
  project_evidence = false;
  plan_approval = "not_applicable";
  execution_assist_required = false;
  execution_assist_allowed = true;
  route_class = "direct";
  activation_tier = "none";
  requires_task_pointer = false;
  requires_project_proof = false;
  requires_capability_route = false;
  user_visible_state = "direct";
  activation_route = "direct_answer";
}

abbrev insertion_spec : Spec
insertion_spec = record default_spec {
  governed = false;
  memory_use = "none";
  execution_assist_allowed = false;
}

abbrev collaborative_spec : List String → String → Spec
collaborative_spec signals profile = record default_spec {
  signals = signals;
  response_profile = profile;
  memory_use = "project_evidence_support";
  project_evidence = true;
  plan_approval = "required_before_mutation";
  execution_assist_required = true;
  route_class = "task";
  activation_tier = "task";
  requires_task_pointer = true;
  requires_project_proof = true;
  requires_capability_route = true;
  user_visible_state = "task";
  activation_route = "collaborative_intent";
}

abbrev issue_spec : List String → String → String → String → Spec
issue_spec signals nature target memory = record default_spec {
  signals = "super_brain_defect" ∷ "root_cause" ∷ "repair" ∷ signals;
  response_profile = "super_brain_issue";
  problem_nature = nature;
  learning_target = target;
  memory_use = memory;
  project_evidence = true;
  execution_assist_required = true;
  route_class = "diagnostic";
  activation_tier = "full_diagnostic";
  requires_task_pointer = true;
  requires_project_proof = true;
  requires_capability_route = true;
  user_visible_state = "diagnostic";
  activation_route = "fix_bug";
}

-- `_SPECS`
unfoldable pub spec : Intent → Spec
spec direct = default_spec
spec greeting = insertion_spec
spec side_message = insertion_spec
spec task_status = record default_spec {
  signals = "status" ∷ [];
  response_profile = "status";
  memory_use = "current_state_only";
  route_class = "task";
  activation_tier = "task";
  requires_task_pointer = true;
  user_visible_state = "task";
  activation_route = "current_task_status";
}
spec continuity = record default_spec {
  signals = "resume" ∷ "continue" ∷ "recovery" ∷ [];
  response_profile = "continuity";
  memory_use = "recovery_context";
  route_class = "continuity";
  activation_tier = "continuity_light";
  requires_task_pointer = true;
  requires_project_proof = true;
  user_visible_state = "continuity";
  activation_route = "current_session_continue";
}
spec design_evaluate = collaborative_spec ("design" ∷ "evaluate" ∷ "plan" ∷ []) "project_design"
spec plan_proposal = collaborative_spec ("plan" ∷ "proposal" ∷ "evaluate" ∷ []) "proposal"
spec issue_continuity =
    issue_spec ("resume" ∷ "continue" ∷ []) "execution_continuity" "execution_rule_candidate"
      "core_rule_first"
spec issue_runtime =
    issue_spec ("governed_turn" ∷ []) "hookless_runtime" "core_rule_candidate" "core_rule_first"
spec issue_memory =
    issue_spec ("memory_recall" ∷ []) "memory_recall_effect" "system_rule_candidate"
      "memory_recall_diagnosis"
spec issue_ui =
    issue_spec [] "memory_ui_projection" "experience_candidate" "project_projection_diagnosis"
spec user_correction = record default_spec {
  signals = "user_correction" ∷ "learning" ∷ [];
  response_profile = "correction";
  learning_target = "classification_required_before_learning";
  memory_use = "classify_before_write";
}
spec memory_write = record default_spec {
  signals = "remember" ∷ "learning" ∷ [];
  response_profile = "memory_candidate";
  learning_target = "memory_candidate_only";
  memory_use = "candidate_not_commit";
  route_class = "memory";
  activation_tier = "memory_only";
  requires_task_pointer = true;
  user_visible_state = "memory";
  activation_route = "memory_write_candidate";
}
