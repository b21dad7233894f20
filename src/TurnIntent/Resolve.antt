-- ===== src/TurnIntent/Resolve.antt =====
-- CORE/runtime/turn_intent.py: `resolve_turn_intent`, and what its profiles have in common.
use super_memory_brain.Base.{
  ◌≡◌, refl, String, Bool, true, false, ◌&&◌, ◌||◌, not, Option, none, some, List, ◌∷◌, ◌==◌, arith,
  if◌then◌else◌, Bool-cases, inl, inr, member,
}
use super_memory_brain.Json.{Value, Python, to_text, is_falsy}
use super_memory_brain.Text.{strip}
use super_memory_brain.TurnIntent.Table.{
  Intent, direct, greeting, side_message, task_status, continuity, design_evaluate, plan_proposal,
  issue_continuity, issue_runtime, issue_memory, issue_ui, user_correction, memory_write, Spec,
  spec, intent_of,
}

pub record Profile : Type 0 where
  pub kind : Intent
  pub governed : Bool
  pub memory_mode : String
  pub rule_signals : List String
  pub response_order : String
  pub repair_mode : String
  pub learning_write_allowed : Bool
  pub spec_of : Spec

pub data Resolved : Type 0 where
  intent_invalid memory_mode_invalid : String → Resolved
  current : Profile → String → Resolved

-- `str(value or default).strip().lower()`
unfoldable pub normalized : Python → String → Value → String
unfolding strip
normalized py default v = py.lower (strip (if is_falsy v then default else to_text py v))

unfoldable pub is_memory_mode : String → Bool
is_memory_mode mode = mode == "auto" || mode == "force" || mode == "off"

abbrev pub is_insertion : Intent → Bool
is_insertion greeting = true
is_insertion side_message = true
is_insertion _ = false

abbrev pub effective_mode : Intent → String → String
effective_mode intent mode = if is_insertion intent && mode == "auto" then "off" else mode

abbrev pub guarded_signals : Spec → List String
guarded_signals s = if s.governed then "mutation_guard" ∷ s.signals else s.signals

unfoldable pub profile : Intent → String → Profile
unfolding spec
profile intent mode =
    let s = spec intent in
    let issue = s.response_profile == "super_brain_issue" in
    record {
      kind = intent;
      governed = s.governed;
      memory_mode = effective_mode intent mode;
      rule_signals = guarded_signals s;
      response_order = if issue then "essence>fact_inference_unknown>repair>next" else "";
      repair_mode = if issue then "diagnose_and_repair" else "";
      learning_write_allowed = false;
      spec_of = s;
    }

unfoldable pub resolve_kind : (Profile → String) → String → Option Intent → String → Resolved
unfolding profile is_memory_mode
resolve_kind hash kind none mode = intent_invalid kind
resolve_kind hash kind (some intent) mode =
    if is_memory_mode mode
    then current (profile intent mode) (hash (profile intent mode))
    else memory_mode_invalid kind

unfoldable pub resolve_turn_intent : Python → (Profile → String) → Value → Value → Resolved
unfolding resolve_kind intent_of normalized
resolve_turn_intent py hash intent memory_mode =
    let kind = normalized py "direct" intent in
    resolve_kind hash kind (intent_of kind) (normalized py "auto" memory_mode)

abbrev implies : Bool → Bool → Bool
implies a b = not a || b

abbrev eq_bool : Bool → Bool → Bool
eq_bool true b = b
eq_bool false b = not b

-- The obligations of a profile fit together.
unfoldable pub is_coherent : Profile → Bool
is_coherent p =
    not p.learning_write_allowed
    && eq_bool (member "mutation_guard" p.rule_signals) p.governed
    && eq_bool (is_insertion p.kind) (not p.governed)
    && implies p.spec_of.execution_assist_required p.spec_of.execution_assist_allowed
    && implies p.spec_of.execution_assist_allowed p.governed
    && implies p.spec_of.requires_project_proof p.spec_of.requires_task_pointer
    && eq_bool p.spec_of.requires_capability_route p.spec_of.execution_assist_required
    && implies (p.spec_of.plan_approval == "required_before_mutation") p.spec_of.project_evidence
    && eq_bool (p.repair_mode == "") (p.response_order == "")

-- What each answer says of the normalized arguments: the name of an intent, and a memory mode.
unfoldable pub IsSound : (Profile → String) → String → String → Resolved → Type 0
IsSound hash name mode (intent_invalid kind) = (kind ≡ name) × (intent_of name ≡ none)
IsSound hash name mode (memory_mode_invalid kind) =
    (kind ≡ name)
    × ((intent : Intent) × (intent_of name ≡ some intent))
    × (is_memory_mode mode ≡ false)
IsSound hash name mode (current p payload_hash) =
    (intent_of name ≡ some p.kind)
    × (is_memory_mode mode ≡ true)
    × (p.memory_mode ≡ (if is_insertion p.kind && mode == "auto" then "off" else mode))
    × (is_memory_mode p.memory_mode ≡ true)
    × ((is_insertion p.kind && p.memory_mode == "auto") ≡ false)
    × (p.spec_of ≡ spec p.kind)
    × (p.governed ≡ p.spec_of.governed)
    × (is_coherent p ≡ true)
    × (payload_hash ≡ hash p)

pub profile-is_coherent :
    (intent : Intent) (mode : String) → is_coherent (profile intent mode) ≡ true
unfolding profile spec is_coherent
profile-is_coherent direct mode = refl
profile-is_coherent greeting mode = refl
profile-is_coherent side_message mode = refl
profile-is_coherent task_status mode = refl
profile-is_coherent continuity mode = refl
profile-is_coherent design_evaluate mode = refl
profile-is_coherent plan_proposal mode = refl
profile-is_coherent issue_continuity mode = refl
profile-is_coherent issue_runtime mode = refl
profile-is_coherent issue_memory mode = refl
profile-is_coherent issue_ui mode = refl
profile-is_coherent user_correction mode = refl
profile-is_coherent memory_write mode = refl

is_memory_mode-effective_mode :
    (intent : Intent) (mode : String)
    → is_memory_mode mode ≡ true
    → is_memory_mode (effective_mode intent mode) ≡ true
unfolding is_memory_mode
is_memory_mode-effective_mode intent mode h =
    elim (Bool-cases (is_insertion intent && mode == "auto")) [ inl e ↦ rw e refl | inr e ↦ rw e h ]

effective_mode-insertion :
    (intent : Intent) (mode : String)
    → (is_insertion intent && effective_mode intent mode == "auto") ≡ false
effective_mode-insertion intent mode = elim (Bool-cases (is_insertion intent && mode == "auto")) [
  | inl e ↦ rw e (ground arith)
  | inr e ↦ rw e e
]

checked_mode-IsSound :
    (hash : Profile → String) (kind : String) (intent : Intent) (mode : String)
    → intent_of kind ≡ some intent
    → IsSound hash kind mode (resolve_kind hash kind (some intent) mode)
unfolding resolve_kind IsSound profile
checked_mode-IsSound hash kind intent mode h = elim (Bool-cases (is_memory_mode mode)) [
  | inl e ↦ rw e (
    h,
    e,
    refl,
    is_memory_mode-effective_mode intent mode e,
    effective_mode-insertion intent mode,
    refl,
    refl,
    profile-is_coherent intent mode,
    refl,
  )
  | inr e ↦ rw e (refl, (intent, h), e)
]

resolve_kind-IsSound :
    (hash : Profile → String) (kind : String) (o : Option Intent) (mode : String)
    → intent_of kind ≡ o
    → IsSound hash kind mode (resolve_kind hash kind o mode)
unfolding resolve_kind IsSound
resolve_kind-IsSound hash kind none mode h = (refl, h)
resolve_kind-IsSound hash kind (some intent) mode h = checked_mode-IsSound hash kind intent mode h

-- Whatever the two arguments, the answer fits their normalized texts. An intent is refused, under
-- its name, only when the name is not in the table; a memory mode only when the intent is in the
-- table and the mode is none of the three. A current profile is that of the intent that the table
-- has for the name, with the obligations of the table, which fit together; its memory mode is the
-- valid one that was asked for, but `off` in place of `auto` for a greeting or a side message; and
-- its hash is its own.
pub resolve_turn_intent-IsSound :
    (py : Python) (hash : Profile → String) (intent memory_mode : Value)
    → IsSound hash
        (normalized py "direct" intent)
        (normalized py "auto" memory_mode)
        (resolve_turn_intent py hash intent memory_mode)
unfolding resolve_turn_intent
resolve_turn_intent-IsSound py hash intent memory_mode =
    let kind = normalized py "direct" intent in
    resolve_kind-IsSound hash kind (intent_of kind) (normalized py "auto" memory_mode) refl
