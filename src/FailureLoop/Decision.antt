-- ===== src/FailureLoop/Decision.antt =====
-- CORE/runtime/failure_loop_guard.py: `evaluate_failure_loop` and the receipts that it gives.
use super_memory_brain.Base.{
  ℕ, ◌+◌, ◌-◌, String, Bool, true, false, ◌&&◌, ◌||◌, not, Option, none, some, List, [], ◌∷◌, leb,
  eqb, ◌==◌, if◌then◌else◌,
}
use super_memory_brain.Json.{Value, null, bool, arr, Items, end, item, count}
use super_memory_brain.FailureLoop.Token.{
  Digests4, Kind, token, privacy_key_present, record_tokens, four, digest_all,
}

abbrev pub retry_budget : ℕ
retry_budget = 1

abbrev pub max_history : ℕ
max_history = 256

-- A receipt without its `payloadHash`. `user_correction` is `none` where the key is absent.
pub record Body : Type 0 where
  pub schema : String
  pub state : String
  pub decision : String
  pub code : String
  pub retry_allowed : Bool
  pub fused : Bool
  pub context_changed : Bool
  pub reset_applied : Bool
  pub occurrence_count : ℕ
  pub budget : ℕ
  pub retry_budget_remaining : ℕ
  pub digests : Digests4
  pub context_digest : String
  pub user_correction : Option Bool
  pub non_authorizing : Bool
  pub raw_prompt_stored : Bool
  pub raw_transcript_stored : Bool

pub record Receipt : Type 0 where
  pub body : Body
  pub payload_hash : String

-- The hashes that the guard takes: of a token under its kind, of the four digests, of a receipt.
pub record Hashing : Type 0 where
  pub digest : Kind → String → String
  pub context_digest : Digests4 → String
  pub payload : Body → String

abbrev pub seal : Hashing → Body → Receipt
seal h body = record { body = body; payload_hash = h.payload body }

abbrev pub schema_v1 : String
schema_v1 = "super-brain.failure-loop-guard.v1"

-- `_withheld`
abbrev pub withheld_body : String → Body
withheld_body code = record {
  schema = schema_v1;
  state = "withheld";
  decision = "withhold";
  code = code;
  retry_allowed = false;
  fused = false;
  context_changed = false;
  reset_applied = false;
  occurrence_count = 0;
  budget = retry_budget;
  retry_budget_remaining = 0;
  digests = record { failure = ""; evidence = ""; action = ""; phase = "" };
  context_digest = "";
  user_correction = none;
  non_authorizing = true;
  raw_prompt_stored = false;
  raw_transcript_stored = false;
}

abbrev pub same_context : Digests4 → Digests4 → Bool
same_context a b = a.evidence == b.evidence && a.action == b.action && a.phase == b.phase

abbrev pub same_digests : Digests4 → Digests4 → Bool
same_digests a b = a.failure == b.failure && same_context a b

-- `len(matching)`
unfoldable pub matches : Digests4 → List (Digests4 × Bool) → ℕ
matches d [] = 0
matches d ((e, c) ∷ history) = (if same_digests e d then 1 else 0) + matches d history

-- `prior_corrections`
unfoldable pub corrections : Digests4 → List (Digests4 × Bool) → ℕ
corrections d [] = 0
corrections d ((e, c) ∷ history) = (if same_digests e d && c then 1 else 0) + corrections d history

unfoldable pub context_changed : Digests4 → List (Digests4 × Bool) → Bool
context_changed d [] = false
context_changed d ((e, c) ∷ history) =
    (e.failure == d.failure && not (same_context e d)) || context_changed d history

-- The parsed history, unless a record is malformed.
unfoldable pub parse_history : (Kind → String → String) → Items → Option (List (Digests4 × Bool))
unfolding record_tokens
parse_history digest end = some []
parse_history digest (item v items) = elim (record_tokens digest v) [
  | none ↦ none
  | some parsed ↦ elim (parse_history digest items) [
    | none ↦ none
    | some rest ↦ some (parsed ∷ rest)
  ]
]

abbrev pub retry_code : Bool → Bool → String
retry_code reset changed =
    if reset
    then "FAILURE_LOOP_GUARD_USER_CORRECTION_RESET"
    else if changed
    then "FAILURE_LOOP_GUARD_CONTEXT_CHANGED_RETRY"
    else "FAILURE_LOOP_GUARD_RETRY"

-- The body from what was counted.
abbrev pub decided : Hashing → Digests4 → Bool → Bool → ℕ → Body
decided h d reset changed occurrences =
    let allowed = leb occurrences retry_budget in
    record {
      schema = schema_v1;
      state = if allowed then "retryable" else "withheld";
      decision = if allowed then "retry" else "withhold";
      code = if allowed then retry_code reset changed else "FAILURE_LOOP_GUARD_DUPLICATE_WITHHELD";
      retry_allowed = allowed;
      fused = not allowed;
      context_changed = changed;
      reset_applied = reset;
      occurrence_count = occurrences;
      budget = retry_budget;
      retry_budget_remaining = retry_budget - occurrences;
      digests = d;
      context_digest = h.context_digest d;
      user_correction = some reset;
      non_authorizing = true;
      raw_prompt_stored = false;
      raw_transcript_stored = false;
    }

unfoldable pub decide : Hashing → Digests4 → Bool → List (Digests4 × Bool) → Body
unfolding matches corrections context_changed
decide h d correction history =
    let reset = correction && eqb (corrections d history) 0 in
    decided h d reset (context_changed d history) (if reset then 1 else matches d history + 1)

-- The history argument: `None`, or a list that is not too long.
unfoldable pub history_items : Value → Option Items
history_items null = some end
history_items (arr items) = if leb (count items) max_history then some items else none
history_items _ = none

abbrev pub input_invalid : Body
input_invalid = withheld_body "FAILURE_LOOP_GUARD_INPUT_INVALID"

abbrev pub history_invalid : Body
history_invalid = withheld_body "FAILURE_LOOP_GUARD_HISTORY_INVALID"

unfoldable pub evaluate_parsed : Hashing → Digests4 → Bool → Option Items → Body
unfolding parse_history decide
evaluate_parsed h d correction none = history_invalid
evaluate_parsed h d correction (some items) = elim (parse_history h.digest items) [
  | none ↦ history_invalid
  | some history ↦ decide h d correction history
]

unfoldable pub evaluate_tokens : Hashing → Option Digests4 → Value → Value → Body
unfolding evaluate_parsed history_items
evaluate_tokens h none user_correction history = input_invalid
evaluate_tokens h (some t) (bool b) history =
    evaluate_parsed h (digest_all h.digest t) b (history_items history)
evaluate_tokens h (some t) _ history = input_invalid

unfoldable pub evaluate_body : Hashing → Value → Value → Value → Value → Value → Value → Body
unfolding evaluate_tokens token privacy_key_present
evaluate_body h failure history evidence action phase user_correction =
    if privacy_key_present failure || privacy_key_present history
    then withheld_body "FAILURE_LOOP_GUARD_PRIVACY_INVALID"
    else evaluate_tokens h
        (four (token failure true) (token evidence false) (token action false) (token phase false))
        user_correction history

unfoldable pub evaluate_failure_loop :
    Hashing → Value → Value → Value → Value → Value → Value → Receipt
unfolding evaluate_body
evaluate_failure_loop h failure history evidence action phase user_correction =
    seal h (evaluate_body h failure history evidence action phase user_correction)
