-- ===== src/FailureLoop/Receipts.antt =====
-- CORE/runtime/failure_loop_guard.py: `receipt_is_valid`.
use super_memory_brain.Base.{ℕ, ◌-◌, String, Bool, ◌&&◌, ◌||◌, not, leb, eqb, ◌==◌, if◌then◌else◌}
use super_memory_brain.Text.{led_shape, size}
use super_memory_brain.FailureLoop.Token.{hex_digest}
use super_memory_brain.FailureLoop.Decision.{Body, Receipt, Hashing, schema_v1, retry_budget}

-- `[A-Z][A-Z0-9_]{2,127}`
unfoldable pub code_re : String → Bool
unfolding led_shape
code_re =
    led_shape (λ n. leb b'A' n && leb n b'Z')
      (λ n. (leb b'A' n && leb n b'Z') || (leb b'0' n && leb n b'9') || eqb n b'_') 2 127

unfoldable pub empty_or_hex : String → Bool
unfolding hex_digest
empty_or_hex s = s == "" || hex_digest s

unfoldable pub full_length : String → Bool
full_length s = eqb (size s) 64

abbrev pub all_digests : (String → Bool) → Body → Bool
all_digests test b =
    test b.digests.failure
    && test b.digests.evidence
    && test b.digests.action
    && test b.digests.phase
    && test b.context_digest

-- The tests for a receipt whose state is "retryable".
unfoldable pub retryable_is_valid : Hashing → Body → Bool
retryable_is_valid h b =
    all_digests full_length b
    && b.decision == "retry"
    && b.retry_allowed
    && not b.fused
    && eqb b.occurrence_count 1
    && (not b.reset_applied || b.code == "FAILURE_LOOP_GUARD_USER_CORRECTION_RESET")
    && (not b.context_changed || b.code == "FAILURE_LOOP_GUARD_CONTEXT_CHANGED_RETRY")
    && (b.reset_applied || b.context_changed || b.code == "FAILURE_LOOP_GUARD_RETRY")
    && b.context_digest == h.context_digest b.digests

unfoldable pub withheld_is_valid : Body → Bool
withheld_is_valid b = b.decision == "withhold" && not b.retry_allowed

unfoldable pub expected_remaining : ℕ → ℕ
expected_remaining n = if eqb n 0 then 0 else retry_budget - n

unfoldable pub receipt_is_valid : Hashing → Receipt → Bool
unfolding code_re empty_or_hex full_length retryable_is_valid withheld_is_valid expected_remaining
    hex_digest
receipt_is_valid h r =
    let b = r.body in
    b.schema == schema_v1
    && (b.state == "retryable" || b.state == "withheld")
    && (b.decision == "retry" || b.decision == "withhold")
    && code_re b.code
    && eqb b.budget retry_budget
    && b.non_authorizing
    && not b.raw_prompt_stored
    && not b.raw_transcript_stored
    && all_digests empty_or_hex b
    && hex_digest r.payload_hash
    && eqb b.retry_budget_remaining (expected_remaining b.occurrence_count)
    && (if b.state == "retryable" then retryable_is_valid h b else withheld_is_valid b)
    && r.payload_hash == h.payload b
