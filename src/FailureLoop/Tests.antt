-- ===== src/FailureLoop/Tests.antt =====
-- Concrete runs of the guard, at which the theorems apply.
use super_memory_brain.Base.{
  ◌≡◌, ◌↔◌, refl, String, Bool, true, false, ◌&&◌, not, ◌==◌, if◌then◌else◌, some, [], ◌∷◌, arith,
}
use super_memory_brain.Json.{Value, null, bool, text, arr, end, item}
use super_memory_brain.Text.{shape, led_shape, is_hex, squeeze}
use super_memory_brain.FailureLoop.Token.{Digests4, hex_digest}
use super_memory_brain.FailureLoop.Decision.{
  Receipt, Hashing, seal, decide, history_items, evaluate_failure_loop,
}
use super_memory_brain.FailureLoop.Receipts.{receipt_is_valid}
use super_memory_brain.FailureLoop.Guard.{IsHex, evaluate-valid}
use super_memory_brain.FailureLoop.Decided.{IsTaken, current_digests, is_decision}
use super_memory_brain.FailureLoop.Retry.{IsDue, evaluate_allows}
use super_memory_brain.FailureLoop.Handback.{receipt_value, join_items}
use super_memory_brain.FailureLoop.Replay.{replayed_receipt_fuses}

abbrev sha : String
sha = "0123456789abcdef0123456789abcdef0123456789abcdef0123456789abcdef"

abbrev other : String
other = "1123456789abcdef0123456789abcdef0123456789abcdef0123456789abcdef"

abbrev hashing : Hashing
hashing = record { digest = λ k s. sha; context_digest = λ d. sha; payload = λ b. sha }

sha_hex : hex_digest sha ≡ true
unfolding hex_digest shape is_hex
sha_hex = refl

hashing-IsHex : IsHex hashing
hashing-IsHex = record { digest = λ k s. sha_hex; context = λ d. sha_hex; payload = λ b. sha_hex }

abbrev digests : Digests4
digests = record { failure = sha; evidence = sha; action = sha; phase = sha }

abbrev run : Value → Value → Receipt
run history correction =
    evaluate_failure_loop hashing (text "build failed") history (text "") (text "") (text "")
      correction

program : Unit {0}
unfolding evaluate_failure_loop decide history_items shape is_hex squeeze
program = tt

first_decides : is_decision (run null (bool true)).body ≡ true
unfolding program
first_decides = refl

no_history : history_items null ≡ some (join_items end end)
unfolding history_items
no_history = refl

replayed_receipt_fuses_example :
    ((run (arr (item (receipt_value (run null (bool true))) end)) (bool false)).body.fused ≡ true)
    × ((run (arr (item (receipt_value (run null (bool true))) end)) (bool false)).body.retry_allowed
        ≡ false)
replayed_receipt_fuses_example =
    replayed_receipt_fuses hashing hashing-IsHex (text "build failed") null (text "") (text "")
      (text "") (bool true) end end first_decides no_history (omega arith)

evaluate_allows_example : ((run null (bool true)).body.retry_allowed ≡ true) ↔ (
    (k : IsTaken hashing (text "build failed") null (text "") (text "") (text "") (bool true))
    × IsDue (current_digests hashing k.tokens) k.corrected k.past)
evaluate_allows_example =
    evaluate_allows hashing (text "build failed") null (text "") (text "") (text "") (bool true)

abbrev first_run : Value → Bool
first_run correction = receipt_is_valid hashing (
    evaluate_failure_loop hashing (text "build failed") null (text "") (text "") (text "")
      correction)

evaluate-valid_example :
    first_run (bool false)
    ≡ not (
        (evaluate_failure_loop hashing
          (text "build failed")
          null
          (text "")
          (text "")
          (text "")
          (bool false)).body.reset_applied
        && (evaluate_failure_loop hashing
            (text "build failed")
            null
            (text "")
            (text "")
            (text "")
            (bool false)).body.context_changed)
evaluate-valid_example =
    evaluate-valid hashing hashing-IsHex (text "build failed") null (text "") (text "") (text "")
      (bool false)

abbrev by_kind : Hashing
by_kind = record {
  digest = λ k s. if s == "p2" then other else sha;
  context_digest = λ d. sha;
  payload = λ b. sha;
}

-- A corrected failure that was seen in another phase: the guard's own receipt is rejected.
rejected :
    receipt_is_valid by_kind
      (seal by_kind (decide by_kind digests true ((record digests { phase = other }, false) ∷ [])))
    ≡ false
unfolding receipt_is_valid decide shape led_shape is_hex
rejected = refl
