-- ===== src/FailureLoop/Replay.antt =====
-- failure_loop_guard.py: a receipt of the guard, handed back in the history, uses up the retry.
use super_memory_brain.Base.{
  ◌≡◌, ◌≤◌, ◌<◌, refl, Bool, true, false, ◌||◌, some, List, leb, arith, ap, sym, ◌∙◌,
}
use super_memory_brain.Json.{Value, bool, arr, Items, item, count}
use super_memory_brain.FailureLoop.Token.{Digests4, record_tokens, privacy_key_present}
use super_memory_brain.FailureLoop.Decision.{
  Hashing, seal, matches, decide, history_items, max_history, evaluate_failure_loop,
}
use super_memory_brain.FailureLoop.Decided.{
  IsTaken, current_digests, is_decision, evaluate-decide, evaluate-IsTaken,
}
use super_memory_brain.FailureLoop.Guard.{IsHex, digest_all-AllHex}
use super_memory_brain.FailureLoop.Handback.{
  receipt_value, record_tokens-decide, join_items, count-join_items, parse_history-join_items,
  privacy_in-join_items, history_items-plain, receipt_value-plain, some_items,
}

-- A matching record and no new correction leave no retry.
matched-fused :
    (h : Hashing) (d : Digests4) (past : List (Digests4 × Bool))
    → 1 ≤ matches d past
    → ((decide h d false past).fused ≡ true) × ((decide h d false past).retry_allowed ≡ false)
unfolding decide
matched-fused h d past m = ground arith

module _ (h : Hashing) (x : IsHex h) (failure history evidence action phase correction : Value)
    (before after : Items) where
  -- The receipt of the first attempt, as it is handed back.
  abbrev first_receipt : Value
  first_receipt =
      receipt_value (evaluate_failure_loop h failure history evidence action phase correction)

  abbrev second_history : Value
  second_history = arr (join_items before (item first_receipt after))

  first_receipt-decide :
      (k : IsTaken h failure history evidence action phase correction)
      → first_receipt
        ≡ receipt_value (seal h (decide h (current_digests h k.tokens) k.corrected k.past))
  unfolding evaluate_failure_loop
  first_receipt-decide k =
      ap (λ b. receipt_value (seal h b))
        (evaluate-decide h failure history evidence action phase correction k)

  first_receipt-read :
      (k : IsTaken h failure history evidence action phase correction)
      → (c : Bool) × (record_tokens h.digest first_receipt ≡ some (current_digests h k.tokens, c))
  first_receipt-read k =
      let d = current_digests h k.tokens in
      (
        (decide h d k.corrected k.past).reset_applied,
        ap (record_tokens h.digest) (first_receipt-decide k)
            ∙ record_tokens-decide h d k.corrected k.past (digest_all-AllHex h x k.tokens),
      )

  second_history-plain :
      (k : IsTaken h failure history evidence action phase correction)
      → history_items history ≡ some (join_items before after)
      → (privacy_key_present failure || privacy_key_present second_history) ≡ false
  unfolding privacy_key_present
  second_history-plain k listed =
      let plain : privacy_key_present history ≡ false = ground (arith, k.plain) in
      let old = history_items-plain history (join_items before after) listed plain in
      let new : privacy_key_present first_receipt ≡ false =
        ap privacy_key_present (first_receipt-decide k)
        ∙ receipt_value-plain h (current_digests h k.tokens) k.corrected k.past in
      let all = privacy_in-join_items before after first_receipt old new in
      ground (arith, k.plain, all)

  second_history-listed :
      count (join_items before after) < max_history
      → history_items second_history ≡ some (join_items before (item first_receipt after))
  unfolding history_items
  second_history-listed room =
      let n = count-join_items before (item first_receipt after) in
      let m = count-join_items before after in
      let fits : leb (count (join_items before (item first_receipt after))) max_history ≡ true =
        ground (arith, n, m, room) in
      rw fits refl

  replayed-IsTaken :
      (k : IsTaken h failure history evidence action phase correction)
      → history_items history ≡ some (join_items before after)
      → count (join_items before after) < max_history
      → (k' : IsTaken h failure second_history evidence action phase (bool false)) × (k'.tokens
          ≡ k.tokens)
        × (k'.corrected ≡ false)
        × (1 ≤ matches (current_digests h k.tokens) k'.past)
  replayed-IsTaken k listed room =
      let d = current_digests h k.tokens in
      let same : k.items ≡ join_items before after = some_items _ _ (sym k.listed ∙ listed) in
      let (c, known) = first_receipt-read k in
      let (past, parsed_, m) =
        parse_history-join_items h.digest before after k.past first_receipt d c
          (rw same at k.parsed) known in
      (
        record {
          tokens = k.tokens;
          corrected = false;
          items = join_items before (item first_receipt after);
          past = past;
          plain = second_history-plain k listed;
          read = k.read;
          asked = refl;
          listed = second_history-listed room;
          parsed = parsed_;
        },
        refl,
        refl,
        m,
      )

  -- When the guard has decided on an attempt whose history holds fewer than `max_history` records,
  -- a second attempt on the same four arguments with no new correction, whose history is the old
  -- one with the receipt of the first put in at any place, is fused and not allowed.
  pub replayed_receipt_fuses :
      is_decision (evaluate_failure_loop h failure history evidence action phase correction).body
        ≡ true
      → history_items history ≡ some (join_items before after)
      → count (join_items before after) < max_history
      → ((evaluate_failure_loop h failure second_history evidence action phase
            (bool false)).body.fused
          ≡ true)
        × ((evaluate_failure_loop h failure second_history evidence action phase
              (bool false)).body.retry_allowed
            ≡ false)
  replayed_receipt_fuses e listed room =
      let k = evaluate-IsTaken h failure history evidence action phase correction e in
      let (k', t, c, m) = replayed-IsTaken k listed room in
      let b = evaluate-decide h failure second_history evidence action phase (bool false) k' in
      let f = matched-fused h (current_digests h k.tokens) k'.past m in rw (b, t, c) f
