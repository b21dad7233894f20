-- ===== src/FailureLoop/Handback.antt =====
-- failure_loop_guard.py: a receipt of the guard as the caller hands it back in a history, and how the
-- guard reads such a history.
use super_memory_brain.Base.{
  ◌≡◌, ◌+◌, ◌≤◌, refl, String, Bool, false, Option, none, some, List, ◌∷◌, arith, eq_refl,
  Option-cases, inl, inr,
}
use super_memory_brain.Json.{
  Value, null, bool, int, text, arr, obj, Items, end, item, Fields, none_left, field, count,
}
use super_memory_brain.FailureLoop.Token.{
  Digests4, Kind, record_tokens, privacy_key_present, privacy_in_items,
}
use super_memory_brain.FailureLoop.Decision.{
  Receipt, Hashing, seal, matches, decide, parse_history, history_items,
}
use super_memory_brain.FailureLoop.Guard.{AllHex}

-- `userCorrection`, where the key is there
abbrev correction_field : Option Bool → Fields → Fields
correction_field none rest = rest
correction_field (some b) rest = field "userCorrection" (bool b) rest

-- The dictionary that `evaluate_failure_loop` returns.
unfoldable pub receipt_value : Receipt → Value
receipt_value r =
    let b = r.body in
    obj (
      field "schema" (text b.schema) (
        field "state" (text b.state) (
          field "decision" (text b.decision) (
            field "code" (text b.code) (
              field "retryAllowed" (bool b.retry_allowed) (
                field "fused" (bool b.fused) (
                  field "contextChanged" (bool b.context_changed) (
                    field "resetApplied" (bool b.reset_applied) (
                      field "occurrenceCount" (int b.occurrence_count) (
                        field "retryBudget" (int b.budget) (
                          field "retryBudgetRemaining" (int b.retry_budget_remaining) (
                            field "failureFingerprintDigest" (text b.digests.failure) (
                              field "evidenceFingerprintDigest" (text b.digests.evidence) (
                                field "actionFingerprintDigest" (text b.digests.action) (
                                  field "phaseDigest" (text b.digests.phase) (
                                    field "contextDigest" (text b.context_digest) (
                                      correction_field b.user_correction (
                                        field "nonAuthorizing" (bool b.non_authorizing) (
                                          field "rawPromptStored" (bool b.raw_prompt_stored) (
                                            field "rawTranscriptStored"
                                              (bool b.raw_transcript_stored)
                                              (field "payloadHash" (text r.payload_hash)
                                                none_left)))))))))))))))))))))

-- The guard reads its own decision back: the digests, and whether it was a reset.
pub record_tokens-decide :
    (h : Hashing) (d : Digests4) (correction : Bool) (past : List (Digests4 × Bool))
    → AllHex d
    → record_tokens h.digest (receipt_value (seal h (decide h d correction past)))
      ≡ some (d, (decide h d correction past).reset_applied)
unfolding record_tokens receipt_value decide
record_tokens-decide h d correction past a =
    ground (arith, a.failure, a.evidence, a.action, a.phase)

-- The list `xs + ys`.
abbrev pub join_items : Items → Items → Items
join_items end items = items
join_items (item v more) items = item v (join_items more items)

pub count-join_items : (xs ys : Items) → count (join_items xs ys) ≡ count xs + count ys
count-join_items end ys = omega arith
count-join_items (item v xs) ys = omega (arith, count-join_items xs ys)

matches_self :
    (d : Digests4) (c : Bool) (past : List (Digests4 × Bool)) → 1 ≤ matches d ((d, c) ∷ past)
unfolding matches
matches_self d c past =
    ground (arith, eq_refl d.failure, eq_refl d.evidence, eq_refl d.action, eq_refl d.phase)

matches_later :
    (d : Digests4) (r : Digests4 × Bool) (past : List (Digests4 × Bool))
    → 1 ≤ matches d past
    → 1 ≤ matches d (r ∷ past)
unfolding matches
matches_later d (e, c) past m = omega arith

module _ (digest : Kind → String → String) where
  parse_item :
      (v : Value) (xs : Items) (p : Digests4 × Bool) (rest : List (Digests4 × Bool))
      → record_tokens digest v ≡ some p
      → parse_history digest xs ≡ some rest
      → parse_history digest (item v xs) ≡ some (p ∷ rest)
  unfolding parse_history
  parse_item v xs p rest r e = rw (r, parse_history) (rw (e, parse_history) refl)

  parsed_item :
      (v : Value) (xs : Items) (past : List (Digests4 × Bool))
      → parse_history digest (item v xs) ≡ some past
      → (p : Digests4 × Bool) × (rest : List (Digests4 × Bool)) × (record_tokens digest v ≡ some p)
        × (parse_history digest xs ≡ some rest)
  unfolding parse_history
  parsed_item v xs past e = elim (Option-cases (record_tokens digest v)) [
    | inl bad ↦ let f : none ≡ some past = rw (bad, parse_history) at e in cc
    | inr (p, good) ↦ elim (Option-cases (parse_history digest xs)) [
      | inl worse ↦
          let f : none ≡ some past = rw (worse, parse_history) at (rw (good, parse_history) at e) in
          cc
      | inr (rest, fine) ↦ (p, rest, good, fine)
    ]
  ]

  -- A list that is read is read with one more record in it, which then matches.
  pub parse_history-join_items :
      (xs ys : Items) (past : List (Digests4 × Bool)) (v : Value) (d : Digests4) (c : Bool)
      → parse_history digest (join_items xs ys) ≡ some past
      → record_tokens digest v ≡ some (d, c)
      → (after : List (Digests4 × Bool)) × (parse_history digest (join_items xs (item v ys))
          ≡ some after)
        × (1 ≤ matches d after)
  parse_history-join_items end ys past v d c e r =
      ((d, c) ∷ past, parse_item v ys (d, c) past r e, matches_self d c past)
  parse_history-join_items (item w xs) ys past v d c e r =
      let (p, rest, good, fine) = parsed_item w (join_items xs ys) past e in
      let (after, k, m) = parse_history-join_items xs ys rest v d c fine r in
      (
        p ∷ after,
        parse_item w (join_items xs (item v ys)) p after good k,
        matches_later d p after m,
      )

pub privacy_in-join_items :
    (xs ys : Items) (v : Value)
    → privacy_in_items (join_items xs ys) ≡ false
    → privacy_key_present v ≡ false
    → privacy_in_items (join_items xs (item v ys)) ≡ false
unfolding privacy_key_present
privacy_in-join_items end ys v p q = ground arith
privacy_in-join_items (item w xs) ys v p q = ground (arith, privacy_in-join_items xs ys v)

-- The items of a history argument hold what the argument holds.
pub history_items-plain :
    (history : Value) (items : Items)
    → history_items history ≡ some items
    → privacy_key_present history ≡ false
    → privacy_in_items items ≡ false
unfolding history_items privacy_key_present
history_items-plain null items e p = ground arith
history_items-plain (arr is) items e p = ground arith
history_items-plain _ items e p = cc

pub receipt_value-plain :
    (h : Hashing) (d : Digests4) (correction : Bool) (past : List (Digests4 × Bool))
    → privacy_key_present (receipt_value (seal h (decide h d correction past))) ≡ false
unfolding privacy_key_present receipt_value decide
receipt_value-plain h d correction past = refl

pub some_items : (xs ys : Items) → some xs ≡ some ys → xs ≡ ys
some_items xs ys e = cc
