-- ===== src/FailureLoop/Guard.antt =====
-- Which of the receipts of failure_loop_guard.py its own validator accepts.
use super_memory_brain.Base.{
  ℕ, ◌+◌, ◌≤◌, ◌≡◌, refl, String, Bool, true, false, ◌&&◌, ◌||◌, not, Option, none, some, List, leb,
  eqb, arith, eq_refl, Bool-cases, Option-cases, inl, inr,
}
use super_memory_brain.Json.{Value, bool, Items}
use super_memory_brain.Text.{shape, led_shape, is_alnum}
use super_memory_brain.FailureLoop.Token.{
  Digests4, Kind, hex_digest, privacy_key_present, digest_all,
}
use super_memory_brain.FailureLoop.Decision.{
  Body, Hashing, seal, withheld_body, decided, matches, corrections, context_changed, decide,
  parse_history, evaluate_parsed, evaluate_tokens, evaluate_body, evaluate_failure_loop,
  history_items,
}
use super_memory_brain.FailureLoop.Receipts.{
  all_digests, code_re, empty_or_hex, full_length, receipt_is_valid,
}

-- SHA-256 in hexadecimal: 64 digits, whatever is hashed.
pub record IsHex (h : Hashing) : Type 0 where
  pub digest : (k : Kind) (s : String) → hex_digest (h.digest k s) ≡ true
  pub context : (d : Digests4) → hex_digest (h.context_digest d) ≡ true
  pub payload : (b : Body) → hex_digest (h.payload b) ≡ true

hex-full : (s : String) → hex_digest s ≡ true → full_length s ≡ true
unfolding hex_digest full_length shape
hex-full s h = ground arith

hex-empty_or_hex : (s : String) → hex_digest s ≡ true → empty_or_hex s ≡ true
unfolding empty_or_hex
hex-empty_or_hex s h = ground arith

pub record AllHex (d : Digests4) : Type 0 where
  pub failure : hex_digest d.failure ≡ true
  pub evidence : hex_digest d.evidence ≡ true
  pub action : hex_digest d.action ≡ true
  pub phase : hex_digest d.phase ≡ true

withheld_body-valid :
    (h : Hashing) (code : String)
    → IsHex h
    → code_re code ≡ true
    → receipt_is_valid h (seal h (withheld_body code)) ≡ true
unfolding receipt_is_valid
withheld_body-valid h code x c =
    let b = withheld_body code in ground (arith, x.payload b, eq_refl (h.payload b))

module _ (h : Hashing) (x : IsHex h) (d : Digests4) (a : AllHex d) where
  facts : all_digests full_length (decided h d false false 1) ≡ true
  facts = ground (
    arith,
    hex-full d.failure a.failure,
    hex-full d.evidence a.evidence,
    hex-full d.action a.action,
    hex-full d.phase a.phase,
    hex-full (h.context_digest d) (x.context d),
  )

  present : all_digests empty_or_hex (decided h d false false 1) ≡ true
  present = ground (
    arith,
    hex-empty_or_hex d.failure a.failure,
    hex-empty_or_hex d.evidence a.evidence,
    hex-empty_or_hex d.action a.action,
    hex-empty_or_hex d.phase a.phase,
    hex-empty_or_hex (h.context_digest d) (x.context d),
  )

  decided-valid_first :
      (reset changed : Bool)
      → receipt_is_valid h (seal h (decided h d reset changed 1)) ≡ not (reset && changed)
  unfolding receipt_is_valid
  decided-valid_first true true = ground (
    arith,
    facts,
    present,
    x.payload (decided h d true true 1),
    eq_refl (h.payload (decided h d true true 1)),
    eq_refl (h.context_digest d),
  )
  decided-valid_first true false = ground (
    arith,
    facts,
    present,
    x.payload (decided h d true false 1),
    eq_refl (h.payload (decided h d true false 1)),
    eq_refl (h.context_digest d),
  )
  decided-valid_first false true = ground (
    arith,
    facts,
    present,
    x.payload (decided h d false true 1),
    eq_refl (h.payload (decided h d false true 1)),
    eq_refl (h.context_digest d),
  )
  decided-valid_first false false = ground (
    arith,
    facts,
    present,
    x.payload (decided h d false false 1),
    eq_refl (h.payload (decided h d false false 1)),
    eq_refl (h.context_digest d),
  )

  decided-valid_duplicate :
      (changed : Bool) (n : ℕ)
      → 2 ≤ n
      → receipt_is_valid h (seal h (decided h d false changed n)) ≡ true
  unfolding receipt_is_valid
  decided-valid_duplicate changed n two =
      let late : leb n 1 ≡ false = ground arith in
      rw (late, receipt_is_valid)
        (ground (
          arith,
          facts,
          present,
          x.payload (decided h d false changed n),
          eq_refl (h.payload (decided h d false changed n)),
        ))

  -- The validator accepts what the guard decides, except a receipt that reports both a reset by a
  -- correction and a changed context.
  decide-valid :
      (correction : Bool) (history : List (Digests4 × Bool))
      → receipt_is_valid h (seal h (decide h d correction history))
        ≡ not (
            (decide h d correction history).reset_applied
            && (decide h d correction history).context_changed)
  unfolding decide
  decide-valid correction history =
      let reset = correction && eqb (corrections d history) 0 in
      let changed = context_changed d history in
      elim (Bool-cases reset) [
        | inl yes_ ↦ rw yes_ (decided-valid_first true changed)
        | inr no_ ↦ elim (Bool-cases (eqb (matches d history) 0)) [
          | inl first ↦
              let z : matches d history + 1 ≡ 1 = ground (arith, first) in
              rw (no_, z) (decided-valid_first false changed)
          | inr again ↦
              rw no_
                (decided-valid_duplicate changed (matches d history + 1) (ground (arith, again)))
        ]
      ]

module _ (h : Hashing) (x : IsHex h) where
  -- The verdict of the validator on the receipt of a body.
  abbrev Judged : Body → Type 0
  Judged b = receipt_is_valid h (seal h b) ≡ not (b.reset_applied && b.context_changed)

  withheld_body-Judged : (code : String) → code_re code ≡ true → Judged (withheld_body code)
  withheld_body-Judged code c = withheld_body-valid h code x c

  evaluate_parsed-Judged :
      (d : Digests4) (a : AllHex d) (correction : Bool) (history : Option Items)
      → Judged (evaluate_parsed h d correction history)
  unfolding evaluate_parsed code_re led_shape is_alnum
  evaluate_parsed-Judged d a correction none = withheld_body-Judged _ refl
  evaluate_parsed-Judged d a correction (some items) =
      elim (Option-cases (parse_history h.digest items)) [
        | inl bad ↦ rw (bad, evaluate_parsed) (withheld_body-Judged _ refl)
        | inr (history, e) ↦ rw (e, evaluate_parsed) (decide-valid h x d a correction history)
      ]

  pub digest_all-AllHex : (t : Digests4) → AllHex (digest_all h.digest t)
  digest_all-AllHex t = record {
    failure = x.digest _ t.failure;
    evidence = x.digest _ t.evidence;
    action = x.digest _ t.action;
    phase = x.digest _ t.phase;
  }

  evaluate_tokens-Judged :
      (o : Option Digests4) (correction history : Value)
      → Judged (evaluate_tokens h o correction history)
  unfolding evaluate_tokens code_re led_shape
  evaluate_tokens-Judged (some t) (bool b) history =
      evaluate_parsed-Judged (digest_all h.digest t) (digest_all-AllHex t) b (history_items history)
  evaluate_tokens-Judged none correction history = withheld_body-Judged _ refl
  evaluate_tokens-Judged (some t) _ history = withheld_body-Judged _ refl

  -- Whatever the caller passes, the validator accepts the receipt of the guard, except one that
  -- reports a reset by a user correction together with a changed context: that one it rejects.
  pub evaluate-valid :
      (failure history evidence action phase correction : Value)
      → receipt_is_valid h
          (evaluate_failure_loop h failure history evidence action phase correction)
        ≡ not (
            (evaluate_failure_loop h failure history evidence action phase
              correction).body.reset_applied
            && (evaluate_failure_loop h failure history evidence action phase
                correction).body.context_changed)
  unfolding evaluate_failure_loop code_re led_shape
  evaluate-valid failure history evidence action phase correction =
      elim (Bool-cases (privacy_key_present failure || privacy_key_present history)) [
        | inl secret ↦ rw (secret, evaluate_body) (withheld_body-Judged _ refl)
        | inr plain ↦ rw (plain, evaluate_body) (evaluate_tokens-Judged _ correction history)
      ]
