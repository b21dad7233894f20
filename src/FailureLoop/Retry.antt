-- ===== src/FailureLoop/Retry.antt =====
-- When `evaluate_failure_loop` of failure_loop_guard.py allows a retry.
use super_memory_brain.Base.{
  ◌≡◌, ◌≢◌, ◌↔◌, ◌⊎◌, inl, inr, refl, ap, sym, ◌∙◌, Bool, true, false, List, [], ◌∷◌, All, eqb,
  arith, eq_iff, Bool-cases,
}
use super_memory_brain.Json.{Value}
use super_memory_brain.FailureLoop.Token.{Digests4}
use super_memory_brain.FailureLoop.Decision.{
  Hashing, same_digests, matches, corrections, decide, evaluate_failure_loop,
}
use super_memory_brain.FailureLoop.Decided.{
  IsTaken, current_digests, evaluate-decide, evaluate-IsTaken,
}

-- No record of the history has the digests.
abbrev pub IsUnseen : Digests4 → List (Digests4 × Bool) → Type 0
IsUnseen d past = All (λ r. r.0 ≢ d) past

-- No record that has the digests reports a correction.
abbrev pub IsUncorrected : Digests4 → List (Digests4 × Bool) → Type 0
IsUncorrected d past = All (λ r. r.0 ≡ d → r.1 ≡ false) past

same_digests-≡ : (e d : Digests4) → same_digests e d ≡ true → e ≡ d
same_digests-≡ e d h =
    let e1 : e.failure ≡ d.failure = (eq_iff e.failure d.failure).0 (ground arith) in
    let e2 : e.evidence ≡ d.evidence = (eq_iff e.evidence d.evidence).0 (ground arith) in
    let e3 : e.action ≡ d.action = (eq_iff e.action d.action).0 (ground arith) in
    let e4 : e.phase ≡ d.phase = (eq_iff e.phase d.phase).0 (ground arith) in cc

≡-same_digests : (e d : Digests4) → e ≡ d → same_digests e d ≡ true
≡-same_digests e d h =
    let e1 = (eq_iff e.failure d.failure).1 (ap (λ x. x.failure) h) in
    let e2 = (eq_iff e.evidence d.evidence).1 (ap (λ x. x.evidence) h) in
    let e3 = (eq_iff e.action d.action).1 (ap (λ x. x.action) h) in
    let e4 = (eq_iff e.phase d.phase).1 (ap (λ x. x.phase) h) in ground arith

matches-IsUnseen :
    (d : Digests4) (past : List (Digests4 × Bool)) → matches d past ≡ 0 → IsUnseen d past
unfolding matches
matches-IsUnseen d [] h = tt
matches-IsUnseen d ((e, c) ∷ past) h =
    (λ k. ground (arith, ≡-same_digests e d k), matches-IsUnseen d past (ground arith))

IsUnseen-matches :
    (d : Digests4) (past : List (Digests4 × Bool)) → IsUnseen d past → matches d past ≡ 0
unfolding matches
IsUnseen-matches d [] h = refl
IsUnseen-matches d ((e, c) ∷ past) h = elim (Bool-cases (same_digests e d)) [
  | inl yes_ ↦ absurd (h.0 (same_digests-≡ e d yes_))
  | inr no_ ↦ ground (arith, no_, IsUnseen-matches d past h.1)
]

corrections-IsUncorrected :
    (d : Digests4) (past : List (Digests4 × Bool)) → corrections d past ≡ 0 → IsUncorrected d past
unfolding corrections
corrections-IsUncorrected d [] h = tt
corrections-IsUncorrected d ((e, c) ∷ past) h =
    (λ k. ground (arith, ≡-same_digests e d k), corrections-IsUncorrected d past (ground arith))

IsUncorrected-corrections :
    (d : Digests4) (past : List (Digests4 × Bool)) → IsUncorrected d past → corrections d past ≡ 0
unfolding corrections
IsUncorrected-corrections d [] h = refl
IsUncorrected-corrections d ((e, c) ∷ past) h = elim (Bool-cases (same_digests e d)) [
  | inl yes_ ↦
      ground (arith, yes_, h.0 (same_digests-≡ e d yes_), IsUncorrected-corrections d past h.1)
  | inr no_ ↦ ground (arith, no_, IsUncorrected-corrections d past h.1)
]

-- Whether a retry is due after the history.
abbrev pub IsDue : Digests4 → Bool → List (Digests4 × Bool) → Type 0
IsDue d corrected past = IsUnseen d past ⊎ ((corrected ≡ true) × IsUncorrected d past)

decide-IsDue :
    (h : Hashing) (d : Digests4) (c : Bool) (past : List (Digests4 × Bool))
    → (decide h d c past).retry_allowed ≡ true
    → IsDue d c past
unfolding decide
decide-IsDue h d c past e = elim (Bool-cases (eqb (matches d past) 0)) [
  | inl none_ ↦ inl (matches-IsUnseen d past (ground (arith, none_)))
  | inr some_ ↦
      inr (ground (arith, some_), corrections-IsUncorrected d past (ground (arith, some_)))
]

IsDue-decide :
    (h : Hashing) (d : Digests4) (c : Bool) (past : List (Digests4 × Bool))
    → IsDue d c past
    → (decide h d c past).retry_allowed ≡ true
unfolding decide
IsDue-decide h d c past (inl unseen) = ground (arith, IsUnseen-matches d past unseen)
IsDue-decide h d c past (inr (asked, first)) =
    ground (arith, asked, IsUncorrected-corrections d past first)

-- Whatever the caller passes, a retry is allowed exactly if the guard takes the arguments and either
-- no record of the history has the four digests of the current attempt, or the user corrects and no
-- record with these digests reports a correction.
pub evaluate_allows :
    (h : Hashing) (failure history evidence action phase correction : Value)
    → ((evaluate_failure_loop h failure history evidence action phase correction).body.retry_allowed
        ≡ true)
      ↔ ((k : IsTaken h failure history evidence action phase correction) × IsDue
            (current_digests h k.tokens)
            k.corrected
            k.past)
evaluate_allows h failure history evidence action phase correction = (
  λ e.
      let k =
        evaluate-IsTaken h failure history evidence action phase correction (ground (arith, e)) in
      let b = evaluate-decide h failure history evidence action phase correction k in
      (
        k,
        decide-IsDue h (current_digests h k.tokens) k.corrected k.past
            (ap (λ x. x.retry_allowed) (sym b) ∙ e),
      ),
  λ r.
      let (k, due) = r in
      ap (λ x. x.retry_allowed)
        (evaluate-decide h failure history evidence action phase correction k)
      ∙ IsDue-decide h (current_digests h k.tokens) k.corrected k.past due,
)
