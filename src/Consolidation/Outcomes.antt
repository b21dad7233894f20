-- ===== src/Consolidation/Outcomes.antt =====
-- What a plan of memory_consolidation.py is, where `plan` raises nothing.
use mathlib.Core.Path.{subst}
use super_memory_brain.Base.{ℕ, ◌≤◌, ◌≡◌, refl, String, Option, none, some, arith}
use super_memory_brain.Json.{Value, int, Items, count}
use super_memory_brain.Consolidation.Cards.{
  Runtime, Now, normalize_now, Scope, scope, requested_privacy,
}
use super_memory_brain.Consolidation.Plan.{
  Plan, Outcome, planned, given, maximum_of, stale_days_of, cutoff_of, plan_within, plan,
}
use super_memory_brain.Consolidation.Counts.{IsBounded, plan_within-IsBounded}

-- The outcome is a plan with the property `P`, or an error.
abbrev Ensures {κ} : (Plan → Type κ) → Outcome → Type κ
Ensures P (planned p) = P p
Ensures P _ = Unit

-- The outcome is an error.
abbrev IsError : Outcome → Type 0
IsError (planned p) = ⊥
IsError _ = Unit

errors_ensure {κ} : (P : Plan → Type κ) (o : Outcome) → IsError o → Ensures P o
errors_ensure P (planned p) e = absurd e
errors_ensure P Outcome.scope_required e = tt
errors_ensure P Outcome.privacy_invalid e = tt
errors_ensure P Outcome.now_invalid e = tt
errors_ensure P Outcome.maximum_invalid e = tt
errors_ensure P Outcome.stale_invalid e = tt
errors_ensure P Outcome.cutoff_overflow e = tt

module _ {ℓ κ} {A : Type ℓ} (P : Plan → Type κ) where
  Ensures-given :
      (o : Option A) (error : Outcome) (go : A → Outcome)
      → IsError error
      → ((a : A) → o ≡ some a → Ensures P (go a))
      → Ensures P (given o error go)
  Ensures-given none error go e k = errors_ensure P error e
  Ensures-given (some a) error go e k = k a refl

maximum_of-le : (value : Value) (m : ℕ) → maximum_of value ≡ some m → (1 ≤ m) × (m ≤ 64)
maximum_of-le (int n) m h = ground arith
maximum_of-le _ m h = cc

-- A property of what is planned within any arguments that are read.
pub plan-Ensures {κ} :
    (r : Runtime) (records : Items) (scope_value : Value) (now : Now)
    (max_proposals stale_after_days : Value) (P : Plan → Type κ) (p : Plan)
    → ((place : Scope) (privacy : String) (time maximum : ℕ) (days cutoff : Option ℕ)
        → scope scope_value ≡ some place
        → requested_privacy r scope_value ≡ some privacy
        → normalize_now r now ≡ some time
        → maximum_of max_proposals ≡ some maximum
        → stale_days_of stale_after_days ≡ some days
        → cutoff_of time days ≡ some cutoff
        → P (plan_within r records place privacy maximum cutoff))
    → plan r records scope_value now max_proposals stale_after_days ≡ planned p
    → P p
unfolding plan
plan-Ensures r records scope_value now max_proposals stale_after_days P p k e =
    subst (Ensures P) e (
      Ensures-given P (scope scope_value) _ _ tt (λ place s.
        Ensures-given P (requested_privacy r scope_value) _ _ tt (λ privacy q.
          Ensures-given P (normalize_now r now) _ _ tt (λ time t.
            Ensures-given P (maximum_of max_proposals) _ _ tt (λ maximum m.
              Ensures-given P (stale_days_of stale_after_days) _ _ tt (λ days d.
                Ensures-given P (cutoff_of time days) _ _ tt
                  (λ cutoff c. k place privacy time maximum days cutoff s q t m d c)))))))

-- The counts of a plan for the number of proposals that the argument allows.
abbrev pub IsWithin : Value → ℕ → Plan → Type 0
IsWithin max_proposals n p =
    (maximum : ℕ) × (maximum_of max_proposals ≡ some maximum)
    × (1 ≤ maximum)
    × (maximum ≤ 64)
    × IsBounded maximum n p

-- A plan is for a number of proposals from 1 to 64 and has at most that many, of which no fewer
-- than are counted as decisions; no candidate is omitted as one too many before the plan is full;
-- and the proposals with the cards that are one too many, out of scope or invalid are at most the
-- records.
pub plan-IsWithin :
    (r : Runtime) (records : Items) (scope_value : Value) (now : Now)
    (max_proposals stale_after_days : Value) (p : Plan)
    → plan r records scope_value now max_proposals stale_after_days ≡ planned p
    → IsWithin max_proposals (count records) p
plan-IsWithin r records scope_value now max_proposals stale_after_days p =
    plan-Ensures r records scope_value now max_proposals stale_after_days
      (IsWithin max_proposals (count records)) p
      (λ place privacy time maximum days cutoff s q t m d c.
        let (low, high) = maximum_of-le max_proposals maximum m in
        (maximum, m, low, high, plan_within-IsBounded r records place privacy maximum cutoff))
