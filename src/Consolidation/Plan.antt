-- ===== src/Consolidation/Plan.antt =====
-- CORE/runtime/memory_consolidation.py: `plan`.
use Prim.Native.Nat.{Ordering}
use Prim.Native.String.{compare as compare_text}
use super_memory_brain.Base.{
  ℕ, suc, ◌+◌, ◌-◌, ◌*◌, String, Bool, true, false, not, ◌&&◌, Option, none, some, List, [], ◌∷◌,
  leb, ltb, length, member, ◌==◌, if◌then◌else◌,
}
use super_memory_brain.Json.{
  Value, null, bool, int, negative, float, text, arr, obj, Items, count, none_left, field,
}
use super_memory_brain.Consolidation.Cards.{
  Runtime, Now, normalize_now, Scope, scope, requested_privacy, Card, candidate_sources,
  current_source, records_of,
}
use super_memory_brain.Consolidation.Suggestion.{Proposal, same_scope, is_decision, suggest}

-- `sorted`, which keeps the order of equal ones, by a test that the first goes after the second.
unfoldable pub insert_card : (Card → Card → Bool) → Card → List Card → List Card
insert_card after a [] = a ∷ []
insert_card after a (b ∷ cards) =
    let rest = insert_card after a cards in if after a b then b ∷ rest else a ∷ b ∷ cards

unfoldable pub sort_cards : (Card → Card → Bool) → List Card → List Card
unfolding insert_card
sort_cards after [] = []
sort_cards after (a ∷ cards) = insert_card after a (sort_cards after cards)

-- `cardId`, and `(cardId, revision)`
abbrev pub after_by_id : Card → Card → Bool
after_by_id a b = elim (compare_text a.card_id b.card_id) [ Ordering.gt ↦ true | _ ↦ false ]

abbrev pub after_by_revision : Card → Card → Bool
after_by_revision a b = elim (compare_text a.card_id b.card_id) [
  | Ordering.gt ↦ true
  | Ordering.eq ↦ ltb b.revision a.revision
  | Ordering.lt ↦ false
]

unfoldable pub keep_if : (Card → Bool) → List Card → List Card
keep_if test [] = []
keep_if test (a ∷ cards) = let rest = keep_if test cards in if test a then a ∷ rest else rest

abbrev pub is_in_scope : Scope → String → Card → Bool
is_in_scope place privacy c = same_scope c.scope place && c.privacy_class == privacy

abbrev pub is_candidate : Card → Bool
is_candidate c = member c.source candidate_sources && not (c.kind == "decision")

abbrev pub is_current_card : Card → Bool
is_current_card c = c.source == current_source && not (c.kind == "decision") && not (is_decision c)

unfoldable pub candidates_of : List Card → List Card
unfolding sort_cards keep_if
candidates_of in_scope = sort_cards after_by_id (keep_if is_candidate in_scope)

unfoldable pub current_of : List Card → List Card
unfolding sort_cards keep_if
current_of in_scope = sort_cards after_by_revision (keep_if is_current_card in_scope)

-- What the loop collects: `omitted["decision"]` and `omitted["bounded"]` with the proposals.
pub record Progress : Type 0 where
  pub proposals : List Proposal
  pub decisions : ℕ
  pub bounded : ℕ

abbrev pub skipped : Progress → Progress
skipped p = record p { bounded = p.bounded + 1 }

abbrev pub added : Proposal → Bool → Progress → Progress
added proposal decision p = record {
  proposals = proposal ∷ p.proposals;
  decisions = if decision then p.decisions + 1 else p.decisions;
  bounded = p.bounded;
}

-- The loop over the candidates, after `done` proposals.
unfoldable pub propose : Runtime → ℕ → Option ℕ → List Card → ℕ → List Card → Progress
unfolding suggest
propose r maximum cutoff current done [] = record { proposals = []; decisions = 0; bounded = 0 }
propose r maximum cutoff current done (c ∷ candidates) = elim (leb maximum done) [
  | true ↦ skipped (propose r maximum cutoff current done candidates)
  | false ↦
      added (suggest r cutoff current c) (is_decision c)
        (propose r maximum cutoff current (suc done) candidates)
]

pub record Plan : Type 0 where
  pub scope_kind : String
  pub scope_ref : String
  pub privacy_class : String
  pub proposals : List Proposal
  pub invalid : ℕ
  pub out_of_scope : ℕ
  pub decisions : ℕ
  pub bounded : ℕ

-- The `ValueError` that is raised, `OverflowError` where the cutoff would be before the year 1, or
-- the plan.
pub data Outcome : Type 0 where
  scope_required privacy_invalid now_invalid maximum_invalid stale_invalid cutoff_overflow : Outcome
  planned : Plan → Outcome

-- `max_proposals`
abbrev pub maximum_of : Value → Option ℕ
maximum_of (int n) = if leb 1 n && leb n 64 then some n else none
maximum_of null = none
maximum_of (bool b) = none
maximum_of (negative n) = none
maximum_of float = none
maximum_of (text s) = none
maximum_of (arr xs) = none
maximum_of (obj fs) = none

-- `stale_after_days`, which may be `None`
abbrev pub stale_days_of : Value → Option (Option ℕ)
stale_days_of (int n) = if leb 1 n && leb n 3650 then some (some n) else none
stale_days_of null = some none
stale_days_of (bool b) = none
stale_days_of (negative n) = none
stale_days_of float = none
stale_days_of (text s) = none
stale_days_of (arr xs) = none
stale_days_of (obj fs) = none

abbrev pub microseconds_a_day : ℕ
microseconds_a_day = 86400000000

-- `current_time - timedelta(days=stale_after_days)`
abbrev pub cutoff_of : ℕ → Option ℕ → Option (Option ℕ)
cutoff_of now none = some none
cutoff_of now (some days) =
    if leb (days * microseconds_a_day) now
    then some (some (now - days * microseconds_a_day))
    else none

abbrev pub scope_ref_of : Runtime → Scope → String
scope_ref_of r place = r.canonical_hash (obj (field "scopeKey" (text place.key) none_left))

-- `plan` on arguments that are read.
unfoldable pub plan_within : Runtime → Items → Scope → String → ℕ → Option ℕ → Plan
unfolding records_of keep_if candidates_of current_of propose
plan_within r records place privacy maximum cutoff =
    let normalized = records_of r records in
    let in_scope = keep_if (is_in_scope place privacy) normalized in
    let loop = propose r maximum cutoff (current_of in_scope) 0 (candidates_of in_scope) in
    record {
      scope_kind = place.kind;
      scope_ref = scope_ref_of r place;
      privacy_class = privacy;
      proposals = loop.proposals;
      invalid = count records - length normalized;
      out_of_scope = length normalized - length in_scope;
      decisions = loop.decisions;
      bounded = loop.bounded;
    }

-- The error, unless there is a value.
abbrev pub given {ℓ} : {A : Type ℓ} → Option A → Outcome → (A → Outcome) → Outcome
given none error go = error
given (some a) error go = go a

-- `plan`
unfoldable pub plan : Runtime → Items → Value → Now → Value → Value → Outcome
unfolding scope requested_privacy plan_within
plan r records scope_value now max_proposals stale_after_days =
    given (scope scope_value) scope_required (λ place.
      given (requested_privacy r scope_value) privacy_invalid (λ privacy.
        given (normalize_now r now) now_invalid (λ time.
          given (maximum_of max_proposals) maximum_invalid (λ maximum.
            given (stale_days_of stale_after_days) stale_invalid (λ days.
              given (cutoff_of time days) cutoff_overflow
                (λ cutoff. planned (plan_within r records place privacy maximum cutoff)))))))
