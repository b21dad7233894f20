-- ===== src/Consolidation/Sources.antt =====
-- Where the cards of a plan of memory_consolidation.py come from.
use super_memory_brain.Base.{
  ℕ, suc, ◌≡◌, ◌⊎◌, inl, inr, refl, String, Bool, true, false, Option, some, List, [], ◌∷◌, All,
  leb, Bool-cases, arith, eq_iff, ◌==◌,
}
use super_memory_brain.Json.{Value, Items}
use super_memory_brain.Consolidation.Cards.{
  Runtime, Now, normalize_now, Scope, scope, requested_privacy, Card, records_of,
}
use super_memory_brain.Consolidation.Suggestion.{Proposal, is_decision, suggest}
use super_memory_brain.Consolidation.Plan.{
  insert_card, sort_cards, keep_if, is_in_scope, is_candidate, is_current_card, after_by_id,
  after_by_revision, candidates_of, current_of, Progress, skipped, added, propose, Plan, planned,
  stale_days_of, cutoff_of, plan_within, plan,
}
use super_memory_brain.Consolidation.Founded.{IsFounded, suggest-IsFounded}
use super_memory_brain.Consolidation.Outcomes.{plan-Ensures}

-- The card stands in the list.
abbrev pub Among : List Card → Card → Type 0
Among [] c = ⊥
Among (a ∷ cards) c = (a ≡ c) ⊎ Among cards c

All-weaken :
    (P Q : Card → Type 0) (cards : List Card) → ((c : Card) → P c → Q c) → All P cards → All Q cards
All-weaken P Q [] f h = tt
All-weaken P Q (a ∷ cards) f h = (f a h.0, All-weaken P Q cards f h.1)

pub All-Among : (cards : List Card) → All (Among cards) cards
All-Among [] = tt
All-Among (a ∷ cards) =
    (inl refl, All-weaken (Among cards) (Among (a ∷ cards)) cards (λ c m. inr m) (All-Among cards))

module _ (P : Card → Type 0) where
  keep_if-All :
      (test : Card → Bool) (cards : List Card)
      → All P cards
      → All (λ c. P c × (test c ≡ true)) (keep_if test cards)
  unfolding keep_if
  keep_if-All test [] h = tt
  keep_if-All test (a ∷ cards) h = elim (Bool-cases (test a)) [
    | inl kept ↦ rw kept ((h.0, kept), keep_if-All test cards h.1)
    | inr left ↦ rw left (keep_if-All test cards h.1)
  ]

  insert_card-All :
      (after : Card → Card → Bool) (a : Card) (cards : List Card)
      → P a
      → All P cards
      → All P (insert_card after a cards)
  unfolding insert_card
  insert_card-All after a [] p h = (p, tt)
  insert_card-All after a (b ∷ cards) p h = elim (Bool-cases (after a b)) [
    | inl later ↦ rw later (h.0, insert_card-All after a cards p h.1)
    | inr before ↦ rw before (p, h)
  ]

  sort_cards-All :
      (after : Card → Card → Bool) (cards : List Card)
      → All P cards
      → All P (sort_cards after cards)
  unfolding sort_cards
  sort_cards-All after [] h = tt
  sort_cards-All after (a ∷ cards) h =
      insert_card-All after a (sort_cards after cards) h.0 (sort_cards-All after cards h.1)

-- A card of the records, in the scope and of the privacy class.
pub record IsScoped (cards : List Card) (place : Scope) (privacy : String) (c : Card) : Type 0 where
  pub among : Among cards c
  pub placed : c.scope.kind ≡ place.kind
  pub keyed : c.scope.key ≡ place.key
  pub classed : c.privacy_class ≡ privacy

is_in_scope-IsScoped :
    (cards : List Card) (place : Scope) (privacy : String) (c : Card)
    → Among cards c × (is_in_scope place privacy c ≡ true)
    → IsScoped cards place privacy c
is_in_scope-IsScoped cards place privacy c (m, e) =
    let k : (c.scope.kind == place.kind) ≡ true = ground (arith, e) in
    let l : (c.scope.key == place.key) ≡ true = ground (arith, e) in
    let q : (c.privacy_class == privacy) ≡ true = ground (arith, e) in
    record {
      among = m;
      placed = (eq_iff c.scope.kind place.kind).0 k;
      keyed = (eq_iff c.scope.key place.key).0 l;
      classed = (eq_iff c.privacy_class privacy).0 q;
    }

-- One with the test's answer.
abbrev pub IsPicked : List Card → Scope → String → (Card → Bool) → Card → Type 0
IsPicked cards place privacy test c = IsScoped cards place privacy c × (test c ≡ true)

module _ (cards : List Card) (place : Scope) (privacy : String) where
  abbrev in_scope : List Card
  in_scope = keep_if (is_in_scope place privacy) cards

  IsPicked-All :
      (test : Card → Bool) (after : Card → Card → Bool)
      → All (IsPicked cards place privacy test) (sort_cards after (keep_if test in_scope))
  IsPicked-All test after =
      sort_cards-All (IsPicked cards place privacy test) after (keep_if test in_scope) (
        keep_if-All (IsScoped cards place privacy) test in_scope (
          All-weaken _ (IsScoped cards place privacy) in_scope
            (is_in_scope-IsScoped cards place privacy)
            (keep_if-All (Among cards) (is_in_scope place privacy) cards (All-Among cards))))

  candidates_of-All : All (IsPicked cards place privacy is_candidate) (candidates_of in_scope)
  unfolding candidates_of
  candidates_of-All = IsPicked-All is_candidate after_by_id

  current_of-All : All (IsPicked cards place privacy is_current_card) (current_of in_scope)
  unfolding current_of
  current_of-All = IsPicked-All is_current_card after_by_revision

module _ (r : Runtime) (maximum : ℕ) (cutoff : Option ℕ) (current : List Card)
    (P Q : Card → Type 0) where
  -- The proposal is one for a card with the property `Q`.
  abbrev IsFor : Proposal → Type 0
  IsFor p = (c : Card) × Q c × IsFounded r cutoff P c p

  step-IsFor :
      (full : Bool) (a : Proposal) (decision : Bool) (same more : Progress)
      → IsFor a
      → All IsFor same.proposals
      → All IsFor more.proposals
      → All IsFor
          (elim full as (λ _. Progress) [
            | true ↦ skipped same
            | false ↦ added a decision more
          ]).proposals
  step-IsFor true a decision same more f h k = h
  step-IsFor false a decision same more f h k = (f, k)

  propose-IsFor :
      (done : ℕ) (candidates : List Card)
      → All P current
      → All Q candidates
      → All IsFor (propose r maximum cutoff current done candidates).proposals
  unfolding propose
  propose-IsFor done [] h k = tt
  propose-IsFor done (c ∷ candidates) h k =
      step-IsFor (leb maximum done) (suggest r cutoff current c) (is_decision c)
        (propose r maximum cutoff current done candidates)
        (propose r maximum cutoff current (suc done) candidates)
        (c, k.0, suggest-IsFounded r cutoff P c current h) (propose-IsFor done candidates h k.1)
        (propose-IsFor (suc done) candidates h k.1)

-- Every proposal of the plan is for a candidate card of the records in the scope that was asked
-- for, and where it names a target that is a current card of the records in that scope.
abbrev pub IsSourced : Runtime → Items → Value → Now → Value → Plan → Type 0
IsSourced r records scope_value now stale_after_days p =
    (place : Scope) × (privacy : String) × (time : ℕ) × (days : Option ℕ) × (cutoff : Option ℕ)
    × (scope scope_value ≡ some place)
    × (requested_privacy r scope_value ≡ some privacy)
    × (normalize_now r now ≡ some time)
    × (stale_days_of stale_after_days ≡ some days)
    × (cutoff_of time days ≡ some cutoff)
    × All
        (λ q.
          (c : Card) × IsPicked (records_of r records) place privacy is_candidate c
          × IsFounded r cutoff (IsPicked (records_of r records) place privacy is_current_card) c q)
        p.proposals

plan_within-IsFor :
    (r : Runtime) (records : Items) (place : Scope) (privacy : String) (maximum : ℕ)
    (cutoff : Option ℕ)
    → All
        (λ q.
          (c : Card) × IsPicked (records_of r records) place privacy is_candidate c
          × IsFounded r cutoff (IsPicked (records_of r records) place privacy is_current_card) c q)
        (plan_within r records place privacy maximum cutoff).proposals
unfolding plan_within
plan_within-IsFor r records place privacy maximum cutoff =
    let cards = records_of r records in
    propose-IsFor r maximum cutoff _ (IsPicked cards place privacy is_current_card)
      (IsPicked cards place privacy is_candidate) 0 _ (current_of-All cards place privacy)
      (candidates_of-All cards place privacy)

-- In a plan every proposal is for a candidate card of the records in the scope and privacy class
-- asked for, with a confidence of at most 100. To archive a duplicate or to merge is proposed only
-- with the reference of a current card of that scope and class, of the same suggested kind, which
-- has the same subject digest or a near score; to archive a stale card only if it is as old as was
-- asked for; and none of these for a card that suggests a decision.
pub plan-IsSourced :
    (r : Runtime) (records : Items) (scope_value : Value) (now : Now)
    (max_proposals stale_after_days : Value) (p : Plan)
    → plan r records scope_value now max_proposals stale_after_days ≡ planned p
    → IsSourced r records scope_value now stale_after_days p
plan-IsSourced r records scope_value now max_proposals stale_after_days p =
    plan-Ensures r records scope_value now max_proposals stale_after_days
      (IsSourced r records scope_value now stale_after_days) p
      (λ place privacy time maximum days cutoff s q t m d c. (
        place,
        privacy,
        time,
        days,
        cutoff,
        s,
        q,
        t,
        d,
        c,
        plan_within-IsFor r records place privacy maximum cutoff,
      ))
