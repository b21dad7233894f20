-- ===== src/Consolidation/Founded.antt =====
-- What a proposal of memory_consolidation.py rests on.
use super_memory_brain.Base.{
  ℕ, ◌≤◌, ◌≡◌, inl, inr, refl, String, true, false, Option, none, some, List, [], ◌∷◌, All, arith,
  ◌==◌, eq_iff, Bool-cases,
}
use super_memory_brain.Consolidation.Tokens.{near_score, is_near}
use super_memory_brain.Consolidation.Cards.{Runtime, Card}
use super_memory_brain.Consolidation.Suggestion.{
  Recommendation, keep_for_review, merge_with_active, archive_exact_duplicate, archive_stale,
  SafeRef, safe_ref, Proposal, proposal, clamped, is_eligible, eligible, exact, Match, match_of,
  is_greater, near_matches, best, is_stale, merge_confidence, suggest_near, suggest_exact,
  is_decision, suggest,
}

-- What the recommendation rests on, where the current cards have the property `P`.
abbrev pub Basis :
    Runtime → Option ℕ → (Card → Type 0) → Card → Option SafeRef → Recommendation → Type 0
Basis r cutoff P c target keep_for_review = target ≡ none
Basis r cutoff P c target archive_stale =
    (target ≡ none) × (is_decision c ≡ false) × (is_stale cutoff c.created_at ≡ true)
Basis r cutoff P c target archive_exact_duplicate =
    (t : Card) × P t
    × (is_decision c ≡ false)
    × (is_eligible c t ≡ true)
    × (t.subject_digest ≡ c.subject_digest)
    × (target ≡ some (safe_ref r t))
Basis r cutoff P c target merge_with_active =
    (t : Card) × P t
    × (is_decision c ≡ false)
    × (is_eligible c t ≡ true)
    × (is_near (near_score c.tokens t.tokens) ≡ true)
    × (target ≡ some (safe_ref r t))

-- The proposal is one for the card `c`.
pub record IsFounded (r : Runtime) (cutoff : Option ℕ) (P : Card → Type 0) (c : Card) (p : Proposal)
    : Type 0 where
  pub about : p.candidate ≡ safe_ref r c
  pub meant : p.suggested_kind ≡ c.suggested_kind
  pub confident : p.confidence ≤ 100
  pub basis : Basis r cutoff P c p.target p.recommendation

clamped-le : (n : ℕ) → clamped n ≤ 100
clamped-le n = ground arith

module _ (r : Runtime) (cutoff : Option ℕ) (P : Card → Type 0) (c : Card) where
  -- A current card that is eligible.
  abbrev IsTarget : Card → Type 0
  IsTarget t = P t × (is_eligible c t ≡ true)

  eligible-All : (current : List Card) → All P current → All IsTarget (eligible c current)
  unfolding eligible
  eligible-All [] h = tt
  eligible-All (t ∷ current) h = elim (Bool-cases (is_eligible c t)) [
    | inl yes_ ↦ rw yes_ ((h.0, yes_), eligible-All current h.1)
    | inr no_ ↦ rw no_ (eligible-All current h.1)
  ]

  -- What is said of the exact match.
  abbrev IsExact : Option Card → Type 0
  IsExact none = Unit
  IsExact (some t) = IsTarget t × (t.subject_digest ≡ c.subject_digest)

  exact-IsExact : (targets : List Card) → All IsTarget targets → IsExact (exact c targets)
  unfolding exact
  exact-IsExact [] h = tt
  exact-IsExact (t ∷ targets) h = elim (Bool-cases (t.subject_digest == c.subject_digest)) [
    | inl same ↦ rw same (h.0, (eq_iff t.subject_digest c.subject_digest).0 same)
    | inr other ↦ rw other (exact-IsExact targets h.1)
  ]

  abbrev IsMatch : Match → Type 0
  IsMatch m = IsTarget m.target × (is_near (near_score c.tokens m.target.tokens) ≡ true)

  near_matches-All :
      (targets : List Card) → All IsTarget targets → All IsMatch (near_matches c targets)
  unfolding near_matches
  near_matches-All [] h = tt
  near_matches-All (t ∷ targets) h = elim (Bool-cases (is_near (match_of c t).score)) [
    | inl near ↦ rw near ((h.0, near), near_matches-All targets h.1)
    | inr far ↦ rw far (near_matches-All targets h.1)
  ]

  best-IsMatch :
      (a : Match) (matches : List Match)
      → IsMatch a
      → All IsMatch matches
      → IsMatch (best a matches)
  unfolding best
  best-IsMatch a [] m h = m
  best-IsMatch a (b ∷ matches) m h = elim (Bool-cases (is_greater b a)) [
    | inl more ↦ rw more (best-IsMatch b matches h.0 h.1)
    | inr less ↦ rw less (best-IsMatch a matches m h.1)
  ]

  proposal-IsFounded :
      (recommendation : Recommendation) (confidence : ℕ) (reason : String) (target : Option Card)
      (n : ℕ)
      → Basis r cutoff P c
          (proposal r c recommendation confidence reason target n).target
          recommendation
      → IsFounded r cutoff P c (proposal r c recommendation confidence reason target n)
  unfolding proposal
  proposal-IsFounded recommendation confidence reason target n b = record {
    about = refl;
    meant = refl;
    confident = clamped-le confidence;
    basis = b;
  }

  suggest_near-IsFounded :
      (matches : List Match)
      → is_decision c ≡ false
      → All IsMatch matches
      → IsFounded r cutoff P c (suggest_near r cutoff c matches)
  unfolding suggest_near
  suggest_near-IsFounded [] d h = elim (Bool-cases (is_stale cutoff c.created_at)) [
    | inl old ↦ rw old (proposal-IsFounded archive_stale 62 _ none 0 (refl, d, old))
    | inr new ↦ rw new (proposal-IsFounded keep_for_review 50 _ none 0 refl)
  ]
  suggest_near-IsFounded (a ∷ matches) d h =
      let m = best a matches in
      let b = best-IsMatch a matches h.0 h.1 in
      proposal-IsFounded merge_with_active (merge_confidence r m.score) _ (some m.target)
        m.score.overlap (m.target, b.0.0, d, b.0.1, b.1, refl)

  suggest_exact-IsFounded :
      (targets : List Card) (o : Option Card)
      → is_decision c ≡ false
      → All IsTarget targets
      → IsExact o
      → IsFounded r cutoff P c (suggest_exact r cutoff c targets o)
  unfolding suggest_exact
  suggest_exact-IsFounded targets (some t) d h e =
      proposal-IsFounded archive_exact_duplicate 98 _ (some t) 0 (t, e.0.0, d, e.0.1, e.1, refl)
  suggest_exact-IsFounded targets none d h e =
      suggest_near-IsFounded (near_matches c targets) d (near_matches-All targets h)

  pub suggest-IsFounded :
      (current : List Card) → All P current → IsFounded r cutoff P c (suggest r cutoff current c)
  unfolding suggest
  suggest-IsFounded current h = elim (Bool-cases (is_decision c)) [
    | inl d ↦ rw d (proposal-IsFounded keep_for_review 50 _ none 0 refl)
    | inr d ↦
        let targets = eligible c current in
        let all = eligible-All current h in
        rw d (suggest_exact-IsFounded targets (exact c targets) d all (exact-IsExact targets all))
  ]
