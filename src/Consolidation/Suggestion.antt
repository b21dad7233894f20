-- ===== src/Consolidation/Suggestion.antt =====
-- CORE/runtime/memory_consolidation.py: `_safe_ref`, `_same_scope_and_privacy`, `_proposal` and the
-- body of the loop of `plan`, which makes one proposal for one candidate.
use Prim.Native.Nat.{compare, Ordering}
use Prim.Native.String.{compare as compare_text}
use super_memory_brain.Base.{
  ℕ, ◌*◌, String, Bool, true, false, ◌&&◌, Option, none, some, List, [], ◌∷◌, leb, ◌==◌,
  if◌then◌else◌,
}
use super_memory_brain.Json.{Value, null, int, text, arr, obj, none_left, field, end, item}
use super_memory_brain.Text.{append}
use super_memory_brain.Consolidation.Tokens.{prefix, Score, near_score, is_near}
use super_memory_brain.Consolidation.Cards.{Runtime, Scope, Card}

-- `_RECOMMENDATIONS`
pub data Recommendation : Type 0 where
  keep_for_review merge_with_active archive_exact_duplicate archive_stale : Recommendation

abbrev pub recommendation_text : Recommendation → String
recommendation_text keep_for_review = "keep_for_review"
recommendation_text merge_with_active = "merge_with_active"
recommendation_text archive_exact_duplicate = "archive_exact_duplicate_candidate"
recommendation_text archive_stale = "archive_stale_candidate"

pub record SafeRef : Type 0 where
  pub card_ref : String
  pub revision : ℕ
  pub content_hash : String
  pub kind : String

unfoldable pub safe_ref : Runtime → Card → SafeRef
safe_ref r c = record {
  card_ref = append "card-" (r.canonical_hash (obj (field "cardId" (text c.card_id) none_left)));
  revision = c.revision;
  content_hash = c.content_hash;
  kind = c.kind;
}

pub record Proposal : Type 0 where
  pub proposal_id : String
  pub recommendation : Recommendation
  pub candidate : SafeRef
  pub suggested_kind : String
  pub confidence : ℕ
  pub reason : String
  pub candidate_subject_digest : String
  pub matching_token_count : ℕ
  pub target : Option SafeRef
  pub target_subject_digest : Option String

abbrev pub card_material : Card → Value
card_material c =
    arr (item (text c.card_id) (item (int c.revision) (item (text c.content_hash) end)))

abbrev pub target_material : Option Card → Value
target_material none = null
target_material (some t) = card_material t

abbrev pub material : Card → Recommendation → Option Card → Value
material c recommendation target = obj (
    field "candidate" (card_material c) (
      field "recommendation" (text (recommendation_text recommendation))
        (field "target" (target_material target) none_left)))

-- `max(0, min(100, confidence))`
abbrev pub clamped : ℕ → ℕ
clamped confidence = if leb confidence 100 then confidence else 100

abbrev pub safe_target : Runtime → Option Card → Option SafeRef
safe_target r none = none
safe_target r (some t) = some (safe_ref r t)

abbrev pub target_digest : Option Card → Option String
target_digest none = none
target_digest (some t) = some t.subject_digest

-- `_proposal`
unfoldable pub proposal : Runtime → Card → Recommendation → ℕ → String → Option Card → ℕ → Proposal
unfolding safe_ref
proposal r c recommendation confidence reason target matching = record {
  proposal_id =
      append "consolidation-" (prefix 40 (r.canonical_hash (material c recommendation target)));
  recommendation = recommendation;
  candidate = safe_ref r c;
  suggested_kind = c.suggested_kind;
  confidence = clamped confidence;
  reason = reason;
  candidate_subject_digest = c.subject_digest;
  matching_token_count = matching;
  target = safe_target r target;
  target_subject_digest = target_digest target;
}

abbrev pub same_scope : Scope → Scope → Bool
same_scope a b = a.kind == b.kind && a.key == b.key

-- `_same_scope_and_privacy`
abbrev pub same_scope_and_privacy : Card → Card → Bool
same_scope_and_privacy a b = same_scope a.scope b.scope && a.privacy_class == b.privacy_class

abbrev pub is_eligible : Card → Card → Bool
is_eligible c t = t.suggested_kind == c.suggested_kind && same_scope_and_privacy c t

unfoldable pub eligible : Card → List Card → List Card
eligible c [] = []
eligible c (t ∷ current) =
    let rest = eligible c current in if is_eligible c t then t ∷ rest else rest

-- `exact`
unfoldable pub exact : Card → List Card → Option Card
exact c [] = none
exact c (t ∷ targets) = if t.subject_digest == c.subject_digest then some t else exact c targets

pub record Match : Type 0 where
  pub score : Score
  pub target : Card

-- Whether the key `(score, overlap, cardId)` is greater: quotients are compared crosswise.
abbrev pub is_greater : Match → Match → Bool
is_greater a b =
    elim (compare (a.score.overlap * b.score.union_) (b.score.overlap * a.score.union_)) [
      | Ordering.gt ↦ true
      | Ordering.lt ↦ false
      | Ordering.eq ↦ elim (compare a.score.overlap b.score.overlap) [
        | Ordering.gt ↦ true
        | Ordering.lt ↦ false
        | Ordering.eq ↦ elim (compare_text a.target.card_id b.target.card_id) [
          | Ordering.gt ↦ true
          | _ ↦ false
        ]
      ]
    ]

abbrev pub match_of : Card → Card → Match
match_of c t = record { score = near_score c.tokens t.tokens; target = t }

unfoldable pub near_matches : Card → List Card → List Match
unfolding near_score
near_matches c [] = []
near_matches c (t ∷ targets) =
    let rest = near_matches c targets in
    if is_near (match_of c t).score then match_of c t ∷ rest else rest

-- `max(near_matches)`, which keeps the first of two equal ones.
unfoldable pub best : Match → List Match → Match
best a [] = a
best a (b ∷ matches) = if is_greater b a then best b matches else best a matches

abbrev pub decision_reason : String
decision_reason =
    "decision suggestions remain receipt-bound and are excluded from automatic consolidation"

abbrev pub exact_reason : String
exact_reason =
    "same normalized subject, scope, privacy class, and intended memory kind as an active record"

abbrev pub merge_reason : String
merge_reason =
    "similar subject in the same scope and privacy class; review before any merge or edit"

abbrev pub stale_reason : String
stale_reason =
    "candidate exceeds the explicitly requested review age; moving it requires user confirmation"

abbrev pub keep_reason : String
keep_reason = "no safe duplicate or merge target was found; keep it available for review"

-- `stale_cutoff is not None and createdAt is not None and createdAt <= stale_cutoff`
abbrev pub is_stale : Option ℕ → Option ℕ → Bool
is_stale (some cutoff) (some created) = leb created cutoff
is_stale none created = false
is_stale (some cutoff) none = false

-- Where no record is the same.
-- `round(min(88, 48 + score * 60))`: the bound is reached from a score of two thirds on.
abbrev pub merge_confidence : Runtime → Score → ℕ
merge_confidence r s =
    if leb (2 * s.union_) (3 * s.overlap) then 88 else r.rounded_confidence s.overlap s.union_

unfoldable pub suggest_near : Runtime → Option ℕ → Card → List Match → Proposal
unfolding proposal best
suggest_near r cutoff c [] =
    if is_stale cutoff c.created_at
    then proposal r c archive_stale 62 stale_reason none 0
    else proposal r c keep_for_review 50 keep_reason none 0
suggest_near r cutoff c (a ∷ matches) =
    let m = best a matches in
    proposal r c merge_with_active (merge_confidence r m.score) merge_reason (some m.target)
      m.score.overlap

unfoldable pub suggest_exact : Runtime → Option ℕ → Card → List Card → Option Card → Proposal
unfolding proposal suggest_near near_matches
suggest_exact r cutoff c targets (some t) =
    proposal r c archive_exact_duplicate 98 exact_reason (some t) 0
suggest_exact r cutoff c targets none = suggest_near r cutoff c (near_matches c targets)

abbrev pub is_decision : Card → Bool
is_decision c = c.suggested_kind == "decision"

-- The proposal for one candidate.
unfoldable pub suggest : Runtime → Option ℕ → List Card → Card → Proposal
unfolding proposal suggest_exact exact eligible
suggest r cutoff current c =
    if is_decision c
    then proposal r c keep_for_review 50 decision_reason none 0
    else suggest_exact r cutoff c (eligible c current) (exact c (eligible c current))
