-- ===== src/Consolidation/Tests.antt =====
-- Three quick captures and a current note, of which the first is a duplicate and the second is near.
use super_memory_brain.Base.{ℕ, ◌≡◌, ◌↔◌, refl, String, false, none, some, List, [], ◌∷◌, map}
use super_memory_brain.Json.{Value, null, int, text, obj, Items, end, item, none_left, field}
use super_memory_brain.Text.{squeeze, is_hex}
use super_memory_brain.Consolidation.Tokens.{runs}
use super_memory_brain.Consolidation.Cards.{Runtime, zoned, Now, moment, Card, Scope}
use super_memory_brain.Consolidation.Suggestion.{
  Recommendation, merge_with_active, archive_exact_duplicate, is_decision, suggest, best,
}
use super_memory_brain.Consolidation.Plan.{Plan, Outcome, planned, plan, plan_within}
use super_memory_brain.Consolidation.Outcomes.{IsWithin, plan-IsWithin}
use super_memory_brain.Consolidation.Sources.{IsSourced, plan-IsSourced}
use super_memory_brain.Consolidation.Duplicates.{HasTwin, suggest-duplicate_iff}

-- The first text of the value.
abbrev digest : Value → String
digest (obj (field name (text s) fields)) = s
digest _ = "none"

abbrev runtime : Runtime
runtime = record {
  canonical_hash = digest;
  lower = λ s. s;
  from_iso = λ s. some (zoned 0);
  rounded_confidence = λ overlap union_. 70;
}

abbrev place : Value
place = obj (field "kind" (text "workspace") (field "key" (text "w") none_left))

abbrev record_value : String → String → String → Value
record_value id source subject = obj (
    field "cardId" (text id) (
      field "contentHash" (text "aaaaaaaaaaaaaaaaaaaaaaaaaaaaaaaaaaaaaaaaaaaaaaaaaaaaaaaaaaaaaaaa")
        (field "kind" (text "note") (
          field "lifecycle" (text "active") (
            field "authority" (text "unknown") (
              field "privacyClass" (text "private") (
                field "source" (text source) (
                  field "subjectText" (text subject)
                    (field "revision" (int 1) (field "scope" place none_left))))))))))

abbrev records : Items
records = item (record_value "c3" "quick_capture" "other") (
    item (record_value "c2" "quick_capture" "alpha beta gamma") (
      item (record_value "t1" "current" "alpha beta")
        (item (record_value "c1" "quick_capture" "alpha  beta") (item null end))))

abbrev now : Now
now = moment (zoned 864000000000)

abbrev recommended : Outcome → List (Recommendation × ℕ)
recommended (planned p) = map (λ q. (q.recommendation, q.matching_token_count)) p.proposals
recommended _ = []

plans :
    recommended (plan runtime records place now (int 2) null)
    ≡ (archive_exact_duplicate, 0) ∷ (merge_with_active, 2) ∷ []
unfolding plan squeeze is_hex best runs
plans = refl

abbrev scope_read : Scope
scope_read = record { kind = "workspace"; key = "w" }

abbrev made : Plan
made = plan_within runtime records scope_read "private" 2 none

plan_is_made : plan runtime records place now (int 2) null ≡ planned made
unfolding plan squeeze
plan_is_made = refl

plan-IsWithin_example : IsWithin (int 2) 5 made
plan-IsWithin_example = plan-IsWithin runtime records place now (int 2) null made plan_is_made

plan-IsSourced_example : IsSourced runtime records place now null made
plan-IsSourced_example = plan-IsSourced runtime records place now (int 2) null made plan_is_made

abbrev card : String → String → Card
card id source = record {
  card_id = id;
  revision = 1;
  content_hash = "aaaaaaaaaaaaaaaaaaaaaaaaaaaaaaaaaaaaaaaaaaaaaaaaaaaaaaaaaaaaaaaa";
  kind = "note";
  lifecycle = "active";
  authority = "unknown";
  privacy_class = "private";
  scope = scope_read;
  source = source;
  suggested_kind = "note";
  subject_digest = "alpha beta";
  tokens = "alpha" ∷ "beta" ∷ [];
  created_at = none;
}

suggest-duplicate_iff_example :
    ((suggest runtime none (card "t1" "current" ∷ []) (card "c1" "quick_capture")).recommendation
      ≡ archive_exact_duplicate)
    ↔ ((is_decision (card "c1" "quick_capture") ≡ false)
        × HasTwin (card "c1" "quick_capture") (card "t1" "current" ∷ []))
suggest-duplicate_iff_example =
    suggest-duplicate_iff (card "c1" "quick_capture") runtime none (card "t1" "current" ∷ [])
