-- ===== src/Consolidation/Cards.antt =====
-- CORE/runtime/memory_consolidation.py: `_scope`, `_requested_privacy`, `_record`, `_parse_time` and
-- `_normalize_now`. A time is its number of microseconds since the start of the year 1 in UTC.
use super_memory_brain.Base.{
  ℕ, String, Bool, not, ◌&&◌, Option, none, some, List, [], ◌∷◌, leb, member, ◌==◌, if◌then◌else◌,
}
use super_memory_brain.Json.{
  Value, null, bool, int, negative, float, text, arr, obj, Fields, none_left, field, Items, end,
  item, get_or_null,
}
use super_memory_brain.Text.{replace_z, strip, squeeze, sized_in, is_hex}
use super_memory_brain.Consolidation.Tokens.{compact, tokens}

-- What `datetime.fromisoformat` gives: a time in UTC, or one without a zone.
pub data IsoTime : Type 0 where
  zoned : ℕ → IsoTime
  naive : IsoTime

-- The operations of Python that are parameters: `_canonical_hash` (SHA-256 over canonical JSON),
-- `str.lower`, `datetime.fromisoformat`, and `round(48 + score * 60)` of the float `score`, which
-- is the first count by the second.
pub record Runtime : Type 0 where
  pub canonical_hash : Value → String
  pub lower : String → String
  pub from_iso : String → Option IsoTime
  pub rounded_confidence : ℕ → ℕ → ℕ

abbrev pub in_utc : Option IsoTime → Option ℕ
in_utc none = none
in_utc (some naive) = none
in_utc (some (zoned t)) = some t

-- `_parse_time`
unfoldable pub parse_time : Runtime → Value → Option ℕ
unfolding replace_z strip
parse_time r (text s) = if strip s == "" then none else in_utc (r.from_iso (replace_z (strip s)))
parse_time r null = none
parse_time r (bool b) = none
parse_time r (int n) = none
parse_time r (negative n) = none
parse_time r float = none
parse_time r (arr xs) = none
parse_time r (obj fs) = none

-- The argument `now`: a `datetime`, or a text.
pub data Now : Type 0 where
  moment : IsoTime → Now
  iso : String → Now

-- `_normalize_now`, `none` where it raises.
abbrev pub normalize_now : Runtime → Now → Option ℕ
normalize_now r (moment t) = in_utc (some t)
normalize_now r (iso s) = parse_time r (text s)

pub record Scope : Type 0 where
  pub kind : String
  pub key : String

-- `_scope`, `none` where it raises.
unfoldable pub scope : Value → Option Scope
unfolding compact get_or_null
scope (obj fields) =
    let kind = compact 64 (get_or_null "kind" fields) in
    let key = compact 256 (get_or_null "key" fields) in
    if kind == ""
    then none
    else if key == ""
    then none
    else some (record { kind = kind; key = key })
scope _ = none

abbrev pub or_else : String → String → String
or_else s default = if s == "" then default else s

-- `_requested_privacy`, `none` where it raises.
unfoldable pub requested_privacy : Runtime → Value → Option String
unfolding compact get_or_null
requested_privacy r (obj fields) =
    let privacy = or_else (r.lower (compact 64 (get_or_null "privacyClass" fields))) "private" in
    if member privacy ("private" ∷ "shared" ∷ "public" ∷ []) then some privacy else none
requested_privacy r _ = some "private"

-- `_integer`, where a negative number counts as 0: only whether it is at least 1 is asked.
abbrev pub integer : Value → ℕ
integer (int n) = n
integer (negative n) = 0
integer null = 0
integer (bool b) = 0
integer float = 0
integer (text s) = 0
integer (arr xs) = 0
integer (obj fs) = 0

abbrev pub allowed_kinds : List String
allowed_kinds = "preference" ∷ "experience" ∷ "note" ∷ "procedure" ∷ "reflection" ∷ "decision" ∷ []

abbrev pub candidate_sources : List String
candidate_sources = "quick_capture" ∷ "staged_reflection" ∷ []

abbrev pub current_source : String
current_source = "current"

-- What `_record` keeps of a memory card.
pub record Card : Type 0 where
  pub card_id : String
  pub revision : ℕ
  pub content_hash : String
  pub kind : String
  pub lifecycle : String
  pub authority : String
  pub privacy_class : String
  pub scope : Scope
  pub source : String
  pub suggested_kind : String
  pub subject_digest : String
  pub tokens : List String
  pub created_at : Option ℕ

-- The condition under which `_record` keeps a card.
unfoldable pub is_wellformed : Card → String → Bool
unfolding sized_in is_hex
is_wellformed c subject =
    not (c.card_id == "")
    && sized_in is_hex 64 64 c.content_hash
    && member c.kind allowed_kinds
    && member c.suggested_kind allowed_kinds
    && member c.lifecycle ("active" ∷ "proposed" ∷ [])
    && member c.authority ("user_confirmed" ∷ "system" ∷ "legacy" ∷ "unknown" ∷ [])
    && member c.privacy_class ("private" ∷ "shared" ∷ "public" ∷ [])
    && member c.source (current_source ∷ candidate_sources)
    && not (subject == "")
    && leb 1 c.revision

abbrev pub subject_of : String → Value
subject_of subject = obj (field "subject" (text subject) none_left)

-- The card that the fields say, before it is tested.
unfoldable pub card_of : Runtime → Fields → Scope → String → Card
unfolding compact get_or_null tokens parse_time
card_of r fields place normalized =
    let kind = r.lower (compact 64 (get_or_null "kind" fields)) in
    record {
      card_id = compact 160 (get_or_null "cardId" fields);
      revision = integer (get_or_null "revision" fields);
      content_hash = r.lower (compact 80 (get_or_null "contentHash" fields));
      kind = kind;
      lifecycle = r.lower (compact 64 (get_or_null "lifecycle" fields));
      authority = r.lower (compact 64 (get_or_null "authority" fields));
      privacy_class = r.lower (compact 64 (get_or_null "privacyClass" fields));
      scope = place;
      source = r.lower (compact 64 (get_or_null "source" fields));
      suggested_kind = or_else (r.lower (compact 64 (get_or_null "suggestedKind" fields))) kind;
      subject_digest = r.canonical_hash (subject_of normalized);
      tokens = tokens (r.lower (squeeze normalized));
      created_at = parse_time r (get_or_null "createdAt" fields);
    }

-- `_record`
unfoldable pub record_of : Runtime → Value → Option Card
unfolding scope card_of is_wellformed squeeze compact get_or_null
record_of r (obj fields) = elim (scope (get_or_null "scope" fields)) [
  | none ↦ none
  | some place ↦
      let subject = compact 4000 (get_or_null "subjectText" fields) in
      let normalized = r.lower (squeeze subject) in
      let card = card_of r fields place normalized in
      if is_wellformed card subject && not (normalized == "") then some card else none
]
record_of r _ = none

abbrev pub with_card : Option Card → List Card → List Card
with_card none cards = cards
with_card (some card) cards = card ∷ cards

-- `normalized`: the cards of the records that are kept.
unfoldable pub records_of : Runtime → Items → List Card
unfolding record_of
records_of r end = []
records_of r (item value items) = with_card (record_of r value) (records_of r items)
