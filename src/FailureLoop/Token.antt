-- ===== src/FailureLoop/Token.antt =====
-- CORE/runtime/failure_loop_guard.py: what is read of the caller's values: `_token`,
-- `_privacy_key_present` and `_record_tokens`.
use Prim.Native.Char.{code}
use Prim.Native.String.{[] as nil, ◌∷◌ as ◌∷ₛ◌}
use super_memory_brain.Base.{
  ℕ, ◌+◌, String, Bool, true, false, ◌&&◌, ◌||◌, Option, none, some, leb, ltb, eqb, ◌==◌,
  if◌then◌else◌,
}
use super_memory_brain.Json.{
  Value, null, bool, int, negative, float, text, arr, obj, Items, end, item, Fields, none_left,
  field, find,
}
use super_memory_brain.Text.{squeeze, size, shape, is_hex}

abbrev pub max_token_length : ℕ
max_token_length = 256

-- The four digests of a failure: fingerprint, evidence, action, phase.
pub record Digests4 : Type 0 where
  pub failure : String
  pub evidence : String
  pub action : String
  pub phase : String

pub data Kind : Type 0 where
  failure_kind evidence_kind action_kind phase_kind : Kind

unfoldable pub hex_digest : String → Bool
hex_digest = shape "" is_hex 64 64

unfoldable pub has_nul : String → Bool
has_nul nil = false
has_nul (c ∷ₛ s) = eqb (code c) 0 || has_nul s

-- `_token`
unfoldable pub checked_token : Bool → String → Option String
unfolding has_nul
checked_token required normalized =
    if normalized == "" && required
    then none
    else if ltb max_token_length (size normalized) || has_nul normalized
    then none
    else some normalized

unfoldable pub token : Value → Bool → Option String
unfolding checked_token
token null required = if required then none else some ""
token (text value) required = checked_token required (squeeze value)
token _ required = none

-- `.replace("-", "_").casefold()` of one character, as far as it can give a letter of the words
-- below: the capitals, and the long s.
abbrev folded : ℕ → ℕ
folded n =
    if eqb n b'-'
    then b'_'
    else if leb b'A' n && leb n b'Z'
    then n + 32
    else if eqb n 383
    then b's'
    else n

unfoldable pub folds_to : String → String → Bool
folds_to nil nil = true
folds_to nil (w ∷ₛ ws) = false
folds_to (c ∷ₛ s) nil = false
folds_to (c ∷ₛ s) (w ∷ₛ ws) = eqb (folded (code c)) (code w) && folds_to s ws

unfoldable pub is_privacy_key : String → Bool
unfolding folds_to
is_privacy_key key =
    folds_to key "prompt"
    || folds_to key "rawprompt"
    || folds_to key "raw_prompt"
    || folds_to key "transcript"
    || folds_to key "rawtranscript"
    || folds_to key "raw_transcript"
    || folds_to key "sourcepath"
    || folds_to key "source_path"

unfoldable mutual
  unfolding is_privacy_key

  pub privacy_key_present : Value → Bool
  privacy_key_present (arr items) = privacy_in_items items
  privacy_key_present (obj fields) = privacy_in_fields fields
  privacy_key_present null = false
  privacy_key_present (bool _) = false
  privacy_key_present (int _) = false
  privacy_key_present (negative _) = false
  privacy_key_present float = false
  privacy_key_present (text _) = false

  pub privacy_in_items : Items → Bool
  privacy_in_items end = false
  privacy_in_items (item v items) = privacy_key_present v || privacy_in_items items

  pub privacy_in_fields : Fields → Bool
  privacy_in_fields none_left = false
  privacy_in_fields (field key v fields) =
      is_privacy_key key || privacy_key_present v || privacy_in_fields fields

-- `pick`: the first of the spellings that is a key, `None` where none is
unfoldable pub pick2 : String → String → Fields → Value
unfolding find
pick2 a b fields = elim (find a fields) [
  | some v ↦ v
  | none ↦ elim (find b fields) [ some v ↦ v | none ↦ null ]
]

unfoldable pub pick3 : String → String → String → Fields → Value
unfolding find
pick3 a b c fields = elim (find a fields) [
  | some v ↦ v
  | none ↦ elim (find b fields) [
    | some v ↦ v
    | none ↦ elim (find c fields) [ some v ↦ v | none ↦ null ]
  ]
]

-- A digest field that is a string of 64 hexadecimal digits.
unfoldable pub as_digest : Value → Option String
unfolding hex_digest
as_digest (text s) = if hex_digest s then some s else none
as_digest _ = none

-- `userCorrection`: absent counts as false, and another type spoils the record
unfoldable pub as_correction : Value → Option Bool
as_correction null = some false
as_correction (bool b) = some b
as_correction _ = none

abbrev pub four : Option String → Option String → Option String → Option String → Option Digests4
four (some a) (some b) (some c) (some d) =
    some (record { failure = a; evidence = b; action = c; phase = d })
four (some a) (some b) (some c) none = none
four (some a) (some b) none d = none
four (some a) none c d = none
four none b c d = none

abbrev pub both : Option Digests4 → Option Bool → Option (Digests4 × Bool)
both (some d) (some c) = some (d, c)
both (some d) none = none
both none c = none

-- `_digest` over the normalized tokens
abbrev pub digest_all : (Kind → String → String) → Digests4 → Digests4
digest_all digest t = record {
  failure = digest failure_kind t.failure;
  evidence = digest evidence_kind t.evidence;
  action = digest action_kind t.action;
  phase = digest phase_kind t.phase;
}

abbrev digest_option : (Kind → String → String) → Option Digests4 → Option Digests4
digest_option digest none = none
digest_option digest (some t) = some (digest_all digest t)

-- the branch of `_record_tokens` for a record that carries digests
unfoldable pub given_digests : Fields → Option Digests4
unfolding pick2 as_digest
given_digests fields =
    four (as_digest (pick2 "failureFingerprintDigest" "failure_fingerprint_digest" fields))
      (as_digest (pick2 "evidenceFingerprintDigest" "evidence_fingerprint_digest" fields))
      (as_digest (pick2 "actionFingerprintDigest" "action_fingerprint_digest" fields))
      (as_digest (pick2 "phaseDigest" "phase_digest" fields))

unfoldable pub given_tokens : Fields → Option Digests4
unfolding pick3 token
given_tokens fields =
    four (token (pick3 "failureFingerprint" "failure_fingerprint" "fingerprint" fields) true)
      (token (pick3 "evidenceFingerprint" "evidence_fingerprint" "evidence" fields) false)
      (token (pick3 "actionFingerprint" "action_fingerprint" "action" fields) false)
      (token (pick2 "phase" "phase" fields) false)

unfoldable pub record_tokens : (Kind → String → String) → Value → Option (Digests4 × Bool)
unfolding given_digests given_tokens as_correction pick2 privacy_key_present
record_tokens digest (obj fields) =
    if privacy_key_present (obj fields)
    then none
    else both
        (elim (given_digests fields) [
          | some d ↦ some d
          | none ↦ digest_option digest (given_tokens fields)
        ])
        (as_correction (pick2 "userCorrection" "user_correction" fields))
record_tokens digest _ = none
