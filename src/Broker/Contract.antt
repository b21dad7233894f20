-- ===== src/Broker/Contract.antt =====
-- CORE/runtime/scope_broker.py: `_contract_binding`, what the registry takes of an execution contract.
use super_memory_brain.Base.{ℕ, String, Bool, true, ◌&&◌, not, Option, none, some, leb, eqb, ◌==◌}
use super_memory_brain.Json.{
  Value, null, bool, int, negative, float, text, arr, obj, Fields, find, get_or_null, is_text,
  is_false,
}
use super_memory_brain.Broker.Types.{
  contract_invalid, contract_not_current, contract_privacy_invalid, contract_binding_invalid,
  contract_hash_required, contract_hash_mismatch, safe_string, workspace_key_re,
  owner_session_key_re, task_id_re, task_instance_id_re, package_version_re, sha256_re,
}
use super_memory_brain.Broker.Checked.{Checked, go, ◌>>=◌, ◌>>◌, require, require_some}
use super_memory_brain.Broker.Registry.{Digests, filled}

-- The JSON text of a dictionary: its length in bytes and its SHA-256.
pub record Encoded : Type 0 where
  pub size : ℕ
  pub digest : String

-- The libraries that the registry uses: the digests, `_canonical_hash` (SHA-256 over canonical JSON),
-- `json.dumps` with `hashlib` of a dictionary, `none` where it raises, the text of a time, and
-- whether `datetime.fromisoformat` reads a time with a zone.
pub record Libraries : Type 0 where
  pub digests : Digests
  pub canonical_hash : Value → String
  pub encode : Fields → Option Encoded
  pub stamp : ℕ → String
  pub is_zoned_iso : String → Bool

abbrev pub max_contract_bytes : ℕ
max_contract_bytes = 262144

abbrev pub max_revision : ℕ
max_revision = 2147483647

-- The argument of `_safe_string`.
abbrev pub text_of : Value → Option String
text_of (text s) = some s
text_of null = none
text_of (bool b) = none
text_of (int n) = none
text_of (negative n) = none
text_of float = none
text_of (arr xs) = none
text_of (obj fs) = none

-- An integer that is not negative, and no `bool`.
abbrev pub whole_of : Value → Option ℕ
whole_of (int n) = some n
whole_of null = none
whole_of (bool b) = none
whole_of (negative n) = none
whole_of float = none
whole_of (text s) = none
whole_of (arr xs) = none
whole_of (obj fs) = none

-- `key not in contract or contract[key] is False`
unfoldable pub is_private : String → Fields → Bool
unfolding find
is_private name fields = elim (find name fields) [ none ↦ true | some value ↦ is_false value ]

pub record ContractBinding : Type 0 where
  pub workspace_key : String
  pub owner_session_key : String
  pub task_id : String
  pub task_instance_id : String
  pub package_version : String
  pub contract_revision : ℕ
  pub contract_hash : String

-- The binding that the fields say, before it is tested.
unfoldable pub binding_of : Fields → ℕ → String → ContractBinding
unfolding safe_string get_or_null
binding_of fields revision digest = record {
  workspace_key = safe_string workspace_key_re (text_of (get_or_null "workspaceKey" fields));
  owner_session_key =
      safe_string owner_session_key_re (text_of (get_or_null "ownerSessionKey" fields));
  task_id = safe_string task_id_re (text_of (get_or_null "taskId" fields));
  task_instance_id =
      safe_string task_instance_id_re (text_of (get_or_null "taskInstanceId" fields));
  package_version = safe_string package_version_re (text_of (get_or_null "packageVersion" fields));
  contract_revision = revision;
  contract_hash = digest;
}

unfoldable pub is_complete : ContractBinding → Bool
unfolding filled
is_complete b =
    filled b.workspace_key
    && filled b.owner_session_key
    && filled b.task_id
    && filled b.task_instance_id
    && filled b.package_version
    && leb b.contract_revision max_revision

-- `_contract_binding`. The keys need no `.lower()`: their shapes admit no capital.
unfoldable pub contract_binding : Libraries → Value → Option String → Checked ContractBinding
unfolding binding_of is_complete is_private filled safe_string get_or_null
contract_binding l (obj fields) expected_contract_hash = do
  encoded ← require_some (l.encode fields) contract_invalid
  require (not (eqb encoded.size 0) && leb encoded.size max_contract_bytes) contract_invalid
  require
      (is_text "super-brain.execution-contract.v1" (get_or_null "schema" fields)
        && is_text "active" (get_or_null "status" fields))
      contract_not_current
  require (is_private "rawPromptStored" fields && is_private "rawTranscriptStored" fields)
      contract_privacy_invalid
  revision ← require_some (whole_of (get_or_null "revision" fields)) contract_binding_invalid
  require (is_complete (binding_of fields revision encoded.digest)) contract_binding_invalid
  require (filled (safe_string sha256_re expected_contract_hash)) contract_hash_required
  require (encoded.digest == safe_string sha256_re expected_contract_hash) contract_hash_mismatch
  go (binding_of fields revision encoded.digest)
contract_binding l _ expected_contract_hash = require_some none contract_invalid
