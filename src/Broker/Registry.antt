-- ===== src/Broker/Registry.antt =====
-- CORE/runtime/scope_broker.py: the durable workline records, `_context_from_record` and
-- `get_workline`. Reading the file is the environment's part: its outcome is a `DurableRead`.
use super_memory_brain.Base.{
  ℕ, String, Bool, true, ◌&&◌, not, Option, none, some, List, [], ◌∷◌, leb, ◌==◌, if◌then◌else◌,
}
use super_memory_brain.Broker.Types.{
  registry_lock_timeout, registry_unavailable, registry_invalid, workline_unknown,
  workline_id_invalid, workline_current, withheld, current, ScopeContext, Outcome, failure,
  safe_string, broker_session_id_re, workline_id_re, workspace_key_re, owner_session_key_re,
  task_id_re, task_instance_id_re, package_version_re, sha256_re,
}
use super_memory_brain.Broker.Checked.{Checked, stop, go, ◌>>=◌, ◌>>◌, require, require_some}

-- The digests that the broker takes: SHA-256 of a token, and of the four identity fields.
pub record Digests : Type 0 where
  pub token_hash : String → String
  pub scope_hash : String → String → String → String → String

-- One item of the registry's `worklines`, after the type tests of `_registry_valid`.
pub record WorklineRecord : Type 0 where
  pub session_id : String
  pub workline_id : String
  pub workspace_key : String
  pub owner_session_key : String
  pub task_id : String
  pub task_instance_id : String
  pub package_version : String
  pub contract_revision : ℕ
  pub contract_hash : String
  pub scope_ref : String
  pub created_at : String
  pub updated_at : String

-- What the locked read of the registry gives: the file lock was not acquired, the operating
-- system raised, the file is no valid registry, or its worklines.
pub data DurableRead : Type 0 where
  lock_timeout os_error invalid : DurableRead
  worklines : List WorklineRecord → DurableRead

unfoldable pub filled : String → Bool
filled s = not (s == "")

-- `.lower()` is left out: the shapes of the keys admit no capital.
unfoldable pub context_from_record : Digests → WorklineRecord → Option ScopeContext
unfolding filled
context_from_record digests record_ =
    let session_id = safe_string broker_session_id_re (some record_.session_id) in
    let workline_id = safe_string workline_id_re (some record_.workline_id) in
    let workspace_key = safe_string workspace_key_re (some record_.workspace_key) in
    let owner_session_key = safe_string owner_session_key_re (some record_.owner_session_key) in
    let task_id = safe_string task_id_re (some record_.task_id) in
    let task_instance_id = safe_string task_instance_id_re (some record_.task_instance_id) in
    let package_version = safe_string package_version_re (some record_.package_version) in
    let contract_hash = safe_string sha256_re (some record_.contract_hash) in
    let scope_ref = safe_string sha256_re (some record_.scope_ref) in
    if filled session_id
      && filled workline_id
      && filled workspace_key
      && filled owner_session_key
      && filled task_id
      && filled task_instance_id
      && filled package_version
      && leb record_.contract_revision 2147483647
      && filled contract_hash
      && scope_ref == digests.scope_hash session_id workline_id workspace_key owner_session_key
    then some (record {
      session_id = session_id;
      workline_id = workline_id;
      workspace_key = workspace_key;
      owner_session_key = owner_session_key;
      task_id = task_id;
      task_instance_id = task_instance_id;
      package_version = package_version;
      contract_revision = record_.contract_revision;
      contract_hash = contract_hash;
      scope_ref = scope_ref;
    })
    else none

unfoldable pub records_of : String → List WorklineRecord → List WorklineRecord
records_of workline [] = []
records_of workline (item ∷ items) =
    let rest = records_of workline items in
    if item.workline_id == workline then item ∷ rest else rest

-- `if len(records) != 1: return …`
unfoldable pub exactly_one : List WorklineRecord → Option WorklineRecord
exactly_one [] = none
exactly_one (item ∷ []) = some item
exactly_one (item ∷ other ∷ items) = none

unfoldable pub read_registry : DurableRead → Checked (List WorklineRecord)
read_registry lock_timeout = stop (failure registry_lock_timeout withheld)
read_registry os_error = stop (failure registry_unavailable withheld)
read_registry invalid = stop (failure registry_invalid withheld)
read_registry (worklines items) = go items

-- The durable lookup of `get_workline`. Its result is `ok` with the context that the record
-- gives, or with none.
unfoldable pub find_workline : Digests → String → DurableRead → Checked (Option ScopeContext)
unfolding read_registry records_of exactly_one
find_workline digests workline disk = do
  items ← read_registry disk
  item ← require_some (exactly_one (records_of workline items)) workline_unknown
  go (context_from_record digests item)

unfoldable pub get_workline : Digests → Option String → DurableRead → Outcome
get_workline digests workline_id disk =
    let normalized = safe_string workline_id_re workline_id in
    elim (do
      require (filled normalized) workline_id_invalid
      find_workline digests normalized disk) [
        | stop r ↦ r
        | go context ↦ record {
          ok = true;
          code = workline_current;
          state = current;
          context = context;
          access_mode = none;
          lease_id = "";
          lease_expires_at = none;
          pairing_request_ref = "";
        }
      ]
