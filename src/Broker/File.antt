-- ===== src/Broker/File.antt =====
-- CORE/runtime/scope_broker.py: the registry file, the type tests of `_registry_valid`,
-- `_empty_registry`, `_read_registry` and `_write_registry`. The dictionaries are written in the order
-- in which the source builds them.
use super_memory_brain.Base.{
  String, Bool, true, false, ◌&&◌, Option, none, some, List, [], ◌∷◌, ◌==◌, if◌then◌else◌,
}
use super_memory_brain.Json.{
  Value, null, bool, int, negative, float, text, arr, obj, Items, end, item, Fields, none_left,
  field, get_or_null, has_exactly, without_field, is_text, is_false,
}
use super_memory_brain.Broker.Types.{sha256_re}
use super_memory_brain.Broker.Registry.{WorklineRecord}
use super_memory_brain.Broker.Contract.{Libraries, text_of, whole_of}
use super_memory_brain.Broker.Durable.{registry_schema, SessionRecord, Registry, registry_valid}

infixl 5 ◌>>=◌ ◌>>◌
abbrev pub ◌>>=◌ {ℓ κ} : {A : Type ℓ} {B : Type κ} → Option A → (A → Option B) → Option B
none >>= f = none
some a >>= f = f a

abbrev pub ◌>>◌ {ℓ} : {B : Type ℓ} → Option (Unit {0}) → Option B → Option B
m >> k = m >>= λ _. k

abbrev pub demand : Bool → Option (Unit {0})
demand true = some tt
demand false = none

unfoldable pub session_of : Fields → Option SessionRecord
unfolding has_exactly get_or_null
session_of fields = do
  demand (has_exactly ("sessionId" ∷ "workspaceKey" ∷ "ownerSessionKey" ∷ "createdAt" ∷ []) fields)
  session_id ← text_of (get_or_null "sessionId" fields)
  workspace_key ← text_of (get_or_null "workspaceKey" fields)
  owner_session_key ← text_of (get_or_null "ownerSessionKey" fields)
  created_at ← text_of (get_or_null "createdAt" fields)
  some (record {
    session_id = session_id;
    workspace_key = workspace_key;
    owner_session_key = owner_session_key;
    created_at = created_at;
  })

abbrev pub workline_fields : List String
workline_fields =
    "worklineId" ∷ "sessionId" ∷ "workspaceKey" ∷ "ownerSessionKey" ∷ "taskId" ∷ "taskInstanceId"
    ∷ "packageVersion" ∷ "contractRevision" ∷ "contractHash" ∷ "scopeRef" ∷ "createdAt"
    ∷ "updatedAt" ∷ []

unfoldable pub workline_of : Fields → Option WorklineRecord
unfolding has_exactly get_or_null
workline_of fields = do
  demand (has_exactly workline_fields fields)
  workline_id ← text_of (get_or_null "worklineId" fields)
  session_id ← text_of (get_or_null "sessionId" fields)
  workspace_key ← text_of (get_or_null "workspaceKey" fields)
  owner_session_key ← text_of (get_or_null "ownerSessionKey" fields)
  task_id ← text_of (get_or_null "taskId" fields)
  task_instance_id ← text_of (get_or_null "taskInstanceId" fields)
  package_version ← text_of (get_or_null "packageVersion" fields)
  contract_revision ← whole_of (get_or_null "contractRevision" fields)
  contract_hash ← text_of (get_or_null "contractHash" fields)
  scope_ref ← text_of (get_or_null "scopeRef" fields)
  created_at ← text_of (get_or_null "createdAt" fields)
  updated_at ← text_of (get_or_null "updatedAt" fields)
  some (record {
    session_id = session_id;
    workline_id = workline_id;
    workspace_key = workspace_key;
    owner_session_key = owner_session_key;
    task_id = task_id;
    task_instance_id = task_instance_id;
    package_version = package_version;
    contract_revision = contract_revision;
    contract_hash = contract_hash;
    scope_ref = scope_ref;
    created_at = created_at;
    updated_at = updated_at;
  })

-- The items of a list, if all of them are dictionaries that `of` takes.
abbrev pub add_item {ℓ} : {A : Type ℓ} → Option A → Option (List A) → Option (List A)
add_item (some a) (some rest) = some (a ∷ rest)
add_item (some a) none = none
add_item none rest = none

unfoldable pub sessions_of : Items → Option (List SessionRecord)
unfolding session_of
sessions_of end = some []
sessions_of (item (obj fields) items) = add_item (session_of fields) (sessions_of items)
sessions_of (item _ items) = none

unfoldable pub worklines_of : Items → Option (List WorklineRecord)
unfolding workline_of
worklines_of end = some []
worklines_of (item (obj fields) items) = add_item (workline_of fields) (worklines_of items)
worklines_of (item _ items) = none

-- A list
abbrev pub list_of : Value → Option Items
list_of (arr items) = some items
list_of null = none
list_of (bool b) = none
list_of (int n) = none
list_of (negative n) = none
list_of float = none
list_of (text s) = none
list_of (obj fs) = none

abbrev pub registry_fields : List String
registry_fields =
    "schema" ∷ "registryRevision" ∷ "sessions" ∷ "worklines" ∷ "rawPromptStored"
    ∷ "rawTranscriptStored" ∷ "payloadHash" ∷ []

-- The registry that a JSON value is, if `_registry_valid` accepts it.
unfoldable pub registry_of : Libraries → Value → Option Registry
unfolding sessions_of worklines_of registry_valid has_exactly without_field get_or_null
registry_of l (obj fields) = do
  demand (has_exactly registry_fields fields)
  demand (
      is_text registry_schema (get_or_null "schema" fields)
      && is_false (get_or_null "rawPromptStored" fields)
      && is_false (get_or_null "rawTranscriptStored" fields))
  payload_hash ← text_of (get_or_null "payloadHash" fields)
  demand (
      sha256_re payload_hash
      && payload_hash == l.canonical_hash (obj (without_field "payloadHash" fields)))
  revision ← whole_of (get_or_null "registryRevision" fields)
  session_items ← list_of (get_or_null "sessions" fields)
  workline_items ← list_of (get_or_null "worklines" fields)
  sessions ← sessions_of session_items
  worklines ← worklines_of workline_items
  let registry : Registry = record {
    registry_revision = revision;
    sessions = sessions;
    worklines = worklines;
  }
  demand (registry_valid l registry)
  some registry
registry_of l _ = none

-- What `_registry_path` names: nothing, bytes that are no JSON text or cannot be read, or a JSON
-- value.
pub data File : Type 0 where
  absent unreadable : File
  json : Value → File

-- `_empty_registry`
abbrev pub empty_registry : Registry
empty_registry = record { registry_revision = 0; sessions = []; worklines = [] }

-- `_read_registry`
unfoldable pub read_file : Libraries → File → Option Registry
unfolding registry_of
read_file l absent = some empty_registry
read_file l unreadable = none
read_file l (json value) = registry_of l value

abbrev pub session_value : SessionRecord → Value
session_value s = obj (
    field "sessionId" (text s.session_id) (
      field "workspaceKey" (text s.workspace_key) (
        field "ownerSessionKey" (text s.owner_session_key)
          (field "createdAt" (text s.created_at) none_left))))

abbrev pub session_items : List SessionRecord → Items
session_items [] = end
session_items (s ∷ sessions) = item (session_value s) (session_items sessions)

abbrev pub workline_value : WorklineRecord → Value
workline_value w = obj (
    field "worklineId" (text w.workline_id) (
      field "sessionId" (text w.session_id) (
        field "workspaceKey" (text w.workspace_key) (
          field "ownerSessionKey" (text w.owner_session_key) (
            field "taskId" (text w.task_id) (
              field "taskInstanceId" (text w.task_instance_id) (
                field "packageVersion" (text w.package_version) (
                  field "contractRevision" (int w.contract_revision) (
                    field "contractHash" (text w.contract_hash) (
                      field "scopeRef" (text w.scope_ref) (
                        field "createdAt" (text w.created_at)
                          (field "updatedAt" (text w.updated_at) none_left))))))))))))

abbrev pub workline_items : List WorklineRecord → Items
workline_items [] = end
workline_items (w ∷ worklines) = item (workline_value w) (workline_items worklines)

-- The registry's dictionary, with what follows `rawTranscriptStored`.
abbrev pub registry_dictionary : Registry → Fields → Fields
registry_dictionary r last = field "schema" (text registry_schema) (
    field "registryRevision" (int r.registry_revision) (
      field "sessions" (arr (session_items r.sessions)) (
        field "worklines" (arr (workline_items r.worklines))
          (field "rawPromptStored" (bool false) (field "rawTranscriptStored" (bool false) last)))))

unfoldable pub registry_value : Libraries → Registry → Value
registry_value l r =
    let body = obj (registry_dictionary r none_left) in
    obj (registry_dictionary r (field "payloadHash" (text (l.canonical_hash body)) none_left))

-- `_write_registry`, whose file can be written or not: the new file, or `none` where it raises.
unfoldable pub write_file : Libraries → Bool → Registry → Option File
unfolding registry_of registry_value
write_file l writable r =
    let value = registry_value l r in
    if writable
    then elim (registry_of l value) [ none ↦ none | some _ ↦ some (json value) ]
    else none
