-- ===== src/Broker/Durable.antt =====
-- CORE/runtime/scope_broker.py: the registry, and what `_registry_valid` tests of one whose
-- values have their types.
use super_memory_brain.Base.{
  ℕ, String, Bool, true, false, ◌&&◌, not, Option, none, some, List, [], ◌∷◌, length, member, leb,
  ◌==◌, if◌then◌else◌,
}
use super_memory_brain.Text.{size, replace_z}
use super_memory_brain.Broker.Types.{
  ScopeContext, safe_string, broker_session_id_re, workspace_key_re, owner_session_key_re,
}
use super_memory_brain.Broker.Registry.{WorklineRecord, filled, context_from_record}
use super_memory_brain.Broker.Contract.{Libraries}

abbrev pub registry_schema : String
registry_schema = "super-brain.scope-broker-registry.v1"

abbrev pub max_registry_sessions : ℕ
max_registry_sessions = 256

abbrev pub max_registry_worklines : ℕ
max_registry_worklines = 2048

pub record SessionRecord : Type 0 where
  pub session_id : String
  pub workspace_key : String
  pub owner_session_key : String
  pub created_at : String

pub record Registry : Type 0 where
  pub registry_revision : ℕ
  pub sessions : List SessionRecord
  pub worklines : List WorklineRecord

-- Whether `_parse_timestamp` gives a time.
unfoldable pub is_timestamp : Libraries → String → Bool
unfolding replace_z
is_timestamp l s = not (s == "") && leb (size s) 64 && l.is_zoned_iso (replace_z s)

abbrev pub stored_session_id : SessionRecord → String
stored_session_id s = safe_string broker_session_id_re (some s.session_id)

-- The loop over `sessions`, after the identifiers `seen`.
unfoldable pub sessions_valid : Libraries → List String → List SessionRecord → Bool
unfolding safe_string filled is_timestamp
sessions_valid l seen [] = true
sessions_valid l seen (s ∷ sessions) =
    filled (stored_session_id s)
    && filled (safe_string workspace_key_re (some s.workspace_key))
    && filled (safe_string owner_session_key_re (some s.owner_session_key))
    && is_timestamp l s.created_at
    && not (member (stored_session_id s) seen)
    && sessions_valid l (stored_session_id s ∷ seen) sessions

-- `sessions.get(session_id)`
unfoldable pub find_session : String → List SessionRecord → Option SessionRecord
unfolding safe_string
find_session id [] = none
find_session id (s ∷ sessions) =
    if stored_session_id s == id then some s else find_session id sessions

abbrev pub is_owned : ScopeContext → Option SessionRecord → Bool
is_owned c none = false
is_owned c (some s) =
    s.workspace_key == c.workspace_key && s.owner_session_key == c.owner_session_key

-- The identity of a workline: its keys, its task and the instance of the task.
abbrev pub same_identity : ScopeContext → ScopeContext → Bool
same_identity a b =
    a.workspace_key == b.workspace_key
    && a.owner_session_key == b.owner_session_key
    && a.task_id == b.task_id
    && a.task_instance_id == b.task_instance_id

-- No workline of those seen has the identifier or the identity.
unfoldable pub is_new : ScopeContext → List ScopeContext → Bool
is_new c [] = true
is_new c (d ∷ seen) =
    not (d.workline_id == c.workline_id) && not (same_identity d c) && is_new c seen

unfoldable pub workline_fits :
    Libraries → List SessionRecord → List ScopeContext → WorklineRecord → ScopeContext → Bool
unfolding is_new find_session is_timestamp
workline_fits l sessions seen w c =
    is_new c seen
    && is_owned c (find_session c.session_id sessions)
    && is_timestamp l w.created_at
    && is_timestamp l w.updated_at

-- The loop over `worklines`, after the contexts `seen`.
unfoldable pub worklines_valid :
    Libraries → List SessionRecord → List ScopeContext → List WorklineRecord → Bool
unfolding workline_fits context_from_record
worklines_valid l sessions seen [] = true
worklines_valid l sessions seen (w ∷ worklines) = elim (context_from_record l.digests w) [
  | none ↦ false
  | some c ↦ workline_fits l sessions seen w c && worklines_valid l sessions (c ∷ seen) worklines
]

-- What `_registry_valid` tests of a registry whose values have their types.
unfoldable pub registry_valid : Libraries → Registry → Bool
unfolding sessions_valid worklines_valid
registry_valid l r =
    leb (length r.sessions) max_registry_sessions
    && leb (length r.worklines) max_registry_worklines
    && sessions_valid l [] r.sessions
    && worklines_valid l r.sessions [] r.worklines
