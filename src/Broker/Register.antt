-- ===== src/Broker/Register.antt =====
-- CORE/runtime/scope_broker.py: what `register_workline` makes of the registry, with
-- `_refresh_existing_workline`. `session_draw` and `workline_draw` are the values of
-- `"sbs-" + secrets.token_hex(16)` and `"sbw-" + secrets.token_hex(16)`, where they are drawn.
use super_memory_brain.Base.{
  ◌+◌, String, Bool, true, false, ◌&&◌, ◌||◌, not, Option, none, some, List, [], ◌∷◌, ◌++◌, length,
  ltb, eqb, ◌==◌, if◌then◌else◌,
}
use super_memory_brain.Broker.Types.{
  registry_ambiguous, registry_capacity, contract_revision_stale, contract_hash_conflict, withheld,
  ScopeContext, failure,
}
use super_memory_brain.Broker.Checked.{Checked, stop, go, ◌>>=◌, ◌>>◌, require}
use super_memory_brain.Broker.Registry.{WorklineRecord}
use super_memory_brain.Broker.Contract.{Libraries, ContractBinding}
use super_memory_brain.Broker.Durable.{
  SessionRecord, Registry, max_registry_sessions, max_registry_worklines,
}

abbrev pub is_session_of : ContractBinding → SessionRecord → Bool
is_session_of b s = s.workspace_key == b.workspace_key && s.owner_session_key == b.owner_session_key

unfoldable pub matching_sessions : ContractBinding → List SessionRecord → List SessionRecord
matching_sessions b [] = []
matching_sessions b (s ∷ sessions) =
    let rest = matching_sessions b sessions in if is_session_of b s then s ∷ rest else rest

abbrev pub is_workline_of : ContractBinding → WorklineRecord → Bool
is_workline_of b w =
    w.workspace_key == b.workspace_key
    && w.owner_session_key == b.owner_session_key
    && w.task_id == b.task_id
    && w.task_instance_id == b.task_instance_id

unfoldable pub matching_worklines : ContractBinding → List WorklineRecord → List WorklineRecord
matching_worklines b [] = []
matching_worklines b (w ∷ worklines) =
    let rest = matching_worklines b worklines in if is_workline_of b w then w ∷ rest else rest

-- What the environment draws and tells for one call: the identifiers, and the text of the time.
pub record Drawn : Type 0 where
  pub session_draw : String
  pub workline_draw : String
  pub current_stamp : String

-- The session of the contract, the sessions with it, and whether it is new.
pub record Session : Type 0 where
  pub session : SessionRecord
  pub sessions : List SessionRecord
  pub is_fresh : Bool

unfoldable pub take_session :
    Drawn → ContractBinding → List SessionRecord → List SessionRecord → Checked Session
take_session d b sessions [] = do
  require (ltb (length sessions) max_registry_sessions) registry_capacity
  let session : SessionRecord = record {
    session_id = d.session_draw;
    workspace_key = b.workspace_key;
    owner_session_key = b.owner_session_key;
    created_at = d.current_stamp;
  }
  go (record { session = session; sessions = sessions ++ (session ∷ []); is_fresh = true })
take_session d b sessions (s ∷ []) =
    go (record { session = s; sessions = sessions; is_fresh = false })
take_session d b sessions (s ∷ t ∷ others) = stop (failure registry_ambiguous withheld)

-- The context of the contract on an identifier of a session and of a workline.
abbrev pub context_on : ContractBinding → String → String → String → ScopeContext
context_on b session_id workline_id scope_ref = record {
  session_id = session_id;
  workline_id = workline_id;
  workspace_key = b.workspace_key;
  owner_session_key = b.owner_session_key;
  task_id = b.task_id;
  task_instance_id = b.task_instance_id;
  package_version = b.package_version;
  contract_revision = b.contract_revision;
  contract_hash = b.contract_hash;
  scope_ref = scope_ref;
}

-- `_record`
unfoldable pub record_of : ScopeContext → String → String → WorklineRecord
record_of c created_at updated_at = record {
  session_id = c.session_id;
  workline_id = c.workline_id;
  workspace_key = c.workspace_key;
  owner_session_key = c.owner_session_key;
  task_id = c.task_id;
  task_instance_id = c.task_instance_id;
  package_version = c.package_version;
  contract_revision = c.contract_revision;
  contract_hash = c.contract_hash;
  scope_ref = c.scope_ref;
  created_at = created_at;
  updated_at = updated_at;
}

-- The context of a call, the worklines with it, and whether they changed.
pub record Taken : Type 0 where
  pub context : ScopeContext
  pub worklines : List WorklineRecord
  pub changed : Bool

-- `existing.update`: the dictionary stands in the list, where only it has the identity.
unfoldable pub replace_workline :
    ContractBinding → WorklineRecord → List WorklineRecord → List WorklineRecord
replace_workline b w [] = []
replace_workline b w (v ∷ worklines) =
    (if is_workline_of b v then w else v) ∷ replace_workline b w worklines

-- `_refresh_existing_workline` with its refusals.
unfoldable pub refresh_existing :
    Drawn → ContractBinding → List WorklineRecord → WorklineRecord → Checked Taken
unfolding record_of replace_workline
refresh_existing d b worklines existing = do
  require (not (ltb b.contract_revision existing.contract_revision)) contract_revision_stale
  require
      (not (
        eqb b.contract_revision existing.contract_revision
        && not (b.contract_hash == existing.contract_hash)))
      contract_hash_conflict
  let context : ScopeContext =
      context_on b existing.session_id existing.workline_id existing.scope_ref
  go (
      if eqb b.contract_revision existing.contract_revision
      then record { context = context; worklines = worklines; changed = false }
      else record {
        context = context;
        worklines =
            replace_workline b (record_of context existing.created_at d.current_stamp) worklines;
        changed = true;
      })

unfoldable pub take_workline :
    Libraries
    → Drawn
    → ContractBinding
    → SessionRecord
    → List WorklineRecord
    → List WorklineRecord
    → Checked Taken
unfolding refresh_existing record_of
take_workline l d b s worklines [] = do
  require (ltb (length worklines) max_registry_worklines) registry_capacity
  let context : ScopeContext =
      context_on b s.session_id d.workline_draw
        (l.digests.scope_hash s.session_id d.workline_draw b.workspace_key b.owner_session_key)
  go (record {
    context = context;
    worklines = worklines ++ (record_of context d.current_stamp d.current_stamp ∷ []);
    changed = true;
  })
take_workline l d b s worklines (w ∷ []) = refresh_existing d b worklines w
take_workline l d b s worklines (w ∷ v ∷ others) = stop (failure registry_ambiguous withheld)

-- The context, and the registry that is to be written, if there is a change.
pub record Registered : Type 0 where
  pub context : ScopeContext
  pub updated : Option Registry

-- What `register_workline` makes of the registry.
unfoldable pub register_in : Libraries → Drawn → ContractBinding → Registry → Checked Registered
unfolding take_session take_workline matching_sessions matching_worklines
register_in l d b r = do
  s ← take_session d b r.sessions (matching_sessions b r.sessions)
  t ← take_workline l d b s.session r.worklines (matching_worklines b r.worklines)
  go (record {
    context = t.context;
    updated =
        if s.is_fresh || t.changed
        then some (record {
          registry_revision = r.registry_revision + 1;
          sessions = s.sessions;
          worklines = t.worklines;
        })
        else none;
  })
