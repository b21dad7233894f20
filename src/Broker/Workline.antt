-- ===== src/Broker/Workline.antt =====
-- CORE/runtime/scope_broker.py: `register_workline` with its file, and `resolve_exact_workline`.
use super_memory_brain.Base.{
  String, Bool, true, ◌&&◌, Option, none, some, List, [], ◌∷◌, eqb, ◌==◌, if◌then◌else◌,
}
use super_memory_brain.Base.Dict.{Dict}
use super_memory_brain.Json.{Value}
use super_memory_brain.Broker.Types.{
  Code, registry_lock_timeout, registry_invalid, registry_unavailable, registry_write_failed,
  repair_rebind_required, workline_current, withheld, current, ScopeContext, Outcome, failure,
  Binding, Broker,
}
use super_memory_brain.Broker.Checked.{Checked, stop, go, ◌>>=◌, ◌>>◌, require, require_some}
use super_memory_brain.Broker.Registry.{WorklineRecord, context_from_record}
use super_memory_brain.Broker.Contract.{Libraries, ContractBinding, contract_binding}
use super_memory_brain.Broker.Durable.{Registry}
use super_memory_brain.Broker.File.{File, read_file, write_file}
use super_memory_brain.Broker.Register.{Drawn, matching_worklines, register_in}

-- The file's side of a call: the file lock is not acquired, the operating system raises, or the file
-- is there, to be written or not.
pub data Access : Type 0 where
  lock_timeout os_error : Access
  held : (writable : Bool) → Access

-- The part under the file lock. `os_code` is the code for an `OSError`.
unfoldable pub accessed : Access → Code → Checked Bool
accessed lock_timeout os_code = stop (failure registry_lock_timeout withheld)
accessed os_error os_code = stop (failure os_code withheld)
accessed (held writable) os_code = go writable

abbrev pub written : Libraries → Bool → File → Option Registry → Option File
written l writable file none = some file
written l writable file (some r) = write_file l writable r

-- The file after a call, and the context.
pub record Stored : Type 0 where
  pub file : File
  pub context : ScopeContext

unfoldable pub register_durable :
    Libraries → Drawn → ContractBinding → Access → File → Checked Stored
unfolding accessed read_file register_in write_file
register_durable l d b access file = do
  writable ← accessed access registry_write_failed
  r ← require_some (read_file l file) registry_invalid
  registered ← register_in l d b r
  file' ← require_some (written l writable file registered.updated) registry_write_failed
  go (record { file = file'; context = registered.context })

-- The loop over the bindings: those of the workline take the context.
unfoldable pub rebind : ScopeContext → Dict Binding → Dict Binding
rebind c [] = []
rebind c ((channel, b) ∷ bindings) =
    (channel, if b.workline_id == c.workline_id then record b { context = c } else b)
    ∷ rebind c bindings

abbrev pub workline_outcome : ScopeContext → Outcome
workline_outcome c = record {
  ok = true;
  code = workline_current;
  state = current;
  context = some c;
  access_mode = none;
  lease_id = "";
  lease_expires_at = none;
  pairing_request_ref = "";
}

pub record System : Type 0 where
  pub file : File
  pub broker : Broker

abbrev pub register_finish : System → Checked Stored → System × Outcome
register_finish y (stop r) = (y, r)
register_finish y (go s) = (
  record {
    file = s.file;
    broker = record y.broker { bindings = rebind s.context y.broker.bindings };
  },
  workline_outcome s.context,
)

-- `register_workline`
unfoldable pub register_workline :
    Libraries → Drawn → Value → Option String → Access → System → System × Outcome
unfolding contract_binding register_durable rebind
register_workline l d contract expected_contract_hash access y = register_finish y (do
  b ← contract_binding l contract expected_contract_hash
  register_durable l d b access y.file)

-- Whether the context is that of the contract.
abbrev pub is_exact : ContractBinding → ScopeContext → Bool
is_exact b c =
    c.workspace_key == b.workspace_key
    && c.owner_session_key == b.owner_session_key
    && c.task_id == b.task_id
    && c.task_instance_id == b.task_instance_id
    && c.package_version == b.package_version
    && eqb c.contract_revision b.contract_revision
    && c.contract_hash == b.contract_hash

abbrev pub single_context : Libraries → List WorklineRecord → Option ScopeContext
single_context l [] = none
single_context l (w ∷ []) = context_from_record l.digests w
single_context l (w ∷ v ∷ others) = none

unfoldable pub resolve_checked :
    Libraries → Value → Option String → Access → File → Checked ScopeContext
unfolding contract_binding accessed read_file matching_worklines context_from_record
resolve_checked l contract expected_contract_hash access file = do
  b ← contract_binding l contract expected_contract_hash
  _ ← accessed access registry_unavailable
  r ← require_some (read_file l file) registry_invalid
  c ← require_some (single_context l (matching_worklines b r.worklines)) repair_rebind_required
  require (is_exact b c) repair_rebind_required
  go c

abbrev pub outcome_of : Checked ScopeContext → Outcome
outcome_of (stop r) = r
outcome_of (go c) = workline_outcome c

-- `resolve_exact_workline`
unfoldable pub resolve_exact_workline : Libraries → Value → Option String → Access → File → Outcome
unfolding resolve_checked
resolve_exact_workline l contract expected_contract_hash access file =
    outcome_of (resolve_checked l contract expected_contract_hash access file)
