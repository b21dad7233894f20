-- ===== src/Broker/DurableTests.antt =====
-- A contract that is registered in an absent file, and its next revision on a bound channel.
use super_memory_brain.Base.{◌≡◌, ◌↔◌, refl, String, true, false, some, [], ◌∷◌}
use super_memory_brain.Json.{Value, int, text, obj, none_left, field}
use super_memory_brain.Text.{strip, shape, led_shape, is_hex, is_alnum}
use super_memory_brain.Broker.Types.{
  write, Broker, ScopeContext, safe_string, sha256_re, channel_id_re, lease_id_re, workspace_key_re,
  owner_session_key_re, task_id_re, task_instance_id_re, package_version_re, broker_session_id_re,
  workline_id_re,
}
use super_memory_brain.Broker.Checked.{go}
use super_memory_brain.Broker.Contract.{Libraries, ContractBinding, contract_binding}
use super_memory_brain.Broker.Durable.{registry_valid}
use super_memory_brain.Broker.File.{File, absent, read_file, write_file, empty_registry}
use super_memory_brain.Broker.Register.{Drawn, register_in}
use super_memory_brain.Broker.Workline.{held, System, register_workline, resolve_exact_workline}
use super_memory_brain.Broker.Refresh.{refresh_checked, refresh_bound_contract}
use super_memory_brain.Broker.Growth.{Outlasts, entry_in, Calls, none_yet, call, Calls-Outlasts}
use super_memory_brain.Broker.Ledger.{identity_of}
use super_memory_brain.Broker.Refines.{IsLedgerStep, register_in-IsLedgerStep}
use super_memory_brain.Broker.Printed.{IsHash, write_file_iff}
use super_memory_brain.Broker.Stores.{IsRegistered, register_workline-IsRegistered}
use super_memory_brain.Broker.Entitled.{IsRefreshed, refresh_bound_contract-IsRefreshed}
use super_memory_brain.Broker.Upkeep.{expire_bindings}

-- The shapes of the identifiers compute.
shapes : Unit {0}
unfolding strip shape led_shape is_hex is_alnum workspace_key_re owner_session_key_re task_id_re
    task_instance_id_re package_version_re sha256_re broker_session_id_re workline_id_re
    channel_id_re lease_id_re
shapes = tt

abbrev sha : String
sha = "0123456789abcdef0123456789abcdef0123456789abcdef0123456789abcdef"

abbrev libraries : Libraries
libraries = record {
  digests = record { token_hash = λ t. t; scope_hash = λ a b c d. sha };
  canonical_hash = λ v. sha;
  encode = λ fields. some (record { size = 400; digest = sha });
  stamp = λ t. "2026-01-01T00:00:00Z";
  is_zoned_iso = λ s. true;
}

libraries-IsHash : IsHash libraries
unfolding sha256_re shape is_hex
libraries-IsHash = record { digits = λ v. refl }

abbrev channel : String
channel = "sbc-0123456789abcdef0123456789abcdef"

abbrev lease : String
lease = "sbl-0123456789abcdef0123456789abcdef"

abbrev workline : String
workline = "sbw-0123456789abcdef0123456789abcdef"

abbrev drawn : Drawn
drawn = record {
  session_draw = "sbs-0123456789abcdef0123456789abcdef";
  workline_draw = workline;
  current_stamp = "2026-01-01T00:00:00Z";
}

abbrev contract : Value
contract = obj (
    field "schema" (text "super-brain.execution-contract.v1") (
      field "status" (text "active") (
        field "workspaceKey" (text "ws-0123456789abcdef") (
          field "ownerSessionKey" (text "sid-0123456789abcdef") (
            field "taskId" (text "task") (
              field "taskInstanceId" (text " ti-0123456789abcdef")
                (field "packageVersion" (text "1.0") (field "revision" (int 2) none_left))))))))

abbrev binding : ContractBinding
binding = record {
  workspace_key = "ws-0123456789abcdef";
  owner_session_key = "sid-0123456789abcdef";
  task_id = "task";
  task_instance_id = "ti-0123456789abcdef";
  package_version = "1.0";
  contract_revision = 2;
  contract_hash = sha;
}

contract_is_bound : contract_binding libraries contract (some sha) ≡ go binding
unfolding contract_binding shapes
contract_is_bound = refl

-- The context of revision 1 that a channel is bound to.
abbrev context : ScopeContext
context = record {
  session_id = "sbs-0123456789abcdef0123456789abcdef";
  workline_id = workline;
  workspace_key = "ws-0123456789abcdef";
  owner_session_key = "sid-0123456789abcdef";
  task_id = "task";
  task_instance_id = "ti-0123456789abcdef";
  package_version = "1.0";
  contract_revision = 1;
  contract_hash = "h";
  scope_ref = sha;
}

abbrev broker : Broker
broker = record {
  channels = channel ∷ [];
  bindings =
      (
        channel,
        record {
          workline_id = workline;
          context = context;
          access_mode = write;
          lease_id = lease;
          lease_expires_at = 300000000;
        },
      )
      ∷ [];
  write_leases = (workline, channel) ∷ [];
  grants = [];
  pairing_requests = [];
  channel_pairing_refs = [];
  instance_id = "sbi-0";
}

abbrev system : System
system = record { file = absent; broker = broker }

registers_ok :
    (register_workline libraries drawn contract (some sha) (held true) system).1.ok ≡ true
unfolding register_workline shapes
registers_ok = refl

register_workline-IsRegistered_example :
    IsRegistered libraries binding system
      (register_workline libraries drawn contract (some sha) (held true) system).0
      (register_workline libraries drawn contract (some sha) (held true) system).1
register_workline-IsRegistered_example =
    register_workline-IsRegistered libraries drawn contract (some sha) (held true) system binding
      libraries-IsHash contract_is_bound registers_ok

register_in-IsLedgerStep_example :
    IsLedgerStep binding empty_registry (register_in libraries drawn binding empty_registry)
register_in-IsLedgerStep_example = register_in-IsLedgerStep libraries drawn binding empty_registry

write_file_iff_example :
    (((file : File) × (write_file libraries true empty_registry ≡ some file))
      ↔ ((true ≡ true) × (registry_valid libraries empty_registry ≡ true)))
    × ((file : File)
        → write_file libraries true empty_registry ≡ some file
        → read_file libraries file ≡ some empty_registry)
write_file_iff_example = write_file_iff libraries true empty_registry libraries-IsHash

passes : refresh_checked libraries (some channel) (some lease) contract ≡ go binding
unfolding refresh_checked shapes
passes = refl

refreshes_ok :
    (refresh_bound_contract libraries 60 drawn
      (some channel)
      (some lease)
      contract
      (held true)
      system).1.ok
    ≡ true
unfolding refresh_bound_contract shapes
refreshes_ok = refl

refresh_bound_contract-IsRefreshed_example :
    IsRefreshed
      (safe_string channel_id_re (some channel))
      (safe_string lease_id_re (some lease))
      binding
      (expire_bindings 60 broker)
      (refresh_bound_contract libraries 60 drawn
        (some channel)
        (some lease)
        contract
        (held true)
        system).0
      (refresh_bound_contract libraries 60 drawn
        (some channel)
        (some lease)
        contract
        (held true)
        system).1
refresh_bound_contract-IsRefreshed_example =
    refresh_bound_contract-IsRefreshed libraries 60 drawn (some channel) (some lease) contract
      (held true) system binding passes refreshes_ok

-- What is registered is resolved.
resolves :
    (resolve_exact_workline libraries contract
      (some sha)
      (held true)
      (register_workline libraries drawn contract (some sha) (held true) system).0.file).ok
    ≡ true
unfolding resolve_exact_workline register_workline shapes
resolves = refl

-- The file after one registration, and after the same one again.
abbrev registered_file : File
registered_file = (register_workline libraries drawn contract (some sha) (held true) system).0.file

abbrev twice :
    Calls libraries registered_file
      (register_workline libraries drawn contract
        (some sha)
        (held false)
        (record { file = registered_file; broker = broker })).0.file
twice = call drawn contract (some sha) (held false) broker none_yet

Calls-Outlasts_example : Outlasts (entry_in libraries registered_file (identity_of binding)) (
    entry_in libraries
      (register_workline libraries drawn contract
        (some sha)
        (held false)
        (record { file = registered_file; broker = broker })).0.file
      (identity_of binding))
Calls-Outlasts_example =
    Calls-Outlasts libraries registered_file
      (register_workline libraries drawn contract (some sha) (held false)
        (record { file = registered_file; broker = broker })).0.file
      (identity_of binding) libraries-IsHash twice
