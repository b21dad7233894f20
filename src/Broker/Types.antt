-- ===== src/Broker/Types.antt =====
-- CORE/runtime/scope_broker.py: the constants, identifier shapes, result and state types.
-- A text argument is `none` where the caller hands over a value that is no `str`, a flag where it
-- is no `bool`, a context where it is no `ScopeContext`; a duration is
-- `none` where the value is a `bool`, no `int`, or negative. Times are microseconds.
use super_memory_brain.Base.{
  ℕ, ◌*◌, ◌-◌, ◌%◌, String, Bool, true, false, ◌&&◌, ◌||◌, Option, none, some, List, leb, eqb, ◌==◌,
  if◌then◌else◌,
}
use super_memory_brain.Base.Dict.{Dict}
use super_memory_brain.Text.{strip, shape, led_shape, is_hex, is_alnum}

pub data Code : Type 0 where
  channel_id_invalid workline_id_invalid access_mode_invalid lease_ttl_invalid : Code
  pairing_ttl_invalid pairing_request_ref_invalid pairing_grant_invalid lease_id_invalid : Code
  registry_lock_timeout registry_unavailable registry_invalid workline_unknown : Code
  channel_unknown_or_restarted channel_already_bound write_lease_held contract_stale : Code
  pairing_request_ref_expired pairing_request_ref_instance_mismatch pairing_capacity : Code
  pairing_grant_replayed pairing_grant_expired pairing_grant_channel_mismatch : Code
  channel_lease_expired channel_unbound channel_bound workline_current : Code
  broker_context_missing write_lease_required authorized lease_mismatch lease_renewed : Code
  channel_detached channel_closed : Code
  contract_invalid contract_not_current contract_privacy_invalid contract_binding_invalid : Code
  contract_hash_required contract_hash_mismatch contract_revision_stale : Code
  contract_hash_conflict registry_ambiguous registry_capacity registry_write_failed : Code
  repair_rebind_required contract_refresh_auth_invalid contract_identity_mismatch : Code
  contract_refresh_race contract_projection_refreshed write_flag_invalid context_invalid : Code

pub data ChannelState : Type 0 where
  withheld unbound bound authorized_state closed current : ChannelState

pub data AccessMode : Type 0 where
  read write : AccessMode

pub record ScopeContext : Type 0 where
  pub session_id : String
  pub workline_id : String
  pub workspace_key : String
  pub owner_session_key : String
  pub task_id : String
  pub task_instance_id : String
  pub package_version : String
  pub contract_revision : ℕ
  pub contract_hash : String
  pub scope_ref : String

pub record Outcome : Type 0 where
  pub ok : Bool
  pub code : Code
  pub state : ChannelState
  pub context : Option ScopeContext
  pub access_mode : Option AccessMode
  pub lease_id : String
  pub lease_expires_at : Option ℕ
  pub pairing_request_ref : String

pub record PairingGrant : Type 0 where
  pub token : String
  pub expires_at : ℕ
  pub access_mode : AccessMode

pub record GrantRecord : Type 0 where
  pub channel_id : String
  pub workline_id : String
  pub access_mode : AccessMode
  pub expires_at : ℕ
  pub used : Bool

pub record Binding : Type 0 where
  pub workline_id : String
  pub context : ScopeContext
  pub access_mode : AccessMode
  pub lease_id : String
  pub lease_expires_at : ℕ

pub record PairingRequest : Type 0 where
  pub ref : String
  pub channel_id : String
  pub broker_instance_id : String
  pub expires_at : ℕ

-- The process-local state of a `ScopeBroker` object.
pub record Broker : Type 0 where
  pub channels : List String
  pub bindings : Dict Binding
  pub write_leases : Dict String
  pub grants : Dict GrantRecord
  pub pairing_requests : Dict PairingRequest
  pub channel_pairing_refs : Dict String
  pub instance_id : String

abbrev pub max_grants : ℕ
max_grants = 512

abbrev pub min_grant_ttl_seconds : ℕ
min_grant_ttl_seconds = 1

abbrev pub max_grant_ttl_seconds : ℕ
max_grant_ttl_seconds = 300

abbrev pub min_lease_seconds : ℕ
min_lease_seconds = 15

abbrev pub max_lease_seconds : ℕ
max_lease_seconds = 3600

abbrev pub pairing_request_ref_ttl_seconds : ℕ
pairing_request_ref_ttl_seconds = 300

-- `timedelta(seconds=n)`
abbrev pub seconds : ℕ → ℕ
seconds n = n * 1000000

-- `_timestamp`: whole seconds
abbrev pub timestamp : ℕ → ℕ
timestamp t = t - t % 1000000

abbrev pub is_write : AccessMode → Bool
is_write write = true
is_write read = false

-- `_failure`
abbrev pub failure_with : Code → ChannelState → Option ScopeContext → Outcome
failure_with code state context = record {
  ok = false;
  code = code;
  state = state;
  context = context;
  access_mode = none;
  lease_id = "";
  lease_expires_at = none;
  pairing_request_ref = "";
}

abbrev pub failure : Code → ChannelState → Outcome
failure code state = failure_with code state none

-- A result that hands a binding back.
abbrev pub success : Code → ChannelState → Binding → Outcome
success code state binding = record {
  ok = true;
  code = code;
  state = state;
  context = some binding.context;
  access_mode = some binding.access_mode;
  lease_id = binding.lease_id;
  lease_expires_at = some (timestamp binding.lease_expires_at);
  pairing_request_ref = "";
}

-- `_safe_string`
unfoldable pub safe_string : (String → Bool) → Option String → String
safe_string pattern none = ""
safe_string pattern (some value) =
    let normalized = strip value in if pattern normalized then normalized else ""

-- `_access_mode`
unfoldable pub parse_mode : Option String → Option AccessMode
parse_mode none = none
parse_mode (some value) =
    if value == "read" then some read else if value == "write" then some write else none

-- `_ttl`
unfoldable pub ttl : Option ℕ → ℕ → ℕ → Option ℕ
ttl none minimum maximum = none
ttl (some value) minimum maximum =
    if leb minimum value && leb value maximum then some value else none

unfoldable pub channel_id_re : String → Bool
channel_id_re = shape "sbc-" is_hex 32 32

unfoldable pub workline_id_re : String → Bool
workline_id_re = shape "sbw-" is_hex 32 32

unfoldable pub pairing_request_ref_re : String → Bool
pairing_request_ref_re = shape "sbpr-" is_hex 32 32

unfoldable pub lease_id_re : String → Bool
lease_id_re = shape "sbl-" is_hex 32 32

unfoldable pub broker_session_id_re : String → Bool
broker_session_id_re = shape "sbs-" is_hex 32 32

unfoldable pub workspace_key_re : String → Bool
workspace_key_re = shape "ws-" is_hex 16 64

unfoldable pub owner_session_key_re : String → Bool
owner_session_key_re = shape "sid-" is_hex 16 64

unfoldable pub task_instance_id_re : String → Bool
task_instance_id_re = shape "ti-" is_hex 16 64

unfoldable pub sha256_re : String → Bool
sha256_re = shape "" is_hex 64 64

unfoldable pub task_id_re : String → Bool
task_id_re =
    led_shape is_alnum (λ n. is_alnum n || eqb n b'.' || eqb n b'_' || eqb n b':' || eqb n b'-') 0
      159

unfoldable pub package_version_re : String → Bool
package_version_re =
    led_shape is_alnum (λ n. is_alnum n || eqb n b'.' || eqb n b'_' || eqb n b'+' || eqb n b'-') 0
      79

unfoldable pub pairing_token_re : String → Bool
pairing_token_re = shape "sbpg-v1." (λ n. is_alnum n || eqb n b'_' || eqb n b'-') 32 128
