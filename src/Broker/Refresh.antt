-- ===== src/Broker/Refresh.antt =====
-- CORE/runtime/scope_broker.py: `refresh_bound_contract`, `pairing_request_ref` and
-- `pairing_request_channel`.
use super_memory_brain.Base.{
  ℕ, String, Bool, true, ◌&&◌, ◌||◌, not, Option, none, some, member, ltb, eqb, ◌==◌, if◌then◌else◌,
}
use super_memory_brain.Base.Dict.{get, put, has}
use super_memory_brain.Json.{Value, obj}
use super_memory_brain.Broker.Types.{
  Code, contract_refresh_auth_invalid, contract_invalid, channel_unbound, write_lease_required,
  lease_mismatch, contract_identity_mismatch, contract_revision_stale, contract_hash_conflict,
  contract_refresh_race, contract_projection_refreshed, withheld, unbound, bound, ScopeContext,
  Outcome, failure, failure_with, Binding, PairingRequest, Broker, timestamp, is_write, safe_string,
  channel_id_re, lease_id_re, pairing_request_ref_re,
}
use super_memory_brain.Broker.Upkeep.{
  expire_bindings, expire_pairing_requests, ensure_pairing_request,
}
use super_memory_brain.Broker.Checked.{Checked, stop, go, ◌>>=◌, ◌>>◌, require, require_some}
use super_memory_brain.Broker.Registry.{filled}
use super_memory_brain.Broker.Contract.{Libraries, ContractBinding, contract_binding}
use super_memory_brain.Broker.Register.{Drawn}
use super_memory_brain.Broker.Workline.{Access, System, register_workline}

-- The contract's own hash, where it is a dictionary with a JSON text.
unfoldable pub own_hash : Libraries → Value → Option String
own_hash l (obj fields) = elim (l.encode fields) [ none ↦ none | some e ↦ some e.digest ]
own_hash l _ = none

abbrev pub stop_with : Code → ScopeContext → Checked Binding
stop_with code c = stop (failure_with code withheld (some c))

-- The incoming contract against the context of the binding.
abbrev pub is_same_workline : ContractBinding → ScopeContext → Bool
is_same_workline b c =
    b.workspace_key == c.workspace_key
    && b.owner_session_key == c.owner_session_key
    && b.task_id == c.task_id
    && b.task_instance_id == c.task_instance_id
    && b.package_version == c.package_version

unfoldable pub refresh_bound : String → ContractBinding → Binding → Checked Binding
refresh_bound lease b stored =
    if not (is_write stored.access_mode)
    then stop_with write_lease_required stored.context
    else if not (stored.lease_id == lease)
    then stop_with lease_mismatch stored.context
    else if not (is_same_workline b stored.context)
    then stop_with contract_identity_mismatch stored.context
    else if ltb b.contract_revision stored.context.contract_revision
    then stop_with contract_revision_stale stored.context
    else if eqb b.contract_revision stored.context.contract_revision
        && not (b.contract_hash == stored.context.contract_hash)
    then stop_with contract_hash_conflict stored.context
    else go stored

-- The guards under the memory lock, before the registration.
unfoldable pub refresh_stored :
    String → String → ContractBinding → Broker → Option Binding → Checked Binding
unfolding refresh_bound
refresh_stored channel lease b s none = stop (failure channel_unbound unbound)
refresh_stored channel lease b s (some stored) =
    if member channel s.channels
    then refresh_bound lease b stored
    else stop (failure channel_unbound unbound)

unfoldable pub refresh_first : String → String → ContractBinding → Broker → Checked Binding
unfolding get refresh_stored
refresh_first channel lease b s = refresh_stored channel lease b s (get channel s.bindings)

-- The binding that the channel had keeps its workline, access and lease.
abbrev pub is_still : Binding → String → Binding → Bool
is_still prior lease b =
    b.workline_id == prior.workline_id && is_write b.access_mode && b.lease_id == lease

abbrev pub refreshed_binding : ScopeContext → Binding → Binding → Binding
refreshed_binding c prior b = record b { context = c; lease_expires_at = prior.lease_expires_at }

abbrev pub refreshed_outcome : ScopeContext → Binding → Outcome
refreshed_outcome c prior = record {
  ok = true;
  code = contract_projection_refreshed;
  state = bound;
  context = some c;
  access_mode = some prior.access_mode;
  lease_id = "";
  lease_expires_at = some (timestamp prior.lease_expires_at);
  pairing_request_ref = "";
}

abbrev pub with_binding : String → Binding → System → System
with_binding channel b y = record y {
  broker = record y.broker { bindings = put channel b y.broker.bindings };
}

-- What is left to do once the contract is registered with the context `c`.
unfoldable pub refresh_current :
    String → String → Binding → ScopeContext → System → Option Binding → System × Outcome
unfolding put
refresh_current channel lease prior c y none = (y, failure contract_refresh_race withheld)
refresh_current channel lease prior c y (some b) =
    if is_still prior lease b
    then (with_binding channel (refreshed_binding c prior b) y, refreshed_outcome c prior)
    else (y, failure contract_refresh_race withheld)

unfoldable pub refresh_second : String → String → Binding → ScopeContext → System → System × Outcome
unfolding get refresh_current
refresh_second channel lease prior c y =
    refresh_current channel lease prior c y (get channel y.broker.bindings)

-- The context of a result that is `ok`.
abbrev pub ok_context : Outcome → Option ScopeContext
ok_context r = if r.ok then r.context else none

unfoldable pub refresh_registered :
    String → String → Binding → System → Outcome → Option ScopeContext → System × Outcome
unfolding refresh_second
refresh_registered channel lease prior y r none = (y, r)
refresh_registered channel lease prior y r (some c) = refresh_second channel lease prior c y

-- The guards before the memory lock is taken.
unfoldable pub refresh_checked :
    Libraries → Option String → Option String → Value → Checked ContractBinding
unfolding own_hash contract_binding filled safe_string
refresh_checked l channel_id lease_id contract = do
  require
      (filled (safe_string channel_id_re channel_id) && filled (safe_string lease_id_re lease_id))
      contract_refresh_auth_invalid
  expected ← require_some (own_hash l contract) contract_invalid
  contract_binding l contract (some expected)

unfoldable pub refresh_under :
    Libraries
    → Drawn
    → String
    → String
    → Value
    → Access
    → System
    → Checked Binding
    → System × Outcome
unfolding refresh_registered register_workline own_hash
refresh_under l d channel lease contract access y (stop r) = (y, r)
refresh_under l d channel lease contract access y (go prior) =
    let registered = register_workline l d contract (own_hash l contract) access y in
    refresh_registered channel lease prior registered.0 registered.1 (ok_context registered.1)

unfoldable pub refresh_with :
    Libraries
    → ℕ
    → Drawn
    → String
    → String
    → Value
    → Access
    → System
    → Checked ContractBinding
    → System × Outcome
unfolding refresh_first refresh_under expire_bindings
refresh_with l now d channel lease contract access y (stop r) = (y, r)
refresh_with l now d channel lease contract access y (go b) =
    let s = expire_bindings now y.broker in
    refresh_under l d channel lease contract access (record y { broker = s })
      (refresh_first channel lease b s)

-- `refresh_bound_contract`
unfoldable pub refresh_bound_contract :
    Libraries
    → ℕ
    → Drawn
    → Option String
    → Option String
    → Value
    → Access
    → System
    → System × Outcome
unfolding refresh_checked refresh_with safe_string
refresh_bound_contract l now d channel_id lease_id contract access y =
    refresh_with l now d (safe_string channel_id_re channel_id) (safe_string lease_id_re lease_id)
      contract access y (refresh_checked l channel_id lease_id contract)

-- `pairing_request_ref`: `drawn` is the value of `"sbpr-" + secrets.token_hex(16)`.
unfoldable pub pairing_request_ref : ℕ → String → Option String → Broker → Broker × String
unfolding expire_pairing_requests ensure_pairing_request filled safe_string
pairing_request_ref now drawn channel_id s =
    let channel = safe_string channel_id_re channel_id in
    let s' = expire_pairing_requests now s in
    if not (filled channel)
    then (s, "")
    else if not (member channel s'.channels) || has channel s'.bindings
    then (s', "")
    else ensure_pairing_request now drawn channel s'

-- The channel of a request that is alive.
abbrev pub live_channel : Broker → Option PairingRequest → String
live_channel s none = ""
live_channel s (some q) =
    if q.broker_instance_id == s.instance_id
      && member q.channel_id s.channels
      && not (has q.channel_id s.bindings)
    then q.channel_id
    else ""

-- `pairing_request_channel`
unfoldable pub pairing_request_channel : ℕ → Option String → Broker → Broker × String
unfolding expire_pairing_requests filled safe_string get
pairing_request_channel now pairing_request_ref_ s =
    let ref = safe_string pairing_request_ref_re pairing_request_ref_ in
    let s' = expire_pairing_requests now s in
    if not (filled ref) then (s, "") else (s', live_channel s' (get ref s'.pairing_requests))
