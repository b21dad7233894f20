-- ===== src/Broker/UngrantedPairing.antt =====
-- The operations of scope_broker.py that bind channels without a grant, register contracts, or ask
-- for pairing references leave the pairing grants alone.
use super_memory_brain.Base.{
  ℕ, String, refl, ◌∙◌, not, ◌||◌, ◌==◌, Option, none, some, List, member, if◌then◌else◌,
  Bool-cases, Option-cases, inl, inr,
}
use super_memory_brain.Base.Dict.{get, has}
use super_memory_brain.Json.{Value}
use super_memory_brain.Broker.Types.{
  AccessMode, Binding, Broker, Outcome, PairingRequest, ScopeContext, safe_string, channel_id_re,
  pairing_request_ref_re,
}
use super_memory_brain.Broker.Checked.{Checked, stop, go}
use super_memory_brain.Broker.Registry.{Digests, DurableRead, filled}
use super_memory_brain.Broker.Upkeep.{
  expire_bindings, expire_pairing_requests, ensure_pairing_request,
}
use super_memory_brain.Broker.Channels.{first_unused}
use super_memory_brain.Broker.Pairing.{
  commit_binding, bind_new_checked, bind_new_locked, bind_new_channel, pair_request_checked,
  consume_ref, pair_request_locked, pair_request, lease_is_free,
}
use super_memory_brain.Broker.Contract.{Libraries, ContractBinding}
use super_memory_brain.Broker.Register.{Drawn}
use super_memory_brain.Broker.Workline.{Access, Stored, System, register_finish, register_workline}
use super_memory_brain.Broker.Refresh.{
  own_hash, is_still, refresh_first, refresh_current, refresh_second, ok_context,
  refresh_registered, refresh_under, refresh_with, refresh_bound_contract, live_channel,
  pairing_request_ref, pairing_request_channel,
}
use super_memory_brain.Broker.Expiry.{expire_bindings-SameRest}
use super_memory_brain.Broker.Attach.{Checked-cases}
use super_memory_brain.Broker.Ungranted.{
  Ungranted, if_Ungranted, expire_pairing_requests-Ungranted, expired-Ungranted, ensure-Ungranted,
}

bind_new_locked-Ungranted :
    (now : ℕ) (draws : List String) (lease_id : String) (x : ScopeContext) (mode : AccessMode)
    (lease : ℕ) (s : Broker)
    → Ungranted s (bind_new_locked now draws lease_id x mode lease s).0
unfolding bind_new_locked commit_binding
bind_new_locked-Ungranted now draws lease_id x mode lease s =
    if_Ungranted s (not (lease_is_free mode x.workline_id s)) _ _ refl
      (elim (Option-cases (first_unused draws s.channels)) [
        | inl stuck ↦ rw stuck refl
        | inr (c, e) ↦ rw e refl
      ])

pub bind_new_channel-Ungranted :
    (digests : Digests) (now : ℕ) (draws : List String) (lease_id : String)
    (given : Option ScopeContext) (mode : Option String) (time : Option ℕ) (disk : DurableRead)
    (s : Broker)
    → Ungranted s (bind_new_channel digests now draws lease_id given mode time disk s).0
unfolding bind_new_channel
bind_new_channel-Ungranted digests now draws lease_id given mode time disk s =
    elim (Checked-cases (bind_new_checked digests given mode time disk)) [
      | inl (r, e) ↦ rw (e, bind_new_channel) refl
      | inr ((x, m, lease), e) ↦
          rw (e, bind_new_channel)
            (bind_new_locked-Ungranted now draws lease_id x m lease (expire_bindings now s)
              ∙ (expire_bindings-SameRest now s).grants)
    ]

pair_request_locked-Ungranted :
    (now : ℕ) (lease_id ref : String) (mode : AccessMode) (lease : ℕ) (x : ScopeContext)
    (o : Option PairingRequest) (s : Broker)
    → Ungranted s (pair_request_locked now lease_id ref mode lease x o s).0
unfolding pair_request_locked consume_ref commit_binding
pair_request_locked-Ungranted now lease_id ref mode lease x none s = refl
pair_request_locked-Ungranted now lease_id ref mode lease x (some q) s =
    if_Ungranted s (not (q.broker_instance_id == s.instance_id)) _ _ refl (
      if_Ungranted s (not (member q.channel_id s.channels)) _ _ refl (
        if_Ungranted s (has q.channel_id s.bindings) _ _ refl
          (if_Ungranted s (not (lease_is_free mode x.workline_id s)) _ _ refl refl)))

pub pair_request-Ungranted :
    (digests : Digests) (now : ℕ) (lease_id : String) (ref workline mode : Option String)
    (ttl_time lease_time : Option ℕ) (disk : DurableRead) (s : Broker)
    → Ungranted s (pair_request digests now lease_id ref workline mode ttl_time lease_time disk s).0
unfolding pair_request
pair_request-Ungranted digests now lease_id ref workline mode ttl_time lease_time disk s =
    elim (Checked-cases (pair_request_checked digests ref workline mode ttl_time lease_time disk)) [
      | inl (r, e) ↦ rw (e, pair_request) refl
      | inr ((rf, m, lease, x), e) ↦
          rw (e, pair_request)
            (let s' = expire_pairing_requests now (expire_bindings now s) in
              pair_request_locked-Ungranted now lease_id rf m lease x (get rf s'.pairing_requests)
                s'
              ∙ expired-Ungranted now s)
    ]

register_finish-Ungranted :
    (y : System) (m : Checked Stored) → Ungranted y.broker (register_finish y m).0.broker
register_finish-Ungranted y (stop r) = refl
register_finish-Ungranted y (go s) = refl

pub register_workline-Ungranted :
    (l : Libraries) (d : Drawn) (contract : Value) (hash : Option String) (access : Access)
    (y : System)
    → Ungranted y.broker (register_workline l d contract hash access y).0.broker
unfolding register_workline
register_workline-Ungranted l d contract hash access y = register_finish-Ungranted y _

refresh_current-Ungranted :
    (channel lease : String) (prior : Binding) (c : ScopeContext) (y : System) (o : Option Binding)
    → Ungranted y.broker (refresh_current channel lease prior c y o).0.broker
unfolding refresh_current
refresh_current-Ungranted channel lease prior c y none = refl
refresh_current-Ungranted channel lease prior c y (some b) =
    elim (Bool-cases (is_still prior lease b)) [
      | inl still ↦ rw still refl
      | inr gone ↦ rw gone refl
    ]

refresh_registered-Ungranted :
    (channel lease : String) (prior : Binding) (y : System) (r : Outcome) (o : Option ScopeContext)
    → Ungranted y.broker (refresh_registered channel lease prior y r o).0.broker
unfolding refresh_registered refresh_second
refresh_registered-Ungranted channel lease prior y r none = refl
refresh_registered-Ungranted channel lease prior y r (some c) =
    refresh_current-Ungranted channel lease prior c y (get channel y.broker.bindings)

refresh_under-Ungranted :
    (l : Libraries) (d : Drawn) (channel lease : String) (contract : Value) (access : Access)
    (y : System) (m : Checked Binding)
    → Ungranted y.broker (refresh_under l d channel lease contract access y m).0.broker
unfolding refresh_under
refresh_under-Ungranted l d channel lease contract access y (stop r) = refl
refresh_under-Ungranted l d channel lease contract access y (go prior) =
    let registered = register_workline l d contract (own_hash l contract) access y in
    refresh_registered-Ungranted channel lease prior registered.0 registered.1
      (ok_context registered.1)
    ∙ register_workline-Ungranted l d contract (own_hash l contract) access y

refresh_with-Ungranted :
    (l : Libraries) (now : ℕ) (d : Drawn) (channel lease : String) (contract : Value)
    (access : Access) (y : System) (m : Checked ContractBinding)
    → Ungranted y.broker (refresh_with l now d channel lease contract access y m).0.broker
unfolding refresh_with
refresh_with-Ungranted l now d channel lease contract access y (stop r) = refl
refresh_with-Ungranted l now d channel lease contract access y (go b) =
    let s = expire_bindings now y.broker in
    refresh_under-Ungranted l d channel lease contract access (record y { broker = s })
      (refresh_first channel lease b s)
    ∙ (expire_bindings-SameRest now y.broker).grants

pub refresh_bound_contract-Ungranted :
    (l : Libraries) (now : ℕ) (d : Drawn) (id lease : Option String) (contract : Value)
    (access : Access) (y : System)
    → Ungranted y.broker (refresh_bound_contract l now d id lease contract access y).0.broker
unfolding refresh_bound_contract
refresh_bound_contract-Ungranted l now d id lease contract access y =
    refresh_with-Ungranted l now d _ _ contract access y _

pub pairing_request_ref-Ungranted :
    (now : ℕ) (drawn : String) (id : Option String) (s : Broker)
    → Ungranted s (pairing_request_ref now drawn id s).0
unfolding pairing_request_ref
pairing_request_ref-Ungranted now drawn id s =
    let channel = safe_string channel_id_re id in
    let s' = expire_pairing_requests now s in
    let k = expire_pairing_requests-Ungranted now s in
    if_Ungranted s (not (filled channel)) (s, "")
      (if not (member channel s'.channels) || has channel s'.bindings
        then (s', "")
        else ensure_pairing_request now drawn channel s')
      refl
      (if_Ungranted s (not (member channel s'.channels) || has channel s'.bindings) (s', "")
        (ensure_pairing_request now drawn channel s') k (ensure-Ungranted now drawn channel s' ∙ k))

pub pairing_request_channel-Ungranted :
    (now : ℕ) (ref : Option String) (s : Broker) → Ungranted s (pairing_request_channel now ref s).0
unfolding pairing_request_channel
pairing_request_channel-Ungranted now ref s =
    let s' = expire_pairing_requests now s in
    let ref_ = safe_string pairing_request_ref_re ref in
    if_Ungranted s (not (filled ref_)) (s, "") (s', live_channel s' (get ref_ s'.pairing_requests))
      refl (expire_pairing_requests-Ungranted now s)
