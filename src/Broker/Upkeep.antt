-- ===== src/Broker/Upkeep.antt =====
-- CORE/runtime/scope_broker.py: `_expire_bindings`, `_ensure_pairing_request_locked`,
-- `_expire_pairing_requests` and `_prune_grants`, which every operation runs on its way.
use super_memory_brain.Base.{
  ℕ, ◌+◌, ◌-◌, String, Bool, true, false, ◌&&◌, ◌||◌, not, Option, none, some, List, [], ◌∷◌, ltb,
  leb, ◌==◌, if◌then◌else◌, length, member, is_some_text, drop,
}
use super_memory_brain.Base.Dict.{Dict, get, put, pop}
use super_memory_brain.Broker.Types.{
  Binding, PairingRequest, GrantRecord, Broker, is_write, max_grants, seconds,
  pairing_request_ref_ttl_seconds,
}

-- Drops the write lease on `w` if the channel holds it.
unfoldable pub release_lease : String → String → Dict String → Dict String
release_lease w channel leases =
    if is_some_text channel (get w leases) then pop w leases else leases

-- Takes the binding of a channel away, and its write lease.
unfoldable pub release : String → Binding → Broker → Broker
unfolding release_lease
release channel binding s = record s {
  bindings = pop channel s.bindings;
  write_leases =
      if is_write binding.access_mode
      then release_lease binding.workline_id channel s.write_leases
      else s.write_leases;
}

-- The loop of `_expire_bindings` over the items that it copied.
unfoldable pub expire_loop : ℕ → Dict Binding → Broker → Broker
unfolding release
expire_loop now [] s = s
expire_loop now ((channel, binding) ∷ items) s =
    expire_loop now items
      (if ltb now binding.lease_expires_at then s else release channel binding s)

unfoldable pub expire_bindings : ℕ → Broker → Broker
unfolding expire_loop
expire_bindings now s = expire_loop now s.bindings s

-- The set that `_expire_bindings` returns.
unfoldable pub expired_channels : ℕ → Dict Binding → List String
expired_channels now [] = []
expired_channels now ((channel, binding) ∷ items) =
    let rest = expired_channels now items in
    if ltb now binding.lease_expires_at then rest else channel ∷ rest

-- The loop of `_expire_pairing_requests` over the items that it copied.
unfoldable pub request_is_stale : ℕ → Broker → PairingRequest → Bool
request_is_stale now s request =
    leb request.expires_at now
    || not (request.broker_instance_id == s.instance_id)
    || not (member request.channel_id s.channels)
    || elim (get request.channel_id s.bindings) [ none ↦ false | some _ ↦ true ]

unfoldable pub drop_request : String → PairingRequest → Broker → Broker
drop_request ref request s = record s {
  pairing_requests = pop ref s.pairing_requests;
  channel_pairing_refs =
      if is_some_text ref (get request.channel_id s.channel_pairing_refs)
      then pop request.channel_id s.channel_pairing_refs
      else s.channel_pairing_refs;
}

unfoldable pub expire_requests_loop : ℕ → Dict PairingRequest → Broker → Broker
unfolding request_is_stale drop_request
expire_requests_loop now [] s = s
expire_requests_loop now ((ref, request) ∷ items) s =
    expire_requests_loop now items
      (if request_is_stale now s request then drop_request ref request s else s)

unfoldable pub expire_pairing_requests : ℕ → Broker → Broker
unfolding expire_requests_loop
expire_pairing_requests now s = expire_requests_loop now s.pairing_requests s

-- Whether a channel's current reference may be handed out again.
unfoldable pub request_is_current : ℕ → Broker → String → Option PairingRequest → Bool
request_is_current now s channel none = false
request_is_current now s channel (some request) =
    request.broker_instance_id == s.instance_id
    && request.channel_id == channel
    && ltb now request.expires_at

unfoldable pub forget_request : Option String → Dict PairingRequest → Dict PairingRequest
forget_request none requests = requests
forget_request (some ref) requests = pop ref requests

-- `drawn` is the text of `"sbpr-" + secrets.token_hex(16)`.
unfoldable pub mint_request : ℕ → String → String → Broker → Broker
unfolding forget_request
mint_request now drawn channel s = record s {
  channel_pairing_refs = put channel drawn s.channel_pairing_refs;
  pairing_requests =
      put drawn
        (record {
          ref = drawn;
          channel_id = channel;
          broker_instance_id = s.instance_id;
          expires_at = now + seconds pairing_request_ref_ttl_seconds;
        })
        (forget_request (get channel s.channel_pairing_refs) s.pairing_requests);
}

unfoldable pub keep_or_mint : ℕ → String → String → Option String → Broker → Broker × String
unfolding request_is_current mint_request
keep_or_mint now drawn channel none s = (mint_request now drawn channel s, drawn)
keep_or_mint now drawn channel (some ref) s =
    if request_is_current now s channel (get ref s.pairing_requests)
    then (s, ref)
    else (mint_request now drawn channel s, drawn)

-- `_ensure_pairing_request_locked` without and with `replace=True`
unfoldable pub ensure_pairing_request : ℕ → String → String → Broker → Broker × String
unfolding keep_or_mint
ensure_pairing_request now drawn channel s =
    keep_or_mint now drawn channel (get channel s.channel_pairing_refs) s

unfoldable pub replace_pairing_request : ℕ → String → String → Broker → Broker × String
unfolding mint_request
replace_pairing_request now drawn channel s = (mint_request now drawn channel s, drawn)

unfoldable pub prune_loop : ℕ → Bool → Dict GrantRecord → Dict GrantRecord → Dict GrantRecord
prune_loop now aggressive [] grants = grants
prune_loop now aggressive ((digest, grant) ∷ items) grants =
    prune_loop now aggressive items
      (if leb grant.expires_at now || (aggressive && grant.used) then pop digest grants else grants)

-- `_prune_grants`: the oldest grants beyond the bound go last.
unfoldable pub prune_grants : ℕ → Bool → Broker → Broker
unfolding prune_loop
prune_grants now aggressive s =
    let grants = prune_loop now aggressive s.grants s.grants in
    record s {
      grants =
          if leb (length grants) max_grants
          then grants
          else drop (length grants - max_grants) grants;
    }
