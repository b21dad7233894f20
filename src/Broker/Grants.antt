-- ===== src/Broker/Grants.antt =====
-- CORE/runtime/scope_broker.py: `issue_pairing_grant`, `attach_channel` and `pair_channel`. Each
-- takes the memory lock twice with the registry read between, so it is two steps here.
use super_memory_brain.Base.{
  ℕ, ◌+◌, String, true, false, not, Option, none, some, List, [], ◌∷◌, leb, ◌==◌, if◌then◌else◌,
  member, length,
}
use super_memory_brain.Base.Dict.{Dict, get, put, pop, has}
use super_memory_brain.Broker.Types.{
  channel_id_invalid, workline_id_invalid, access_mode_invalid, lease_ttl_invalid,
  pairing_ttl_invalid, pairing_grant_invalid, workline_unknown, channel_unknown_or_restarted,
  channel_already_bound, write_lease_held, pairing_capacity, pairing_grant_replayed,
  pairing_grant_expired, pairing_grant_channel_mismatch, channel_bound, withheld, bound, AccessMode,
  ScopeContext, Broker, Outcome, PairingGrant, GrantRecord, failure, success, seconds, timestamp,
  safe_string, parse_mode, ttl, channel_id_re, workline_id_re, pairing_token_re, min_lease_seconds,
  max_lease_seconds, min_grant_ttl_seconds, max_grant_ttl_seconds, max_grants,
}
use super_memory_brain.Broker.Checked.{Checked, stop, go, ◌>>=◌, ◌>>◌, require, require_some}
use super_memory_brain.Broker.Registry.{Digests, DurableRead, filled, find_workline}
use super_memory_brain.Broker.Upkeep.{expire_bindings, expire_pairing_requests, prune_grants}
use super_memory_brain.Broker.Channels.{forget_ref}
use super_memory_brain.Broker.Pairing.{commit_binding, new_binding, lease_is_free}

-- `PairingGrant | ScopeBrokerResult`, and the loop over tokens that still draws
pub data Issued : Type 0 where
  granted : PairingGrant → Issued
  refused : Outcome → Issued
  drawing : Issued

unfoldable pub issue_checked :
    Option String
    → Option String
    → Option String
    → Option ℕ
    → Checked (String × String × AccessMode × ℕ)
unfolding filled
issue_checked channel_id workline_id access_mode ttl_seconds = do
  let channel = safe_string channel_id_re channel_id
  let workline = safe_string workline_id_re workline_id
  require (filled channel) channel_id_invalid
  require (filled workline) workline_id_invalid
  mode ← require_some (parse_mode access_mode) access_mode_invalid
  time ←
      require_some (ttl ttl_seconds min_grant_ttl_seconds max_grant_ttl_seconds) pairing_ttl_invalid
  go (channel, workline, mode, time)

-- The channel is open and not bound.
unfoldable pub channel_is_free : String → Broker → Checked (Unit {0})
channel_is_free channel s = do
  require (member channel s.channels) channel_unknown_or_restarted
  require (not (has channel s.bindings)) channel_already_bound

-- the first memory lock
unfoldable pub issue_first : ℕ → Broker → Broker
unfolding expire_bindings prune_grants
issue_first now s = prune_grants now false (expire_bindings now s)

unfoldable pub first_unused_token : Digests → List String → Dict GrantRecord → Option String
first_unused_token digests [] grants = none
first_unused_token digests (token ∷ tokens) grants =
    let rest = first_unused_token digests tokens grants in
    if has (digests.token_hash token) grants then rest else some token

unfoldable pub make_room : ℕ → Broker → Broker
unfolding prune_grants
make_room now s = if leb max_grants (length s.grants) then prune_grants now true s else s

unfoldable pub store_grant :
    Digests → String → String → AccessMode → ℕ → Option String → Broker → Broker × Issued
store_grant digests channel workline mode expires none s = (s, drawing)
store_grant digests channel workline mode expires (some token) s = (
  record s {
    grants =
        put (digests.token_hash token)
          (record {
            channel_id = channel;
            workline_id = workline;
            access_mode = mode;
            expires_at = expires;
            used = false;
          })
          s.grants;
  },
  granted (record { token = token; expires_at = timestamp expires; access_mode = mode }),
)

-- the second memory lock
unfoldable pub issue_second :
    Digests → ℕ → List String → String → String → AccessMode → ℕ → Broker → Broker × Issued
unfolding make_room channel_is_free first_unused_token store_grant expire_bindings
issue_second digests now tokens channel workline mode time s =
    let s' = make_room now (expire_bindings now s) in
    elim (do
      require (not (leb max_grants (length s'.grants))) pairing_capacity
      channel_is_free channel s') [
        | stop r ↦ (s', refused r)
        | go _ ↦
            store_grant digests channel workline mode (now + seconds time)
              (first_unused_token digests tokens s'.grants) s'
      ]

unfoldable pub issue_pairing_grant :
    Digests
    → ℕ
    → List String
    → Option String
    → Option String
    → Option String
    → Option ℕ
    → DurableRead
    → Broker
    → Broker × Issued
unfolding issue_checked issue_first issue_second find_workline channel_is_free
issue_pairing_grant digests now tokens channel_id workline_id access_mode ttl_seconds disk s =
    elim (issue_checked channel_id workline_id access_mode ttl_seconds) [
      | stop r ↦ (s, refused r)
      | go (channel, workline, mode, time) ↦
          let s' = issue_first now s in
          elim (do channel_is_free channel s'; find_workline digests workline disk) [
            | stop r ↦ (s', refused r)
            | go _ ↦ issue_second digests now tokens channel workline mode time s'
          ]
    ]

unfoldable pub attach_checked :
    Option String → Option String → Option ℕ → Checked (String × String × ℕ)
unfolding filled
attach_checked channel_id pairing_grant lease_seconds = do
  let channel = safe_string channel_id_re channel_id
  require (filled channel) channel_id_invalid
  token ← require_some pairing_grant pairing_grant_invalid
  require (pairing_token_re token) pairing_grant_invalid
  lease ← require_some (ttl lease_seconds min_lease_seconds max_lease_seconds) lease_ttl_invalid
  go (channel, token, lease)

abbrev grant_is_valid : ℕ → GrantRecord → Checked (Unit {0})
grant_is_valid now grant = do
  require (not grant.used) pairing_grant_replayed
  require (not (leb grant.expires_at now)) pairing_grant_expired

abbrev grant_fits : String → Broker → GrantRecord → Checked (Unit {0})
grant_fits channel s grant = do
  require (grant.channel_id == channel) pairing_grant_channel_mismatch
  require (lease_is_free grant.access_mode grant.workline_id s) write_lease_held

-- the tests under the first memory lock
unfoldable pub attach_first : ℕ → String → String → Broker → Checked GrantRecord
unfolding channel_is_free
attach_first now channel digest s = do
  channel_is_free channel s
  grant ← require_some (get digest s.grants) pairing_grant_invalid
  grant_is_valid now grant
  grant_fits channel s grant
  go grant

-- the tests under the second, in another order
unfoldable pub attach_again : ℕ → String → String → Broker → Checked GrantRecord
unfolding channel_is_free
attach_again now channel digest s = do
  grant ← require_some (get digest s.grants) pairing_grant_invalid
  grant_is_valid now grant
  channel_is_free channel s
  grant_fits channel s grant
  go grant

unfoldable pub consume_grant :
    ℕ → String → String → String → ℕ → ScopeContext → GrantRecord → Broker → Broker × Outcome
unfolding commit_binding forget_ref
consume_grant now lease_id channel digest lease context grant s =
    let binding = new_binding now lease grant.workline_id grant.access_mode lease_id context in
    let s' = forget_ref channel (commit_binding channel binding s) in
    (
      record s' { grants = put digest (record grant { used = true }) s'.grants },
      success channel_bound bound binding,
    )

unfoldable pub attach_second :
    ℕ → String → String → String → ℕ → ScopeContext → Broker → Broker × Outcome
unfolding attach_again consume_grant expire_bindings
attach_second now lease_id channel digest lease context s =
    let s' = expire_bindings now s in
    elim (attach_again now channel digest s') [
      | stop r ↦ (s', r)
      | go grant ↦ consume_grant now lease_id channel digest lease context grant s'
    ]

-- `get_workline` between the locks: any failure there, or a missing context, is one code.
unfoldable pub attach_context : Digests → GrantRecord → DurableRead → Checked ScopeContext
unfolding find_workline
attach_context digests grant disk = elim (find_workline digests grant.workline_id disk) [
  | stop r ↦ stop (failure workline_unknown withheld)
  | go context ↦ require_some context workline_unknown
]

unfoldable pub attach_channel :
    Digests
    → ℕ
    → String
    → Option String
    → Option String
    → Option ℕ
    → DurableRead
    → Broker
    → Broker × Outcome
unfolding attach_checked attach_first attach_context attach_second expire_bindings
    expire_pairing_requests
attach_channel digests now lease_id channel_id pairing_grant lease_seconds disk s =
    elim (attach_checked channel_id pairing_grant lease_seconds) [
      | stop r ↦ (s, r)
      | go (channel, token, lease) ↦
          let digest = digests.token_hash token in
          let s' = expire_pairing_requests now (expire_bindings now s) in
          elim (do grant ← attach_first now channel digest s'; attach_context digests grant disk) [
            | stop r ↦ (s', r)
            | go context ↦ attach_second now lease_id channel digest lease context s'
          ]
    ]

-- The part of `pair_channel` after its `issue_pairing_grant`.
unfoldable pub attach_issued :
    Digests
    → ℕ
    → String
    → Option String
    → Option ℕ
    → DurableRead
    → Issued
    → Broker
    → Broker × Option Outcome
unfolding attach_channel
attach_issued digests now lease_id channel_id lease_seconds disk (refused r) s = (s, some r)
attach_issued digests now lease_id channel_id lease_seconds disk drawing s = (s, none)
attach_issued digests now lease_id channel_id lease_seconds disk (granted grant) s =
    let (s', result) =
      attach_channel digests now lease_id channel_id (some grant.token) lease_seconds disk s in
    if result.ok
    then (s', some result)
    else (record s' { grants = pop (digests.token_hash grant.token) s'.grants }, some result)

-- The answer is `none` while the token loop still draws.
unfoldable pub pair_channel :
    Digests
    → ℕ
    → List String
    → String
    → Option String
    → Option String
    → Option String
    → Option ℕ
    → Option ℕ
    → DurableRead
    → DurableRead
    → Broker
    → Broker × Option Outcome
unfolding issue_pairing_grant attach_issued
pair_channel digests now tokens lease_id id workline mode time lease_seconds disk disk' s =
    let (s', issued) = issue_pairing_grant digests now tokens id workline mode time disk s in
    attach_issued digests now lease_id id lease_seconds disk' issued s'
