-- ===== src/Broker/Pairing.antt =====
-- CORE/runtime/scope_broker.py: the operations that bind a channel to a workline, by a new
-- channel, by a pairing request reference, or by a one-shot grant.
-- `disk` is the outcome of the registry read, `lease_id` the value of
-- `"sbl-" + secrets.token_hex(16)`, and `tokens` the successive values of
-- `"sbpg-v1." + secrets.token_urlsafe(32)`.
use super_memory_brain.Base.{
  ℕ, ◌+◌, String, Bool, ◌&&◌, not, Option, none, some, List, ◌∷◌, leb, ◌==◌, if◌then◌else◌, member,
}
use super_memory_brain.Base.Dict.{get, put, pop, has}
use super_memory_brain.Broker.Types.{
  workline_id_invalid, access_mode_invalid, lease_ttl_invalid, pairing_ttl_invalid,
  pairing_request_ref_invalid, registry_invalid, workline_unknown, channel_unknown_or_restarted,
  channel_already_bound, write_lease_held, contract_stale, context_invalid,
  pairing_request_ref_expired, pairing_request_ref_instance_mismatch, channel_bound, withheld,
  bound, AccessMode, ScopeContext, Binding, Broker, Outcome, PairingRequest, failure, failure_with,
  success, seconds, is_write, safe_string, parse_mode, ttl, workline_id_re, pairing_request_ref_re,
  min_lease_seconds, max_lease_seconds, min_grant_ttl_seconds, max_grant_ttl_seconds,
}
use super_memory_brain.Broker.Checked.{Checked, stop, go, ◌>>=◌, ◌>>◌, require, require_some}
use super_memory_brain.Broker.Registry.{
  Digests, DurableRead, filled, read_registry, records_of, exactly_one, context_from_record,
}
use super_memory_brain.Broker.Upkeep.{expire_bindings, expire_pairing_requests}
use super_memory_brain.Broker.Channels.{first_unused}

-- `self._bindings[channel] = binding`, and the write lease of a write binding
unfoldable pub commit_binding : String → Binding → Broker → Broker
commit_binding channel binding s = record s {
  bindings = put channel binding s.bindings;
  write_leases =
      if is_write binding.access_mode
      then put binding.workline_id channel s.write_leases
      else s.write_leases;
}

abbrev pub new_binding : ℕ → ℕ → String → AccessMode → String → ScopeContext → Binding
new_binding now lease workline mode lease_id context = record {
  workline_id = workline;
  context = context;
  access_mode = mode;
  lease_id = lease_id;
  lease_expires_at = now + seconds lease;
}

-- `mode == "write" and workline in self._write_leases`, negated
abbrev pub lease_is_free : AccessMode → String → Broker → Bool
lease_is_free mode workline s = not (is_write mode && has workline s.write_leases)

-- The one record of a workline, as a context.
unfoldable pub read_context : Digests → String → DurableRead → Checked ScopeContext
unfolding read_registry records_of exactly_one
read_context digests workline disk = do
  items ← read_registry disk
  item ← require_some (exactly_one (records_of workline items)) workline_unknown
  require_some (context_from_record digests item) registry_invalid

abbrev pub is_same_context : ScopeContext → ScopeContext → Bool
is_same_context a b =
    a.session_id == b.session_id
    && a.workline_id == b.workline_id
    && a.workspace_key == b.workspace_key
    && a.owner_session_key == b.owner_session_key
    && a.task_id == b.task_id
    && a.task_instance_id == b.task_instance_id
    && a.package_version == b.package_version
    && leb a.contract_revision b.contract_revision
    && leb b.contract_revision a.contract_revision
    && a.contract_hash == b.contract_hash
    && a.scope_ref == b.scope_ref

-- What the validation and the durable read of `bind_new_channel` settle.
unfoldable pub bind_new_checked :
    Digests
    → Option ScopeContext
    → Option String
    → Option ℕ
    → DurableRead
    → Checked (ScopeContext × AccessMode × ℕ)
unfolding read_context
bind_new_checked digests given access_mode lease_seconds disk = do
  context ← require_some given context_invalid
  mode ← require_some (parse_mode access_mode) access_mode_invalid
  lease ← require_some (ttl lease_seconds min_lease_seconds max_lease_seconds) lease_ttl_invalid
  current ← read_context digests context.workline_id disk
  if is_same_context current context
      then go (context, mode, lease)
      else stop (failure_with contract_stale withheld (some current))

-- The part of `bind_new_channel` under the memory lock, after the expiry pass. The answer is
-- `none` while every draw so far is in use: the source's loop goes on drawing.
unfoldable pub bind_new_locked :
    ℕ
    → List String
    → String
    → ScopeContext
    → AccessMode
    → ℕ
    → Broker
    → Broker × Option (String × Outcome)
unfolding first_unused commit_binding
bind_new_locked now draws lease_id context mode lease s =
    if not (lease_is_free mode context.workline_id s)
    then (s, some ("", failure_with write_lease_held withheld (some context)))
    else elim (first_unused draws s.channels) [
      | none ↦ (s, none)
      | some channel ↦
          let binding = new_binding now lease context.workline_id mode lease_id context in
          (
            commit_binding channel binding (record s { channels = channel ∷ s.channels }),
            some (channel, success channel_bound bound binding),
          )
    ]

unfoldable pub bind_new_channel :
    Digests
    → ℕ
    → List String
    → String
    → Option ScopeContext
    → Option String
    → Option ℕ
    → DurableRead
    → Broker
    → Broker × Option (String × Outcome)
unfolding bind_new_checked bind_new_locked expire_bindings
bind_new_channel digests now draws lease_id given access_mode lease_seconds disk s =
    elim (bind_new_checked digests given access_mode lease_seconds disk) [
      | stop r ↦ (s, some ("", r))
      | go (context, mode, lease) ↦
          bind_new_locked now draws lease_id context mode lease (expire_bindings now s)
    ]

-- What the validation and the durable read of `pair_request` settle.
unfoldable pub pair_request_checked :
    Digests
    → Option String
    → Option String
    → Option String
    → Option ℕ
    → Option ℕ
    → DurableRead
    → Checked (String × AccessMode × ℕ × ScopeContext)
unfolding read_context filled
pair_request_checked digests request_ref workline_id access_mode ttl_seconds lease_seconds disk = do
  let ref = safe_string pairing_request_ref_re request_ref
  let workline = safe_string workline_id_re workline_id
  require (filled ref) pairing_request_ref_invalid
  require (filled workline) workline_id_invalid
  mode ← require_some (parse_mode access_mode) access_mode_invalid
  _ ← require_some (ttl ttl_seconds min_grant_ttl_seconds max_grant_ttl_seconds) pairing_ttl_invalid
  lease ← require_some (ttl lease_seconds min_lease_seconds max_lease_seconds) lease_ttl_invalid
  context ← read_context digests workline disk
  go (ref, mode, lease, context)

-- `self._pairing_requests.pop(ref, None)` and `self._channel_pairing_refs.pop(channel_id, None)`
unfoldable pub consume_ref : String → String → Broker → Broker
consume_ref ref channel s = record s {
  pairing_requests = pop ref s.pairing_requests;
  channel_pairing_refs = pop channel s.channel_pairing_refs;
}

-- The part of `pair_request` under the memory lock, after the expiry passes.
unfoldable pub pair_request_locked :
    ℕ
    → String
    → String
    → AccessMode
    → ℕ
    → ScopeContext
    → Option PairingRequest
    → Broker
    → Broker × Outcome
unfolding consume_ref commit_binding
pair_request_locked now lease_id ref mode lease context none s =
    (s, failure pairing_request_ref_expired withheld)
pair_request_locked now lease_id ref mode lease context (some request) s =
    if not (request.broker_instance_id == s.instance_id)
    then (s, failure pairing_request_ref_instance_mismatch withheld)
    else if not (member request.channel_id s.channels)
    then (consume_ref ref request.channel_id s, failure channel_unknown_or_restarted withheld)
    else if has request.channel_id s.bindings
    then (s, failure channel_already_bound withheld)
    else if not (lease_is_free mode context.workline_id s)
    then (s, failure write_lease_held withheld)
    else let binding = new_binding now lease context.workline_id mode lease_id context in
      (
        consume_ref ref request.channel_id (commit_binding request.channel_id binding s),
        success channel_bound bound binding,
      )

unfoldable pub pair_request :
    Digests
    → ℕ
    → String
    → Option String
    → Option String
    → Option String
    → Option ℕ
    → Option ℕ
    → DurableRead
    → Broker
    → Broker × Outcome
unfolding pair_request_checked pair_request_locked expire_bindings expire_pairing_requests
pair_request digests now lease_id request_ref workline_id access_mode ttl_seconds lease_seconds disk
      s =
    elim (pair_request_checked digests request_ref workline_id access_mode ttl_seconds lease_seconds
      disk) [
        | stop r ↦ (s, r)
        | go (ref, mode, lease, context) ↦
            let s' = expire_pairing_requests now (expire_bindings now s) in
            pair_request_locked now lease_id ref mode lease context (get ref s'.pairing_requests) s'
      ]
