-- ===== src/Broker/Channels.antt =====
-- CORE/runtime/scope_broker.py: the channel operations of `ScopeBroker` that need no registry.
-- `now` is the clock. `draws` are the successive values of `"sbc-" + secrets.token_hex(16)`, and
-- `drawn` is the value of `"sbpr-" + secrets.token_hex(16)`.
use Prim.Native.Nat.{Ordering}
use Prim.Native.String.{compare}
use super_memory_brain.Base.{
  ℕ, ◌+◌, String, Bool, true, false, ◌&&◌, not, Option, none, some, List, [], ◌∷◌, map, ◌==◌,
  if◌then◌else◌, member,
}
use super_memory_brain.Base.Dict.{get, put, pop}
use super_memory_brain.Broker.Types.{
  Code, channel_id_invalid, lease_id_invalid, lease_ttl_invalid, channel_unknown_or_restarted,
  channel_lease_expired, channel_unbound, channel_bound, broker_context_missing, write_flag_invalid,
  write_lease_required, authorized, lease_mismatch, lease_renewed, channel_detached, channel_closed,
  withheld, unbound, bound, authorized_state, closed, AccessMode, Binding, Broker, Outcome, failure,
  failure_with, success, seconds, is_write, safe_string, ttl, channel_id_re, lease_id_re,
  min_lease_seconds, max_lease_seconds,
}
use super_memory_brain.Broker.Registry.{filled}
use super_memory_brain.Broker.Upkeep.{
  release, expire_bindings, expired_channels, expire_pairing_requests, ensure_pairing_request,
  replace_pairing_request, mint_request,
}

-- The loop that draws identifiers until one is unused.
unfoldable pub first_unused : List String → List String → Option String
first_unused [] channels = none
first_unused (id ∷ draws) channels =
    let rest = first_unused draws channels in if member id channels then rest else some id

unfoldable pub admit_channel : ℕ → String → String → Broker → Broker
unfolding mint_request
admit_channel now drawn channel s =
    mint_request now drawn channel (record s { channels = channel ∷ s.channels })

-- `open_channel_with_ref`; `none` if every draw is in use
unfoldable pub open_channel : ℕ → List String → String → Broker → Broker × Option (String × String)
unfolding first_unused admit_channel
open_channel now draws drawn s = elim (first_unused draws s.channels) [
  | none ↦ (s, none)
  | some channel ↦ (admit_channel now drawn channel s, some (channel, drawn))
]

-- `_channel_status_locked` with `include_pairing_request_ref=True`
abbrev pub with_ref : Outcome → Broker × String → Broker × Outcome
with_ref outcome (s, ref) = (s, record outcome { pairing_request_ref = ref })

abbrev pub unbound_outcome : Bool → Code → Outcome
unbound_outcome ok code = record (failure code unbound) { ok = ok }

unfoldable pub bound_status : ℕ → String → String → Option Binding → Broker → Broker × Outcome
bound_status now drawn channel none s =
    with_ref (unbound_outcome true channel_unbound) (ensure_pairing_request now drawn channel s)
bound_status now drawn channel (some binding) s = (s, success channel_bound bound binding)

unfoldable pub channel_status : ℕ → String → String → List String → Broker → Broker × Outcome
unfolding bound_status
channel_status now drawn channel expired s =
    if not (member channel s.channels)
    then (s, failure channel_unknown_or_restarted withheld)
    else if member channel expired
    then with_ref (unbound_outcome false channel_lease_expired)
        (ensure_pairing_request now drawn channel s)
    else bound_status now drawn channel (get channel s.bindings) s

-- The expiry passes at the head of `status` and others.
unfoldable pub expire_all : ℕ → Broker → Broker
unfolding expire_bindings expire_pairing_requests
expire_all now s = expire_pairing_requests now (expire_bindings now s)

unfoldable pub status : ℕ → String → Option String → Broker → Broker × Outcome
unfolding channel_status expire_all expired_channels
status now drawn channel_id s =
    let channel = safe_string channel_id_re channel_id in
    if not (filled channel)
    then (s, failure channel_id_invalid withheld)
    else channel_status now drawn channel (expired_channels now s.bindings) (expire_all now s)

-- `list_channel_statuses`: the same without minting references, over the sorted channels.
unfoldable pub plain_status : List String → Broker → String → Outcome
plain_status expired s channel =
    if not (member channel s.channels)
    then failure channel_unknown_or_restarted withheld
    else if member channel expired
    then unbound_outcome false channel_lease_expired
    else elim (get channel s.bindings) [
      | none ↦ unbound_outcome true channel_unbound
      | some binding ↦ success channel_bound bound binding
    ]

unfoldable pub insert_sorted : String → List String → List String
insert_sorted a [] = a ∷ []
insert_sorted a (b ∷ rest) = elim (compare a b) [
  | Ordering.gt ↦ b ∷ insert_sorted a rest
  | _ ↦ a ∷ b ∷ rest
]

unfoldable pub sorted : List String → List String
unfolding insert_sorted
sorted [] = []
sorted (a ∷ rest) = insert_sorted a (sorted rest)

unfoldable pub list_channel_statuses : ℕ → Broker → Broker × List (String × Outcome)
unfolding plain_status sorted expire_all expired_channels
list_channel_statuses now s =
    let s' = expire_all now s in
    (
      s',
      map (λ channel. (channel, plain_status (expired_channels now s.bindings) s' channel))
          (sorted s'.channels),
    )

abbrev pub allows_write : Option AccessMode → Bool
allows_write none = false
allows_write (some mode) = is_write mode

-- `authorize`, from the result of `status`
unfoldable pub authorize_result : Bool → Outcome → Outcome
authorize_result write result = if not result.ok then result else elim result.context [
  | none ↦ elim result.state [
    | unbound ↦ failure channel_unbound unbound
    | _ ↦ elim result.code [
      | channel_unbound ↦ failure channel_unbound unbound
      | _ ↦ failure broker_context_missing withheld
    ]
  ]
  | some context ↦
      if write && not (allows_write result.access_mode)
      then failure_with write_lease_required withheld (some context)
      else record {
        ok = true;
        code = authorized;
        state = authorized_state;
        context = some context;
        access_mode = result.access_mode;
        lease_id = result.lease_id;
        lease_expires_at = result.lease_expires_at;
        pairing_request_ref = "";
      }
]

unfoldable pub authorize : ℕ → String → Option String → Option Bool → Broker → Broker × Outcome
unfolding status authorize_result
authorize now drawn channel_id none s = (s, failure write_flag_invalid withheld)
authorize now drawn channel_id (some write) s =
    let (s', result) = status now drawn channel_id s in (s', authorize_result write result)

unfoldable pub renew_bound : ℕ → ℕ → String → String → Option Binding → Broker → Broker × Outcome
renew_bound now duration channel lease_token none s = (s, failure channel_unbound unbound)
renew_bound now duration channel lease_token (some binding) s =
    if not (binding.lease_id == lease_token)
    then (s, failure lease_mismatch withheld)
    else let renewed = record binding { lease_expires_at = now + seconds duration } in
      (record s { bindings = put channel renewed s.bindings }, success lease_renewed bound renewed)

unfoldable pub renew_checked : ℕ → ℕ → String → String → List String → Broker → Broker × Outcome
unfolding renew_bound
renew_checked now duration channel lease_token expired s =
    if not (member channel s.channels)
    then (s, failure channel_unknown_or_restarted withheld)
    else if member channel expired
    then (s, failure channel_lease_expired unbound)
    else renew_bound now duration channel lease_token (get channel s.bindings) s

unfoldable pub renew_lease :
    ℕ → Option String → Option String → Option ℕ → Broker → Broker × Outcome
unfolding renew_checked expire_bindings expired_channels
renew_lease now channel_id lease_id lease_seconds s =
    let channel = safe_string channel_id_re channel_id in
    let lease_token = safe_string lease_id_re lease_id in
    if not (filled channel && filled lease_token)
    then (s, failure lease_id_invalid withheld)
    else elim (ttl lease_seconds min_lease_seconds max_lease_seconds) [
      | none ↦ (s, failure lease_ttl_invalid withheld)
      | some duration ↦
          renew_checked now duration channel lease_token (expired_channels now s.bindings)
            (expire_bindings now s)
    ]

unfoldable pub detach_bound : ℕ → String → String → Option Binding → Broker → Broker × Outcome
unfolding release replace_pairing_request ensure_pairing_request
detach_bound now drawn channel none s =
    with_ref (unbound_outcome true channel_unbound) (ensure_pairing_request now drawn channel s)
detach_bound now drawn channel (some binding) s =
    with_ref
      (record (unbound_outcome true channel_detached) {
        context = some binding.context;
        access_mode = some binding.access_mode;
      })
      (replace_pairing_request now drawn channel (release channel binding s))

unfoldable pub detach_channel : ℕ → String → Option String → Broker → Broker × Outcome
unfolding detach_bound
detach_channel now drawn channel_id s =
    let channel = safe_string channel_id_re channel_id in
    if not (filled channel)
    then (s, failure channel_id_invalid withheld)
    else if not (member channel s.channels)
    then (s, failure channel_unknown_or_restarted withheld)
    else detach_bound now drawn channel (get channel s.bindings) s

unfoldable pub without : String → List String → List String
without k [] = []
without k (j ∷ names) = let rest = without k names in if j == k then rest else j ∷ rest

-- `ref = self._channel_pairing_refs.pop(channel, "")`, and the request behind it
unfoldable pub forget_ref : String → Broker → Broker
forget_ref channel s = record s {
  channel_pairing_refs = pop channel s.channel_pairing_refs;
  pairing_requests = elim (get channel s.channel_pairing_refs) [
    | none ↦ s.pairing_requests
    | some ref ↦ pop ref s.pairing_requests
  ];
}

unfoldable pub close_detached : String → Broker × Outcome → Broker × Outcome
unfolding forget_ref without
close_detached channel (s, result) = if not result.ok then (s, result) else (
  forget_ref channel (record s { channels = without channel s.channels }),
  record (failure_with channel_closed closed result.context) { ok = true },
)

unfoldable pub close_channel : ℕ → String → Option String → Broker → Broker × Outcome
unfolding close_detached detach_channel
close_channel now drawn channel_id s =
    close_detached (safe_string channel_id_re channel_id) (detach_channel now drawn channel_id s)
