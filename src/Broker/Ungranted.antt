-- ===== src/Broker/Ungranted.antt =====
-- The operations of scope_broker.py that leave its pairing grants alone.
use super_memory_brain.Base.{
  ℕ, String, ◌≡◌, refl, ◌∙◌, Bool, true, false, not, ◌&&◌, ◌==◌, Option, none, some, List, [], ◌∷◌,
  member, if◌then◌else◌, Option-cases, inl, inr,
}
use super_memory_brain.Base.Dict.{Dict, get}
use super_memory_brain.Broker.Types.{
  Binding, Broker, Outcome, PairingRequest, ttl, min_lease_seconds, max_lease_seconds,
}
use super_memory_brain.Broker.Registry.{filled}
use super_memory_brain.Broker.Upkeep.{
  expire_bindings, request_is_stale, drop_request, expire_requests_loop, expire_pairing_requests,
  mint_request, request_is_current, keep_or_mint, ensure_pairing_request, replace_pairing_request,
  release,
}
use super_memory_brain.Broker.Channels.{
  first_unused, admit_channel, open_channel, bound_status, channel_status, expire_all, status,
  list_channel_statuses, authorize, renew_bound, renew_checked, renew_lease, detach_bound,
  detach_channel, forget_ref, close_detached, close_channel,
}
use super_memory_brain.Broker.Expiry.{expire_bindings-SameRest}

-- The grants are those of `s`.
abbrev pub Ungranted : Broker → Broker → Type 0
Ungranted s t = t.grants ≡ s.grants

pub if_Ungranted :
    {A : Type 0} (s : Broker) (b : Bool) (x y : Broker × A)
    → Ungranted s x.0
    → Ungranted s y.0
    → Ungranted s (if b then x else y).0
if_Ungranted s true x y h k = h
if_Ungranted s false x y h k = k

drop_stale-Ungranted :
    (stale : Bool) (ref : String) (request : PairingRequest) (s : Broker)
    → Ungranted s (if stale then drop_request ref request s else s)
unfolding drop_request
drop_stale-Ungranted true ref request s = refl
drop_stale-Ungranted false ref request s = refl

expire_requests_loop-Ungranted :
    (now : ℕ) (items : Dict PairingRequest) (s : Broker)
    → Ungranted s (expire_requests_loop now items s)
unfolding expire_requests_loop
expire_requests_loop-Ungranted now [] s = refl
expire_requests_loop-Ungranted now ((ref, request) ∷ items) s =
    expire_requests_loop-Ungranted now items
      (if request_is_stale now s request then drop_request ref request s else s)
    ∙ drop_stale-Ungranted (request_is_stale now s request) ref request s

pub expire_pairing_requests-Ungranted :
    (now : ℕ) (s : Broker) → Ungranted s (expire_pairing_requests now s)
unfolding expire_pairing_requests
expire_pairing_requests-Ungranted now s = expire_requests_loop-Ungranted now s.pairing_requests s

-- The expiry passes at the head of most operations.
pub expired-Ungranted :
    (now : ℕ) (s : Broker) → Ungranted s (expire_pairing_requests now (expire_bindings now s))
expired-Ungranted now s =
    expire_pairing_requests-Ungranted now (expire_bindings now s)
    ∙ (expire_bindings-SameRest now s).grants

keep_or_mint-Ungranted :
    (now : ℕ) (drawn c : String) (o : Option String) (s : Broker)
    → Ungranted s (keep_or_mint now drawn c o s).0
unfolding keep_or_mint mint_request
keep_or_mint-Ungranted now drawn c none s = refl
keep_or_mint-Ungranted now drawn c (some ref) s =
    if_Ungranted s (request_is_current now s c (get ref s.pairing_requests)) _ _ refl refl

pub ensure-Ungranted :
    (now : ℕ) (drawn c : String) (s : Broker) → Ungranted s (ensure_pairing_request now drawn c s).0
unfolding ensure_pairing_request
ensure-Ungranted now drawn c s = keep_or_mint-Ungranted now drawn c (get c s.channel_pairing_refs) s

bound_status-Ungranted :
    (now : ℕ) (drawn c : String) (o : Option Binding) (s : Broker)
    → Ungranted s (bound_status now drawn c o s).0
unfolding bound_status
bound_status-Ungranted now drawn c none s = ensure-Ungranted now drawn c s
bound_status-Ungranted now drawn c (some b) s = refl

channel_status-Ungranted :
    (now : ℕ) (drawn c : String) (expired : List String) (s : Broker)
    → Ungranted s (channel_status now drawn c expired s).0
unfolding channel_status
channel_status-Ungranted now drawn c expired s =
    if_Ungranted s (not (member c s.channels)) _ _ refl (
      if_Ungranted s (member c expired) _ _ (ensure-Ungranted now drawn c s)
        (bound_status-Ungranted now drawn c (get c s.bindings) s))

pub status-Ungranted :
    (now : ℕ) (drawn : String) (id : Option String) (s : Broker)
    → Ungranted s (status now drawn id s).0
unfolding status expire_all
status-Ungranted now drawn id s =
    if_Ungranted s (not (filled _)) _ _ refl
      (channel_status-Ungranted now drawn _ _ (expire_all now s) ∙ expired-Ungranted now s)

pub list_channel_statuses-Ungranted :
    (now : ℕ) (s : Broker) → Ungranted s (list_channel_statuses now s).0
unfolding list_channel_statuses expire_all
list_channel_statuses-Ungranted now s = expired-Ungranted now s

pub authorize-Ungranted :
    (now : ℕ) (drawn : String) (id : Option String) (w : Option Bool) (s : Broker)
    → Ungranted s (authorize now drawn id w s).0
unfolding authorize
authorize-Ungranted now drawn id none s = refl
authorize-Ungranted now drawn id (some w) s = status-Ungranted now drawn id s

pub open_channel-Ungranted :
    (now : ℕ) (draws : List String) (drawn : String) (s : Broker)
    → Ungranted s (open_channel now draws drawn s).0
unfolding open_channel admit_channel mint_request
open_channel-Ungranted now draws drawn s = elim (Option-cases (first_unused draws s.channels)) [
  | inl stuck ↦ rw (stuck, open_channel) refl
  | inr (c, e) ↦ rw (e, open_channel) refl
]

renew_bound-Ungranted :
    (now duration : ℕ) (c token : String) (o : Option Binding) (s : Broker)
    → Ungranted s (renew_bound now duration c token o s).0
unfolding renew_bound
renew_bound-Ungranted now duration c token none s = refl
renew_bound-Ungranted now duration c token (some b) s =
    if_Ungranted s (not (b.lease_id == token)) _ _ refl refl

renew_checked-Ungranted :
    (now duration : ℕ) (c token : String) (expired : List String) (s : Broker)
    → Ungranted s (renew_checked now duration c token expired s).0
unfolding renew_checked
renew_checked-Ungranted now duration c token expired s =
    if_Ungranted s (not (member c s.channels)) _ _ refl (
      if_Ungranted s (member c expired) _ _ refl
        (renew_bound-Ungranted now duration c token (get c s.bindings) s))

pub renew_lease-Ungranted :
    (now : ℕ) (id lease : Option String) (time : Option ℕ) (s : Broker)
    → Ungranted s (renew_lease now id lease time s).0
unfolding renew_lease
renew_lease-Ungranted now id lease time s =
    if_Ungranted s (not (filled _ && filled _)) _ _ refl
      (elim (Option-cases (ttl time min_lease_seconds max_lease_seconds)) [
        | inl bad ↦ rw bad refl
        | inr (duration, e) ↦ rw e (
            renew_checked-Ungranted now duration _ _ _ (expire_bindings now s)
            ∙ (expire_bindings-SameRest now s).grants)
      ])

detach_bound-Ungranted :
    (now : ℕ) (drawn c : String) (o : Option Binding) (s : Broker)
    → Ungranted s (detach_bound now drawn c o s).0
unfolding detach_bound replace_pairing_request mint_request release
detach_bound-Ungranted now drawn c none s = ensure-Ungranted now drawn c s
detach_bound-Ungranted now drawn c (some b) s = refl

pub detach_channel-Ungranted :
    (now : ℕ) (drawn : String) (id : Option String) (s : Broker)
    → Ungranted s (detach_channel now drawn id s).0
unfolding detach_channel
detach_channel-Ungranted now drawn id s = if_Ungranted s (not (filled _)) _ _ refl (
    if_Ungranted s (not (member _ s.channels)) _ _ refl
      (detach_bound-Ungranted now drawn _ (get _ s.bindings) s))

close_detached-Ungranted :
    (c : String) (x : Broker × Outcome) → Ungranted x.0 (close_detached c x).0
unfolding close_detached forget_ref
close_detached-Ungranted c (s, r) = if_Ungranted s (not r.ok) _ _ refl refl

pub close_channel-Ungranted :
    (now : ℕ) (drawn : String) (id : Option String) (s : Broker)
    → Ungranted s (close_channel now drawn id s).0
unfolding close_channel
close_channel-Ungranted now drawn id s =
    close_detached-Ungranted _ (detach_channel now drawn id s)
    ∙ detach_channel-Ungranted now drawn id s
