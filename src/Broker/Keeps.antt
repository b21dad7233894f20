-- ===== src/Broker/Keeps.antt =====
-- Each operation of scope_broker.py keeps channels, bindings and write leases consistent.
use super_memory_brain.Base.{
  ℕ, String, ◌≡◌, refl, Bool, true, false, not, Option, none, some, List, ◌∷◌, arith, ◌+◌, ◌&&◌,
  ◌==◌, eq_iff, if◌then◌else◌, Option-cases, inl, inr, member,
}
use super_memory_brain.Base.Dict.{get, put, get-put, put-IsUnique}
use super_memory_brain.Broker.Types.{
  Binding, Broker, seconds, ttl, min_lease_seconds, max_lease_seconds,
}
use super_memory_brain.Broker.Upkeep.{
  expire_bindings, release, ensure_pairing_request, replace_pairing_request,
}
use super_memory_brain.Broker.Channels.{
  first_unused, admit_channel, open_channel, bound_status, channel_status, expire_all, status,
  authorize, renew_bound, renew_checked, renew_lease, detach_bound, detach_channel,
  list_channel_statuses,
}
use super_memory_brain.Broker.Registry.{filled}
use super_memory_brain.Broker.Leases.{IsConsistent, release-IsConsistent}
use super_memory_brain.Broker.Expiry.{expire_bindings-IsConsistent}
use super_memory_brain.Broker.Frame.{
  SameCore-IsConsistent, ensure_pairing_request-SameCore, replace_pairing_request-SameCore,
  expire_pairing_requests-SameCore,
}

pub if_keeps :
    {A : Type 0} (b : Bool) (x y : Broker × A)
    → IsConsistent x.0
    → IsConsistent y.0
    → IsConsistent (if b then x else y).0
if_keeps true x y h k = h
if_keeps false x y h k = k

-- The same where a branch may use the outcome of its test.
pub if_keeps_by :
    {A : Type 0} (b : Bool) (x y : Broker × A)
    → (b ≡ true → IsConsistent x.0)
    → (b ≡ false → IsConsistent y.0)
    → IsConsistent (if b then x else y).0
if_keeps_by true x y h k = h refl
if_keeps_by false x y h k = k refl

pub expire_all-IsConsistent :
    (now : ℕ) (s : Broker) → IsConsistent s → IsConsistent (expire_all now s)
unfolding expire_all
expire_all-IsConsistent now s h =
    SameCore-IsConsistent (expire_pairing_requests-SameCore now (expire_bindings now s))
      (expire_bindings-IsConsistent now s h)

pub ensure-IsConsistent :
    (now : ℕ) (drawn c : String) (s : Broker)
    → IsConsistent s
    → IsConsistent (ensure_pairing_request now drawn c s).0
ensure-IsConsistent now drawn c s h =
    SameCore-IsConsistent (ensure_pairing_request-SameCore now drawn c s) h

bound_status-IsConsistent :
    (now : ℕ) (drawn c : String) (o : Option Binding) (s : Broker)
    → IsConsistent s
    → IsConsistent (bound_status now drawn c o s).0
unfolding bound_status
bound_status-IsConsistent now drawn c none s h = ensure-IsConsistent now drawn c s h
bound_status-IsConsistent now drawn c (some b) s h = h

channel_status-IsConsistent :
    (now : ℕ) (drawn c : String) (expired : List String) (s : Broker)
    → IsConsistent s
    → IsConsistent (channel_status now drawn c expired s).0
unfolding channel_status
channel_status-IsConsistent now drawn c expired s h = if_keeps (not (member c s.channels)) _ _ h (
    if_keeps (member c expired) _ _ (ensure-IsConsistent now drawn c s h)
      (bound_status-IsConsistent now drawn c (get c s.bindings) s h))

pub status-IsConsistent :
    (now : ℕ) (drawn : String) (id : Option String) (s : Broker)
    → IsConsistent s
    → IsConsistent (status now drawn id s).0
unfolding status
status-IsConsistent now drawn id s h =
    if_keeps (not (filled _)) _ _ h (
      channel_status-IsConsistent now drawn _ _ (expire_all now s)
        (expire_all-IsConsistent now s h))

pub authorize-IsConsistent :
    (now : ℕ) (drawn : String) (id : Option String) (w : Option Bool) (s : Broker)
    → IsConsistent s
    → IsConsistent (authorize now drawn id w s).0
unfolding authorize
authorize-IsConsistent now drawn id none s h = h
authorize-IsConsistent now drawn id (some w) s h = status-IsConsistent now drawn id s h

pub list_channel_statuses-IsConsistent :
    (now : ℕ) (s : Broker) → IsConsistent s → IsConsistent (list_channel_statuses now s).0
unfolding list_channel_statuses
list_channel_statuses-IsConsistent now s h = expire_all-IsConsistent now s h

-- One more channel.
pub add_channel-IsConsistent :
    (c : String) (s : Broker)
    → IsConsistent s
    → IsConsistent (record s { channels = c ∷ s.channels })
add_channel-IsConsistent c s h = record {
  unique = h.unique;
  opened = λ d b p. ground (arith, eq_iff c d, h.opened d b);
  lease_held = h.lease_held;
  held_lease = h.held_lease;
}

pub open_channel-IsConsistent :
    (now : ℕ) (draws : List String) (drawn : String) (s : Broker)
    → IsConsistent s
    → IsConsistent (open_channel now draws drawn s).0
unfolding open_channel admit_channel replace_pairing_request
open_channel-IsConsistent now draws drawn s h =
    elim (Option-cases (first_unused draws s.channels)) [
      | inl stuck ↦ rw (stuck, open_channel) h
      | inr (c, e) ↦
          rw (e, open_channel)
            (SameCore-IsConsistent
              (replace_pairing_request-SameCore now drawn c
                (record s { channels = c ∷ s.channels }))
              (add_channel-IsConsistent c s h))
    ]

-- A new expiry time for a binding that is there.
pub renewed-IsConsistent :
    (c : String) (b : Binding) (time : ℕ) (s : Broker)
    → get c s.bindings ≡ some b
    → IsConsistent s
    → IsConsistent (record s { bindings = put c (record b { lease_expires_at = time }) s.bindings })
renewed-IsConsistent c b time s e h =
    let b' = record b { lease_expires_at = time } in
    record {
      unique = put-IsUnique c b' s.bindings h.unique;
      opened = λ d a p.
          ground (arith, get-put c d b' s.bindings, eq_iff c d, h.opened d a, h.opened c b e);
      lease_held =
          λ w d p. ground (arith, get-put c d b' s.bindings, eq_iff c d, h.lease_held w d p);
      held_lease = λ d a p q.
          ground
            (arith, get-put c d b' s.bindings, eq_iff c d, h.held_lease d a, h.held_lease c b e);
    }

renew_bound-IsConsistent :
    (now duration : ℕ) (c token : String) (o : Option Binding) (s : Broker)
    → get c s.bindings ≡ o
    → IsConsistent s
    → IsConsistent (renew_bound now duration c token o s).0
unfolding renew_bound
renew_bound-IsConsistent now duration c token none s e h = h
renew_bound-IsConsistent now duration c token (some b) s e h =
    if_keeps (not (b.lease_id == token)) _ _ h
      (renewed-IsConsistent c b (now + seconds duration) s e h)

renew_checked-IsConsistent :
    (now duration : ℕ) (c token : String) (expired : List String) (s : Broker)
    → IsConsistent s
    → IsConsistent (renew_checked now duration c token expired s).0
unfolding renew_checked
renew_checked-IsConsistent now duration c token expired s h =
    if_keeps (not (member c s.channels)) _ _ h (
      if_keeps (member c expired) _ _ h
        (renew_bound-IsConsistent now duration c token (get c s.bindings) s refl h))

pub renew_lease-IsConsistent :
    (now : ℕ) (id lease : Option String) (time : Option ℕ) (s : Broker)
    → IsConsistent s
    → IsConsistent (renew_lease now id lease time s).0
unfolding renew_lease
renew_lease-IsConsistent now id lease time s h =
    if_keeps (not (filled _ && filled _)) _ _ h
      (elim (Option-cases (ttl time min_lease_seconds max_lease_seconds)) [
        | inl bad ↦ rw bad h
        | inr (duration, e) ↦ rw e (
            renew_checked-IsConsistent now duration _ _ _ (expire_bindings now s)
              (expire_bindings-IsConsistent now s h))
      ])

detach_bound-IsConsistent :
    (now : ℕ) (drawn c : String) (o : Option Binding) (s : Broker)
    → get c s.bindings ≡ o
    → IsConsistent s
    → IsConsistent (detach_bound now drawn c o s).0
unfolding detach_bound
detach_bound-IsConsistent now drawn c none s e h = ensure-IsConsistent now drawn c s h
detach_bound-IsConsistent now drawn c (some b) s e h =
    SameCore-IsConsistent (replace_pairing_request-SameCore now drawn c (release c b s))
      (release-IsConsistent c b s e h)

pub detach_channel-IsConsistent :
    (now : ℕ) (drawn : String) (id : Option String) (s : Broker)
    → IsConsistent s
    → IsConsistent (detach_channel now drawn id s).0
unfolding detach_channel
detach_channel-IsConsistent now drawn id s h = if_keeps (not (filled _)) _ _ h (
    if_keeps (not (member _ s.channels)) _ _ h
      (detach_bound-IsConsistent now drawn _ (get _ s.bindings) s refl h))
