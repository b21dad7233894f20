-- ===== src/Broker/Frame.antt =====
-- The upkeep of pairing references in scope_broker.py leaves channels, bindings and leases alone.
use super_memory_brain.Base.{
  ℕ, String, ◌≡◌, refl, ◌∙◌, Bool, Option, none, some, [], ◌∷◌, Bool-cases, inl, inr,
}
use super_memory_brain.Base.Dict.{Dict, get}
use super_memory_brain.Broker.Types.{Broker, PairingRequest}
use super_memory_brain.Broker.Upkeep.{
  request_is_stale, drop_request, expire_requests_loop, expire_pairing_requests, mint_request,
  request_is_current, keep_or_mint, ensure_pairing_request, replace_pairing_request, prune_grants,
}
use super_memory_brain.Broker.Leases.{IsConsistent}
use super_memory_brain.Broker.Channels.{forget_ref}

pub record SameCore (s t : Broker) : Type 0 where
  pub channels : t.channels ≡ s.channels
  pub bindings : t.bindings ≡ s.bindings
  pub write_leases : t.write_leases ≡ s.write_leases

pub SameCore-refl : (s : Broker) → SameCore s s
SameCore-refl s = record { channels = refl; bindings = refl; write_leases = refl }

pub SameCore-trans : {s t u : Broker} → SameCore s t → SameCore t u → SameCore s u
SameCore-trans h k = record {
  channels = k.channels ∙ h.channels;
  bindings = k.bindings ∙ h.bindings;
  write_leases = k.write_leases ∙ h.write_leases;
}

pub SameCore-IsConsistent : {s t : Broker} → SameCore s t → IsConsistent s → IsConsistent t
SameCore-IsConsistent k h = record {
  unique = rw k.bindings h.unique;
  opened = rw (k.bindings, k.channels) h.opened;
  lease_held = rw (k.bindings, k.write_leases) h.lease_held;
  held_lease = rw (k.bindings, k.write_leases) h.held_lease;
}

mint_request-SameCore :
    (now : ℕ) (drawn c : String) (s : Broker) → SameCore s (mint_request now drawn c s)
unfolding mint_request
mint_request-SameCore now drawn c s = record {
  channels = refl;
  bindings = refl;
  write_leases = refl;
}

keep_or_mint-SameCore :
    (now : ℕ) (drawn c : String) (o : Option String) (s : Broker)
    → SameCore s (keep_or_mint now drawn c o s).0
unfolding keep_or_mint
keep_or_mint-SameCore now drawn c none s = mint_request-SameCore now drawn c s
keep_or_mint-SameCore now drawn c (some ref) s =
    elim (Bool-cases (request_is_current now s c (get ref s.pairing_requests))) [
      | inl keep ↦ rw keep (SameCore-refl s)
      | inr mint ↦ rw mint (mint_request-SameCore now drawn c s)
    ]

pub ensure_pairing_request-SameCore :
    (now : ℕ) (drawn c : String) (s : Broker) → SameCore s (ensure_pairing_request now drawn c s).0
unfolding ensure_pairing_request
ensure_pairing_request-SameCore now drawn c s =
    keep_or_mint-SameCore now drawn c (get c s.channel_pairing_refs) s

pub replace_pairing_request-SameCore :
    (now : ℕ) (drawn c : String) (s : Broker) → SameCore s (replace_pairing_request now drawn c s).0
unfolding replace_pairing_request
replace_pairing_request-SameCore now drawn c s = mint_request-SameCore now drawn c s

expire_requests_loop-SameCore :
    (now : ℕ) (items : Dict PairingRequest) (s : Broker)
    → SameCore s (expire_requests_loop now items s)
unfolding expire_requests_loop
expire_requests_loop-SameCore now [] s = SameCore-refl s
expire_requests_loop-SameCore now ((ref, request) ∷ items) s =
    elim (Bool-cases (request_is_stale now s request)) [
      | inl stale ↦ rw stale (
          let r = expire_requests_loop-SameCore now items (drop_request ref request s) in
          unfold drop_request in
          record { channels = r.channels; bindings = r.bindings; write_leases = r.write_leases })
      | inr good ↦ rw good (expire_requests_loop-SameCore now items s)
    ]

pub expire_pairing_requests-SameCore :
    (now : ℕ) (s : Broker) → SameCore s (expire_pairing_requests now s)
unfolding expire_pairing_requests
expire_pairing_requests-SameCore now s = expire_requests_loop-SameCore now s.pairing_requests s

pub prune_grants-SameCore :
    (now : ℕ) (aggressive : Bool) (s : Broker) → SameCore s (prune_grants now aggressive s)
unfolding prune_grants
prune_grants-SameCore now aggressive s = record {
  channels = refl;
  bindings = refl;
  write_leases = refl;
}

pub forget_ref-SameCore : (c : String) (s : Broker) → SameCore s (forget_ref c s)
unfolding forget_ref
forget_ref-SameCore c s = record { channels = refl; bindings = refl; write_leases = refl }
