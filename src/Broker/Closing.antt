-- ===== src/Broker/Closing.antt =====
-- `close_channel` of scope_broker.py: it detaches first, so that no binding is left behind.
use super_memory_brain.Base.{
  ℕ, String, ◌≡◌, refl, ◌∙◌, true, false, Option, none, some, List, [], ◌∷◌, arith, ap, ◌==◌,
  eq_iff, eq_refl, if◌then◌else◌, Bool-cases, inl, inr, member,
}
use super_memory_brain.Base.Dict.{get, get-pop}
use super_memory_brain.Broker.Types.{Binding, Broker, Outcome, safe_string, channel_id_re}
use super_memory_brain.Broker.Upkeep.{release}
use super_memory_brain.Broker.Channels.{
  detach_bound, detach_channel, without, close_detached, close_channel,
}
use super_memory_brain.Broker.Leases.{IsConsistent}
use super_memory_brain.Broker.Frame.{
  SameCore-IsConsistent, ensure_pairing_request-SameCore, replace_pairing_request-SameCore,
  forget_ref-SameCore,
}
use super_memory_brain.Broker.Keeps.{detach_channel-IsConsistent}

member-without :
    (c d : String) (l : List String)
    → member d (without c l) ≡ (if c == d then false else member d l)
unfolding without
member-without c d [] = ground arith
member-without c d (e ∷ l) =
    ground (arith, eq_iff e c, eq_iff e d, eq_iff c d, member-without c d l)

get-detach_bound :
    (now : ℕ) (drawn c : String) (o : Option Binding) (s : Broker)
    → get c s.bindings ≡ o
    → get c (detach_bound now drawn c o s).0.bindings ≡ none
unfolding detach_bound
get-detach_bound now drawn c none s e =
    ap (get c) (ensure_pairing_request-SameCore now drawn c s).bindings ∙ e
get-detach_bound now drawn c (some b) s e =
    ap (get c) (replace_pairing_request-SameCore now drawn c (release c b s)).bindings
    ∙ unfold release in get-pop c c s.bindings ∙ rw eq_refl

-- A detach that reports success leaves its channel unbound.
pub detach_channel_unbinds :
    (now : ℕ) (drawn : String) (id : Option String) (s : Broker)
    → (detach_channel now drawn id s).1.ok ≡ true
    → get (safe_string channel_id_re id) (detach_channel now drawn id s).0.bindings ≡ none
unfolding detach_channel
detach_channel_unbinds now drawn id s ok =
    let c = safe_string channel_id_re id in
    ground (arith, get-detach_bound now drawn c (get c s.bindings) s refl)

close_detached-IsConsistent :
    (c : String) (s : Broker) (r : Outcome)
    → (r.ok ≡ true → get c s.bindings ≡ none)
    → IsConsistent s
    → IsConsistent (close_detached c (s, r)).0
unfolding close_detached
close_detached-IsConsistent c s r gone h = elim (Bool-cases r.ok) [
  | inl ok ↦ rw ok (
      SameCore-IsConsistent (forget_ref-SameCore c (record s { channels = without c s.channels }))
        (record {
          unique = h.unique;
          opened = λ d b p.
              ground (arith, gone ok, member-without c d s.channels, eq_iff c d, h.opened d b);
          lease_held = h.lease_held;
          held_lease = h.held_lease;
        }))
  | inr bad ↦ rw bad h
]

pub close_channel-IsConsistent :
    (now : ℕ) (drawn : String) (id : Option String) (s : Broker)
    → IsConsistent s
    → IsConsistent (close_channel now drawn id s).0
unfolding close_channel
close_channel-IsConsistent now drawn id s h =
    close_detached-IsConsistent (safe_string channel_id_re id) (detach_channel now drawn id s).0
      (detach_channel now drawn id s).1 (detach_channel_unbinds now drawn id s)
      (detach_channel-IsConsistent now drawn id s h)
