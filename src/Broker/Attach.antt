-- ===== src/Broker/Attach.antt =====
-- The binding operations of scope_broker.py keep channels, bindings and write leases consistent.
use super_memory_brain.Base.{
  ℕ, String, ◌≡◌, ◌⊎◌, refl, Bool, true, false, not, Option, none, some, List, [], ◌∷◌, arith, ◌==◌,
  eq_iff, Bool-cases, Option-cases, inl, inr, member,
}
use super_memory_brain.Base.Dict.{get, has, get_of_not-has}
use super_memory_brain.Broker.Types.{AccessMode, Broker, Outcome, PairingRequest, ScopeContext}
use super_memory_brain.Broker.Upkeep.{expire_bindings}
use super_memory_brain.Broker.Checked.{Checked, stop, go}
use super_memory_brain.Broker.Registry.{Digests, DurableRead}
use super_memory_brain.Broker.Channels.{first_unused}
use super_memory_brain.Broker.Pairing.{
  new_binding, lease_is_free, bind_new_checked, bind_new_locked, bind_new_channel,
  pair_request_checked, consume_ref, pair_request_locked, pair_request,
}
use super_memory_brain.Broker.Leases.{IsConsistent, commit_binding-IsConsistent}
use super_memory_brain.Broker.Expiry.{expire_bindings-IsConsistent}
use super_memory_brain.Broker.Frame.{
  SameCore, SameCore-IsConsistent, expire_pairing_requests-SameCore,
}
use super_memory_brain.Broker.Keeps.{if_keeps, if_keeps_by, add_channel-IsConsistent}

pub Checked-cases {ℓ} :
    {A : Type ℓ} (m : Checked A) → ((r : Outcome) × (m ≡ stop r)) ⊎ ((a : A) × (m ≡ go a))
Checked-cases (stop r) = inl (r, refl)
Checked-cases (go a) = inr (a, refl)

-- A draw that is returned is not in use.
pub first_unused-member :
    (draws channels : List String) (c : String)
    → first_unused draws channels ≡ some c
    → member c channels ≡ false
unfolding first_unused
first_unused-member [] channels c e = cc
first_unused-member (id ∷ draws) channels c e = ground (arith, first_unused-member draws channels c)

-- A channel that is not open is not bound.
unopened :
    (c : String) (s : Broker)
    → IsConsistent s
    → member c s.channels ≡ false
    → get c s.bindings ≡ none
unopened c s h m = elim (Option-cases (get c s.bindings)) [
  | inl free ↦ free
  | inr (b, e) ↦ cc (h.opened c b e)
]

bind_new_locked-IsConsistent :
    (now : ℕ) (draws : List String) (lease_id : String) (x : ScopeContext) (mode : AccessMode)
    (lease : ℕ) (s : Broker)
    → IsConsistent s
    → IsConsistent (bind_new_locked now draws lease_id x mode lease s).0
unfolding bind_new_locked
bind_new_locked-IsConsistent now draws lease_id x mode lease s h =
    elim (Bool-cases (lease_is_free mode x.workline_id s)) [
      | inr held ↦ rw held h
      | inl free ↦ elim (Option-cases (first_unused draws s.channels)) [
        | inl stuck ↦ rw (free, stuck, bind_new_locked) h
        | inr (c, e) ↦
            rw (free, e, bind_new_locked)
              (commit_binding-IsConsistent c (new_binding now lease x.workline_id mode lease_id x)
                (record s { channels = c ∷ s.channels }) (ground (arith, eq_iff c c))
                (unopened c s h (first_unused-member draws s.channels c e)) free
                (add_channel-IsConsistent c s h))
      ]
    ]

pub bind_new_channel-IsConsistent :
    (digests : Digests) (now : ℕ) (draws : List String) (lease_id : String)
    (given : Option ScopeContext) (mode : Option String) (time : Option ℕ) (disk : DurableRead)
    (s : Broker)
    → IsConsistent s
    → IsConsistent (bind_new_channel digests now draws lease_id given mode time disk s).0
unfolding bind_new_channel
bind_new_channel-IsConsistent digests now draws lease_id given mode time disk s h =
    elim (Checked-cases (bind_new_checked digests given mode time disk)) [
      | inl (r, e) ↦ rw (e, bind_new_channel) h
      | inr ((x, m, lease), e) ↦
          rw (e, bind_new_channel)
            (bind_new_locked-IsConsistent now draws lease_id x m lease (expire_bindings now s)
              (expire_bindings-IsConsistent now s h))
    ]

of_not : {b : Bool} → not b ≡ false → b ≡ true
of_not {b} h = ground arith

consume_ref-SameCore : (ref c : String) (s : Broker) → SameCore s (consume_ref ref c s)
unfolding consume_ref
consume_ref-SameCore ref c s = record { channels = refl; bindings = refl; write_leases = refl }

pair_request_locked-IsConsistent :
    (now : ℕ) (lease_id ref : String) (mode : AccessMode) (lease : ℕ) (x : ScopeContext)
    (o : Option PairingRequest) (s : Broker)
    → IsConsistent s
    → IsConsistent (pair_request_locked now lease_id ref mode lease x o s).0
unfolding pair_request_locked
pair_request_locked-IsConsistent now lease_id ref mode lease x none s h = h
pair_request_locked-IsConsistent now lease_id ref mode lease x (some q) s h =
    if_keeps (not (q.broker_instance_id == s.instance_id)) _ _ h (
      if_keeps_by (not (member q.channel_id s.channels)) _ _
        (λ _. SameCore-IsConsistent (consume_ref-SameCore ref q.channel_id s) h)
        λ open_.
          if_keeps_by (has q.channel_id s.bindings) _ _ (λ _. h)
            λ unbound_.
              if_keeps_by (not (lease_is_free mode x.workline_id s)) _ _ (λ _. h)
                λ free. SameCore-IsConsistent (consume_ref-SameCore ref q.channel_id _) (
                  commit_binding-IsConsistent q.channel_id
                    (new_binding now lease x.workline_id mode lease_id x) s (of_not open_)
                    (get_of_not-has q.channel_id s.bindings unbound_) (of_not free) h))

pub pair_request-IsConsistent :
    (digests : Digests) (now : ℕ) (lease_id : String) (ref workline mode : Option String)
    (ttl_time lease_time : Option ℕ) (disk : DurableRead) (s : Broker)
    → IsConsistent s
    → IsConsistent
        (pair_request digests now lease_id ref workline mode ttl_time lease_time disk s).0
unfolding pair_request
pair_request-IsConsistent digests now lease_id ref workline mode ttl_time lease_time disk s h =
    elim (Checked-cases (pair_request_checked digests ref workline mode ttl_time lease_time disk)) [
      | inl (r, e) ↦ rw (e, pair_request) h
      | inr ((rf, m, lease, x), e) ↦
          rw (e, pair_request)
            (pair_request_locked-IsConsistent now lease_id rf m lease x _ _ (
              SameCore-IsConsistent (expire_pairing_requests-SameCore now (expire_bindings now s))
                (expire_bindings-IsConsistent now s h)))
    ]
