-- ===== src/Broker/Authority.antt =====
-- What a successful `authorize` of scope_broker.py is worth, and when it succeeds.
use super_memory_brain.Base.{
  ℕ, ◌<◌, ltb, [], ◌∷◌, String, ◌≡◌, refl, ap, ◌∙◌, Bool, true, false, not, Option, none, some,
  arith, eq_iff, Bool-cases, Option-cases, inl, inr, member,
}
use super_memory_brain.Base.Dict.{Dict, IsUnique, get}
use super_memory_brain.Broker.Types.{write, Binding, Broker, Outcome, safe_string, channel_id_re}
use super_memory_brain.Broker.Upkeep.{expire_bindings, expired_channels}
use super_memory_brain.Broker.Channels.{bound_status, channel_status, expire_all, authorize}
use super_memory_brain.Broker.Registry.{Digests, filled}
use super_memory_brain.Broker.Reach.{
  Reach, Reach-IsConsistent, new_broker, new_broker-IsConsistent, write_exclusion,
}
use super_memory_brain.Broker.Leases.{IsConsistent}
use super_memory_brain.Broker.Expiry.{live, get-expire_bindings, expire_bindings-SameRest}
use super_memory_brain.Broker.Frame.{expire_pairing_requests-SameCore}

get-expire_all :
    (now : ℕ) (s : Broker) (c : String)
    → IsConsistent s
    → get c (expire_all now s).bindings ≡ live now (get c s.bindings)
unfolding expire_all
get-expire_all now s c h =
    ap (get c) (expire_pairing_requests-SameCore now (expire_bindings now s)).bindings
    ∙ get-expire_bindings now s c h

expire_all_channels : (now : ℕ) (s : Broker) → (expire_all now s).channels ≡ s.channels
unfolding expire_all
expire_all_channels now s =
    (expire_pairing_requests-SameCore now (expire_bindings now s)).channels
    ∙ (expire_bindings-SameRest now s).channels

-- The binding that a result speaks of is bound to the channel before and at `now`.
pub record Authority (now : ℕ) (c : String) (s : Broker) (r : Outcome) (b : Binding) : Type 0 where
  pub bound_to : get c s.bindings ≡ some b
  pub in_time : now < b.lease_expires_at
  pub writes : b.access_mode ≡ write
  pub leased : get b.workline_id s.write_leases ≡ some c
  pub context : r.context ≡ some b.context
  pub lease_id : r.lease_id ≡ b.lease_id

authorize_unbound :
    (now : ℕ) (drawn : String) (id : Option String) (s : Broker)
    → live now (get (safe_string channel_id_re id) s.bindings) ≡ none
    → IsConsistent s
    → (authorize now drawn id (some true) s).1.ok ≡ false
unfolding authorize channel_status bound_status
authorize_unbound now drawn id s e h =
    let c = safe_string channel_id_re id in ground (arith, get-expire_all now s c h)

abbrev lapsed : ℕ → Option Binding → Bool
lapsed now none = false
lapsed now (some b) = not (ltb now b.lease_expires_at)

member-expired_channels :
    (now : ℕ) (items : Dict Binding) (c : String)
    → IsUnique items
    → member c (expired_channels now items) ≡ lapsed now (get c items)
unfolding expired_channels get
member-expired_channels now [] c u = refl
member-expired_channels now ((d, b) ∷ items) c u =
    ground (arith, eq_iff d c, member-expired_channels now items c u.1)

module _ (now : ℕ) (drawn : String) (id : Option String) (s : Broker) (h : IsConsistent s) where
  -- What a successful `authorize` for writing rests on.
  authorize-Authority :
      (authorize now drawn id (some true) s).1.ok ≡ true
      → (b : Binding) × Authority now
          (safe_string channel_id_re id)
          s
          (authorize now drawn id (some true) s).1
          b
  unfolding authorize channel_status bound_status
  authorize-Authority ok =
      let c = safe_string channel_id_re id in
      elim (Option-cases (get c s.bindings)) [
        | inl free ↦ cc (ok, authorize_unbound now drawn id s (ap (live now) free) h)
        | inr (b, e) ↦ elim (Bool-cases (ltb now b.lease_expires_at)) [
          | inr late ↦ cc (ok, authorize_unbound now drawn id s (ap (live now) e ∙ rw late) h)
          | inl early ↦
              let g : get c (expire_all now s).bindings ≡ some b =
                get-expire_all now s c h ∙ ap (live now) e ∙ rw early in
              let w : b.access_mode ≡ write = ground (arith, g, ok) in
              (
                b,
                record {
                  bound_to = e;
                  in_time = ground arith;
                  writes = w;
                  leased = h.held_lease c b e w;
                  context = ground (arith, g, ok);
                  lease_id = ground (arith, g, ok);
                },
              )
        ]
      ]

  -- And it is authorized for every such channel.
  pub authorize_live :
      (b : Binding)
      → filled (safe_string channel_id_re id) ≡ true
      → get (safe_string channel_id_re id) s.bindings ≡ some b
      → now < b.lease_expires_at
      → b.access_mode ≡ write
      → (authorize now drawn id (some true) s).1.ok ≡ true
  unfolding authorize channel_status bound_status
  authorize_live b f e t w =
      let c = safe_string channel_id_re id in
      ground (
        arith,
        get-expire_all now s c h,
        member-expired_channels now s.bindings c h.unique,
        expire_all_channels now s,
        h.opened c b e,
      )

-- In every state that a new broker reaches, a write is authorized only for a channel that is bound
-- for writing, whose lease runs on at `now`, that holds the write lease of its workline, and that
-- is the only channel bound for writing to it; the result then carries that binding's context and
-- lease.
pub authorize_holds :
    (digests : Digests) (instance_id : String) (now : ℕ) (drawn : String) (id : Option String)
    (s : Broker)
    → Reach digests (new_broker instance_id) s
    → (authorize now drawn id (some true) s).1.ok ≡ true
    → (b : Binding) × Authority now
        (safe_string channel_id_re id)
        s
        (authorize now drawn id (some true) s).1
        b
      × ((d : String) (a : Binding)
          → get d s.bindings ≡ some a
          → a.access_mode ≡ write
          → a.workline_id ≡ b.workline_id
          → d ≡ safe_string channel_id_re id)
authorize_holds digests instance_id now drawn id s r ok =
    let h = Reach-IsConsistent (new_broker-IsConsistent instance_id) r in
    let (b, a) = authorize-Authority now drawn id s h ok in
    (
      b,
      a,
      λ d x e w same.
          write_exclusion digests instance_id s d (safe_string channel_id_re id) x b r e a.bound_to
            w a.writes same,
    )
