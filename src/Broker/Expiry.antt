-- ===== src/Broker/Expiry.antt =====
-- `_expire_bindings` of scope_broker.py: what it keeps, what it leaves alone, and that leases stay
-- consistent.
use super_memory_brain.Base.{
  ℕ, String, ◌≡◌, refl, Option, none, some, [], ◌∷◌, arith, ltb, eq_iff, eq_refl, if◌then◌else◌,
  All, Bool-cases, inl, inr,
}
use super_memory_brain.Base.Dict.{Dict, get, IsUnique, get-pop}
use super_memory_brain.Broker.Types.{Binding, Broker}
use super_memory_brain.Broker.Upkeep.{release, expire_loop, expire_bindings}
use super_memory_brain.Broker.Leases.{IsConsistent, release-IsConsistent}

-- `s` and `t` differ in bindings and leases at most.
pub record SameRest (s t : Broker) : Type 0 where
  pub channels : t.channels ≡ s.channels
  pub grants : t.grants ≡ s.grants
  pub requests : t.pairing_requests ≡ s.pairing_requests
  pub refs : t.channel_pairing_refs ≡ s.channel_pairing_refs
  pub instance_id : t.instance_id ≡ s.instance_id

expire_loop-SameRest :
    (now : ℕ) (items : Dict Binding) (s : Broker) → SameRest s (expire_loop now items s)
unfolding expire_loop
expire_loop-SameRest now [] s = record {
  channels = refl;
  grants = refl;
  requests = refl;
  refs = refl;
  instance_id = refl;
}
expire_loop-SameRest now ((c, b) ∷ items) s = elim (Bool-cases (ltb now b.lease_expires_at)) [
  | inl keep ↦ rw keep (expire_loop-SameRest now items s)
  | inr drop ↦ rw drop (
      let r = expire_loop-SameRest now items (release c b s) in
      unfold release in
      record {
        channels = r.channels;
        grants = r.grants;
        requests = r.requests;
        refs = r.refs;
        instance_id = r.instance_id;
      })
]

pub expire_bindings-SameRest : (now : ℕ) (s : Broker) → SameRest s (expire_bindings now s)
unfolding expire_bindings
expire_bindings-SameRest now s = expire_loop-SameRest now s.bindings s

-- Every item is the present entry of its key.
abbrev Present : Dict Binding → Broker → Type 0
Present items s = All (λ e. get e.0 s.bindings ≡ some e.1) items

Present-get :
    (items : Dict Binding) (s : Broker)
    → Present items s
    → (c : String) (b : Binding) → get c items ≡ some b
    → get c s.bindings ≡ some b
unfolding get
Present-get [] s h c b e = cc
Present-get ((d, a) ∷ items) s h c b e = ground (arith, eq_iff d c, Present-get items s h.1 c b)

Present-release :
    (c : String) (b : Binding) (items : Dict Binding) (s : Broker)
    → get c items ≡ none
    → Present items s
    → Present items (release c b s)
unfolding release get
Present-release c b [] s e h = tt
Present-release c b ((d, a) ∷ items) s e h =
    ground (arith, eq_iff d c, eq_iff c d, get-pop c d s.bindings, Present-release c b items s)

expire_loop-IsConsistent :
    (now : ℕ) (items : Dict Binding) (s : Broker)
    → IsUnique items
    → Present items s
    → IsConsistent s
    → IsConsistent (expire_loop now items s)
unfolding expire_loop
expire_loop-IsConsistent now [] s u p h = h
expire_loop-IsConsistent now ((c, b) ∷ items) s u p h =
    elim (Bool-cases (ltb now b.lease_expires_at)) [
      | inl keep ↦ rw keep (expire_loop-IsConsistent now items s u.1 p.1 h)
      | inr drop ↦ rw drop (
          expire_loop-IsConsistent now items (release c b s) u.1
            (Present-release c b items s u.0 p.1) (release-IsConsistent c b s p.0 h))
    ]

weaken_present :
    (d : String) (a : Binding) (items : Dict Binding) (rest : Dict Binding)
    → get d rest ≡ none
    → All (λ e. get e.0 rest ≡ some e.1) items
    → All (λ e. get e.0 ((d, a) ∷ rest) ≡ some e.1) items
unfolding get
weaken_present d a [] rest n h = tt
weaken_present d a ((c, b) ∷ items) rest n h =
    ground (arith, eq_iff d c, weaken_present d a items rest n h.1)

self_present : (items : Dict Binding) → IsUnique items → All (λ e. get e.0 items ≡ some e.1) items
unfolding get
self_present [] u = tt
self_present ((d, a) ∷ items) u =
    (rw eq_refl, weaken_present d a items items u.0 (self_present items u.1))

pub expire_bindings-IsConsistent :
    (now : ℕ) (s : Broker) → IsConsistent s → IsConsistent (expire_bindings now s)
unfolding expire_bindings
expire_bindings-IsConsistent now s h =
    expire_loop-IsConsistent now s.bindings s h.unique (self_present s.bindings h.unique) h

-- A binding whose lease has not run out.
abbrev pub live : ℕ → Option Binding → Option Binding
live now none = none
live now (some b) = if ltb now b.lease_expires_at then some b else none

abbrev expire_one : ℕ → Option Binding → Option Binding → Option Binding
expire_one now none o = o
expire_one now (some b) o = if ltb now b.lease_expires_at then o else none

get-expire_loop :
    (now : ℕ) (items : Dict Binding) (s : Broker) (c : String)
    → IsUnique items
    → get c (expire_loop now items s).bindings ≡ expire_one now (get c items) (get c s.bindings)
unfolding expire_loop release get
get-expire_loop now [] s c u = refl
get-expire_loop now ((d, b) ∷ items) s c u = ground (
  arith,
  eq_iff d c,
  get-pop d c s.bindings,
  get-expire_loop now items s c u.1,
  get-expire_loop now items (release d b s) c u.1,
)

-- After the pass a channel is bound exactly as before if its lease runs on, and unbound if not.
pub get-expire_bindings :
    (now : ℕ) (s : Broker) (c : String)
    → IsConsistent s
    → get c (expire_bindings now s).bindings ≡ live now (get c s.bindings)
unfolding expire_bindings
get-expire_bindings now s c h = ground (arith, get-expire_loop now s.bindings s c h.unique)
