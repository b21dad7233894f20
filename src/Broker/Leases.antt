-- ===== src/Broker/Leases.antt =====
-- The consistency of channels, bindings and write leases, and its preservation by the transitions
-- that the operations of scope_broker.py are made of.
use super_memory_brain.Base.{
  String, ◌≡◌, true, Option, none, some, arith, ◌==◌, eq_iff, if◌then◌else◌, member,
}
use super_memory_brain.Base.Dict.{Dict, get, IsUnique, get-put, get-pop, put-IsUnique, pop-IsUnique}
use super_memory_brain.Broker.Types.{Binding, Broker, write}
use super_memory_brain.Broker.Upkeep.{release_lease, release}
use super_memory_brain.Broker.Pairing.{commit_binding, lease_is_free}

-- A binding that writes to the workline `w`.
abbrev pub WritesTo : String → Option Binding → Type 0
WritesTo w none = ⊥
WritesTo w (some b) = (b.access_mode ≡ write) × (b.workline_id ≡ w)

pub record IsConsistent (s : Broker) : Type 0 where
  pub unique : IsUnique s.bindings
  pub opened : (c : String) (b : Binding) → get c s.bindings ≡ some b → member c s.channels ≡ true
  pub lease_held : (w c : String) → get w s.write_leases ≡ some c → WritesTo w (get c s.bindings)
  pub held_lease :
      (c : String) (b : Binding)
      → get c s.bindings ≡ some b
      → b.access_mode ≡ write
      → get b.workline_id s.write_leases ≡ some c

get-release_lease :
    (w c v : String) (leases : Dict String)
    → get v (release_lease w c leases) ≡ elim (get v leases) [
      | none ↦ none
      | some d ↦ if w == v then (if d == c then none else some d) else some d
    ]
unfolding release_lease
get-release_lease w c v leases = ground (arith, get-pop w v leases, eq_iff w v)

pub release-IsConsistent :
    (c : String) (b : Binding) (s : Broker)
    → get c s.bindings ≡ some b
    → IsConsistent s
    → IsConsistent (release c b s)
unfolding release
release-IsConsistent c b s e h = record {
  unique = pop-IsUnique c s.bindings h.unique;
  opened = λ d a p. ground (arith, get-pop c d s.bindings, eq_iff c d, h.opened d a);
  lease_held = λ w d p. ground (
    arith,
    get-release_lease b.workline_id c w s.write_leases,
    get-pop c d s.bindings,
    eq_iff c d,
    eq_iff d c,
    eq_iff b.workline_id w,
    h.lease_held w d,
  );
  held_lease = λ d a p q. ground (
    arith,
    get-release_lease b.workline_id c a.workline_id s.write_leases,
    get-pop c d s.bindings,
    eq_iff c d,
    eq_iff d c,
    h.held_lease d a,
  );
}

pub commit_binding-IsConsistent :
    (c : String) (b : Binding) (s : Broker)
    → member c s.channels ≡ true
    → get c s.bindings ≡ none
    → lease_is_free b.access_mode b.workline_id s ≡ true
    → IsConsistent s
    → IsConsistent (commit_binding c b s)
unfolding commit_binding
commit_binding-IsConsistent c b s m e f h = record {
  unique = put-IsUnique c b s.bindings h.unique;
  opened = λ d a p. ground (arith, get-put c d b s.bindings, eq_iff c d, h.opened d a);
  lease_held = λ w d p. ground (
    arith,
    get-put c d b s.bindings,
    get-put b.workline_id w c s.write_leases,
    eq_iff c d,
    eq_iff b.workline_id w,
    h.lease_held w d,
  );
  held_lease = λ d a p q. ground (
    arith,
    get-put c d b s.bindings,
    get-put b.workline_id a.workline_id c s.write_leases,
    eq_iff c d,
    eq_iff b.workline_id a.workline_id,
    h.held_lease d a,
  );
}
