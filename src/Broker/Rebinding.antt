-- ===== src/Broker/Rebinding.antt =====
-- `register_workline` and `refresh_bound_contract` of scope_broker.py keep the bindings and the write
-- leases consistent: they change the contexts of bindings only.
use super_memory_brain.Base.{
  ℕ, ◌≡◌, inl, inr, refl, ◌∙◌, String, not, ◌||◌, Option, none, some, [], ◌∷◌, member, arith,
  eq_iff, ◌==◌, if◌then◌else◌, Bool-cases,
}
use super_memory_brain.Base.Dict.{Dict, get, put, IsUnique, get-put, put-IsUnique, has}
use super_memory_brain.Json.{Value}
use super_memory_brain.Broker.Types.{
  ScopeContext, Outcome, Binding, Broker, safe_string, channel_id_re, pairing_request_ref_re,
}
use super_memory_brain.Broker.Registry.{filled}
use super_memory_brain.Broker.Checked.{Checked, stop, go}
use super_memory_brain.Broker.Leases.{IsConsistent, WritesTo}
use super_memory_brain.Broker.Contract.{Libraries, ContractBinding}
use super_memory_brain.Broker.Register.{Drawn}
use super_memory_brain.Broker.Upkeep.{
  expire_bindings, expire_pairing_requests, ensure_pairing_request,
}
use super_memory_brain.Broker.Frame.{SameCore-IsConsistent, expire_pairing_requests-SameCore}
use super_memory_brain.Broker.Keeps.{if_keeps, ensure-IsConsistent}
use super_memory_brain.Broker.Expiry.{expire_bindings-IsConsistent}
use super_memory_brain.Broker.Refresh.{
  is_still, refreshed_binding, refresh_current, refresh_second, ok_context, refresh_registered,
  own_hash, refresh_under, refresh_first, refresh_with, refresh_bound_contract, pairing_request_ref,
  pairing_request_channel, live_channel,
}
use super_memory_brain.Broker.Workline.{
  Access, Stored, System, rebind, register_finish, register_workline,
}

-- The binding after the context of a workline has changed.
abbrev pub rebound : ScopeContext → Binding → Binding
rebound c b = if b.workline_id == c.workline_id then record b { context = c } else b

abbrev pub rebound_option : ScopeContext → Option Binding → Option Binding
rebound_option c none = none
rebound_option c (some b) = some (rebound c b)

pub get-rebind :
    (c : ScopeContext) (k : String) (bindings : Dict Binding)
    → get k (rebind c bindings) ≡ rebound_option c (get k bindings)
unfolding get rebind
get-rebind c k [] = refl
get-rebind c k ((j, b) ∷ bindings) = elim (Bool-cases (j == k)) [
  | inl same ↦ rw same refl
  | inr other ↦ rw other (get-rebind c k bindings)
]

rebind-IsUnique :
    (c : ScopeContext) (bindings : Dict Binding) → IsUnique bindings → IsUnique (rebind c bindings)
unfolding rebind
rebind-IsUnique c [] u = tt
rebind-IsUnique c ((j, b) ∷ bindings) u =
    (rw (get-rebind c j bindings, u.0) refl, rebind-IsUnique c bindings u.1)

rebound-kept :
    (c : ScopeContext) (b : Binding)
    → ((rebound c b).workline_id ≡ b.workline_id) × ((rebound c b).access_mode ≡ b.access_mode)
rebound-kept c b = ground arith

-- The binding that gives the one after.
unbound :
    (c : ScopeContext) (o : Option Binding) (b : Binding)
    → rebound_option c o ≡ some b
    → (a : Binding) × (o ≡ some a)
      × (b.workline_id ≡ a.workline_id)
      × (b.access_mode ≡ a.access_mode)
unbound c none b e = cc
unbound c (some a) b e =
    let same : rebound c a ≡ b = ground (arith, e) in
    (a, refl, rw (← same) (rebound-kept c a).0, rw (← same) (rebound-kept c a).1)

rebound-WritesTo :
    (w : String) (c : ScopeContext) (o : Option Binding)
    → WritesTo w o
    → WritesTo w (rebound_option c o)
rebound-WritesTo w c none h = h
rebound-WritesTo w c (some b) h = ((rebound-kept c b).1 ∙ h.0, (rebound-kept c b).0 ∙ h.1)

pub rebind-IsConsistent :
    (c : ScopeContext) (s : Broker)
    → IsConsistent s
    → IsConsistent (record s { bindings = rebind c s.bindings })
rebind-IsConsistent c s h = record {
  unique = rebind-IsUnique c s.bindings h.unique;
  opened = λ d b e.
      let (a, old, _, _) = unbound c (get d s.bindings) b (rw (get-rebind c d s.bindings) at e) in
      h.opened d a old;
  lease_held = λ w d e.
      rw (get-rebind c d s.bindings) (rebound-WritesTo w c (get d s.bindings) (h.lease_held w d e));
  held_lease = λ d b e m.
      let (a, old, same, mode) =
        unbound c (get d s.bindings) b (rw (get-rebind c d s.bindings) at e) in
      rw same (h.held_lease d a old (rw mode at m));
}

register_finish-IsConsistent :
    (y : System) (m : Checked Stored)
    → IsConsistent y.broker
    → IsConsistent (register_finish y m).0.broker
register_finish-IsConsistent y (stop r) h = h
register_finish-IsConsistent y (go s) h = rebind-IsConsistent s.context y.broker h

pub register_workline-IsConsistent :
    (l : Libraries) (d : Drawn) (contract : Value) (hash : Option String) (access : Access)
    (y : System)
    → IsConsistent y.broker
    → IsConsistent (register_workline l d contract hash access y).0.broker
unfolding register_workline
register_workline-IsConsistent l d contract hash access y h = register_finish-IsConsistent y _ h

some_injective : (a b : Binding) → some a ≡ some b → a ≡ b
some_injective a b e = cc

-- A binding is put in the place of one of the same workline and access.
put-IsConsistent :
    (c : String) (a b : Binding) (s : Broker)
    → get c s.bindings ≡ some a
    → b.workline_id ≡ a.workline_id
    → b.access_mode ≡ a.access_mode
    → IsConsistent s
    → IsConsistent (record s { bindings = put c b s.bindings })
put-IsConsistent c a b s e same mode h = record {
  unique = put-IsUnique c b s.bindings h.unique;
  opened =
      λ d x p. ground (arith, get-put c d b s.bindings, eq_iff c d, h.opened d x, h.opened c a e);
  lease_held = λ w d p.
      ground (arith, get-put c d b s.bindings, eq_iff c d, h.lease_held w d p, e, same, mode);
  held_lease = λ d x p m. elim (Bool-cases (c == d)) [
    | inl here ↦
        let at_ : c ≡ d = (eq_iff c d).0 here in
        let new : b ≡ x = some_injective b x (rw (get-put c d b s.bindings, here) at p) in
        let w : x.workline_id ≡ a.workline_id = rw (← new) same in
        let n : x.access_mode ≡ a.access_mode = rw (← new) mode in
        rw (w, ← at_) (h.held_lease c a e (rw n at m))
    | inr there ↦ h.held_lease d x (rw (get-put c d b s.bindings, there) at p) m
  ];
}

refresh_current-IsConsistent :
    (channel lease : String) (prior : Binding) (c : ScopeContext) (y : System) (o : Option Binding)
    → get channel y.broker.bindings ≡ o
    → IsConsistent y.broker
    → IsConsistent (refresh_current channel lease prior c y o).0.broker
unfolding refresh_current
refresh_current-IsConsistent channel lease prior c y none e h = h
refresh_current-IsConsistent channel lease prior c y (some b) e h =
    elim (Bool-cases (is_still prior lease b)) [
      | inl still ↦
          rw still (put-IsConsistent channel b (refreshed_binding c prior b) y.broker e refl refl h)
      | inr gone ↦ rw gone h
    ]

refresh_registered-IsConsistent :
    (channel lease : String) (prior : Binding) (y : System) (r : Outcome) (o : Option ScopeContext)
    → IsConsistent y.broker
    → IsConsistent (refresh_registered channel lease prior y r o).0.broker
unfolding refresh_registered refresh_second
refresh_registered-IsConsistent channel lease prior y r none h = h
refresh_registered-IsConsistent channel lease prior y r (some c) h =
    refresh_current-IsConsistent channel lease prior c y (get channel y.broker.bindings) refl h

refresh_under-IsConsistent :
    (l : Libraries) (d : Drawn) (channel lease : String) (contract : Value) (access : Access)
    (y : System) (m : Checked Binding)
    → IsConsistent y.broker
    → IsConsistent (refresh_under l d channel lease contract access y m).0.broker
unfolding refresh_under
refresh_under-IsConsistent l d channel lease contract access y (stop r) h = h
refresh_under-IsConsistent l d channel lease contract access y (go prior) h =
    let registered = register_workline l d contract (own_hash l contract) access y in
    refresh_registered-IsConsistent channel lease prior registered.0 registered.1
      (ok_context registered.1)
      (register_workline-IsConsistent l d contract (own_hash l contract) access y h)

refresh_with-IsConsistent :
    (l : Libraries) (now : ℕ) (d : Drawn) (channel lease : String) (contract : Value)
    (access : Access) (y : System) (m : Checked ContractBinding)
    → IsConsistent y.broker
    → IsConsistent (refresh_with l now d channel lease contract access y m).0.broker
unfolding refresh_with
refresh_with-IsConsistent l now d channel lease contract access y (stop r) h = h
refresh_with-IsConsistent l now d channel lease contract access y (go b) h =
    let s = expire_bindings now y.broker in
    refresh_under-IsConsistent l d channel lease contract access (record y { broker = s })
      (refresh_first channel lease b s) (expire_bindings-IsConsistent now y.broker h)

pub refresh_bound_contract-IsConsistent :
    (l : Libraries) (now : ℕ) (d : Drawn) (id lease : Option String) (contract : Value)
    (access : Access) (y : System)
    → IsConsistent y.broker
    → IsConsistent (refresh_bound_contract l now d id lease contract access y).0.broker
unfolding refresh_bound_contract
refresh_bound_contract-IsConsistent l now d id lease contract access y h =
    refresh_with-IsConsistent l now d _ _ contract access y _ h

pub pairing_request_ref-IsConsistent :
    (now : ℕ) (drawn : String) (id : Option String) (s : Broker)
    → IsConsistent s
    → IsConsistent (pairing_request_ref now drawn id s).0
unfolding pairing_request_ref
pairing_request_ref-IsConsistent now drawn id s h =
    let k = SameCore-IsConsistent (expire_pairing_requests-SameCore now s) h in
    let channel = safe_string channel_id_re id in
    let s' = expire_pairing_requests now s in
    if_keeps (not (filled channel)) (s, "")
      (if not (member channel s'.channels) || has channel s'.bindings
        then (s', "")
        else ensure_pairing_request now drawn channel s')
      h
      (if_keeps (not (member channel s'.channels) || has channel s'.bindings) (s', "")
        (ensure_pairing_request now drawn channel s') k
        (ensure-IsConsistent now drawn channel s' k))

pub pairing_request_channel-IsConsistent :
    (now : ℕ) (ref : Option String) (s : Broker)
    → IsConsistent s
    → IsConsistent (pairing_request_channel now ref s).0
unfolding pairing_request_channel
pairing_request_channel-IsConsistent now ref s h =
    let s' = expire_pairing_requests now s in
    let ref_ = safe_string pairing_request_ref_re ref in
    if_keeps (not (filled ref_)) (s, "") (s', live_channel s' (get ref_ s'.pairing_requests)) h
      (SameCore-IsConsistent (expire_pairing_requests-SameCore now s) h)
