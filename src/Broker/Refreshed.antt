-- ===== src/Broker/Refreshed.antt =====
-- What a success of `refresh_bound_contract` of scope_broker.py has to start from, and what it leaves.
use super_memory_brain.Base.{
  ◌≡◌, ◌≢◌, inl, inr, refl, ap, String, Bool, true, false, not, ◌&&◌, Option, none, some, member,
  ltb, eqb, arith, eq_iff, eq_refl, ◌==◌, Bool-cases,
}
use super_memory_brain.Base.Dict.{get, get-put}
use super_memory_brain.Broker.Types.{Code, ScopeContext, Outcome, write, is_write, Binding, Broker}
use super_memory_brain.Broker.Checked.{Checked, stop, go, require, require_some}
use super_memory_brain.Broker.Contract.{ContractBinding}
use super_memory_brain.Broker.Workline.{System}
use super_memory_brain.Broker.Refines.{Ensures}
use super_memory_brain.Broker.Refresh.{
  is_same_workline, refresh_bound, refresh_stored, is_still, refreshed_binding, refresh_current,
}

-- Whatever ends a check early is no success.
abbrev pub Fails {ℓ} : {A : Type ℓ} → Checked A → Type 0
Fails = Ensures (λ _. Unit {0}) (λ o. o.ok ≡ false)

pub require-Fails : (test : Bool) (code : Code) → Fails (require test code)
require-Fails true code = tt
require-Fails false code = refl

pub require_some-Fails {ℓ} : {A : Type ℓ} (o : Option A) (code : Code) → Fails (require_some o code)
require_some-Fails none code = refl
require_some-Fails (some a) code = tt

-- The binding of the channel lets the contract in: it writes under the lease, for the same workline
-- and package, and has no later revision and no other contract of the revision.
pub record IsEntitled (lease : String) (b : ContractBinding) (prior : Binding) : Type 0 where
  pub writes : prior.access_mode ≡ write
  pub leased : prior.lease_id ≡ lease
  pub identified : is_same_workline b prior.context ≡ true
  pub newer : ltb b.contract_revision prior.context.contract_revision ≡ false
  pub known :
      (eqb b.contract_revision prior.context.contract_revision
        && not (b.contract_hash == prior.context.contract_hash))
      ≡ false

-- A binding that is entitled, or no success.
abbrev Entitles : String → ContractBinding → Binding → Checked Binding → Type 0
Entitles lease b stored =
    Ensures (λ prior. (stored ≡ prior) × IsEntitled lease b prior) (λ o. o.ok ≡ false)

write_of : (stored : Binding) → is_write stored.access_mode ≡ true → stored.access_mode ≡ write
write_of stored h = ground arith

Entitles-some :
    (lease : String) (b : ContractBinding) (stored : Binding) (m : Checked Binding)
    → Entitles lease b stored m
    → Ensures (λ prior. (some stored ≡ some prior) × IsEntitled lease b prior) (λ r. r.ok ≡ false) m
Entitles-some lease b stored (stop r) h = h
Entitles-some lease b stored (go prior) h = (ap some h.0, h.1)

pub no_success : false ≢ true
no_success e = cc

refresh_bound-Entitles :
    (lease : String) (b : ContractBinding) (stored : Binding)
    → Entitles lease b stored (refresh_bound lease b stored)
unfolding refresh_bound
refresh_bound-Entitles lease b stored = elim (Bool-cases (is_write stored.access_mode)) [
  | inr reads ↦ rw reads refl
  | inl writes ↦ elim (Bool-cases (stored.lease_id == lease)) [
    | inr other ↦ rw (writes, other) refl
    | inl leased ↦ elim (Bool-cases (is_same_workline b stored.context)) [
      | inr foreign ↦ rw (writes, leased, foreign) refl
      | inl own ↦ elim (Bool-cases (ltb b.contract_revision stored.context.contract_revision)) [
        | inl older ↦ rw (writes, leased, own, older) refl
        | inr newer ↦
            elim (Bool-cases (
              eqb b.contract_revision stored.context.contract_revision
              && not (b.contract_hash == stored.context.contract_hash))) [
                | inl conflict ↦ rw (writes, leased, own, newer, conflict) refl
                | inr fine ↦
                    rw (writes, leased, own, newer, fine)
                      (
                        refl,
                        record {
                          writes = write_of stored writes;
                          leased = (eq_iff stored.lease_id lease).0 leased;
                          identified = own;
                          newer = newer;
                          known = fine;
                        },
                      )
              ]
      ]
    ]
  ]
]

pub refresh_stored-Entitles :
    (channel lease : String) (b : ContractBinding) (s : Broker) (o : Option Binding)
    → Ensures
        (λ prior. (o ≡ some prior) × IsEntitled lease b prior)
        (λ r. r.ok ≡ false)
        (refresh_stored channel lease b s o)
unfolding refresh_stored
refresh_stored-Entitles channel lease b s none = refl
refresh_stored-Entitles channel lease b s (some stored) =
    elim (Bool-cases (member channel s.channels)) [
      | inr gone ↦ rw gone refl
      | inl live ↦ rw live (
          Entitles-some lease b stored (refresh_bound lease b stored)
            (refresh_bound-Entitles lease b stored))
    ]

-- What is left: the binding with the new context, its workline, lease and expiry as they were.
pub record IsLeft (channel lease : String) (prior : Binding) (y : System) (o : Outcome)
    : Type 0 where
  pub after : Binding
  pub bound_ : get channel y.broker.bindings ≡ some after
  pub workline : after.workline_id ≡ prior.workline_id
  pub writes : after.access_mode ≡ write
  pub leased : after.lease_id ≡ lease
  pub expires : after.lease_expires_at ≡ prior.lease_expires_at
  pub shown : o.context ≡ some after.context

pub refresh_current-IsLeft :
    (channel lease : String) (prior : Binding) (c : ScopeContext) (y : System) (o : Option Binding)
    → (refresh_current channel lease prior c y o).1.ok ≡ true
    → IsLeft channel lease prior
        (refresh_current channel lease prior c y o).0
        (refresh_current channel lease prior c y o).1
unfolding refresh_current
refresh_current-IsLeft channel lease prior c y none ok_ = cc
refresh_current-IsLeft channel lease prior c y (some b) ok_ =
    elim (Bool-cases (is_still prior lease b)) [
      | inl still ↦
          let w : (b.workline_id == prior.workline_id) ≡ true = ground (arith, still) in
          let k : (b.lease_id == lease) ≡ true = ground (arith, still) in
          let m : is_write b.access_mode ≡ true = ground (arith, still) in
          rw still (record {
            after = refreshed_binding c prior b;
            bound_ =
                rw
                  (
                    get-put channel channel (refreshed_binding c prior b) y.broker.bindings,
                    eq_refl channel,
                  )
                  refl;
            workline = (eq_iff b.workline_id prior.workline_id).0 w;
            writes = write_of b m;
            leased = (eq_iff b.lease_id lease).0 k;
            expires = refl;
            shown = refl;
          })
      | inr gone ↦ absurd (no_success (rw gone at ok_))
    ]
