-- ===== src/Broker/Entitled.antt =====
-- The registration in `refresh_bound_contract` of scope_broker.py, and the whole of it.
use mathlib.Core.Path.{subst}
use super_memory_brain.Base.{
  ℕ, ◌≡◌, inl, inr, refl, ap, ◌∙◌, sym, String, Bool, true, false, ◌&&◌, Option, none, some, arith,
  Bool-cases,
}
use super_memory_brain.Base.Dict.{get}
use super_memory_brain.Json.{Value}
use super_memory_brain.Broker.Types.{
  Code, ScopeContext, Outcome, Binding, Broker, safe_string, channel_id_re, lease_id_re,
  registry_write_failed, registry_invalid, contract_invalid, contract_refresh_auth_invalid,
}
use super_memory_brain.Broker.Upkeep.{expire_bindings}
use super_memory_brain.Broker.Checked.{Checked, stop, go, ◌>>=◌, ◌>>◌, require, require_some}
use super_memory_brain.Broker.Registry.{filled}
use super_memory_brain.Broker.Contract.{Libraries, ContractBinding, contract_binding}
use super_memory_brain.Broker.Durable.{Registry}
use super_memory_brain.Broker.File.{File, read_file}
use super_memory_brain.Broker.Register.{Drawn, Registered, register_in}
use super_memory_brain.Broker.Workline.{
  Access, lock_timeout, os_error, held, accessed, written, Stored, System, register_durable,
  register_finish, register_workline,
}
use super_memory_brain.Broker.Refines.{
  Ensures, Ensures->>=, IsRefusal, IsLedgerStep, register_in-IsLedgerStep,
}
use super_memory_brain.Broker.Refresh.{
  own_hash, refresh_first, refresh_current, refresh_second, ok_context, refresh_registered,
  refresh_checked, refresh_under, refresh_with, refresh_bound_contract,
}
use super_memory_brain.Broker.Refreshed.{
  require_some-Fails, IsEntitled, refresh_stored-Entitles, IsLeft, refresh_current-IsLeft,
  no_success,
}

abbrev pub IsFailure : Outcome → Type 0
IsFailure o = o.ok ≡ false

-- The context is that of the contract's revision.
abbrev pub IsOn : ContractBinding → ScopeContext → Type 0
IsOn b c = (c.contract_revision ≡ b.contract_revision) × (c.contract_hash ≡ b.contract_hash)

pub IsRefusal-IsFailure :
    (b : ContractBinding) (r : Registry) (o : Outcome) → IsRefusal b r o → IsFailure o
IsRefusal-IsFailure b r o (inl (e, _)) = ap (λ x. x.ok) e
IsRefusal-IsFailure b r o (inr (inl (e, _))) = ap (λ x. x.ok) e
IsRefusal-IsFailure b r o (inr (inr (inl (e, _)))) = ap (λ x. x.ok) e
IsRefusal-IsFailure b r o (inr (inr (inr (e, _)))) = ap (λ x. x.ok) e

step-IsOn :
    (b : ContractBinding) (r : Registry) (m : Checked Registered)
    → IsLedgerStep b r m
    → Ensures (λ x. IsOn b x.context) IsFailure m
step-IsOn b r (stop o) h = IsRefusal-IsFailure b r o h
step-IsOn b r (go x) h = (ap (λ c. c.contract_revision) h.named, ap (λ c. c.contract_hash) h.named)

pub accessed-IsFailure :
    (access : Access) (code : Code) → Ensures (λ _. Unit {0}) IsFailure (accessed access code)
unfolding accessed
accessed-IsFailure lock_timeout code = refl
accessed-IsFailure os_error code = refl
accessed-IsFailure (held writable) code = tt

register_durable-IsOn :
    (l : Libraries) (d : Drawn) (b : ContractBinding) (access : Access) (file : File)
    → Ensures (λ s. IsOn b s.context) IsFailure (register_durable l d b access file)
unfolding register_durable
register_durable-IsOn l d b access file =
    Ensures->>= _ IsFailure (λ _. Unit {0}) (accessed access registry_write_failed) _
      (accessed-IsFailure access registry_write_failed)
      (λ writable _.
        Ensures->>= _ IsFailure (λ _. Unit {0}) (require_some (read_file l file) registry_invalid) _
          (require_some-Fails (read_file l file) registry_invalid)
          (λ r _.
            Ensures->>= _ IsFailure (λ x. IsOn b x.context) (register_in l d b r) _
              (step-IsOn b r (register_in l d b r) (register_in-IsLedgerStep l d b r))
              (λ x on.
                Ensures->>= _ IsFailure (λ _. Unit {0})
                  (require_some (written l writable file x.updated) registry_write_failed) _
                  (require_some-Fails (written l writable file x.updated) registry_write_failed)
                  (λ file' _. on))))

-- A success has a context of the contract.
abbrev Succeeds : ContractBinding → Outcome → Type 0
Succeeds b o = (c : ScopeContext) × (ok_context o ≡ some c) × IsOn b c

finish-Succeeds :
    (b : ContractBinding) (y : System) (m : Checked Stored)
    → Ensures (λ s. IsOn b s.context) IsFailure m
    → (register_finish y m).1.ok ≡ true
    → Succeeds b (register_finish y m).1
finish-Succeeds b y (stop r) h e = absurd (no_success (sym h ∙ e))
finish-Succeeds b y (go s) h e = (s.context, refl, h)

chosen :
    (b : ContractBinding) (m : Checked ContractBinding) (k : ContractBinding → Checked Stored)
    → m ≡ go b
    → Ensures (λ s. IsOn b s.context) IsFailure (k b)
    → Ensures (λ s. IsOn b s.context) IsFailure (m >>= k)
chosen b m k e h = subst (λ n. Ensures (λ s. IsOn b s.context) IsFailure (n >>= k)) (sym e) h

register_workline-Succeeds :
    (l : Libraries) (d : Drawn) (contract : Value) (hash : Option String) (access : Access)
    (y : System) (b : ContractBinding)
    → contract_binding l contract hash ≡ go b
    → (register_workline l d contract hash access y).1.ok ≡ true
    → Succeeds b (register_workline l d contract hash access y).1
unfolding register_workline
register_workline-Succeeds l d contract hash access y b e = finish-Succeeds b y _ (
    chosen b (contract_binding l contract hash) (λ b. register_durable l d b access y.file) e
      (register_durable-IsOn l d b access y.file))

-- What a success of the refresh rests on: a binding that the channel had once expired ones were
-- dropped, entitled to take the contract; it is left with a context of the contract.
pub record IsRefreshed (channel lease : String) (b : ContractBinding) (s : Broker) (y : System)
    (o : Outcome) : Type 0 where
  pub prior : Binding
  pub had : get channel s.bindings ≡ some prior
  pub entitled : IsEntitled lease b prior
  pub left : IsLeft channel lease prior y o
  pub refreshed : IsOn b left.after.context

same_context : (a c : ScopeContext) → some a ≡ some c → a ≡ c
same_context a c e = cc

refresh_current-IsOn :
    (channel lease : String) (b : ContractBinding) (prior : Binding) (c : ScopeContext) (y : System)
    (o : Option Binding)
    → IsOn b c
    → (refresh_current channel lease prior c y o).1.ok ≡ true
    → (refresh_current channel lease prior c y o).1.context ≡ some c
unfolding refresh_current
refresh_current-IsOn channel lease b prior c y none on e = cc
refresh_current-IsOn channel lease b prior c y (some a) on e = ground (arith, e)

-- The context of a result: one of the contract, or none and no success.
abbrev IsKnown : ContractBinding → Outcome → Option ScopeContext → Type 0
IsKnown b r none = IsFailure r
IsKnown b r (some c) = IsOn b c

ok_context-IsKnown :
    (b : ContractBinding) (r : Outcome) → (r.ok ≡ true → Succeeds b r) → IsKnown b r (ok_context r)
ok_context-IsKnown b r h = elim (Bool-cases r.ok) [
  | inl yes_ ↦ let (c, k, on) = h yes_ in subst (IsKnown b r) (sym k) on
  | inr no_ ↦ let none_ : ok_context r ≡ none = rw no_ refl in subst (IsKnown b r) (sym none_) no_
]

module _ (channel lease : String) (b : ContractBinding) (s : Broker) where
  registered-IsRefreshed :
      (prior : Binding) (y : System) (r : Outcome) (o : Option ScopeContext)
      → get channel s.bindings ≡ some prior
      → IsEntitled lease b prior
      → IsKnown b r o
      → (refresh_registered channel lease prior y r o).1.ok ≡ true
      → IsRefreshed channel lease b s
          (refresh_registered channel lease prior y r o).0
          (refresh_registered channel lease prior y r o).1
  unfolding refresh_registered refresh_second
  registered-IsRefreshed prior y r none had entitled on e = absurd (no_success (sym on ∙ e))
  registered-IsRefreshed prior y r (some c) had entitled on e =
      let stored = get channel y.broker.bindings in
      let left = refresh_current-IsLeft channel lease prior c y stored e in
      let shown = refresh_current-IsOn channel lease b prior c y stored on e in
      let same : left.after.context ≡ c =
        same_context left.after.context c (sym left.shown ∙ shown) in
      record { prior = prior; had = had; entitled = entitled; left = left; refreshed = rw same on }

  module _ (l : Libraries) (d : Drawn) (contract : Value) (access : Access) where
    under-IsRefreshed :
        (y : System) (m : Checked Binding)
        → contract_binding l contract (own_hash l contract) ≡ go b
        → Ensures
            (λ prior. (get channel s.bindings ≡ some prior) × IsEntitled lease b prior)
            IsFailure
            m
        → (refresh_under l d channel lease contract access y m).1.ok ≡ true
        → IsRefreshed channel lease b s
            (refresh_under l d channel lease contract access y m).0
            (refresh_under l d channel lease contract access y m).1
    unfolding refresh_under
    under-IsRefreshed y (stop r) c h e = absurd (no_success (sym h ∙ e))
    under-IsRefreshed y (go prior) c h e =
        let hash = own_hash l contract in
        let registered = register_workline l d contract hash access y in
        registered-IsRefreshed prior registered.0 registered.1 (ok_context registered.1) h.0 h.1
          (ok_context-IsKnown b registered.1
            (register_workline-Succeeds l d contract hash access y b c))
          e

checked_steps :
    (l : Libraries) (contract : Value) (b : ContractBinding) (test : Bool) (hash : Option String)
    → (require test contract_refresh_auth_invalid
        >> (require_some hash contract_invalid >>= λ expected.
            contract_binding l contract (some expected)))
      ≡ go b
    → contract_binding l contract hash ≡ go b
checked_steps l contract b true (some hash) e = e
checked_steps l contract b true none e = cc
checked_steps l contract b false hash e = cc

-- The contract that the first guards let pass is that of its own hash.
checked_contract :
    (l : Libraries) (channel_id lease_id : Option String) (contract : Value) (b : ContractBinding)
    → refresh_checked l channel_id lease_id contract ≡ go b
    → contract_binding l contract (own_hash l contract) ≡ go b
unfolding refresh_checked
checked_contract l channel_id lease_id contract b e =
    checked_steps l contract b
      (filled (safe_string channel_id_re channel_id) && filled (safe_string lease_id_re lease_id))
      (own_hash l contract) e

refresh_with-IsRefreshed :
    (l : Libraries) (now : ℕ) (d : Drawn) (channel lease : String) (contract : Value)
    (access : Access) (y : System) (b : ContractBinding)
    → contract_binding l contract (own_hash l contract) ≡ go b
    → (refresh_with l now d channel lease contract access y (go b)).1.ok ≡ true
    → IsRefreshed channel lease b
        (expire_bindings now y.broker)
        (refresh_with l now d channel lease contract access y (go b)).0
        (refresh_with l now d channel lease contract access y (go b)).1
unfolding refresh_with refresh_first
refresh_with-IsRefreshed l now d channel lease contract access y b c e =
    let s = expire_bindings now y.broker in
    under-IsRefreshed channel lease b s l d contract access (record y { broker = s }) _ c
      (refresh_stored-Entitles channel lease b s (get channel s.bindings)) e

-- A success of `refresh_bound_contract`, on a contract that the first guards let pass, is only had by
-- the channel's own write lease: the channel has a binding that has not expired, writes under the
-- lease that is given, is for the same workline and package, and has no later revision and no other
-- contract of the revision. It keeps its workline, its access, its lease and its expiry, and its
-- context, which is the one that is answered, has the contract's revision and hash.
pub refresh_bound_contract-IsRefreshed :
    (l : Libraries) (now : ℕ) (d : Drawn) (channel_id lease_id : Option String) (contract : Value)
    (access : Access) (y : System) (b : ContractBinding)
    → refresh_checked l channel_id lease_id contract ≡ go b
    → (refresh_bound_contract l now d channel_id lease_id contract access y).1.ok ≡ true
    → IsRefreshed
        (safe_string channel_id_re channel_id)
        (safe_string lease_id_re lease_id)
        b
        (expire_bindings now y.broker)
        (refresh_bound_contract l now d channel_id lease_id contract access y).0
        (refresh_bound_contract l now d channel_id lease_id contract access y).1
unfolding refresh_bound_contract
refresh_bound_contract-IsRefreshed l now d channel_id lease_id contract access y b c e =
    let k = safe_string channel_id_re channel_id in
    let n = safe_string lease_id_re lease_id in
    let good = checked_contract l channel_id lease_id contract b c in
    subst
      (λ m.
        (refresh_with l now d k n contract access y m).1.ok ≡ true
        → IsRefreshed k n b (expire_bindings now y.broker)
            (refresh_with l now d k n contract access y m).0
            (refresh_with l now d k n contract access y m).1)
      (sym c) (refresh_with-IsRefreshed l now d k n contract access y b good) e
