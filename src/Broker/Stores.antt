-- ===== src/Broker/Stores.antt =====
-- What a success of `register_workline` of scope_broker.py leaves in the registry file and in the
-- bindings.
use mathlib.Core.Path.{subst}
use super_memory_brain.Base.{◌≡◌, refl, ◌∙◌, sym, String, Bool, true, Option, none, some}
use super_memory_brain.Base.Dict.{get}
use super_memory_brain.Json.{Value}
use super_memory_brain.Broker.Types.{
  Code, ScopeContext, Outcome, registry_write_failed, registry_invalid,
}
use super_memory_brain.Broker.Checked.{Checked, stop, go, ◌>>=◌, require_some}
use super_memory_brain.Broker.Contract.{Libraries, ContractBinding, contract_binding}
use super_memory_brain.Broker.Durable.{Registry}
use super_memory_brain.Broker.File.{File, read_file}
use super_memory_brain.Broker.Register.{Drawn, Registered, register_in}
use super_memory_brain.Broker.Workline.{
  Access, accessed, written, Stored, System, register_durable, register_finish, register_workline,
}
use super_memory_brain.Broker.Ledger.{ledger}
use super_memory_brain.Broker.Refines.{
  Ensures, Ensures->>=, worklines_after, IsAccepted, IsLedgerStep, register_in-IsLedgerStep,
}
use super_memory_brain.Broker.Printed.{IsHash, read_file-registry_value, write_file-checked}
use super_memory_brain.Broker.Rebinding.{rebound_option, get-rebind}
use super_memory_brain.Broker.Refreshed.{no_success}
use super_memory_brain.Broker.Entitled.{IsFailure, accessed-IsFailure, IsRefusal-IsFailure}

-- The file before and after hold registries between which the ledger takes the step of the
-- contract, with the context `c`.
pub record IsStored (l : Libraries) (b : ContractBinding) (before after : File) (c : ScopeContext)
    : Type 0 where
  pub old : Registry
  pub new : Registry
  pub reads_old : read_file l before ≡ some old
  pub reads_new : read_file l after ≡ some new
  pub accepts : IsAccepted b (ledger old.worklines) (ledger new.worklines) c

module _ {A B : Type 0} (P : B → Type 0) where
  Ensures-require_some :
      (o : Option A) (code : Code) (f : A → Checked B)
      → ((a : A) → o ≡ some a → Ensures P IsFailure (f a))
      → Ensures P IsFailure (require_some o code >>= f)
  Ensures-require_some none code f k = refl
  Ensures-require_some (some a) code f k = k a refl

file_same : (before after : File) → some before ≡ some after → before ≡ after
file_same before after w = cc

module _ (l : Libraries) (hashed : IsHash l) (b : ContractBinding) where
  written-IsStored :
      (writable : Bool) (before after : File) (r : Registry) (m : Registered) (u : Option Registry)
      → m.updated ≡ u
      → read_file l before ≡ some r
      → IsAccepted b (ledger r.worklines) (ledger (worklines_after r m)) m.context
      → written l writable before u ≡ some after
      → IsStored l b before after m.context
  written-IsStored writable before after r m none e reads h w =
      let same : before ≡ after = file_same before after w in
      record {
        old = r;
        new = r;
        reads_old = reads;
        reads_new = rw (← same) reads;
        accepts = rw e at h;
      }
  written-IsStored writable before after r m (some r') e reads h w =
      let (valid, same) = write_file-checked l writable r' after hashed w in
      record {
        old = r;
        new = r';
        reads_old = reads;
        reads_new = rw same (read_file-registry_value l r' hashed valid);
        accepts = rw e at h;
      }

  step-IsAccepted :
      (r : Registry) (m : Checked Registered)
      → IsLedgerStep b r m
      → Ensures
          (λ x. IsAccepted b (ledger r.worklines) (ledger (worklines_after r x)) x.context)
          IsFailure
          m
  step-IsAccepted r (stop o) h = IsRefusal-IsFailure b r o h
  step-IsAccepted r (go x) h = h

  pub register_durable-IsStored :
      (d : Drawn) (access : Access) (file : File)
      → Ensures
          (λ s. IsStored l b file s.file s.context)
          IsFailure
          (register_durable l d b access file)
  unfolding register_durable
  register_durable-IsStored d access file =
      Ensures->>= _ IsFailure (λ _. Unit {0}) (accessed access registry_write_failed) _
        (accessed-IsFailure access registry_write_failed)
        (λ writable _. Ensures-require_some _ (read_file l file) registry_invalid _ (λ r reads.
          Ensures->>= _ IsFailure _ (register_in l d b r) _
            (step-IsAccepted r (register_in l d b r) (register_in-IsLedgerStep l d b r))
            (λ x h.
              Ensures-require_some _ (written l writable file x.updated) registry_write_failed _
                (λ file' w. written-IsStored writable file file' r x x.updated refl reads h w))))

-- A success of a registration of the contract: the file takes its step, and each channel keeps its
-- binding, with the new context where it is bound to the workline.
pub record IsRegistered (l : Libraries) (b : ContractBinding) (y z : System) (o : Outcome)
    : Type 0 where
  pub context : ScopeContext
  pub answered : o.context ≡ some context
  pub stored : IsStored l b y.file z.file context
  pub rebinds :
      (channel : String)
      → get channel z.broker.bindings ≡ rebound_option context (get channel y.broker.bindings)

finish-IsRegistered :
    (l : Libraries) (b : ContractBinding) (y : System) (m : Checked Stored)
    → Ensures (λ s. IsStored l b y.file s.file s.context) IsFailure m
    → (register_finish y m).1.ok ≡ true
    → IsRegistered l b y (register_finish y m).0 (register_finish y m).1
finish-IsRegistered l b y (stop r) h e = absurd (no_success (sym h ∙ e))
finish-IsRegistered l b y (go s) h e = record {
  context = s.context;
  answered = refl;
  stored = h;
  rebinds = λ channel. get-rebind s.context channel y.broker.bindings;
}

-- Where hashes have the shape of one, a success of `register_workline` on a contract with the
-- binding `b` leaves a file that is read: its ledger is that of the file before with exactly the entry
-- of the contract set, which the ledger before accepts; the context that is answered is the
-- contract's, and exactly the bindings of its workline have it.
pub register_workline-IsRegistered :
    (l : Libraries) (d : Drawn) (contract : Value) (hash : Option String) (access : Access)
    (y : System) (b : ContractBinding)
    → IsHash l
    → contract_binding l contract hash ≡ go b
    → (register_workline l d contract hash access y).1.ok ≡ true
    → IsRegistered l b y
        (register_workline l d contract hash access y).0
        (register_workline l d contract hash access y).1
unfolding register_workline
register_workline-IsRegistered l d contract hash access y b hashed e = finish-IsRegistered l b y _ (
    subst
      (λ m.
        Ensures (λ s. IsStored l b y.file s.file s.context) IsFailure
          (m >>= λ a. register_durable l d a access y.file))
      (sym e) (register_durable-IsStored l hashed b d access y.file))
