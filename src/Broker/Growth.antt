-- ===== src/Broker/Growth.antt =====
-- Any sequence of calls of `register_workline` of scope_broker.py on one registry file.
use super_memory_brain.Base.{
  ℕ, ◌≤◌, ◌≡◌, refl, ap, ◌∙◌, String, not, ◌&&◌, Option, none, some, arith, ltb, eqb, ◌==◌, eq_iff,
  Bool-cases, inl, inr,
}
use super_memory_brain.Json.{Value}
use super_memory_brain.Broker.Types.{Broker}
use super_memory_brain.Broker.Checked.{Checked, stop, go, ◌>>=◌}
use super_memory_brain.Broker.Contract.{Libraries, ContractBinding, contract_binding}
use super_memory_brain.Broker.Durable.{Registry}
use super_memory_brain.Broker.File.{File, read_file}
use super_memory_brain.Broker.Register.{Drawn}
use super_memory_brain.Broker.Workline.{
  Access, Stored, System, register_durable, register_finish, register_workline,
}
use super_memory_brain.Broker.Ledger.{
  Identity, identity_of, same, same-≡, Entry, Ledger, ledger, set, accepted, stale, conflicting,
  verdict,
}
use super_memory_brain.Broker.Refines.{Ensures, entry_for}
use super_memory_brain.Broker.Printed.{IsHash}
use super_memory_brain.Broker.Entitled.{IsFailure}
use super_memory_brain.Broker.Stores.{IsStored, register_durable-IsStored}

-- What the ledger had, it still has, or has a later revision instead.
abbrev pub Outlasts : Option Entry → Option Entry → Type 0
Outlasts none e = Unit
Outlasts (some (n, h)) none = ⊥
Outlasts (some (n, h)) (some (m, k)) = (n ≤ m) × (n ≡ m → h ≡ k)

kept_entry : (e : Option Entry) → Outlasts e e
kept_entry none = tt
kept_entry (some (n, h)) = (omega arith, λ _. refl)

kept_twice : (a b c : Option Entry) → Outlasts a b → Outlasts b c → Outlasts a c
kept_twice none b c p q = tt
kept_twice (some (n, h)) none c p q = absurd p
kept_twice (some (n, h)) (some (m, k)) none p q = absurd q
kept_twice (some (n, h)) (some (m, k)) (some (o, j)) p q = (
  omega (arith, p.0, q.0),
  λ e. p.1 (omega (arith, p.0, q.0, e)) ∙ q.1 (omega (arith, p.0, q.0, e)),
)

-- An accepted entry outlasts the one that is held.
verdict-Outlasts :
    (held : Option Entry) (n : ℕ) (h : String)
    → verdict held (n, h) ≡ accepted
    → Outlasts held (some (n, h))
verdict-Outlasts none n h v = tt
verdict-Outlasts (some (m, k)) n h v = elim (Bool-cases (ltb n m)) [
  | inl older ↦ let wrong : stale ≡ accepted = rw older at v in cc
  | inr newer ↦ elim (Bool-cases (eqb n m && not (h == k))) [
    | inl other ↦ let wrong : conflicting ≡ accepted = rw (newer, other) at v in cc
    | inr fine ↦ (ground (arith, newer), λ e. ground (arith, e, fine, eq_iff h k))
  ]
]

IsAccepted-Outlasts :
    (b : ContractBinding) (f g : Ledger) (j : Identity)
    → (verdict (f (identity_of b)) (entry_for b) ≡ accepted)
    → g j ≡ set (identity_of b) (entry_for b) f j
    → Outlasts (f j) (g j)
IsAccepted-Outlasts b f g j v e = elim (Bool-cases (same (identity_of b) j)) [
  | inl here ↦
      rw (e, here, ← same-≡ (identity_of b) j here)
        (verdict-Outlasts (f (identity_of b)) b.contract_revision b.contract_hash v)
  | inr there ↦ rw (e, there) (kept_entry (f j))
]

-- What the file says of an identity, nothing where it cannot be read.
abbrev pub entry_at : Identity → Option Registry → Option Entry
entry_at j none = none
entry_at j (some r) = ledger r.worklines j

abbrev pub entry_in : Libraries → File → Identity → Option Entry
entry_in l file j = entry_at j (read_file l file)

entry_in_read :
    (l : Libraries) (file : File) (r : Registry) (j : Identity)
    → read_file l file ≡ some r
    → entry_in l file j ≡ ledger r.worklines j
entry_in_read l file r j e = ap (entry_at j) e

stored-Outlasts :
    (l : Libraries) (b : ContractBinding) (y : System) (m : Checked Stored) (j : Identity)
    → Ensures (λ s. IsStored l b y.file s.file s.context) IsFailure m
    → Outlasts (entry_in l y.file j) (entry_in l (register_finish y m).0.file j)
stored-Outlasts l b y (stop r) j h = kept_entry (entry_in l y.file j)
stored-Outlasts l b y (go s) j h =
    rw (entry_in_read l y.file h.old j h.reads_old, entry_in_read l s.file h.new j h.reads_new)
      (IsAccepted-Outlasts b (ledger h.old.worklines) (ledger h.new.worklines) j h.accepts.verdict_
        (h.accepts.updated j))

bound-Outlasts :
    (l : Libraries) (d : Drawn) (access : Access) (y : System) (m : Checked ContractBinding)
    (j : Identity)
    → IsHash l
    → Outlasts
        (entry_in l y.file j)
        (entry_in l (register_finish y (m >>= λ b. register_durable l d b access y.file)).0.file j)
bound-Outlasts l d access y (stop r) j hashed = kept_entry (entry_in l y.file j)
bound-Outlasts l d access y (go b) j hashed =
    stored-Outlasts l b y (register_durable l d b access y.file) j
      (register_durable-IsStored l hashed b d access y.file)

register_workline-Outlasts :
    (l : Libraries) (d : Drawn) (contract : Value) (hash : Option String) (access : Access)
    (y : System) (j : Identity)
    → IsHash l
    → Outlasts
        (entry_in l y.file j)
        (entry_in l (register_workline l d contract hash access y).0.file j)
unfolding register_workline
register_workline-Outlasts l d contract hash access y j hashed =
    bound-Outlasts l d access y (contract_binding l contract hash) j hashed

-- The files that calls make of a file: each by some broker, with any draws, contract and access.
pub data Calls (l : Libraries) (file : File) : File → Type 0 where
  none_yet : Calls l file file
  call :
      {now : File} (d : Drawn) (contract : Value) (hash : Option String) (access : Access)
      (broker : Broker)
      → Calls l file now
      → Calls l file
          (register_workline l d contract hash access
            (record { file = now; broker = broker })).0.file

-- However often `register_workline` is called, by whatever brokers, with whatever contracts, draws
-- and outcomes of the file system: where hashes have the shape of one, a workline that the file has
-- stays in it, its revision never falls, and its hash changes only with its revision.
pub Calls-Outlasts :
    (l : Libraries) (before after : File) (j : Identity)
    → IsHash l
    → Calls l before after
    → Outlasts (entry_in l before j) (entry_in l after j)
Calls-Outlasts l before after j hashed none_yet = kept_entry (entry_in l before j)
Calls-Outlasts l before after j hashed (call {now} d contract hash access broker calls) =
    kept_twice (entry_in l before j) (entry_in l now j) _
      (Calls-Outlasts l before now j hashed calls)
      (register_workline-Outlasts l d contract hash access (record { file = now; broker = broker })
        j hashed)
