-- ===== src/Broker/Ledger.antt =====
-- The registry of scope_broker.py as a ledger: what revision and hash each identity of a workline has.
use super_memory_brain.Base.{
  ℕ, ◌≡◌, ◌≢◌, inl, inr, refl, String, Bool, true, false, ◌&&◌, not, Option, none, some, List, [],
  ◌∷◌, ◌++◌, ltb, eqb, ◌==◌, if◌then◌else◌, arith, eq_iff, eq_refl, Bool-cases,
}
use super_memory_brain.Broker.Registry.{WorklineRecord}
use super_memory_brain.Broker.Contract.{ContractBinding}
use super_memory_brain.Broker.Register.{is_workline_of, matching_worklines, replace_workline}

-- The identity of a workline.
pub record Identity : Type 0 where
  pub workspace : String
  pub owner : String
  pub task : String
  pub instance_ : String

abbrev pub identity_of : ContractBinding → Identity
identity_of b = record {
  workspace = b.workspace_key;
  owner = b.owner_session_key;
  task = b.task_id;
  instance_ = b.task_instance_id;
}

abbrev pub has_identity : Identity → WorklineRecord → Bool
has_identity i w =
    w.workspace_key == i.workspace
    && w.owner_session_key == i.owner
    && w.task_id == i.task
    && w.task_instance_id == i.instance_

abbrev pub same : Identity → Identity → Bool
same i j =
    i.workspace == j.workspace
    && i.owner == j.owner
    && i.task == j.task
    && i.instance_ == j.instance_

-- A revision of a contract and its hash.
abbrev pub Entry : Type 0
Entry = ℕ × String

abbrev pub Ledger : Type 0
Ledger = Identity → Option Entry

-- The entry of the first workline of the identity.
pub ledger : List WorklineRecord → Ledger
ledger [] i = none
ledger (w ∷ worklines) i =
    if has_identity i w then some (w.contract_revision, w.contract_hash) else ledger worklines i

-- A ledger that has the entry `e` at `i`.
abbrev pub set : Identity → Entry → Ledger → Ledger
set i e f j = if same i j then some e else f j

-- What the ledger says to an entry.
pub data Verdict : Type 0 where
  accepted stale conflicting : Verdict

abbrev pub verdict : Option Entry → Entry → Verdict
verdict none (revision, digest) = accepted
verdict (some (held, hash)) (revision, digest) =
    if ltb revision held
    then stale
    else if eqb revision held && not (digest == hash)
    then conflicting
    else accepted

pub same-≡ : (i j : Identity) → same i j ≡ true → i ≡ j
same-≡ i j h =
    let e1 : i.workspace ≡ j.workspace = (eq_iff i.workspace j.workspace).0 (ground arith) in
    let e2 : i.owner ≡ j.owner = (eq_iff i.owner j.owner).0 (ground arith) in
    let e3 : i.task ≡ j.task = (eq_iff i.task j.task).0 (ground arith) in
    let e4 : i.instance_ ≡ j.instance_ = (eq_iff i.instance_ j.instance_).0 (ground arith) in cc

pub same_refl : (i : Identity) → same i i ≡ true
same_refl i =
    ground (arith, eq_refl i.workspace, eq_refl i.owner, eq_refl i.task, eq_refl i.instance_)

-- A workline of the identity `i` has another one as `i` has it.
has_identity-same :
    (i j : Identity) (w : WorklineRecord) → has_identity i w ≡ true → has_identity j w ≡ same i j
has_identity-same i j w h =
    let e1 : w.workspace_key ≡ i.workspace =
      (eq_iff w.workspace_key i.workspace).0 (ground arith) in
    let e2 : w.owner_session_key ≡ i.owner =
      (eq_iff w.owner_session_key i.owner).0 (ground arith) in
    let e3 : w.task_id ≡ i.task = (eq_iff w.task_id i.task).0 (ground arith) in
    let e4 : w.task_instance_id ≡ i.instance_ =
      (eq_iff w.task_instance_id i.instance_).0 (ground arith) in
    rw (e1, e2, e3, e4)

differs :
    (i j : Identity) (w : WorklineRecord)
    → has_identity i w ≡ false
    → has_identity j w ≡ true
    → same i j ≡ false
differs i j w no_ yes_ = elim (Bool-cases (same i j)) [
  | inl equal ↦ let e : i ≡ j = same-≡ i j equal in cc
  | inr other ↦ other
]

some-ne-none : {e : Entry} → some e ≢ none
some-ne-none h = cc

abbrev pub entry_of : WorklineRecord → Entry
entry_of w = (w.contract_revision, w.contract_hash)

abbrev pub first_entry : List WorklineRecord → Option Entry
first_entry [] = none
first_entry (w ∷ others) = some (entry_of w)

module _ (b : ContractBinding) where
  abbrev i : Identity
  i = identity_of b

  -- The entry of the contract's identity is that of its first workline.
  pub ledger_first :
      (worklines : List WorklineRecord)
      → ledger worklines i ≡ first_entry (matching_worklines b worklines)
  unfolding ledger matching_worklines
  ledger_first [] = refl
  ledger_first (w ∷ worklines) = elim (Bool-cases (is_workline_of b w)) [
    | inl yes_ ↦ rw yes_ refl
    | inr no_ ↦ rw no_ (ledger_first worklines)
  ]

  -- A workline of the identity after all others.
  pub ledger_append :
      (worklines : List WorklineRecord) (v : WorklineRecord) (j : Identity)
      → has_identity i v ≡ true
      → ledger worklines i ≡ none
      → ledger (worklines ++ (v ∷ [])) j ≡ set i (entry_of v) (ledger worklines) j
  unfolding ledger
  ledger_append [] v j h e = rw (has_identity-same i j v h) refl
  ledger_append (w ∷ worklines) v j h e = elim (Bool-cases (has_identity i w)) [
    | inl yes_ ↦ absurd (some-ne-none {e = entry_of w} (rw yes_ at e))
    | inr no_ ↦ elim (Bool-cases (has_identity j w)) [
      | inl here ↦ let other : same i j ≡ false = differs i j w no_ here in rw (here, other) refl
      | inr there ↦ rw there (ledger_append worklines v j h (ground (arith, no_)))
    ]
  ]

  module _ (v : WorklineRecord) (h : has_identity i v ≡ true) where
    -- No other identity is touched.
    ledger_apart :
        (worklines : List WorklineRecord) (j : Identity)
        → same i j ≡ false
        → ledger (replace_workline b v worklines) j ≡ ledger worklines j
    unfolding ledger replace_workline
    ledger_apart [] j d = refl
    ledger_apart (w ∷ worklines) j d = elim (Bool-cases (is_workline_of b w)) [
      | inl yes_ ↦
          rw (yes_, has_identity-same i j v h, has_identity-same i j w yes_, d)
            (ledger_apart worklines j d)
      | inr no_ ↦ rw (no_, ledger_apart worklines j d) refl
    ]

    ledger_replaced :
        (worklines : List WorklineRecord) (e : Entry)
        → ledger worklines i ≡ some e
        → ledger (replace_workline b v worklines) i ≡ some (entry_of v)
    unfolding ledger replace_workline
    ledger_replaced [] e k = cc
    ledger_replaced (w ∷ worklines) e k = elim (Bool-cases (is_workline_of b w)) [
      | inl yes_ ↦ rw (yes_, h) refl
      | inr no_ ↦ rw no_ (rw no_ (ledger_replaced worklines e (ground (arith, no_))))
    ]

    pub ledger_replace :
        (worklines : List WorklineRecord) (e : Entry) (j : Identity)
        → ledger worklines i ≡ some e
        → ledger (replace_workline b v worklines) j ≡ set i (entry_of v) (ledger worklines) j
    ledger_replace worklines e j k = elim (Bool-cases (same i j)) [
      | inl equal ↦ rw (equal, ← same-≡ i j equal) (ledger_replaced worklines e k)
      | inr other ↦ rw other (ledger_apart worklines j other)
    ]

  pub set_same : (f : Ledger) (e : Entry) (j : Identity) → f i ≡ some e → f j ≡ set i e f j
  set_same f e j k = elim (Bool-cases (same i j)) [
    | inl equal ↦ rw (equal, ← same-≡ i j equal) k
    | inr other ↦ rw other refl
  ]
