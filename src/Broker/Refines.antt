-- ===== src/Broker/Refines.antt =====
-- `register_workline` of scope_broker.py against the ledger of revisions and hashes.
use super_memory_brain.Base.{
  ◌+◌, ◌≤◌, ◌<◌, ◌≡◌, ◌⊎◌, inl, inr, refl, ap, sym, ◌∙◌, String, Bool, true, false, ◌||◌, none,
  some, List, [], ◌∷◌, ◌++◌, length, ltb, eqb, ◌==◌, if◌then◌else◌, arith, eq_iff, Bool-cases,
}
use super_memory_brain.Broker.Types.{
  ScopeContext, Outcome, contract_revision_stale, contract_hash_conflict, registry_ambiguous,
  registry_capacity, withheld, failure,
}
use super_memory_brain.Broker.Checked.{Checked, stop, go, ◌>>=◌}
use super_memory_brain.Broker.Registry.{WorklineRecord}
use super_memory_brain.Broker.Contract.{Libraries, ContractBinding}
use super_memory_brain.Broker.Durable.{
  SessionRecord, Registry, max_registry_sessions, max_registry_worklines,
}
use super_memory_brain.Broker.Register.{
  Drawn, matching_worklines, take_session, matching_sessions, context_on, record_of, Taken,
  replace_workline, refresh_existing, take_workline, Registered, register_in,
}
use super_memory_brain.Broker.Ledger.{
  Identity, identity_of, has_identity, same_refl, Entry, Ledger, ledger, set, Verdict, accepted,
  stale, conflicting, verdict, entry_of, first_entry, ledger_first, ledger_append, ledger_replace,
  set_same,
}

-- A postcondition of both ends.
abbrev pub Ensures {ℓ κ} : {A : Type ℓ} → (A → Type κ) → (Outcome → Type κ) → Checked A → Type κ
Ensures P Q (go a) = P a
Ensures P Q (stop o) = Q o

module _ {ℓ κ μ} {A : Type ℓ} {B : Type κ} (P : B → Type μ) (Q : Outcome → Type μ) where
  pub Ensures->>= :
      (R : A → Type μ) (m : Checked A) (f : A → Checked B)
      → Ensures R Q m
      → ((a : A) → R a → Ensures P Q (f a))
      → Ensures P Q (m >>= f)
  Ensures->>= R (go a) f h k = k a h
  Ensures->>= R (stop o) f h k = h

-- The registry has two records of the contract's session or of its workline.
abbrev pub IsAmbiguous : ContractBinding → Registry → Type 0
IsAmbiguous b r =
    (1 < length (matching_sessions b r.sessions)) ⊎ (1 < length (matching_worklines b r.worklines))

-- It has none of the contract's session, or of its workline, and no room for one more.
abbrev pub IsFull : ContractBinding → Registry → Type 0
IsFull b r =
    ((matching_sessions b r.sessions ≡ []) × (max_registry_sessions ≤ length r.sessions))
    ⊎ ((matching_worklines b r.worklines ≡ []) × (max_registry_worklines ≤ length r.worklines))

-- The registry does not admit the contract, whatever its revision.
abbrev pub IsUnfit : ContractBinding → Registry → Outcome → Type 0
IsUnfit b r o =
    ((o ≡ failure registry_ambiguous withheld) × IsAmbiguous b r)
    ⊎ ((o ≡ failure registry_capacity withheld) × IsFull b r)

-- The entry of a contract.
abbrev pub entry_for : ContractBinding → Entry
entry_for b = (b.contract_revision, b.contract_hash)

-- What the ledger `f` says to the contract.
abbrev pub judged : ContractBinding → Ledger → Verdict
judged b f = verdict (f (identity_of b)) (entry_for b)

-- A refusal, with its reason.
abbrev pub IsRefusal : ContractBinding → Registry → Outcome → Type 0
IsRefusal b r o =
    ((o ≡ failure contract_revision_stale withheld) × (judged b (ledger r.worklines) ≡ stale))
    ⊎ ((o ≡ failure contract_hash_conflict withheld)
        × (judged b (ledger r.worklines) ≡ conflicting))
    ⊎ IsUnfit b r o

-- The worklines of the registry after the call.
abbrev pub worklines_after : Registry → Registered → List WorklineRecord
worklines_after r m = elim m.updated [ none ↦ r.worklines | some r' ↦ r'.worklines ]

-- The ledger `g` after an accepted contract.
pub record IsAccepted (b : ContractBinding) (f g : Ledger) (c : ScopeContext) : Type 0 where
  pub verdict_ : judged b f ≡ accepted
  pub updated : (j : Identity) → g j ≡ set (identity_of b) (entry_for b) f j
  pub named : c ≡ context_on b c.session_id c.workline_id c.scope_ref

record IsTaken (b : ContractBinding) (worklines : List WorklineRecord) (t : Taken) : Type 0 where
  accepts : IsAccepted b (ledger worklines) (ledger t.worklines) t.context
  kept : t.changed ≡ false → t.worklines ≡ worklines

module _ (l : Libraries) (d : Drawn) (b : ContractBinding) where
  take_session-IsRefusal :
      (r : Registry) (matching : List SessionRecord)
      → matching_sessions b r.sessions ≡ matching
      → Ensures (λ _. Unit {0}) (IsRefusal b r) (take_session d b r.sessions matching)
  unfolding take_session
  take_session-IsRefusal r [] e =
      elim (Bool-cases (ltb (length r.sessions) max_registry_sessions)) [
        | inl room ↦ rw room tt
        | inr full ↦ rw full (inr (inr (inr (refl, inl (e, ground (arith, full))))))
      ]
  take_session-IsRefusal r (s ∷ []) e = tt
  take_session-IsRefusal r (s ∷ t ∷ others) e = inr (inr (inl (refl, inl (rw e (omega arith)))))

  record_of-identity :
      (session workline ref created updated : String)
      → has_identity (identity_of b) (record_of (context_on b session workline ref) created updated)
        ≡ true
  unfolding record_of
  record_of-identity session workline ref created updated = same_refl (identity_of b)

  record_of-entry :
      (session workline ref created updated : String)
      → entry_of (record_of (context_on b session workline ref) created updated) ≡ entry_for b
  unfolding record_of
  record_of-entry session workline ref created updated = refl

  module _ (r : Registry) where
    abbrev worklines : List WorklineRecord
    worklines = r.worklines

    abbrev f : Ledger
    f = ledger r.worklines

    -- The same contract again.
    same-IsTaken :
        (w : WorklineRecord)
        → f (identity_of b) ≡ some (entry_of w)
        → ltb b.contract_revision w.contract_revision ≡ false
        → eqb b.contract_revision w.contract_revision ≡ true
        → (b.contract_hash == w.contract_hash) ≡ true
        → IsTaken b worklines (record {
          context = context_on b w.session_id w.workline_id w.scope_ref;
          worklines = worklines;
          changed = false;
        })
    same-IsTaken w e newer equal known =
        let r : w.contract_revision ≡ b.contract_revision = ground (arith, equal) in
        let h : w.contract_hash ≡ b.contract_hash =
          sym ((eq_iff b.contract_hash w.contract_hash).0 known) in
        let k : f (identity_of b) ≡ some (entry_for b) = rw (e, r, h) refl in
        record {
          accepts = record {
            verdict_ = rw (e, newer, equal, known) refl;
            updated = λ j. set_same b f (entry_for b) j k;
            named = refl;
          };
          kept = λ _. refl;
        }

    -- A later contract in the place of the one that is held.
    later-IsTaken :
        (w : WorklineRecord) (created updated : String)
        → f (identity_of b) ≡ some (entry_of w)
        → ltb b.contract_revision w.contract_revision ≡ false
        → eqb b.contract_revision w.contract_revision ≡ false
        → IsTaken b worklines (record {
          context = context_on b w.session_id w.workline_id w.scope_ref;
          worklines =
              replace_workline b
                (record_of (context_on b w.session_id w.workline_id w.scope_ref) created updated)
                worklines;
          changed = true;
        })
    later-IsTaken w created updated e newer later = record {
      accepts = record {
        verdict_ = rw (e, newer, later) refl;
        updated = λ j.
            let v =
              record_of (context_on b w.session_id w.workline_id w.scope_ref) created updated in
            ledger_replace b v
              (record_of-identity w.session_id w.workline_id w.scope_ref created updated) worklines
              (entry_of w) j e
            ∙ ap (λ x. set (identity_of b) x f j)
                (record_of-entry w.session_id w.workline_id w.scope_ref created updated);
        named = refl;
      };
      kept = λ h. cc;
    }

    refresh_existing-IsTaken :
        (w : WorklineRecord)
        → f (identity_of b) ≡ some (entry_of w)
        → Ensures (IsTaken b worklines) (IsRefusal b r) (refresh_existing d b worklines w)
    unfolding refresh_existing
    refresh_existing-IsTaken w e = elim (Bool-cases (ltb b.contract_revision w.contract_revision)) [
      | inl older ↦ rw older (inl (refl, rw (e, older) refl))
      | inr newer ↦ elim (Bool-cases (eqb b.contract_revision w.contract_revision)) [
        | inl equal ↦ elim (Bool-cases (b.contract_hash == w.contract_hash)) [
          | inl known ↦ rw (newer, equal, known) (same-IsTaken w e newer equal known)
          | inr other ↦
              rw (newer, equal, other) (inr (inl (refl, rw (e, newer, equal, other) refl)))
        ]
        | inr later ↦ rw (newer, later) (later-IsTaken w w.created_at d.current_stamp e newer later)
      ]
    ]

    -- A workline of a new identity.
    fresh-IsTaken :
        (session workline ref created updated : String)
        → f (identity_of b) ≡ none
        → IsTaken b worklines (record {
          context = context_on b session workline ref;
          worklines =
              worklines ++ (record_of (context_on b session workline ref) created updated ∷ []);
          changed = true;
        })
    fresh-IsTaken session workline ref created updated e = record {
      accepts = record {
        verdict_ = rw e refl;
        updated = λ j.
            ledger_append b worklines
              (record_of (context_on b session workline ref) created updated) j
              (record_of-identity session workline ref created updated) e
            ∙ ap (λ x. set (identity_of b) x f j)
                (record_of-entry session workline ref created updated);
        named = refl;
      };
      kept = λ h. cc;
    }

    take_workline-IsTaken :
        (s : SessionRecord) (matching : List WorklineRecord)
        → matching_worklines b worklines ≡ matching
        → f (identity_of b) ≡ first_entry matching
        → Ensures (IsTaken b worklines) (IsRefusal b r) (take_workline l d b s worklines matching)
    unfolding take_workline
    take_workline-IsTaken s [] m e =
        elim (Bool-cases (ltb (length worklines) max_registry_worklines)) [
          | inl room ↦ rw room (fresh-IsTaken s.session_id d.workline_draw _ _ _ e)
          | inr full ↦ rw full (inr (inr (inr (refl, inr (m, ground (arith, full))))))
        ]
    take_workline-IsTaken s (w ∷ []) m e = refresh_existing-IsTaken w e
    take_workline-IsTaken s (w ∷ v ∷ others) m e = inr (inr (inl (refl, inr (rw m (omega arith)))))

-- The end of a call on the registry `r`: accepted, with the ledger's entry set, or refused.
abbrev pub IsLedgerStep : ContractBinding → Registry → Checked Registered → Type 0
IsLedgerStep b r =
    Ensures (λ m. IsAccepted b (ledger r.worklines) (ledger (worklines_after r m)) m.context)
      (IsRefusal b r)

registered-IsAccepted :
    (b : ContractBinding) (r : Registry) (sessions : List SessionRecord) (fresh : Bool) (t : Taken)
    → IsTaken b r.worklines t
    → IsAccepted b
        (ledger r.worklines)
        (ledger (
          worklines_after r (record {
            context = t.context;
            updated =
                if fresh || t.changed
                then some (record {
                  registry_revision = r.registry_revision + 1;
                  sessions = sessions;
                  worklines = t.worklines;
                })
                else none;
          })))
        t.context
registered-IsAccepted b r sessions true t h = h.accepts
registered-IsAccepted b r sessions false t h = elim (Bool-cases t.changed) [
  | inl yes_ ↦ rw yes_ h.accepts
  | inr no_ ↦ rw no_ (rw (h.kept no_) at h.accepts)
]

-- What a call makes of the registry is a step of the ledger, which has a revision and a hash for
-- each identity of a workline. A contract is accepted only if the ledger has nothing of its
-- identity, an older revision, or the same revision with the same hash, and then exactly the entry
-- of that identity is set. It is refused as stale or conflicting only if the ledger has a later
-- revision, or the same with another hash; as ambiguous only if the registry has two records of
-- its session or of its workline; for want of room only if the registry has no record of its
-- session, or none of its workline, and as many of that kind as it may have; and for nothing else.
pub register_in-IsLedgerStep :
    (l : Libraries) (d : Drawn) (b : ContractBinding) (r : Registry)
    → IsLedgerStep b r (register_in l d b r)
unfolding register_in
register_in-IsLedgerStep l d b r =
    Ensures->>= _ (IsRefusal b r) (λ _. Unit {0})
      (take_session d b r.sessions (matching_sessions b r.sessions)) _
      (take_session-IsRefusal l d b r (matching_sessions b r.sessions) refl)
      (λ s _.
        Ensures->>= _ (IsRefusal b r) (IsTaken b r.worklines)
          (take_workline l d b s.session r.worklines (matching_worklines b r.worklines)) _
          (take_workline-IsTaken l d b r s.session (matching_worklines b r.worklines) refl
            (ledger_first b r.worklines))
          (λ t h. registered-IsAccepted b r s.sessions s.is_fresh t h))
