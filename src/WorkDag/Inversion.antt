-- ===== src/WorkDag/Inversion.antt =====
-- Postconditions of the parsers of work_dag.py, one rule for each way to go on.
use mathlib.Core.Path.{subst}
use super_memory_brain.Base.{◌≡◌, refl, ap, ◌∙◌, Bool, true, false, Option, none, some}
use super_memory_brain.WorkDag.Contract.{
  DagCode, Parsed, refused, parsed, ◌>>=◌, ◌>>◌, demand, demand_some,
}

-- The result has the property `P`, unless the value is refused.
abbrev pub Ensures {ℓ κ} : {A : Type ℓ} → (A → Type κ) → Parsed A → Type κ
Ensures P (parsed a) = P a
Ensures P (refused code) = Unit

module _ {ℓ κ μ} {A : Type ℓ} {B : Type κ} (P : B → Type μ) where
  pub Ensures->>= {ν} :
      (Q : A → Type ν) (m : Parsed A) (f : A → Parsed B)
      → Ensures Q m
      → ((a : A) → Q a → Ensures P (f a))
      → Ensures P (m >>= f)
  Ensures->>= Q (parsed a) f h k = k a h
  Ensures->>= Q (refused c) f h k = tt

  pub Ensures-demand_some :
      (o : Option A) (code : DagCode) (f : A → Parsed B)
      → ((a : A) → o ≡ some a → Ensures P (f a))
      → Ensures P (demand_some o code >>= f)
  Ensures-demand_some (some a) code f k = k a refl
  Ensures-demand_some none code f k = tt

module _ {κ μ} {B : Type κ} (P : B → Type μ) where
  pub Ensures-demand :
      (test : Bool) (code : DagCode) (m : Parsed B)
      → (test ≡ true → Ensures P m)
      → Ensures P (demand test code >> m)
  Ensures-demand true code m k = k refl
  Ensures-demand false code m k = tt

  pub Ensures_parsed : (m : Parsed B) {b : B} → Ensures P m → m ≡ parsed b → P b
  Ensures_parsed m h e = subst (Ensures P) e h

-- Nothing is known of the result.
pub any_result {ℓ} : {A : Type ℓ} (m : Parsed A) → Ensures (λ _. Unit {0}) m
any_result (parsed a) = tt
any_result (refused c) = tt

-- The steps of a parse that succeeds.
pub bind_parsed {ℓ κ} :
    {A : Type ℓ} {B : Type κ} {m : Parsed A} (f : A → Parsed B) {a : A} {b : B}
    → m ≡ parsed a
    → f a ≡ parsed b
    → (m >>= f) ≡ parsed b
bind_parsed f h k = ap (λ n. n >>= f) h ∙ k

pub demand_parsed {κ} :
    {B : Type κ} {test : Bool} (code : DagCode) (m : Parsed B) {b : B}
    → test ≡ true
    → m ≡ parsed b
    → (demand test code >> m) ≡ parsed b
demand_parsed code m h k = ap (λ t. demand t code >> m) h ∙ k

pub demand_some_parsed {ℓ κ} :
    {A : Type ℓ} {B : Type κ} {o : Option A} (code : DagCode) (f : A → Parsed B) {a : A} {b : B}
    → o ≡ some a
    → f a ≡ parsed b
    → (demand_some o code >>= f) ≡ parsed b
demand_some_parsed code f h k = ap (λ x. demand_some x code >>= f) h ∙ k
