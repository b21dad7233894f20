-- ===== src/Broker/Checked.antt =====
-- An early `return self._failure(...)`: the rest of a method runs only if no guard stopped it.
use super_memory_brain.Base.{Bool, true, false, Option, none, some}
use super_memory_brain.Broker.Types.{Code, withheld, Outcome, failure}

pub data Checked {ℓ} (A : Type ℓ) : Type ℓ where
  stop : Outcome → Checked A
  go : A → Checked A

infixl 5 ◌>>=◌ ◌>>◌
abbrev pub ◌>>=◌ {ℓ κ} : {A : Type ℓ} {B : Type κ} → Checked A → (A → Checked B) → Checked B
stop r >>= f = stop r
go a >>= f = f a

abbrev pub ◌>>◌ {ℓ} : {B : Type ℓ} → Checked (Unit {0}) → Checked B → Checked B
m >> k = m >>= λ _. k

-- `if not test: return self._failure(code, "withheld")`
abbrev pub require : Bool → Code → Checked (Unit {0})
require true code = go tt
require false code = stop (failure code withheld)

-- `if value is None: return self._failure(code, "withheld")`
abbrev pub require_some {ℓ} : {A : Type ℓ} → Option A → Code → Checked A
require_some none code = stop (failure code withheld)
require_some (some a) code = go a
