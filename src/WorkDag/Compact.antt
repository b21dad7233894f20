-- ===== src/WorkDag/Compact.antt =====
-- `_compact` of work_dag.py on what it gave before.
use mathlib.Core.Path.{subst}
use super_memory_brain.Base.{ℕ, ◌≡◌, refl, String, some, arith}
use super_memory_brain.Json.{Value, null, bool, int, negative, float, text, arr, obj}
use super_memory_brain.Text.{squeeze}
use super_memory_brain.Text.Squeeze.{squeeze_idem}
use super_memory_brain.WorkDag.Contract.{compact_within, compacted}

compact_within-eq-some :
    (maximum : ℕ) (normalized : String) {s : String}
    → compact_within maximum normalized ≡ some s
    → normalized ≡ s
compact_within-eq-some maximum normalized h = ground arith

compacted_text :
    (maximum : ℕ) (s : String) → compacted maximum (text s) ≡ compact_within maximum (squeeze s)
unfolding compacted
compacted_text maximum s = refl

compacted_other :
    (maximum : ℕ) (v : Value) (s : String)
    → compacted maximum v ≡ some s
    → (t : String) × (v ≡ text t)
unfolding compacted
compacted_other maximum (text t) s h = (t, refl)
compacted_other maximum null s h = cc
compacted_other maximum (bool b) s h = cc
compacted_other maximum (int n) s h = cc
compacted_other maximum (negative n) s h = cc
compacted_other maximum float s h = cc
compacted_other maximum (arr xs) s h = cc
compacted_other maximum (obj fs) s h = cc

compacted_again :
    (maximum : ℕ) (t s : String)
    → compacted maximum (text t) ≡ some s
    → compacted maximum (text s) ≡ some s
compacted_again maximum t s h =
    let w : compact_within maximum (squeeze t) ≡ some s = rw (← compacted_text maximum t) h in
    let same : squeeze t ≡ s = compact_within-eq-some maximum (squeeze t) w in
    let still : squeeze s ≡ s = rw (← same) (squeeze_idem t) in
    rw (compacted_text maximum s, still) (subst (λ x. compact_within maximum x ≡ some s) same w)

-- A text that `_compact` gives for some value is given back unchanged for that text and the same
-- maximum length.
pub compacted_idem :
    (maximum : ℕ) (v : Value) (s : String)
    → compacted maximum v ≡ some s
    → compacted maximum (text s) ≡ some s
compacted_idem maximum v s h =
    let (t, is_text) = compacted_other maximum v s h in
    compacted_again maximum t s (rw (← is_text) h)
