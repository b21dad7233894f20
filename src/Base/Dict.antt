-- ===== src/Base/Dict.antt =====
-- Python's `dict` with text keys, as an association list in insertion order.
use Prim.Native.String.{String}
use text.Mathlib.Text.{◌==◌}
use text.Mathlib.TextEquality.{eq_iff}
use mathlib.Core.Path.{◌≡◌, refl}
use mathlib.Core.Bool.{Bool, true, false}
use mathlib.Core.Option.{Option, none, some}
use mathlib.Core.List.{List, [], ◌∷◌}
use native.Mathlib.Omega.{arith}
use super_memory_brain.Base.Tests.{if◌then◌else◌}

abbrev pub Dict {ℓ} : Type ℓ → Type ℓ
Dict V = List (String × V)

module _ {ℓ} {V : Type ℓ} where
  -- `d.get(k)`
  unfoldable pub get : String → Dict V → Option V
  get k [] = none
  get k ((j, v) ∷ d) = if j == k then some v else get k d

  -- `d[k] = v` keeps the place of a key that is there, and appends a new one.
  unfoldable pub put : String → V → Dict V → Dict V
  put k v [] = (k, v) ∷ []
  put k v ((j, w) ∷ d) = if j == k then (k, v) ∷ d else (j, w) ∷ put k v d

  -- `d.pop(k, None)`
  unfoldable pub pop : String → Dict V → Dict V
  pop k [] = []
  pop k ((j, v) ∷ d) = let rest = pop k d in if j == k then rest else (j, v) ∷ rest

  -- `k in d`
  abbrev pub has : String → Dict V → Bool
  has k d = elim (get k d) [ none ↦ false | some _ ↦ true ]

  -- No key stands twice.
  abbrev pub IsUnique : Dict V → Type ℓ
  IsUnique [] = Unit
  IsUnique ((k, v) ∷ d) = (get k d ≡ none) × IsUnique d

  pub get-put :
      (k j : String) (v : V) (d : Dict V) → get j (put k v d) ≡ (if k == j then some v else get j d)
  unfolding get put
  get-put k j v [] = refl
  get-put k j v ((i, w) ∷ d) = ground (arith, eq_iff k j, eq_iff i k, eq_iff i j, get-put k j v d)

  pub get-pop : (k j : String) (d : Dict V) → get j (pop k d) ≡ (if k == j then none else get j d)
  unfolding get pop
  get-pop k j [] = ground arith
  get-pop k j ((i, w) ∷ d) = ground (arith, eq_iff i k, eq_iff i j, eq_iff k j, get-pop k j d)

  pub put-IsUnique : (k : String) (v : V) (d : Dict V) → IsUnique d → IsUnique (put k v d)
  unfolding put get
  put-IsUnique k v [] u = ground arith
  put-IsUnique k v ((i, w) ∷ d) u =
      ground (arith, eq_iff i k, get-put k i v d, eq_iff k i, put-IsUnique k v d u.1)

  pub pop-IsUnique : (k : String) (d : Dict V) → IsUnique d → IsUnique (pop k d)
  unfolding pop get
  pop-IsUnique k [] u = tt
  pop-IsUnique k ((i, w) ∷ d) u =
      ground (arith, eq_iff i k, get-pop k i d, eq_iff k i, pop-IsUnique k d u.1)

  pub get_of_not-has : (k : String) (d : Dict V) → has k d ≡ false → get k d ≡ none
  get_of_not-has k d h = ground arith
