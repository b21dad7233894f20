-- ===== src/Broker/GrantMoves.antt =====
-- What each operation of scope_broker.py does to its pairing grants, as moves of the dictionary: it
-- takes grants away, marks one as used, or stores one under a digest.
use super_memory_brain.Base.{
  ℕ, zero, suc, ◌-◌, String, ◌≡◌, refl, Bool, true, ◌&&◌, ◌||◌, not, none, some, [], ◌∷◌, arith,
  ◌==◌, leb, length, drop, eq_iff, Bool-cases, inl, inr,
}
use super_memory_brain.Base.Dict.{Dict, IsUnique, get, put, pop, put-IsUnique, pop-IsUnique}
use super_memory_brain.Broker.Types.{GrantRecord, Broker, max_grants}
use super_memory_brain.Broker.Upkeep.{prune_loop, prune_grants}

-- The moves from one dictionary of grants to another that store grants only under the digests that
-- pass `may`.
pub data Moves (may : String → Bool) : Dict GrantRecord → Dict GrantRecord → Type 0 where
  stays : (g : Dict GrantRecord) → Moves may g g
  takes : (k : String) (g : Dict GrantRecord) → Moves may g (pop k g)
  trims : (n : ℕ) (g : Dict GrantRecord) → Moves may g (drop n g)
  uses :
      (k : String) (r : GrantRecord) (g : Dict GrantRecord)
      → Moves may g (put k (record r { used = true }) g)
  stores :
      (k : String) (r : GrantRecord) (g : Dict GrantRecord) → may k ≡ true → Moves may g (put k r g)
  follows : {f g h : Dict GrantRecord} → Moves may f g → Moves may g h → Moves may f h

-- The digests but one.
abbrev pub other_than : String → String → Bool
other_than digest k = not (k == digest)

-- No grant of the digest can still be used.
abbrev pub is_spent : String → Dict GrantRecord → Bool
is_spent digest [] = true
is_spent digest ((k, r) ∷ g) = (not (k == digest) || r.used) && is_spent digest g

pop-is_spent :
    (digest k : String) (g : Dict GrantRecord)
    → is_spent digest g ≡ true
    → is_spent digest (pop k g) ≡ true
unfolding pop
pop-is_spent digest k [] h = refl
pop-is_spent digest k ((j, r) ∷ g) h = ground (arith, pop-is_spent digest k g)

drop-is_spent :
    (digest : String) (n : ℕ) (g : Dict GrantRecord)
    → is_spent digest g ≡ true
    → is_spent digest (drop n g) ≡ true
drop-is_spent digest zero g h = h
drop-is_spent digest (suc n) [] h = refl
drop-is_spent digest (suc n) ((j, r) ∷ g) h = drop-is_spent digest n g (ground arith)

put-is_spent :
    (digest k : String) (r : GrantRecord) (g : Dict GrantRecord)
    → (not (k == digest) || r.used) ≡ true
    → is_spent digest g ≡ true
    → is_spent digest (put k r g) ≡ true
unfolding put
put-is_spent digest k r [] u h = ground arith
put-is_spent digest k r ((j, q) ∷ g) u h = ground (arith, put-is_spent digest k r g u)

pub Moves-is_spent :
    (digest : String) {f g : Dict GrantRecord}
    → Moves (other_than digest) f g
    → is_spent digest f ≡ true
    → is_spent digest g ≡ true
Moves-is_spent digest (stays g) h = h
Moves-is_spent digest (takes k g) h = pop-is_spent digest k g h
Moves-is_spent digest (trims n g) h = drop-is_spent digest n g h
Moves-is_spent digest (uses k r g) h =
    put-is_spent digest k (record r { used = true }) g (ground arith) h
Moves-is_spent digest (stores k r g apart) h = put-is_spent digest k r g (ground arith) h
Moves-is_spent digest (follows m n) h = Moves-is_spent digest n (Moves-is_spent digest m h)

drop-IsUnique : (n : ℕ) (g : Dict GrantRecord) → IsUnique g → IsUnique (drop n g)
drop-IsUnique zero g u = u
drop-IsUnique (suc n) [] u = tt
drop-IsUnique (suc n) ((j, r) ∷ g) u = drop-IsUnique n g u.1

pub Moves-IsUnique :
    {may : String → Bool} {f g : Dict GrantRecord} → Moves may f g → IsUnique f → IsUnique g
Moves-IsUnique (stays g) u = u
Moves-IsUnique (takes k g) u = pop-IsUnique k g u
Moves-IsUnique (trims n g) u = drop-IsUnique n g u
Moves-IsUnique (uses k r g) u = put-IsUnique k (record r { used = true }) g u
Moves-IsUnique (stores k r g apart) u = put-IsUnique k r g u
Moves-IsUnique (follows m n) u = Moves-IsUnique n (Moves-IsUnique m u)

absent-is_spent :
    (digest : String) (g : Dict GrantRecord) → get digest g ≡ none → is_spent digest g ≡ true
unfolding get
absent-is_spent digest [] e = refl
absent-is_spent digest ((j, r) ∷ g) e = ground (arith, absent-is_spent digest g)

-- A used grant is put where its digest stands, and a digest stands once.
pub put_used-is_spent :
    (digest : String) (r : GrantRecord) (g : Dict GrantRecord)
    → IsUnique g
    → r.used ≡ true
    → is_spent digest (put digest r g) ≡ true
unfolding put
put_used-is_spent digest r [] u h = ground arith
put_used-is_spent digest r ((j, q) ∷ g) u h = elim (Bool-cases (j == digest)) [
  | inl here ↦
      let rest : is_spent digest g ≡ true =
        absent-is_spent digest g (rw (← (eq_iff j digest).0 here) u.0) in
      ground (arith, here)
  | inr there ↦ ground (arith, there, put_used-is_spent digest r g u.1)
]

-- What is found of a spent digest is used.
pub is_spent-get :
    (digest : String) (g : Dict GrantRecord) (r : GrantRecord)
    → is_spent digest g ≡ true
    → get digest g ≡ some r
    → r.used ≡ true
unfolding get
is_spent-get digest [] r h e = cc
is_spent-get digest ((j, q) ∷ g) r h e = ground (arith, is_spent-get digest g r)

-- The loop of `_prune_grants`, and its cut.
pub prune_loop-Moves :
    (may : String → Bool) (now : ℕ) (aggressive : Bool) (items g : Dict GrantRecord)
    → Moves may g (prune_loop now aggressive items g)
unfolding prune_loop
prune_loop-Moves may now aggressive [] g = stays g
prune_loop-Moves may now aggressive ((k, r) ∷ items) g =
    elim (Bool-cases (leb r.expires_at now || (aggressive && r.used))) [
      | inl old ↦ rw old (follows (takes k g) (prune_loop-Moves may now aggressive items (pop k g)))
      | inr good ↦ rw good (prune_loop-Moves may now aggressive items g)
    ]

pub prune_grants-Moves :
    (may : String → Bool) (now : ℕ) (aggressive : Bool) (s : Broker)
    → Moves may s.grants (prune_grants now aggressive s).grants
unfolding prune_grants
prune_grants-Moves may now aggressive s =
    let g = prune_loop now aggressive s.grants s.grants in
    let m = prune_loop-Moves may now aggressive s.grants s.grants in
    elim (Bool-cases (leb (length g) max_grants)) [
      | inl fits ↦ rw fits m
      | inr over ↦ rw over (follows m (trims (length g - max_grants) g))
    ]
