-- ===== src/Consolidation/Counts.antt =====
-- How many proposals `plan` of memory_consolidation.py makes, and what it counts as omitted.
use super_memory_brain.Base.{
  ℕ, suc, ◌+◌, ◌≤◌, ◌≡◌, ◌⊎◌, inl, inr, refl, ap, ◌∙◌, String, Bool, true, false, Option, none,
  some, List, [], ◌∷◌, leb, length, arith, Bool-cases,
}
use super_memory_brain.Json.{Items, end, item, count}
use super_memory_brain.Consolidation.Cards.{Runtime, Scope, Card, with_card, record_of, records_of}
use super_memory_brain.Consolidation.Suggestion.{Proposal}
use super_memory_brain.Consolidation.Plan.{
  insert_card, sort_cards, keep_if, is_in_scope, is_candidate, after_by_id, candidates_of,
  current_of, Progress, skipped, added, propose, Plan, plan_within,
}

length-with_card :
    (o : Option Card) (cards : List Card) → length (with_card o cards) ≤ suc (length cards)
length-with_card none cards = omega arith
length-with_card (some card) cards = omega arith

length-records_of : (r : Runtime) (records : Items) → length (records_of r records) ≤ count records
unfolding records_of
length-records_of r end = omega arith
length-records_of r (item value items) =
    omega
      (arith, length-records_of r items, length-with_card (record_of r value) (records_of r items))

length-keep_if :
    (test : Card → Bool) (cards : List Card) → length (keep_if test cards) ≤ length cards
unfolding keep_if
length-keep_if test [] = omega arith
length-keep_if test (a ∷ cards) = elim (Bool-cases (test a)) [
  | inl kept ↦ rw kept (omega (arith, length-keep_if test cards))
  | inr left ↦ rw left (omega (arith, length-keep_if test cards))
]

length-insert_card :
    (after : Card → Card → Bool) (a : Card) (cards : List Card)
    → length (insert_card after a cards) ≡ suc (length cards)
unfolding insert_card
length-insert_card after a [] = refl
length-insert_card after a (b ∷ cards) = elim (Bool-cases (after a b)) [
  | inl later ↦ rw (later, length-insert_card after a cards)
  | inr before ↦ rw before
]

length-sort_cards :
    (after : Card → Card → Bool) (cards : List Card)
    → length (sort_cards after cards) ≡ length cards
unfolding sort_cards
length-sort_cards after [] = refl
length-sort_cards after (a ∷ cards) =
    length-insert_card after a (sort_cards after cards) ∙ ap suc (length-sort_cards after cards)

-- What the loop collects over `n` candidates, after `done` of at most `maximum` proposals.
record IsCounted (maximum done n : ℕ) (p : Progress) : Type 0 where
  all : length p.proposals + p.bounded ≡ n
  fits : done + length p.proposals ≤ maximum
  decided : p.decisions ≤ length p.proposals
  full : (p.bounded ≡ 0) ⊎ (done + length p.proposals ≡ maximum)

added-IsCounted :
    (maximum done n : ℕ) (a : Proposal) (decision : Bool) (p : Progress)
    → IsCounted maximum (suc done) n p
    → IsCounted maximum done (suc n) (added a decision p)
added-IsCounted maximum done n a decision p h = record {
  all = omega (arith, h.all);
  fits = omega (arith, h.fits);
  decided = ground (arith, h.decided);
  full = ground (arith, h.full);
}

skipped-IsCounted :
    (maximum done n : ℕ) (p : Progress)
    → maximum ≤ done
    → IsCounted maximum done n p
    → IsCounted maximum done (suc n) (skipped p)
skipped-IsCounted maximum done n p m h = record {
  all = omega (arith, h.all);
  fits = h.fits;
  decided = h.decided;
  full = inr (omega (arith, h.fits));
}

step-IsCounted :
    (maximum done n : ℕ) (full : Bool) (a : Proposal) (decision : Bool) (same more : Progress)
    → leb maximum done ≡ full
    → IsCounted maximum done n same
    → (leb maximum done ≡ false → IsCounted maximum (suc done) n more)
    → IsCounted maximum done
        (suc n)
        (elim full as (λ _. Progress) [ true ↦ skipped same | false ↦ added a decision more ])
step-IsCounted maximum done n true a decision same more e h k =
    skipped-IsCounted maximum done n same (ground arith) h
step-IsCounted maximum done n false a decision same more e h k =
    added-IsCounted maximum done n a decision more (k e)

propose-IsCounted :
    (r : Runtime) (maximum : ℕ) (cutoff : Option ℕ) (current : List Card) (done : ℕ)
    (candidates : List Card)
    → done ≤ maximum
    → IsCounted maximum done (length candidates) (propose r maximum cutoff current done candidates)
unfolding propose
propose-IsCounted r maximum cutoff current done [] d = record {
  all = refl;
  fits = omega arith;
  decided = omega arith;
  full = inl refl;
}
propose-IsCounted r maximum cutoff current done (c ∷ candidates) d =
    step-IsCounted maximum done (length candidates) (leb maximum done) _ _ _ _ refl
      (propose-IsCounted r maximum cutoff current done candidates d)
      (λ left. propose-IsCounted r maximum cutoff current (suc done) candidates (ground arith))

from_first :
    (maximum n : ℕ) (p : Progress)
    → IsCounted maximum 0 n p
    → (length p.proposals ≤ maximum) × ((p.bounded ≡ 0) ⊎ (length p.proposals ≡ maximum))
from_first maximum n p h = (omega (arith, h.fits), ground (arith, h.full))

-- The counts of a plan of `n` records for at most `maximum` proposals.
pub record IsBounded (maximum n : ℕ) (p : Plan) : Type 0 where
  pub fits : length p.proposals ≤ maximum
  pub decided : p.decisions ≤ length p.proposals
  pub full : (p.bounded ≡ 0) ⊎ (length p.proposals ≡ maximum)
  pub told : length p.proposals + p.bounded + p.out_of_scope + p.invalid ≤ n

pub plan_within-IsBounded :
    (r : Runtime) (records : Items) (place : Scope) (privacy : String) (maximum : ℕ)
    (cutoff : Option ℕ)
    → IsBounded maximum (count records) (plan_within r records place privacy maximum cutoff)
unfolding plan_within candidates_of
plan_within-IsBounded r records place privacy maximum cutoff =
    let normalized = records_of r records in
    let in_scope = keep_if (is_in_scope place privacy) normalized in
    let h =
      propose-IsCounted r maximum cutoff (current_of in_scope) 0 (candidates_of in_scope)
        (omega arith) in
    let first = from_first maximum (length (candidates_of in_scope)) _ h in
    record {
      fits = first.0;
      decided = h.decided;
      full = first.1;
      told = omega (
        arith,
        h.all,
        length-records_of r records,
        length-keep_if (is_in_scope place privacy) normalized,
        length-keep_if is_candidate in_scope,
        length-sort_cards after_by_id (keep_if is_candidate in_scope),
      );
    }
