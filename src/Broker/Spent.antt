-- ===== src/Broker/Spent.antt =====
-- What the runs of scope_broker.py do to a used pairing grant: it stays used or goes away, until a
-- token of its digest is drawn again.
use super_memory_brain.Base.{String, ◌≡◌, refl, Bool, true, List, [], ◌∷◌}
use super_memory_brain.Base.Dict.{IsUnique}
use super_memory_brain.Broker.Types.{Broker}
use super_memory_brain.Broker.Registry.{Digests}
use super_memory_brain.Broker.GrantMoves.{Moves-IsUnique, Moves-is_spent, is_spent, other_than}
use super_memory_brain.Broker.Granting.{
  AreAllowed, GrantsMove, of_same, attach_second-GrantsMove, attach_channel-GrantsMove,
  issue_second-GrantsMove, issue_pairing_grant-GrantsMove, pair_channel-GrantsMove,
}
use super_memory_brain.Broker.Ungranted.{
  status-Ungranted, list_channel_statuses-Ungranted, authorize-Ungranted, open_channel-Ungranted,
  renew_lease-Ungranted, detach_channel-Ungranted, close_channel-Ungranted,
}
use super_memory_brain.Broker.UngrantedPairing.{
  bind_new_channel-Ungranted, pair_request-Ungranted, register_workline-Ungranted,
  refresh_bound_contract-Ungranted, pairing_request_ref-Ungranted,
  pairing_request_channel-Ungranted,
}
use super_memory_brain.Broker.Reach.{
  Step, opens, reads_status, lists, authorizes, renews, detaches, closes, binds_new, pairs, issues,
  issues_second, attaches, pairs_channel, attaches_second, registers, refreshes, asks_ref,
  asks_channel, Reach, here, next, new_broker,
}

-- The pairing tokens that a step has drawn for it.
unfoldable pub drawn_tokens : {digests : Digests} {s t : Broker} → Step digests s t → List String
drawn_tokens (issues now tokens id workline mode time disk s) = tokens
drawn_tokens (issues_second now tokens c w mode time s) = tokens
drawn_tokens (pairs_channel now tokens lease_id id workline mode ttl lease disk disk' s) = tokens
drawn_tokens _ = []

-- The runs from `s` in which no token of the digest is drawn.
pub data Later (digests : Digests) (digest : String) (s : Broker) : Broker → Type 0 where
  same : Later digests digest s s
  then_ :
      {t u : Broker}
      → Later digests digest s t
      → (step : Step digests t u) → AreAllowed digests (other_than digest) (drawn_tokens step)
      → Later digests digest s u

-- A step moves the grants, and stores them under the digests of the tokens that it draws.
Step-GrantsMove :
    (digests : Digests) (may : String → Bool) {s t : Broker} (step : Step digests s t)
    → AreAllowed digests may (drawn_tokens step)
    → GrantsMove digests may s t
unfolding drawn_tokens
Step-GrantsMove g d (opens now draws drawn s) a =
    of_same g d (open_channel-Ungranted now draws drawn s)
Step-GrantsMove g d (reads_status now drawn id s) a = of_same g d (status-Ungranted now drawn id s)
Step-GrantsMove g d (lists now s) a = of_same g d (list_channel_statuses-Ungranted now s)
Step-GrantsMove g d (authorizes now drawn id w s) a =
    of_same g d (authorize-Ungranted now drawn id w s)
Step-GrantsMove g d (renews now id lease time s) a =
    of_same g d (renew_lease-Ungranted now id lease time s)
Step-GrantsMove g d (detaches now drawn id s) a =
    of_same g d (detach_channel-Ungranted now drawn id s)
Step-GrantsMove g d (closes now drawn id s) a = of_same g d (close_channel-Ungranted now drawn id s)
Step-GrantsMove g d (binds_new now draws lease_id x mode time disk s) a =
    of_same g d (bind_new_channel-Ungranted g now draws lease_id x mode time disk s)
Step-GrantsMove g d (pairs now lease_id ref workline mode ttl lease disk s) a =
    of_same g d (pair_request-Ungranted g now lease_id ref workline mode ttl lease disk s)
Step-GrantsMove g d (issues now tokens id workline mode time disk s) a =
    issue_pairing_grant-GrantsMove g d now tokens id workline mode time disk s a
Step-GrantsMove g d (issues_second now tokens c w mode time s) a =
    issue_second-GrantsMove g d now tokens c w mode time s a
Step-GrantsMove g d (attaches now lease_id id token time disk s) a =
    attach_channel-GrantsMove g d now lease_id id token time disk s
Step-GrantsMove g d (pairs_channel now tokens lease_id id workline mode ttl lease disk disk' s) a =
    pair_channel-GrantsMove g d now tokens lease_id id workline mode ttl lease disk disk' s a
Step-GrantsMove g d (attaches_second now lease_id c k lease x s) a =
    attach_second-GrantsMove g d now lease_id c k lease x s
Step-GrantsMove g d (registers l draws contract hash access y) a =
    of_same g d (register_workline-Ungranted l draws contract hash access y)
Step-GrantsMove g d (refreshes l now draws id lease contract access y) a =
    of_same g d (refresh_bound_contract-Ungranted l now draws id lease contract access y)
Step-GrantsMove g d (asks_ref now drawn id s) a =
    of_same g d (pairing_request_ref-Ungranted now drawn id s)
Step-GrantsMove g d (asks_channel now ref s) a =
    of_same g d (pairing_request_channel-Ungranted now ref s)

-- A used grant is used or gone after any run that draws no token of its digest.
pub Later-is_spent :
    {digests : Digests} {digest : String} {s t : Broker}
    → Later digests digest s t
    → is_spent digest s.grants ≡ true
    → is_spent digest t.grants ≡ true
Later-is_spent same h = h
Later-is_spent {digests} {digest} (then_ run step a) h =
    Moves-is_spent digest (Step-GrantsMove digests (other_than digest) step a)
      (Later-is_spent run h)

allowed : (digests : Digests) (tokens : List String) → AreAllowed digests (λ k. true) tokens
allowed digests [] = tt
allowed digests (t ∷ tokens) = (refl, allowed digests tokens)

-- The digests of the grants of a broker stand once.
pub Reach-IsUnique :
    {digests : Digests} {instance_id : String} {s : Broker}
    → Reach digests (new_broker instance_id) s
    → IsUnique s.grants
Reach-IsUnique here = tt
Reach-IsUnique {digests} (next run step) =
    Moves-IsUnique (Step-GrantsMove digests (λ k. true) step (allowed digests (drawn_tokens step)))
      (Reach-IsUnique run)
