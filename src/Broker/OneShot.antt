-- ===== src/Broker/OneShot.antt =====
-- A pairing grant of scope_broker.py binds at most one channel, and a failed `pair_channel` leaves
-- no grant behind.
use super_memory_brain.Base.{
  ℕ, String, ◌≡◌, refl, ap, ◌∙◌, true, false, Option, none, some, List, arith, eq_refl, inl, inr,
}
use super_memory_brain.Base.Dict.{IsUnique, get, get-pop}
use super_memory_brain.Broker.Types.{Broker, GrantRecord, Outcome, ScopeContext}
use super_memory_brain.Broker.Upkeep.{expire_bindings, expire_pairing_requests}
use super_memory_brain.Broker.Checked.{stop, go}
use super_memory_brain.Broker.Registry.{Digests, DurableRead}
use super_memory_brain.Broker.Grants.{
  Issued, granted, refused, drawing, attach_checked, attach_first, attach_again, consume_grant,
  attach_second, issue_pairing_grant, attach_channel, attach_issued, pair_channel,
}
use super_memory_brain.Broker.Expiry.{expire_bindings-SameRest}
use super_memory_brain.Broker.Attach.{Checked-cases}
use super_memory_brain.Broker.Consume.{attach_again-MayAttach}
use super_memory_brain.Broker.Channels.{forget_ref}
use super_memory_brain.Broker.Pairing.{commit_binding}
use super_memory_brain.Broker.GrantMoves.{is_spent, put_used-is_spent, is_spent-get}
use super_memory_brain.Broker.Ungranted.{expired-Ungranted}
use super_memory_brain.Broker.Reach.{Reach, new_broker}
use super_memory_brain.Broker.Spent.{Later, Later-is_spent, Reach-IsUnique}

attach_again-stop :
    (now : ℕ) (c digest : String) (s : Broker) (r : Outcome)
    → attach_again now c digest s ≡ stop r
    → r.ok ≡ false
unfolding attach_again
attach_again-stop now c digest s r e = ground arith

attach_first-stop :
    (now : ℕ) (c digest : String) (s : Broker) (r : Outcome)
    → attach_first now c digest s ≡ stop r
    → r.ok ≡ false
unfolding attach_first
attach_first-stop now c digest s r e = ground arith

attach_first-unused :
    (now : ℕ) (c digest : String) (s : Broker) (grant : GrantRecord)
    → attach_first now c digest s ≡ go grant
    → (get digest s.grants ≡ some grant) × (grant.used ≡ false)
unfolding attach_first
attach_first-unused now c digest s grant e = ground arith

attach_checked-stop :
    (id token : Option String) (time : Option ℕ) (r : Outcome)
    → attach_checked id token time ≡ stop r
    → r.ok ≡ false
unfolding attach_checked
attach_checked-stop id token time r e = ground arith

attach_checked-token :
    (id : Option String) (token : String) (time : Option ℕ) (c t : String) (lease : ℕ)
    → attach_checked id (some token) time ≡ go (c, t, lease)
    → t ≡ token
unfolding attach_checked
attach_checked-token id token time c t lease e = ground arith

-- Binding a channel by a grant leaves no grant of its digest that can be used.
attach_second-is_spent :
    (now : ℕ) (lease_id c digest : String) (lease : ℕ) (x : ScopeContext) (s : Broker)
    → IsUnique s.grants
    → (attach_second now lease_id c digest lease x s).1.ok ≡ true
    → is_spent digest (attach_second now lease_id c digest lease x s).0.grants ≡ true
unfolding attach_second consume_grant commit_binding forget_ref
attach_second-is_spent now lease_id c digest lease x s u ok =
    let s' = expire_bindings now s in
    elim (Checked-cases (attach_again now c digest s')) [
      | inl (r, e) ↦ cc (attach_again-stop now c digest s' r e, rw (e, attach_second) at ok)
      | inr (grant, e) ↦
          rw (e, attach_second)
            (put_used-is_spent digest (record grant { used = true }) s'.grants
              (rw (expire_bindings-SameRest now s).grants u) refl)
    ]

module _ (digest : String) (s : Broker) (spent : is_spent digest s.grants ≡ true) where
  is_spent-attach_second :
      (now : ℕ) (lease_id c : String) (lease : ℕ) (x : ScopeContext)
      → (attach_second now lease_id c digest lease x s).1.ok ≡ false
  unfolding attach_second
  is_spent-attach_second now lease_id c lease x =
      let s' = expire_bindings now s in
      elim (Checked-cases (attach_again now c digest s')) [
        | inl (r, e) ↦ rw (e, attach_second) (attach_again-stop now c digest s' r e)
        | inr (grant, e) ↦
            let m = attach_again-MayAttach now c digest s' grant e in
            let here : get digest s.grants ≡ some grant =
              rw (expire_bindings-SameRest now s).grants at m.stored in
            cc (m.unused, is_spent-get digest s.grants grant spent here)
      ]

  is_spent-attach_channel :
      (digests : Digests) (now : ℕ) (lease_id : String) (id : Option String) (token : String)
      (time : Option ℕ) (disk : DurableRead)
      → digests.token_hash token ≡ digest
      → (attach_channel digests now lease_id id (some token) time disk s).1.ok ≡ false
  unfolding attach_channel
  is_spent-attach_channel digests now lease_id id token time disk h =
      elim (Checked-cases (attach_checked id (some token) time)) [
        | inl (r, e) ↦ rw (e, attach_channel) (attach_checked-stop id (some token) time r e)
        | inr ((c, t, lease), e) ↦
            let s' = expire_pairing_requests now (expire_bindings now s) in
            let same : digests.token_hash t ≡ digest =
              ap digests.token_hash (attach_checked-token id token time c t lease e) ∙ h in
            elim (Checked-cases (attach_first now c (digests.token_hash t) s')) [
              | inl (r, e') ↦
                  rw (e, attach_channel)
                    (rw (e', attach_channel)
                      (attach_first-stop now c (digests.token_hash t) s' r e'))
              | inr (grant, e') ↦
                  let (found, unused) =
                    attach_first-unused now c (digests.token_hash t) s' grant e' in
                  let here : get digest s.grants ≡ some grant =
                    rw (same, expired-Ungranted now s) at found in
                  cc (unused, is_spent-get digest s.grants grant spent here)
            ]
      ]

-- Once a grant has bound a channel of a broker, it binds none again: in any state that the broker
-- reaches from there, in whatever order the operations follow, as long as none of them draws a
-- token of the same digest for a new grant. Neither the second half of `attach_channel` binds a
-- channel then, whichever channel, time and lease it is for, nor does `attach_channel` with a token
-- of that digest.
pub attach_once :
    (digests : Digests) (instance_id : String) (now now' : ℕ)
    (lease_id lease_id' c d digest : String) (lease lease' : ℕ) (x x' : ScopeContext) (s t : Broker)
    → Reach digests (new_broker instance_id) s
    → (attach_second now lease_id c digest lease x s).1.ok ≡ true
    → Later digests digest (attach_second now lease_id c digest lease x s).0 t
    → ((attach_second now' lease_id' d digest lease' x' t).1.ok ≡ false)
      × ((id : Option String) (token : String) (time : Option ℕ) (disk : DurableRead)
          → digests.token_hash token ≡ digest
          → (attach_channel digests now' lease_id' id (some token) time disk t).1.ok ≡ false)
attach_once digests instance_id now now' lease_id lease_id' c d digest lease lease' x x' s t r ok
      run =
    let spent =
      Later-is_spent run
        (attach_second-is_spent now lease_id c digest lease x s (Reach-IsUnique r) ok) in
    (
      is_spent-attach_second digest t spent now' lease_id' d lease' x',
      is_spent-attach_channel digest t spent digests now' lease_id',
    )

abbrev pub GrantGone : Digests → Issued → Broker → Type 0
GrantGone digests (granted grant) s = get (digests.token_hash grant.token) s.grants ≡ none
GrantGone digests (refused r) s = Unit
GrantGone digests drawing s = Unit

attach_issued-GrantGone :
    (digests : Digests) (now : ℕ) (lease_id : String) (id : Option String) (lease : Option ℕ)
    (disk : DurableRead) (i : Issued) (s : Broker) (r : Outcome)
    → (attach_issued digests now lease_id id lease disk i s).1 ≡ some r
    → r.ok ≡ false
    → GrantGone digests i (attach_issued digests now lease_id id lease disk i s).0
unfolding attach_issued
attach_issued-GrantGone digests now lease_id id lease disk (refused r') s r e bad = tt
attach_issued-GrantGone digests now lease_id id lease disk drawing s r e bad = tt
attach_issued-GrantGone digests now lease_id id lease disk (granted grant) s r e bad =
    let (s', result) = attach_channel digests now lease_id id (some grant.token) lease disk s in
    let hash = digests.token_hash grant.token in
    ground (arith, get-pop hash hash s'.grants, eq_refl hash)

-- A `pair_channel` that got its grant and then could not attach has taken the grant back.
pub pair_channel_cleanup :
    (digests : Digests) (now : ℕ) (tokens : List String) (lease_id : String)
    (id workline mode : Option String) (time lease : Option ℕ) (disk disk' : DurableRead)
    (s : Broker) (r : Outcome)
    → (pair_channel digests now tokens lease_id id workline mode time lease disk disk' s).1 ≡ some r
    → r.ok ≡ false
    → GrantGone digests
        (issue_pairing_grant digests now tokens id workline mode time disk s).1
        (pair_channel digests now tokens lease_id id workline mode time lease disk disk' s).0
unfolding pair_channel
pair_channel_cleanup digests now tokens lease_id id workline mode time lease disk disk' s r e bad =
    let (s', i) = issue_pairing_grant digests now tokens id workline mode time disk s in
    attach_issued-GrantGone digests now lease_id id lease disk' i s' r e bad
