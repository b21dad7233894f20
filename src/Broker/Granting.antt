-- ===== src/Broker/Granting.antt =====
-- Issuing and consuming pairing grants in scope_broker.py, as moves of the grants.
use super_memory_brain.Base.{
  ℕ, String, ◌≡◌, refl, Bool, true, false, not, All, Option, none, some, List, [], ◌∷◌, arith, leb,
  length, Bool-cases, inl, inr,
}
use super_memory_brain.Base.Dict.{Dict, has}
use super_memory_brain.Broker.Types.{
  AccessMode, Broker, GrantRecord, ScopeContext, max_grants, pairing_capacity,
}
use super_memory_brain.Broker.Checked.{◌>>=◌, require}
use super_memory_brain.Broker.Registry.{Digests, DurableRead, find_workline}
use super_memory_brain.Broker.Upkeep.{expire_bindings, expire_pairing_requests}
use super_memory_brain.Broker.Channels.{forget_ref}
use super_memory_brain.Broker.Pairing.{commit_binding}
use super_memory_brain.Broker.Grants.{
  Issued, granted, refused, drawing, issue_checked, issue_first, make_room, first_unused_token,
  store_grant, issue_second, issue_pairing_grant, channel_is_free, attach_checked, attach_first,
  attach_again, consume_grant, attach_second, attach_context, attach_channel, attach_issued,
  pair_channel,
}
use super_memory_brain.Broker.Expiry.{expire_bindings-SameRest}
use super_memory_brain.Broker.Attach.{Checked-cases}
use super_memory_brain.Broker.GrantMoves.{
  Moves, stays, takes, uses, stores, follows, prune_grants-Moves,
}
use super_memory_brain.Broker.Ungranted.{expired-Ungranted}

-- Every token of the list has a digest that passes `may`.
abbrev pub AreAllowed : Digests → (String → Bool) → List String → Type 0
AreAllowed digests may tokens = All (λ t. may (digests.token_hash t) ≡ true) tokens

module _ (digests : Digests) (may : String → Bool) where
  -- What happens to the grants between two states.
  abbrev pub GrantsMove : Broker → Broker → Type 0
  GrantsMove s t = Moves may s.grants t.grants

  pub of_same : {f g : Dict GrantRecord} → g ≡ f → Moves may f g
  of_same {f} e = rw e (stays f)

  expired-GrantsMove : (now : ℕ) (s : Broker) → GrantsMove s (expire_bindings now s)
  expired-GrantsMove now s = of_same (expire_bindings-SameRest now s).grants

  consume_grant-GrantsMove :
      (now : ℕ) (lease_id c d : String) (lease : ℕ) (x : ScopeContext) (g : GrantRecord)
      (s : Broker)
      → GrantsMove s (consume_grant now lease_id c d lease x g s).0
  unfolding consume_grant commit_binding forget_ref
  consume_grant-GrantsMove now lease_id c d lease x g s = uses d g s.grants

  pub attach_second-GrantsMove :
      (now : ℕ) (lease_id c d : String) (lease : ℕ) (x : ScopeContext) (s : Broker)
      → GrantsMove s (attach_second now lease_id c d lease x s).0
  unfolding attach_second
  attach_second-GrantsMove now lease_id c d lease x s =
      let s' = expire_bindings now s in
      let m = expired-GrantsMove now s in
      elim (Checked-cases (attach_again now c d s')) [
        | inl (r, e) ↦ rw (e, attach_second) m
        | inr (g, e) ↦
            rw (e, attach_second)
              (follows m (consume_grant-GrantsMove now lease_id c d lease x g s'))
      ]

  pub attach_channel-GrantsMove :
      (now : ℕ) (lease_id : String) (id token : Option String) (time : Option ℕ)
      (disk : DurableRead) (s : Broker)
      → GrantsMove s (attach_channel digests now lease_id id token time disk s).0
  unfolding attach_channel
  attach_channel-GrantsMove now lease_id id token time disk s =
      elim (Checked-cases (attach_checked id token time)) [
        | inl (r, e) ↦ rw (e, attach_channel) (stays s.grants)
        | inr ((c, t, lease), e) ↦
            let s' = expire_pairing_requests now (expire_bindings now s) in
            let m = of_same (expired-Ungranted now s) in
            elim (Checked-cases (
              attach_first now c (digests.token_hash t) s' >>= λ g.
              attach_context digests g disk)) [
                | inl (r, e') ↦ rw (e, attach_channel) (rw (e', attach_channel) m)
                | inr (x, e') ↦
                    rw (e, attach_channel)
                      (rw (e', attach_channel)
                        (follows m (
                          attach_second-GrantsMove now lease_id c (digests.token_hash t) lease x
                            s')))
              ]
      ]

  first_unused_token-allowed :
      (tokens : List String) (grants : Dict GrantRecord) (t : String)
      → AreAllowed digests may tokens
      → first_unused_token digests tokens grants ≡ some t
      → may (digests.token_hash t) ≡ true
  unfolding first_unused_token
  first_unused_token-allowed [] grants t a e = cc
  first_unused_token-allowed (u ∷ tokens) grants t a e =
      elim (Bool-cases (has (digests.token_hash u) grants)) [
        | inl held ↦ first_unused_token-allowed tokens grants t a.1 (rw held at e)
        | inr free ↦ let k : u ≡ t = ground (arith, free, e) in rw (← k) a.0
      ]

  store_grant-GrantsMove :
      (c w : String) (mode : AccessMode) (expires : ℕ) (o : Option String) (s : Broker)
      → ((t : String) → o ≡ some t → may (digests.token_hash t) ≡ true)
      → GrantsMove s (store_grant digests c w mode expires o s).0
  unfolding store_grant
  store_grant-GrantsMove c w mode expires none s a = stays s.grants
  store_grant-GrantsMove c w mode expires (some t) s a =
      stores (digests.token_hash t) _ s.grants (a t refl)

  make_room-GrantsMove : (now : ℕ) (s : Broker) → GrantsMove s (make_room now s)
  unfolding make_room
  make_room-GrantsMove now s = elim (Bool-cases (leb max_grants (length s.grants))) [
    | inl full ↦ rw full (prune_grants-Moves may now true s)
    | inr room ↦ rw room (stays s.grants)
  ]

  pub issue_second-GrantsMove :
      (now : ℕ) (tokens : List String) (c w : String) (mode : AccessMode) (time : ℕ) (s : Broker)
      → AreAllowed digests may tokens
      → GrantsMove s (issue_second digests now tokens c w mode time s).0
  unfolding issue_second
  issue_second-GrantsMove now tokens c w mode time s a =
      let s' = make_room now (expire_bindings now s) in
      let m =
        follows (expired-GrantsMove now s) (make_room-GrantsMove now (expire_bindings now s)) in
      elim (Checked-cases (
        require (not (leb max_grants (length s'.grants))) pairing_capacity >>= λ _.
        channel_is_free c s')) [
          | inl (r, e) ↦ rw (e, issue_second) m
          | inr (u, e) ↦
              rw (e, issue_second)
                (follows m (
                  store_grant-GrantsMove c w mode _ _ s'
                    (λ t k. first_unused_token-allowed tokens s'.grants t a k)))
        ]

  pub issue_pairing_grant-GrantsMove :
      (now : ℕ) (tokens : List String) (id workline mode : Option String) (time : Option ℕ)
      (disk : DurableRead) (s : Broker)
      → AreAllowed digests may tokens
      → GrantsMove s (issue_pairing_grant digests now tokens id workline mode time disk s).0
  unfolding issue_pairing_grant issue_first
  issue_pairing_grant-GrantsMove now tokens id workline mode time disk s a =
      elim (Checked-cases (issue_checked id workline mode time)) [
        | inl (r, e) ↦ rw (e, issue_pairing_grant) (stays s.grants)
        | inr ((c, w, m, t), e) ↦
            let s' = issue_first now s in
            let h : GrantsMove s s' =
              follows (expired-GrantsMove now s)
                (prune_grants-Moves may now false (expire_bindings now s)) in
            elim (Checked-cases (channel_is_free c s' >>= λ _. find_workline digests w disk)) [
              | inl (r, e') ↦ rw (e, issue_pairing_grant) (rw (e', issue_pairing_grant) h)
              | inr (x, e') ↦
                  rw (e, issue_pairing_grant)
                    (rw (e', issue_pairing_grant)
                      (follows h (issue_second-GrantsMove now tokens c w m t s' a)))
            ]
      ]

  attach_issued-GrantsMove :
      (now : ℕ) (lease_id : String) (id : Option String) (lease : Option ℕ) (disk : DurableRead)
      (i : Issued) (s : Broker)
      → GrantsMove s (attach_issued digests now lease_id id lease disk i s).0
  unfolding attach_issued
  attach_issued-GrantsMove now lease_id id lease disk (refused r) s = stays s.grants
  attach_issued-GrantsMove now lease_id id lease disk drawing s = stays s.grants
  attach_issued-GrantsMove now lease_id id lease disk (granted grant) s =
      let (s', result) = attach_channel digests now lease_id id (some grant.token) lease disk s in
      let m = attach_channel-GrantsMove now lease_id id (some grant.token) lease disk s in
      elim (Bool-cases result.ok) [
        | inl fine ↦ rw fine m
        | inr bad ↦ rw bad (follows m (takes (digests.token_hash grant.token) s'.grants))
      ]

  pub pair_channel-GrantsMove :
      (now : ℕ) (tokens : List String) (lease_id : String) (id workline mode : Option String)
      (time lease : Option ℕ) (disk disk' : DurableRead) (s : Broker)
      → AreAllowed digests may tokens
      → GrantsMove s
          (pair_channel digests now tokens lease_id id workline mode time lease disk disk' s).0
  unfolding pair_channel
  pair_channel-GrantsMove now tokens lease_id id workline mode time lease disk disk' s a =
      let (s', i) = issue_pairing_grant digests now tokens id workline mode time disk s in
      follows (issue_pairing_grant-GrantsMove now tokens id workline mode time disk s a)
        (attach_issued-GrantsMove now lease_id id lease disk' i s')
