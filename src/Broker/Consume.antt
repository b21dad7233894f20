-- ===== src/Broker/Consume.antt =====
-- Issuing and consuming pairing grants in scope_broker.py keeps channels, bindings and write
-- leases consistent.
use super_memory_brain.Base.{
  ℕ, ◌<◌, String, ◌≡◌, refl, true, false, not, Option, none, some, List, arith, eq_iff, leb, length,
  Bool-cases, inl, inr, member,
}
use super_memory_brain.Base.Dict.{get}
use super_memory_brain.Broker.Types.{
  AccessMode, Broker, GrantRecord, ScopeContext, max_grants, pairing_capacity,
}
use super_memory_brain.Broker.Upkeep.{expire_bindings, expire_pairing_requests}
use super_memory_brain.Broker.Checked.{go, ◌>>=◌, require}
use super_memory_brain.Broker.Registry.{Digests, DurableRead, find_workline}
use super_memory_brain.Broker.Pairing.{commit_binding, new_binding, lease_is_free}
use super_memory_brain.Broker.Grants.{
  Issued, granted, refused, drawing, issue_checked, issue_first, make_room, store_grant,
  issue_second, issue_pairing_grant, channel_is_free, attach_checked, attach_first, attach_again,
  consume_grant, attach_second, attach_context, attach_channel, attach_issued, pair_channel,
}
use super_memory_brain.Broker.Leases.{IsConsistent, commit_binding-IsConsistent}
use super_memory_brain.Broker.Expiry.{expire_bindings-IsConsistent}
use super_memory_brain.Broker.Frame.{
  SameCore, SameCore-refl, SameCore-IsConsistent, forget_ref-SameCore, prune_grants-SameCore,
  expire_pairing_requests-SameCore,
}
use super_memory_brain.Broker.Keeps.{if_keeps}
use super_memory_brain.Broker.Attach.{Checked-cases}

-- What the tests under the second memory lock have established when they pass.
pub record MayAttach (now : ℕ) (channel digest : String) (s : Broker) (grant : GrantRecord)
    : Type 0 where
  pub stored : get digest s.grants ≡ some grant
  pub unused : grant.used ≡ false
  pub in_time : now < grant.expires_at
  pub opened : member channel s.channels ≡ true
  pub free : get channel s.bindings ≡ none
  pub addressed : grant.channel_id ≡ channel
  pub lease_free : lease_is_free grant.access_mode grant.workline_id s ≡ true

pub attach_again-MayAttach :
    (now : ℕ) (channel digest : String) (s : Broker) (grant : GrantRecord)
    → attach_again now channel digest s ≡ go grant
    → MayAttach now channel digest s grant
unfolding attach_again
attach_again-MayAttach now channel digest s grant e =
    ground (arith, eq_iff grant.channel_id channel)

consume_grant-IsConsistent :
    (now : ℕ) (lease_id channel digest : String) (lease : ℕ) (x : ScopeContext)
    (grant : GrantRecord) (s : Broker)
    → MayAttach now channel digest s grant
    → IsConsistent s
    → IsConsistent (consume_grant now lease_id channel digest lease x grant s).0
unfolding consume_grant
consume_grant-IsConsistent now lease_id channel digest lease x grant s m h =
    let b = new_binding now lease grant.workline_id grant.access_mode lease_id x in
    SameCore-IsConsistent {s = commit_binding channel b s}
      (let k = forget_ref-SameCore channel (commit_binding channel b s) in
        record { channels = k.channels; bindings = k.bindings; write_leases = k.write_leases })
      (commit_binding-IsConsistent channel b s m.opened m.free m.lease_free h)

pub attach_second-IsConsistent :
    (now : ℕ) (lease_id channel digest : String) (lease : ℕ) (x : ScopeContext) (s : Broker)
    → IsConsistent s
    → IsConsistent (attach_second now lease_id channel digest lease x s).0
unfolding attach_second
attach_second-IsConsistent now lease_id channel digest lease x s h =
    let s' = expire_bindings now s in
    let h' = expire_bindings-IsConsistent now s h in
    elim (Checked-cases (attach_again now channel digest s')) [
      | inl (r, e) ↦ rw (e, attach_second) h'
      | inr (grant, e) ↦
          rw (e, attach_second)
            (consume_grant-IsConsistent now lease_id channel digest lease x grant s'
              (attach_again-MayAttach now channel digest s' grant e) h')
    ]

pub attach_channel-IsConsistent :
    (digests : Digests) (now : ℕ) (lease_id : String) (id token : Option String) (time : Option ℕ)
    (disk : DurableRead) (s : Broker)
    → IsConsistent s
    → IsConsistent (attach_channel digests now lease_id id token time disk s).0
unfolding attach_channel
attach_channel-IsConsistent digests now lease_id id token time disk s h =
    elim (Checked-cases (attach_checked id token time)) [
      | inl (r, e) ↦ rw (e, attach_channel) h
      | inr ((c, t, lease), e) ↦
          let s' = expire_pairing_requests now (expire_bindings now s) in
          let h' =
            SameCore-IsConsistent (expire_pairing_requests-SameCore now (expire_bindings now s))
              (expire_bindings-IsConsistent now s h) in
          elim (Checked-cases
            (attach_first now c (digests.token_hash t) s' >>= λ g. attach_context digests g disk)) [
              | inl (r, e') ↦ rw (e, attach_channel) (rw (e', attach_channel) h')
              | inr (x, e') ↦
                  rw (e, attach_channel)
                    (rw (e', attach_channel)
                      (attach_second-IsConsistent now lease_id c (digests.token_hash t) lease x s'
                        h'))
            ]
    ]

issue_first-IsConsistent :
    (now : ℕ) (s : Broker) → IsConsistent s → IsConsistent (issue_first now s)
unfolding issue_first
issue_first-IsConsistent now s h =
    SameCore-IsConsistent (prune_grants-SameCore now false (expire_bindings now s))
      (expire_bindings-IsConsistent now s h)

make_room-SameCore : (now : ℕ) (s : Broker) → SameCore s (make_room now s)
unfolding make_room
make_room-SameCore now s = elim (Bool-cases (leb max_grants (length s.grants))) [
  | inl full ↦ rw full (prune_grants-SameCore now true s)
  | inr room ↦ rw room (SameCore-refl s)
]

store_grant-SameCore :
    (digests : Digests) (c w : String) (mode : AccessMode) (expires : ℕ) (o : Option String)
    (s : Broker)
    → SameCore s (store_grant digests c w mode expires o s).0
unfolding store_grant
store_grant-SameCore digests c w mode expires none s = SameCore-refl s
store_grant-SameCore digests c w mode expires (some t) s = record {
  channels = refl;
  bindings = refl;
  write_leases = refl;
}

pub issue_second-IsConsistent :
    (digests : Digests) (now : ℕ) (tokens : List String) (c w : String) (mode : AccessMode)
    (time : ℕ) (s : Broker)
    → IsConsistent s
    → IsConsistent (issue_second digests now tokens c w mode time s).0
unfolding issue_second
issue_second-IsConsistent digests now tokens c w mode time s h =
    let s' = make_room now (expire_bindings now s) in
    let h' =
      SameCore-IsConsistent (make_room-SameCore now (expire_bindings now s))
        (expire_bindings-IsConsistent now s h) in
    elim (Checked-cases (
      require (not (leb max_grants (length s'.grants))) pairing_capacity >>= λ _.
      channel_is_free c s')) [
        | inl (r, e) ↦ rw (e, issue_second) h'
        | inr (u, e) ↦
            rw (e, issue_second)
              (SameCore-IsConsistent (store_grant-SameCore digests c w mode _ _ s') h')
      ]

pub issue_pairing_grant-IsConsistent :
    (digests : Digests) (now : ℕ) (tokens : List String) (id workline mode : Option String)
    (time : Option ℕ) (disk : DurableRead) (s : Broker)
    → IsConsistent s
    → IsConsistent (issue_pairing_grant digests now tokens id workline mode time disk s).0
unfolding issue_pairing_grant
issue_pairing_grant-IsConsistent digests now tokens id workline mode time disk s h =
    elim (Checked-cases (issue_checked id workline mode time)) [
      | inl (r, e) ↦ rw (e, issue_pairing_grant) h
      | inr ((c, w, m, t), e) ↦
          let s' = issue_first now s in
          let h' = issue_first-IsConsistent now s h in
          elim (Checked-cases (channel_is_free c s' >>= λ _. find_workline digests w disk)) [
            | inl (r, e') ↦ rw (e, issue_pairing_grant) (rw (e', issue_pairing_grant) h')
            | inr (x, e') ↦
                rw (e, issue_pairing_grant)
                  (rw (e', issue_pairing_grant)
                    (issue_second-IsConsistent digests now tokens c w m t s' h'))
          ]
    ]

attach_issued-IsConsistent :
    (digests : Digests) (now : ℕ) (lease_id : String) (id : Option String) (lease : Option ℕ)
    (disk : DurableRead) (i : Issued) (s : Broker)
    → IsConsistent s
    → IsConsistent (attach_issued digests now lease_id id lease disk i s).0
unfolding attach_issued
attach_issued-IsConsistent digests now lease_id id lease disk (refused r) s h = h
attach_issued-IsConsistent digests now lease_id id lease disk drawing s h = h
attach_issued-IsConsistent digests now lease_id id lease disk (granted grant) s h =
    let (s', result) = attach_channel digests now lease_id id (some grant.token) lease disk s in
    let h' =
      attach_channel-IsConsistent digests now lease_id id (some grant.token) lease disk s h in
    if_keeps result.ok _ _ h' (
      SameCore-IsConsistent {s = s'}
        (record { channels = refl; bindings = refl; write_leases = refl }) h')

pub pair_channel-IsConsistent :
    (digests : Digests) (now : ℕ) (tokens : List String) (lease_id : String)
    (id workline mode : Option String) (time lease : Option ℕ) (disk disk' : DurableRead)
    (s : Broker)
    → IsConsistent s
    → IsConsistent
        (pair_channel digests now tokens lease_id id workline mode time lease disk disk' s).0
unfolding pair_channel
pair_channel-IsConsistent digests now tokens lease_id id workline mode time lease disk disk' s h =
    let (s', i) = issue_pairing_grant digests now tokens id workline mode time disk s in
    attach_issued-IsConsistent digests now lease_id id lease disk' i s'
      (issue_pairing_grant-IsConsistent digests now tokens id workline mode time disk s h)
