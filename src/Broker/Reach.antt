-- ===== src/Broker/Reach.antt =====
-- Every run of the operations of scope_broker.py from a new broker, in any order. The two halves
-- of `attach_channel` and of `issue_pairing_grant` are steps of their own as well, so other
-- operations may run between them.
use super_memory_brain.Base.{ℕ, String, ◌≡◌, Bool, Option, List, [], some}
use super_memory_brain.Base.Dict.{get}
use super_memory_brain.Broker.Types.{AccessMode, write, Binding, Broker, ScopeContext}
use super_memory_brain.Broker.Registry.{Digests, DurableRead}
use super_memory_brain.Broker.Channels.{
  open_channel, status, list_channel_statuses, authorize, renew_lease, detach_channel,
  close_channel,
}
use super_memory_brain.Broker.Pairing.{bind_new_channel, pair_request}
use super_memory_brain.Broker.Grants.{
  issue_second, issue_pairing_grant, attach_second, attach_channel, pair_channel,
}
use super_memory_brain.Json.{Value}
use super_memory_brain.Broker.Contract.{Libraries}
use super_memory_brain.Broker.Register.{Drawn}
use super_memory_brain.Broker.Workline.{Access, System, register_workline}
use super_memory_brain.Broker.Refresh.{
  refresh_bound_contract, pairing_request_ref, pairing_request_channel,
}
use super_memory_brain.Broker.Rebinding.{
  register_workline-IsConsistent, refresh_bound_contract-IsConsistent,
  pairing_request_ref-IsConsistent, pairing_request_channel-IsConsistent,
}
use super_memory_brain.Broker.Leases.{IsConsistent}
use super_memory_brain.Broker.Keeps.{
  status-IsConsistent, list_channel_statuses-IsConsistent, authorize-IsConsistent,
  open_channel-IsConsistent, renew_lease-IsConsistent, detach_channel-IsConsistent,
}
use super_memory_brain.Broker.Closing.{close_channel-IsConsistent}
use super_memory_brain.Broker.Attach.{bind_new_channel-IsConsistent, pair_request-IsConsistent}
use super_memory_brain.Broker.Consume.{
  issue_second-IsConsistent, issue_pairing_grant-IsConsistent, attach_second-IsConsistent,
  attach_channel-IsConsistent, pair_channel-IsConsistent,
}

-- `ScopeBroker.__init__`
abbrev pub new_broker : String → Broker
new_broker instance_id = record {
  channels = [];
  bindings = [];
  write_leases = [];
  grants = [];
  pairing_requests = [];
  channel_pairing_refs = [];
  instance_id = instance_id;
}

pub data Step (digests : Digests) : Broker → Broker → Type 0 where
  opens :
      (now : ℕ) (draws : List String) (drawn : String) (s : Broker)
      → Step digests s (open_channel now draws drawn s).0
  reads_status :
      (now : ℕ) (drawn : String) (id : Option String) (s : Broker)
      → Step digests s (status now drawn id s).0
  lists : (now : ℕ) (s : Broker) → Step digests s (list_channel_statuses now s).0
  authorizes :
      (now : ℕ) (drawn : String) (id : Option String) (w : Option Bool) (s : Broker)
      → Step digests s (authorize now drawn id w s).0
  renews :
      (now : ℕ) (id lease : Option String) (time : Option ℕ) (s : Broker)
      → Step digests s (renew_lease now id lease time s).0
  detaches :
      (now : ℕ) (drawn : String) (id : Option String) (s : Broker)
      → Step digests s (detach_channel now drawn id s).0
  closes :
      (now : ℕ) (drawn : String) (id : Option String) (s : Broker)
      → Step digests s (close_channel now drawn id s).0
  binds_new :
      (now : ℕ) (draws : List String) (lease_id : String) (x : Option ScopeContext)
      (mode : Option String) (time : Option ℕ) (disk : DurableRead) (s : Broker)
      → Step digests s (bind_new_channel digests now draws lease_id x mode time disk s).0
  pairs :
      (now : ℕ) (lease_id : String) (ref workline mode : Option String) (ttl lease : Option ℕ)
      (disk : DurableRead) (s : Broker)
      → Step digests s (pair_request digests now lease_id ref workline mode ttl lease disk s).0
  issues :
      (now : ℕ) (tokens : List String) (id workline mode : Option String) (time : Option ℕ)
      (disk : DurableRead) (s : Broker)
      → Step digests s (issue_pairing_grant digests now tokens id workline mode time disk s).0
  issues_second :
      (now : ℕ) (tokens : List String) (c w : String) (mode : AccessMode) (time : ℕ) (s : Broker)
      → Step digests s (issue_second digests now tokens c w mode time s).0
  attaches :
      (now : ℕ) (lease_id : String) (id token : Option String) (time : Option ℕ)
      (disk : DurableRead) (s : Broker)
      → Step digests s (attach_channel digests now lease_id id token time disk s).0
  pairs_channel :
      (now : ℕ) (tokens : List String) (lease_id : String) (id workline mode : Option String)
      (ttl lease : Option ℕ) (disk disk' : DurableRead) (s : Broker)
      → Step digests s
          (pair_channel digests now tokens lease_id id workline mode ttl lease disk disk' s).0
  attaches_second :
      (now : ℕ) (lease_id c digest : String) (lease : ℕ) (x : ScopeContext) (s : Broker)
      → Step digests s (attach_second now lease_id c digest lease x s).0
  registers :
      (l : Libraries) (d : Drawn) (contract : Value) (hash : Option String) (access : Access)
      (y : System)
      → Step digests y.broker (register_workline l d contract hash access y).0.broker
  refreshes :
      (l : Libraries) (now : ℕ) (d : Drawn) (id lease : Option String) (contract : Value)
      (access : Access) (y : System)
      → Step digests y.broker (refresh_bound_contract l now d id lease contract access y).0.broker
  asks_ref :
      (now : ℕ) (drawn : String) (id : Option String) (s : Broker)
      → Step digests s (pairing_request_ref now drawn id s).0
  asks_channel :
      (now : ℕ) (ref : Option String) (s : Broker)
      → Step digests s (pairing_request_channel now ref s).0

pub data Reach (digests : Digests) (s : Broker) : Broker → Type 0 where
  here : Reach digests s s
  next : {t u : Broker} → Reach digests s t → Step digests t u → Reach digests s u

pub Step-IsConsistent :
    {digests : Digests} {s t : Broker} → Step digests s t → IsConsistent s → IsConsistent t
Step-IsConsistent (opens now draws drawn s) h = open_channel-IsConsistent now draws drawn s h
Step-IsConsistent (reads_status now drawn id s) h = status-IsConsistent now drawn id s h
Step-IsConsistent (lists now s) h = list_channel_statuses-IsConsistent now s h
Step-IsConsistent (authorizes now drawn id w s) h = authorize-IsConsistent now drawn id w s h
Step-IsConsistent (renews now id lease time s) h = renew_lease-IsConsistent now id lease time s h
Step-IsConsistent (detaches now drawn id s) h = detach_channel-IsConsistent now drawn id s h
Step-IsConsistent (closes now drawn id s) h = close_channel-IsConsistent now drawn id s h
Step-IsConsistent {digests} (binds_new now draws lease_id x mode time disk s) h =
    bind_new_channel-IsConsistent digests now draws lease_id x mode time disk s h
Step-IsConsistent {digests} (pairs now lease_id ref workline mode ttl lease disk s) h =
    pair_request-IsConsistent digests now lease_id ref workline mode ttl lease disk s h
Step-IsConsistent {digests} (issues now tokens id workline mode time disk s) h =
    issue_pairing_grant-IsConsistent digests now tokens id workline mode time disk s h
Step-IsConsistent {digests} (issues_second now tokens c w mode time s) h =
    issue_second-IsConsistent digests now tokens c w mode time s h
Step-IsConsistent {digests} (attaches now lease_id id token time disk s) h =
    attach_channel-IsConsistent digests now lease_id id token time disk s h
Step-IsConsistent {digests}
      (pairs_channel now tokens lease_id id workline mode ttl lease disk disk' s) h =
    pair_channel-IsConsistent digests now tokens lease_id id workline mode ttl lease disk disk' s h
Step-IsConsistent (attaches_second now lease_id c digest lease x s) h =
    attach_second-IsConsistent now lease_id c digest lease x s h
Step-IsConsistent (registers l d contract hash access y) h =
    register_workline-IsConsistent l d contract hash access y h
Step-IsConsistent (refreshes l now d id lease contract access y) h =
    refresh_bound_contract-IsConsistent l now d id lease contract access y h
Step-IsConsistent (asks_ref now drawn id s) h = pairing_request_ref-IsConsistent now drawn id s h
Step-IsConsistent (asks_channel now ref s) h = pairing_request_channel-IsConsistent now ref s h

pub Reach-IsConsistent :
    {digests : Digests} {s t : Broker} → IsConsistent s → Reach digests s t → IsConsistent t
Reach-IsConsistent h here = h
Reach-IsConsistent h (next r step) = Step-IsConsistent step (Reach-IsConsistent h r)

pub new_broker-IsConsistent : (instance_id : String) → IsConsistent (new_broker instance_id)
unfolding get
new_broker-IsConsistent instance_id = record {
  unique = tt;
  opened = λ c b e. cc;
  lease_held = λ w c e. cc;
  held_lease = λ c b e q. cc;
}

-- However the operations of a broker that starts empty follow one another, two channels that are
-- bound for writing to the same workline are the same channel.
pub write_exclusion :
    (digests : Digests) (instance_id : String) (s : Broker) (c d : String) (a b : Binding)
    → Reach digests (new_broker instance_id) s
    → get c s.bindings ≡ some a
    → get d s.bindings ≡ some b
    → a.access_mode ≡ write
    → b.access_mode ≡ write
    → a.workline_id ≡ b.workline_id
    → c ≡ d
write_exclusion digests instance_id s c d a b r p q m n w =
    let h = Reach-IsConsistent (new_broker-IsConsistent instance_id) r in
    cc (h.held_lease c a p m, h.held_lease d b q n)
