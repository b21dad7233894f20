-- ===== src/Broker/Tests.antt =====
-- One channel that is opened, granted and attached, and what the theorems say of it.
use super_memory_brain.Base.{ℕ, String, ◌≡◌, refl, true, false, Option, none, some, [], ◌∷◌, arith}
use super_memory_brain.Base.Dict.{get, put, pop}
use super_memory_brain.Text.{strip, shape, led_shape, is_hex, is_alnum}
use super_memory_brain.Broker.Types.{
  write, withheld, workline_unknown, failure, Binding, Broker, Outcome, ScopeContext, safe_string,
  parse_mode, ttl, channel_id_re, workline_id_re, broker_session_id_re, workspace_key_re,
  owner_session_key_re, task_id_re, task_instance_id_re, package_version_re, sha256_re,
  pairing_token_re,
}
use super_memory_brain.Broker.Registry.{
  Digests, DurableRead, WorklineRecord, worklines, lock_timeout, filled, context_from_record,
}
use super_memory_brain.Broker.Upkeep.{expire_bindings}
use super_memory_brain.Broker.Channels.{open_channel, detach_channel, authorize}
use super_memory_brain.Broker.Closing.{detach_channel_unbinds}
use super_memory_brain.Broker.Expiry.{live, get-expire_bindings}
use super_memory_brain.Broker.Pairing.{commit_binding, new_binding}
use super_memory_brain.Broker.Grants.{
  issue_pairing_grant, issue_second, attach_second, attach_channel, pair_channel,
}
use super_memory_brain.Broker.Leases.{IsConsistent}
use super_memory_brain.Broker.Reach.{
  Reach, here, next, opens, detaches, issues_second, attaches_second, new_broker,
  new_broker-IsConsistent, Reach-IsConsistent, write_exclusion,
}
use super_memory_brain.Broker.Authority.{Authority, authorize_holds, authorize_live}
use super_memory_brain.Broker.Spent.{Later, same, then_, drawn_tokens}
use super_memory_brain.Broker.OneShot.{GrantGone, attach_once, pair_channel_cleanup}

abbrev sha : String
sha = "0123456789abcdef0123456789abcdef0123456789abcdef0123456789abcdef"

abbrev digests : Digests
digests = record { token_hash = λ t. t; scope_hash = λ a b c d. sha }

abbrev channel : String
channel = "sbc-0123456789abcdef0123456789abcdef"

abbrev workline : String
workline = "sbw-0123456789abcdef0123456789abcdef"

abbrev token : String
token = "sbpg-v1.0123456789abcdef0123456789abcdef"

abbrev context : ScopeContext
context = record {
  session_id = "sbs-0";
  workline_id = workline;
  workspace_key = "ws-0";
  owner_session_key = "sid-0";
  task_id = "t";
  task_instance_id = "ti-0";
  package_version = "1";
  contract_revision = 1;
  contract_hash = "h";
  scope_ref = "r";
}

opened : Broker
opened = (open_channel 0 (channel ∷ []) "sbpr-0" (new_broker "sbi-0")).0

issued : Broker
issued = (issue_second digests 0 (token ∷ []) channel workline write 60 opened).0

attached : Broker
attached = (attach_second 0 "sbl-0" channel token 300 context issued).0

abbrev binding : Binding
binding = new_binding 0 300 workline write "sbl-0" context

reached : Reach digests (new_broker "sbi-0") attached
unfolding attached issued opened
reached =
    next
      (next (next here (opens 0 (channel ∷ []) "sbpr-0" (new_broker "sbi-0")))
        (issues_second 0 (token ∷ []) channel workline write 60 opened))
      (attaches_second 0 "sbl-0" channel token 300 context issued)

program : Unit {0}
unfolding open_channel issue_second attach_second get put pop commit_binding
program = tt

attached_binding : get channel attached.bindings ≡ some binding
unfolding attached issued opened program
attached_binding = refl

attach_ok : (attach_second 0 "sbl-0" channel token 300 context issued).1.ok ≡ true
unfolding issued opened program
attach_ok = refl

write_exclusion_example : channel ≡ channel
write_exclusion_example =
    write_exclusion digests "sbi-0" attached channel channel binding binding reached
      attached_binding attached_binding refl refl refl

before_attached : Reach digests (new_broker "sbi-0") issued
unfolding issued opened
before_attached =
    next (next here (opens 0 (channel ∷ []) "sbpr-0" (new_broker "sbi-0")))
      (issues_second 0 (token ∷ []) channel workline write 60 opened)

-- The channel is detached, and another one is opened.
abbrev after_detached : Broker
after_detached =
    (detach_channel 3 "sbpr-2" (some channel)
      (attach_second 0 "sbl-0" channel token 300 context issued).0).0

abbrev later_on : Broker
later_on = (open_channel 4 ("sbc-1" ∷ []) "sbpr-3" after_detached).0

later : Later digests token (attach_second 0 "sbl-0" channel token 300 context issued).0 later_on
unfolding drawn_tokens
later =
    then_ (then_ same (detaches 3 "sbpr-2" (some channel) _) tt)
      (opens 4 ("sbc-1" ∷ []) "sbpr-3" after_detached) tt

attach_once_example :
    ((attach_second 5 "sbl-1" "sbc-1" token 15 context later_on).1.ok ≡ false)
    × ((id : Option String) (t : String) (time : Option ℕ) (disk : DurableRead)
        → digests.token_hash t ≡ token
        → (attach_channel digests 5 "sbl-1" id (some t) time disk later_on).1.ok ≡ false)
attach_once_example =
    attach_once digests "sbi-0" 0 5 "sbl-0" "sbl-1" channel "sbc-1" token 300 15 context context
      issued later_on before_attached attach_ok later

identified : filled (safe_string channel_id_re (some channel)) ≡ true
unfolding safe_string channel_id_re filled strip shape is_hex
identified = refl

attached_named : get (safe_string channel_id_re (some channel)) attached.bindings ≡ some binding
unfolding safe_string channel_id_re strip shape is_hex attached issued opened program
attached_named = refl

attached-IsConsistent : IsConsistent attached
attached-IsConsistent = Reach-IsConsistent (new_broker-IsConsistent "sbi-0") reached

authorize_live_example : (authorize 7 "sbpr-1" (some channel) (some true) attached).1.ok ≡ true
authorize_live_example =
    authorize_live 7 "sbpr-1" (some channel) attached attached-IsConsistent binding identified
      attached_named (omega arith) refl

authorized : (authorize 7 "sbpr-1" (some channel) (some true) attached).1.ok ≡ true
authorized =
    authorize_live 7 "sbpr-1" (some channel) attached attached-IsConsistent binding identified
      attached_named (omega arith) refl

authorize_holds_example :
    (b : Binding) × Authority 7
      (safe_string channel_id_re (some channel))
      attached
      (authorize 7 "sbpr-1" (some channel) (some true) attached).1
      b
    × ((d : String) (a : Binding)
        → get d attached.bindings ≡ some a
        → a.access_mode ≡ write
        → a.workline_id ≡ b.workline_id
        → d ≡ safe_string channel_id_re (some channel))
authorize_holds_example =
    authorize_holds digests "sbi-0" 7 "sbpr-1" (some channel) attached reached authorized

abbrev workline_record : WorklineRecord
workline_record = record {
  session_id = "sbs-0123456789abcdef0123456789abcdef";
  workline_id = workline;
  workspace_key = "ws-0123456789abcdef";
  owner_session_key = "sid-0123456789abcdef";
  task_id = "task";
  task_instance_id = "ti-0123456789abcdef";
  package_version = "1.0";
  contract_revision = 1;
  contract_hash = sha;
  scope_ref = sha;
  created_at = "2026-01-01T00:00:00Z";
  updated_at = "2026-01-01T00:00:00Z";
}

-- the registry can be read when the grant is issued, and not when it is attached
abbrev tried : Broker → Broker × Option Outcome
tried =
    pair_channel digests 0 (token ∷ []) "sbl-0" (some channel) (some workline) (some "write")
      (some 60) (some 300) (worklines (workline_record ∷ [])) lock_timeout

all_shapes : Unit {0}
unfolding pair_channel safe_string strip shape is_hex channel_id_re workline_id_re parse_mode ttl
    broker_session_id_re workspace_key_re owner_session_key_re task_id_re task_instance_id_re
    package_version_re sha256_re pairing_token_re led_shape is_alnum context_from_record filled get
    put pop open_channel
all_shapes = tt

tried_fails : (tried opened).1 ≡ some (failure workline_unknown withheld)
unfolding all_shapes opened
tried_fails = refl

pair_channel_cleanup_example :
    GrantGone digests
      (issue_pairing_grant digests 0
        (token ∷ [])
        (some channel)
        (some workline)
        (some "write")
        (some 60)
        (worklines (workline_record ∷ []))
        opened).1
      (tried opened).0
pair_channel_cleanup_example =
    pair_channel_cleanup digests 0 (token ∷ []) "sbl-0" (some channel) (some workline)
      (some "write") (some 60) (some 300) (worklines (workline_record ∷ [])) lock_timeout opened
      (failure workline_unknown withheld) tried_fails refl

get-expire_bindings_example :
    get channel (expire_bindings 400000000 attached).bindings
    ≡ live 400000000 (get channel attached.bindings)
get-expire_bindings_example = get-expire_bindings 400000000 attached channel attached-IsConsistent

detached : (detach_channel 7 "sbpr-1" (some channel) attached).1.ok ≡ true
unfolding detach_channel all_shapes attached issued opened program
detached = refl

detach_channel_unbinds_example :
    get
      (safe_string channel_id_re (some channel))
      (detach_channel 7 "sbpr-1" (some channel) attached).0.bindings
    ≡ none
detach_channel_unbinds_example = detach_channel_unbinds 7 "sbpr-1" (some channel) attached detached
