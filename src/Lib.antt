-- ===== src/Lib.antt =====
-- Super Memory Brain: the policies and the scope authority of its Python runtime, CORE/runtime/.
--
-- The runtime lets several connections (channels) work on worklines, the scopes of execution
-- contracts. The Scope Broker decides which channel may act on which workline and which one holds
-- its write lease. The failure loop guard decides whether a failed repair may be tried again. The
-- continuation policy decides how a turn ends, and the turn intent table gives a turn its profile.
-- The work DAG binds a graph of dependencies to one revision of a contract's plan and projects what
-- is ready. The consolidation planner proposes what to do with the memory cards of a scope.
--
-- Base, Text and Json model Python's dictionaries with text keys (Base.Dict), `str` operations and the
-- shapes of the regular expressions (Text; Text.Squeeze has the laws of the normalization), and JSON
-- values (Json).
-- Broker models CORE/runtime/scope_broker.py. Broker.Types has the constants, `_safe_string`, `_ttl`
-- and the records; a `Broker` is the process-local state of a `ScopeBroker`. Broker.Upkeep has
-- `_expire_bindings`, `_expire_pairing_requests`, `_ensure_pairing_request_locked` and
-- `_prune_grants`; Broker.Registry `_context_from_record` and `get_workline`; Broker.Channels
-- `open_channel_with_ref`, `status`, `list_channel_statuses`, `authorize`, `renew_lease`,
-- `detach_channel` and `close_channel`; Broker.Pairing `bind_new_channel` and `pair_request`;
-- Broker.Grants `issue_pairing_grant`, `attach_channel` and `pair_channel`. A method takes the
-- state and gives the new state with its result. Broker.Contract has `_contract_binding`,
-- Broker.Durable and Broker.File the registry, `_registry_valid`, `_read_registry` and
-- `_write_registry`, Broker.Register what `register_workline` makes of a registry, Broker.Workline
-- `register_workline` and `resolve_exact_workline` on the file, Broker.Refresh
-- `refresh_bound_contract`, `pairing_request_ref` and `pairing_request_channel`; the ledger of
-- Broker.Ledger is the registry's specification. An early return of a failure is `stop` of
-- Broker.Checked. Where a method releases the memory lock for the registry read, its second half
-- is a function of its own, and Broker.Reach lets other operations run in between; `close_channel`,
-- which takes the lock twice in a row, is one step. Broker.Ungranted, Broker.UngrantedPairing and
-- Broker.Granting say what each operation does to the grants, as moves of Broker.GrantMoves.
-- FailureLoop models CORE/runtime/failure_loop_guard.py. FailureLoop.Token has `_token`,
-- `_privacy_key_present` and `_record_tokens`, FailureLoop.Decision `evaluate_failure_loop`,
-- FailureLoop.Receipts `receipt_is_valid`, FailureLoop.Decided when there is a decision, and
-- FailureLoop.Handback the receipt as a value of a later history.
-- Continuation models CORE/runtime/continuation_policy.py, `decide_turn_close` and what it reads of a
-- resolution.
-- TurnIntent models CORE/runtime/turn_intent.py, the table of intents and `resolve_turn_intent`.
-- WorkDag models CORE/runtime/work_dag.py. WorkDag.Contract has `_compact`, `_contract_view` and
-- `_default_definition`, WorkDag.Graph `_detect_cycle`, WorkDag.Definition `normalize_definition`,
-- WorkDag.State `_state_with_hash`, `state_is_valid` and `_definition_from_state`, WorkDag.Projection
-- `project_state`, WorkDag.Store `seed_or_refresh` and `get_projection`. The recursion of the
-- cycle search takes as fuel one more than the number of nodes, which suffices: a search out of
-- fuel would report a cycle. A dictionary that the module writes has its keys sorted, as the
-- state file stores it; the file is the argument and result `Store`, its lock a Boolean, and a
-- `KeyError` a result of its own. Codes are constructors, without the prefix H7_WORK_DAG_.
-- Consolidation models CORE/runtime/memory_consolidation.py. Consolidation.Tokens has `_compact`,
-- `_tokens` and `_near_score`, Consolidation.Cards `_record` and the readers of the arguments,
-- Consolidation.Suggestion `_proposal` and the body of the loop of `plan`, Consolidation.Plan
-- `plan`. An exception is a result of its own. A near score is the pair of the counts that the
-- source divides; scores are compared exactly, which for such small counts is what the floats do.
-- Parameters: SHA-256 and canonical JSON enter as functions, with 64 hexadecimal digits as their
-- only assumed law; the clock, the random draws and the outcome of reading the registry file are
-- arguments. A loop that draws identifiers until one is unused takes the list of its draws, and
-- answers `none` while all of them are in use; only the cycle search of the work DAG takes fuel
-- besides. `str` of a value that is no string, `lower` and `casefold` are the record `Python`,
-- `int` of a text or a float (not infinite) is a field of the work DAG's `Runtime`,
-- `datetime.fromisoformat` and the rounding of a merge's confidence are fields of the planner's,
-- with no law assumed. Times are microseconds. Result codes of the broker are constructors,
-- without the prefix H7_SCOPE_.
--
-- Not modelled: how the registry file is locked and replaced, the broker's transport and the
-- public projections of its results, the command lines of the continuation policy and of the work
-- DAG, `public_projection` of the turn intents, the other runtime modules, the vendored memory
-- library, the PowerShell scripts and the user interface.
pub mod Base
pub mod Broker
pub mod Consolidation
pub mod Continuation
pub mod FailureLoop
pub mod Json
pub mod Text
pub mod TurnIntent
pub mod WorkDag
