-- ===== src/Lib.antt =====
-- Verification library of proxmox-sharedlvmthin: shared-LVM thin and thick storage for Proxmox VE.
--
-- The program's parts. The storage plugin (usr/share/perl5, Perl) does the I/O. Around it stand
-- Python programs that decide, without I/O of their own, whether a step may be taken: the APT
-- update policy, which judges the plan of a package transaction; the bridge planner, which names
-- the next action of a return from Thick to Thin; and, under experiments/thick-generations, the
-- state machines that the migration and recovery tools are reviewed against. This library models
-- those decision procedures. They do not call one another: the tools pass their results on as files
-- and exit codes.
--
-- Policy: usr/libexec/pve-sharedlvmthin/sharedlvmthin_update_policy.py.
--   Data: the rows of the manifest, the policy and the context, with the checked keys as fields.
--   Protocol: `parse_protocol_v3`. `parse_lines` and `parse_actions` are its loops, `parse_action`
--     the body for one line, `check_action` its guards in the source's order.
--   Tuples: `exact_tuple`, `planned_tuple`, `observed_tuple`, `resulting_versions`,
--     `known_incompatible`. An association list stands for a dict and its first entry counts.
--   Catalogue: `validate_candidate_catalogue` and `candidate_runtime_tuple`. The values of a JSON file
--     are taken to have the types that the source tests for.
--   Evaluate: `unsupported_identity_changes`, `watched`, `relevant_actions` and `evaluate`, cut where
--     the source returns early: `evaluate_mode`, `evaluate_qualified`, `evaluate_matches`,
--     `evaluate_tuples`, `evaluate_edges`, `evaluate_edge`.
--   An exception is a `refused` result, a returned dict is an `Outcome`.
-- BridgePlan: usr/libexec/pve-sharedlvmthin/sharedlvmthin-bridge-plan, `classify` and `main`;
--   Relation states the plan as a relation between evidence and action.
-- Authority: experiments/thick-generations/process-lifetime-authority-model.py.
--   State: the state, `validate_state`, `cold_state`, `active_fixture`, `client_binding`.
--   Operations: `observe_head`, `begin_mutation`, `complete_persist`, `process_lost`,
--     `correlate_response`. A field that the source checks the type of is a `Scalar`, a dict whose
--     key set it checks is an `Exact`; matching a pattern against what is no text raises.
--   Laws treats one call, Traces a sequence of calls in which a call that raises keeps the state.
-- ConfigCas: experiments/thick-generations/layout-migration-config-cas-model.py. Admission is
--   `validate_request` with `_builtin`, Trace the event loop of `evaluate`: `check_envelope` is the
--   part of the loop body that every event shares, `tick` the clocks and what they poison, `handle`
--   the branch of the kind, `classify` the end. Admitted puts the two together.
-- RebootIntent: experiments/thick-generations/closed-reboot-intent-model.py. `reconcile` as the list
--   of its writes, so that a call can be cut short after any of them; Prefixes, Resume and Recovery
--   follow the records from one cut to the next.
-- LazyGuard: experiments/thick-generations/lazy_zero_guard_model.py. Fixture is `validate_fixture`,
--   Epoch the methods of `GuardEpochModel`; a method returns the object after the call with what the
--   caller sees, since a method that raises can have changed the object. Laws treats one call, Runs
--   a sequence of them.
-- Continuity: experiments/thick-generations/authority-continuity-model.py. Evidence has the validators,
--   as chains of tests that can raise, Evaluate the three evaluators. The messages of a TypeError that
--   an evaluator passes on are those of Python 3.10.
-- Registration: usr/libexec/pve-sharedlvmthin/sharedlvmthin-registration-plan.py. Evidence has the
--   tests of `plan` in the order of the source, Plan what it returns.
-- Barrier: experiments/thick-generations/layout-migration-barrier-model.py. Enrollment is
--   `validate_plan`, Observation `validate_observation` and `_receipt`, Journal `_history` and what
--   `run` decides from it before it touches a node. Controller has its
--   backend with `_clock`, `_authority` and `_persist`, Run is `run`; Control.State has the object,
--   which the calls of the backend can change, and the `try` block around a run.
--   Protocol lists the calls of a run, Schedule writes them out for a plan of four named nodes.
-- GuestShutdown: experiments/thick-generations/layout-migration-guest-shutdown-model.py. Enrollment is
--   `validate_plan`, Snapshot `validate_snapshot`, Receipts `parse_upid` and the tests of `run`,
--   Controller the backend with `authority`, `clock` and `persist`, Run is `run`. Protocol lists the
--   calls of a run, Turns finds the place of one guest's request among them.
-- Supervisor: experiments/thick-generations/prelive_supervisor_model.py. Requests and Receipts have
--   the validators, Model the object with its backend and journal, Run the method `run` with its
--   handler. Protocol lists the calls of an attempt, Exit says what it returns, Laws puts both
--   together, Once follows a sequence of runs, Evidence the event that a failed run leaves.
-- Base: shared types and lemmas. Text has the regular expressions of the sources as matchers,
--   Json the values that `json` reads, without floats, with Python's `==` and its tests of
--   types, Checks a run of `require(test, message)`, Sorted Python's `sorted` on texts. Effects
--   has the calls on a world that can raise, where what was changed before a raise stays
--   changed; a raise is of an `Exception` or of another `BaseException`, which `except
--   Exception` does not catch. It has also the rules that give the calls of a program from
--   those of its parts; Kept has what such a program keeps true.
--
-- Parameters are what is not code of the repository: strict UTF-8 decoding in
-- `parse_protocol_v3`; `re.fullmatch` with a pattern of the manifest and the comparison of
-- Debian versions in `evaluate`; the conversion `int()` of the arguments in BridgePlan; SHA-256
-- of a canonical JSON text in RebootIntent, LazyGuard, Continuity, ConfigCas, Barrier and
-- GuestShutdown; `shlex.join`
-- and the decimal text of an integer in Registration; `sorted(set(...))` of a list of other
-- things than texts in Barrier and GuestShutdown; `str.isdigit` and `int()` in GuestShutdown;
-- the calls of the backend in Barrier and GuestShutdown, and of the backend and the journal in
-- Supervisor, any functions that may raise; in Supervisor the digests of a canonical JSON text
-- and of the empty text, and `normpath`. No law is assumed of them.
--
-- Bounds. Nothing runs on fuel: every loop is recursion on the list that it walks. The limits of the
-- sources are constants: 16 MiB of protocol and 4096 actions in Policy, 16 events, 1 MiB of bytes and
-- 2^63 - 1 in ConfigCas. Python's integers are `ℤ` where a negative value can reach a test, and
-- naturals where the source has refused the others.
--
-- Not modelled. In Policy: reading files (`strict_json`, `hash_payloads`), the hashes, and
-- `manual_authorization_matches`. In ConfigCas: the walk `_builtin` over the events, whose keys
-- are fields of a record, and the canonical form of the arguments before they are hashed. The
-- reasons that a reply of Authority gives with a refusal, which decide nothing. In Barrier and
-- GuestShutdown: a callback that changes the plan itself, which the source catches by its
-- digest. Floats in JSON values. In Registration: the main block, which reads and prints JSON.
-- The Perl plugin, the shell and web tools, the experiments that drive an operating system, and
-- the drivers around the policy, which collect evidence.
pub mod Base
pub mod Authority
pub mod Barrier
pub mod BridgePlan
pub mod ConfigCas
pub mod Continuity
pub mod Control
pub mod GuestShutdown
pub mod LazyGuard
pub mod Policy
pub mod RebootIntent
pub mod Registration
pub mod Supervisor
