-- ===== src/Lib.antt =====
-- The ALOS Backend: a governance platform in Python (FastAPI services over authoritative in-memory
-- or SQL state). This library models the parts of src/alos that decide what may run; paths
-- below are from src/alos.
--
-- How the code is read. A method of an object is a function into the library's `Exec S E A`: it
-- takes the state S and gives a result, or what it raises, and the state that it leaves, so what it
-- wrote before it raised is kept. Methods of one object do not interleave: each of those that are
-- modelled holds the object's lock, or awaits only in-memory stores and the in-memory audit sink,
-- which do not suspend; of the tool executor and the worker, which await adapters and handlers, one
-- run is modelled. The clock is an argument, one reading per call. Identifiers are texts, and a
-- fresh uuid4 is an argument. A dict is the list of its entries in the order of insertion.
-- Exceptions are constructors, one for each place that raises; their messages are left out, but for
-- those that `assign` reads. JSON is a data type. Recursion is on lists and texts, but for the
-- digits of a number (`decimal` in Skills/Minor), which have as fuel one more than the number: each
-- round divides it by ten.
--
-- Prelude: tests on numbers and keys, Python's truth values and `strip`, exceptions with state,
-- dict, `sorted` and the order of tuples.
-- Json, Audit: JSON values; audit/models.py and the in-memory repository of audit/repository.py,
-- whose readings are the subject of Audit/Isolation.
-- Governance: governance/materiality/policy.py, reviews/decisions/models.py and
-- reviews/packages/models.py. Governance/Assurance: governance/gates/assurance.py, with
-- Governance/Reports on what a passing check and report show.
--
-- Releases: releases/service.py. State has the record GovernedRelease and the object
-- InMemoryReleaseAuthority, Authority and Gates have its methods under their names in the source,
-- and Commands lists them, so that a history of calls is a list. Steps is the abstract machine: the
-- edges of the state diagram with the options that each may carry, and what a step writes.
-- Refinement (with Outcomes, Moves, Switches) relates the methods to its steps; Indexed,
-- HumanGates, Trail, Governed, Sole and Changes are the invariants, IndexKept, SoleKept and
-- ChangesKept are about the steps and them, and Histories and Activation are about histories of
-- calls. The authority uses Governance for the decisions, the materiality and the report of
-- automated tests, and appends to the log of Audit.
--
-- Jobs: jobs/models.py, jobs/repository.py (Queue), jobs/worker, jobs/scheduler and jobs/recovery
-- (Worker). Commands lists the calls of the repository, Changes has the moves of one job, Performed
-- relates the calls to them, Lawful is the invariant, Order is the search of `claim`, and
-- Histories, Claims and Settled are about histories, claims and runs of a worker. Handlers are
-- arguments of the worker.
--
-- Authorization: authorization/policy.py with the principal of identity/__init__.py, and
-- authorization/enforcement.py (Enforcement); Facts and Decisions say what they ask.
--
-- Tools: tools/registry/registry.py (State, Registry; Calls lists its calls, Proper and
-- Makers have the invariant) and tools/executor/service.py (Requests, Admission, Executor; Guards
-- and Executions are about what reaches the world outside, Replays about idempotency keys). The
-- executor asks the policy of Authorization, and its registry is a dictionary of tools. The schema
-- validator, the digest, the adapters and the world on which they act are parameters. A request is
-- the members that the executor reads, as the schema requires them; messages in results are left
-- out.
--
-- Registry: registry.py, registry_contracts.py and their instances in agents/registry and
-- skills/registry. State and Versions are VersionedContractRegistry with its store, Calls lists its
-- calls; Version and Precedence are `_semver` and the order of its keys, Authority and Listing the
-- readings. Lifecycle and Consistency say what a call may change and what holds between calls,
-- Moves relates the calls to them, Progress is the way of a version through its states, and
-- Histories, Restart, Authorized and Latest (on Keyed) are about histories of calls, `hydrate` and
-- the readings.
--
-- Runs: agents/lifecycle/runs.py. State has the records, Payloads what `begin` reads of the
-- payloads of definitions, Requirements its checks, Authority the methods and the in-memory store.
-- Usable, Checked and Granted are about what `begin` grants, Authorized about
-- `runtime_authorization`. Calls lists the calls and relates them to changes of one run, Trails
-- and Histories are about histories. The skills are a registry of Registry, as it is when a run
-- begins.
--
-- Skills: skills/assignment.py. State has the service with its two registries of Registry, Texts
-- the codes of refusals, Minor the proposed version, Payloads what is read of a definition, and
-- Assignment `assign`. Decimals, Bumped, Parts and Proposed are about the proposed version,
-- Authorizing about the calls of a registry, Assigned and Outcomes about how an assignment ends,
-- and Drafts about what it leaves.
--
-- Identity: identity/directory.py (Directory), permissions/registry.py (Permissions) and
-- authentication/service.py (Passwords, Service, Accounts, Sessions). Boundaries, Additions and
-- Members are about the growth of the directory, Enrolled and Registered about what a registration
-- leaves, Tokens about `whoami`, Principals and Logins about histories of registrations. The
-- digest, the key derivation and the normal form of an email are arguments.
--
-- Memory: memory/models.py, memory/repository.py and memory/service.py (Records, Repository,
-- Readings). Retrieval is about what a principal sees, Histories lists the calls, and Withdrawal is
-- about expired and deleted memories.
--
-- Not modelled: routes, settings, SQL mappings and sessions, the HTTP client of Genesis, tracing
-- and migrations, which only call libraries; and the parts of src/alos that no module above names.

pub mod Prelude
pub mod Json
pub mod Audit
pub mod Governance
pub mod Authorization
pub mod Identity
pub mod Jobs
pub mod Memory
pub mod Registry
pub mod Releases
pub mod Runs
pub mod Skills
pub mod Tools
