-- ===== src/Lib.antt =====
-- Verification of lil-tweak: the core of core/lil_tweak, in Python.
--
-- lil-tweak runs engineering jobs: a job goes through the states of core/lil_tweak/state.py, its
-- result is applied only under an approval that core/lil_tweak/store.py keeps, and what fails is
-- handed to the failure recovery of core/lil_tweak/failure_recovery. The orchestrator runs a job
-- against the store, and makes the evidence that an approval is about. Test worlds (core/lil_tweak/test_world.py) are challenges with
-- checks, at which workers try under leases until a judge finds every check passed.
--
-- Files and code:
--   Prelude              tests, lists, results, dictionaries, texts and paths that all parts share
--   Contracts, State     core/lil_tweak/contracts.py, limits.py and state.py; State/Runs is about
--                        sequences of transitions
--   Json, Json/Print, Json/Text, Json/Equality
--                        JSON values, the text that Python's `json` writes of them and its size, and
--                        the equality of store.py that heeds types
--   Jobs/Model, Events, Nonces, Updates, Cancels, Approvals, Leases
--                        core/lil_tweak/store.py: `MemoryJobStore`, its records and its methods by
--                        what they do; Jobs/Logs is about sequences of its calls: Runs of the logs,
--                        Kept and Spent of the approvals
--   Recovery/Vocabulary, Recovery/Contracts
--                        the enumerations and records of failure_recovery/contracts.py, with the
--                        checks that each record makes of itself
--   Recovery/Classifier  classifier.py: a failure's class, disposition and preferred action
--   Recovery/Policy      policy.py: what is allowed, by approvals, resources and budgets
--   Recovery/Fingerprints, Recovery/History, Recovery/Controller
--                        fingerprints.py, the store in memory of history.py, and controller.py, which
--                        asks the classifier and the policy and appends what was decided
--   TestWorld/Model, Checks, Queries, Admission, Leases, Results
--                        test_world.py: the records and the state of `MemoryTestWorldStore`, the
--                        validators, and its methods by what they do
--   TestWorld/Invariant  what holds between two calls, and the changes that keep it
--   TestWorld/Steps      each method as a row of such changes; Steps/Runs is about sequences of calls
--   Evidence/Snapshots, Patch, Bundle
--                        evidence.py: snapshots of a workspace, the patch between two of them, and
--                        the bundle of artifacts with its manifest
--   TestWorld/Runner     test_world_runner.py: `run_attempt`, its callbacks a record of functions on the
--                        state of a workspace; the `finally` clause cleans up the workspace as it was
--                        prepared, since a callback that fails returns none
--   Archives/Names, Inspection, Safety
--                        archive.py: safe names, and the inspection of an archive before extraction
--   Signing              signing.py: canonical requests, and the test of a signed request; Lines and
--                        Messages are about the signed lines, Signatures about what a signature was
--                        made for, and Replays composes the test with the nonces of the job store
--   Orchestrator         orchestrator.py: `run_job`. Session is how it meets the job store, Host what it
--                        works with beside the store, Moves the leased transitions, Evidence what it
--                        stores, Run and Run/Phases the run itself; Endings and Outcomes say how a
--                        run ends, Traces and Refinement which calls of the store it makes
--   Examples             the theorems at concrete values
--
-- A method that raises returns `err` with the exception; a method that writes returns the state it
-- leaves beside its result, with an exception or without. A dictionary is an association list in the
-- order of insertion. Locks have no counterpart: a method under its lock is one step. `decide` of
-- controller.py lists the history under one lock and appends under another: `decide_on_seen` has both
-- states, and `decide`, of which sequences of decisions are made, is the call without another call in
-- between; Recovery/Controller/Races is about those with. Times are ticks of a clock and arguments of
-- the step that reads the clock, whole seconds where signing.py cuts a reading with `int`; and the text
-- of a new UUID is an argument of the step that makes it; a run is fresh when no such text is in use.
-- The ratio of archive.py, a float, is a fraction, and is compared exactly. SHA-256 over
-- canonical JSON is a parameter (`Digests` of Recovery/Fingerprints, whose values are 64 hexadecimal
-- digits, `Hashes` of TestWorld/Admission and `Digesters` of Jobs/Logs); so are HMAC, `difflib`, the
-- parsing and quoting of urllib, `zipfile` and `str.casefold` (`SigningTools`, `PatchTools`, arguments
-- of Archives). Checks of the Python type of a value have no counterpart where the model is typed. `hmac.compare_digest` raises on a text that is not ASCII;
-- digests are hexadecimal, and the model compares them as texts. All loops are structural recursion,
-- so no fuel is needed.
--
-- Of the run of a job the agent, the snapshots of the workspace, the verifier, the log of commands, the
-- journal of edits and the evidence store are fields of `Host`; other threads' calls of the job store
-- are a list for each point at which `run_job` meets the store, so a theorem about every `Host` is
-- about every interleaving of calls.
--
-- Not modelled: the schedulers of jobs and of test worlds, the stores on SQLite and Postgres,
-- `FailureSignal.__post_init__`, the evidence stores, extraction and the intake of sources,
-- configuration, sandboxes and probes, the model client, the skill forge, the HTTP services, the web application, and the scripts
-- for deployment; for these there are no definitions here.
pub mod Prelude
pub mod Contracts
pub mod Json
pub mod State
pub mod Recovery
pub mod TestWorld
pub mod Jobs
pub mod Archives
pub mod Signing
pub mod Evidence
pub mod Orchestrator
pub mod Examples
