-- ===== src/Lib.antt =====
-- Verification of the core of the smarttest platform: how a test run is created, handed to a
-- runner, executed, recorded and retried, and the stores of test assets that it is planned from.
--
-- The parts and their files:
--   Base        what all share: texts, dictionaries in insertion order, stable sorting, and
--               methods that change a state and may raise (Base/Exec: what was written before a
--               raise stays written). Base/Versions: records that keep their revisions.
--   Protocol    packages/protocol/models.py: the enums and the envelopes.
--   Domain      services/api/domain.py: run and attempt states, records and their methods.
--   Repository  services/api/repository.py: RunRepository. State is the object, Runs, Attempts,
--               Leases, Events and Artifacts its methods under the names of the source. Writes is
--               the abstract store, Refinement relates each method to it, WellFormed and History
--               are the invariants, Calls is any sequence of calls.
--   Retry       services/retry_policy.py: decide_retry.
--   Manager     services/runner_manager.py: RunnerManager.execute on a RunRepository.
--   Dispatch    workers/tasks.py and DatabaseRunDispatcher of services/api/dispatcher.py;
--               Coordinator is services/api/execution_coordinator.py, Calm and Rounds how its
--               loop ends.
--   Secrets     services/secret_broker.py: Grants is InMemorySecretGrantStore, Broker is
--               SecretBroker (`issue_capability`, `redeem`, `revoke_capability`,
--               `revoke_attempt_capabilities`) with canonical_secret_references of
--               services/api/environment_repository.py.
--   Quality     services/api/quality_domain.py (Records), services/api/quality_repository.py
--               (Methods).
--   Automation  services/api/automation_domain.py (Records), services/api/automation_repository.py
--               (Methods).
--   Plan        services/api/test_plan_domain.py (Records), services/api/test_plan_repository.py
--               (Normalize, Methods, Batches), and the records of
--               services/api/environment_domain.py (Environments).
--   Environment services/api/environment_repository.py: Inputs the checks and the encryption of
--               values, Methods EnvironmentRepository, Resolver ConfigurationResolver.
--   Projects    services/api/project_domain.py and services/api/project_repository.py.
--   Parameters  services/api/parameter_domain.py and services/api/parameter_repository.py.
--   Connectors  services/api/connector_domain.py and services/api/connector_repository.py.
--   LoadTests   services/api/load_test_domain.py (Records) and
--               services/api/load_test_repository.py (Settings, Methods).
--   Workflows   services/api/data_factory_domain.py (Graphs) and
--               services/api/data_factory_repository.py (Methods).
--   Auth        services/api/auth_domain.py (Passwords), services/api/auth_repository.py (Methods)
--               and services/api/auth_throttle.py (Throttle).
--   Tests       runs of the model, and each theorem at a concrete input.
-- A test plan makes the runs of a batch in the run repository; a claim queues them, a dispatcher or
-- worker moves them to DISPATCHING, the runner manager begins the attempt, stores its events and
-- result and closes the run or leaves it for a retry. The secret broker reads the attempts.
--
-- How the program is written here. A UUID is a number, a datetime a number of microseconds without
-- bound, a JSON value its canonical text. Enumeration members are constructors. A method that holds
-- a lock is one step; `deepcopy` of immutable records is the record. Every reading of the clock and
-- every identifier drawn is an argument. Integers of Python that may be negative are `ℤ`, the others
-- `ℕ`, which is unbounded as they are. Loops are structural recursion, but two
-- that run on fuel: the loop of the coordinator, for which one round more than the created runs of
-- its batch is enough, and the search of a workflow graph, for which one round more than the nodes
-- that are ready or wait for others is enough.
-- Parameters stand for what is outside of these files: the digest, the executor, the artifact
-- collector, the scheduler and the callback of the runner manager, the resolver of secrets, the
-- readers of attempts, test cases, scripts and environments, the dispatcher of the coordinator, the
-- encryptor, PBKDF2, Unicode's case folding and normal form, the pydantic validators of load test
-- targets and workflow definitions, the all-zero metrics of a new load test run, and the size and canonical text of a JSON
-- object. In the runner manager others may call the repository while the executor runs, but
-- not between the end of the executor and the last write.
--
-- Not modelled: the pydantic validators, the SQL repositories (their transactions are the
-- database's), HTTP routes, the task materializer, the encryption of secrets, the executors of load tests and workflows, the connector client, source and artifact stores,
-- runners, migrations and the web frontend.
pub mod Base
pub mod Protocol
pub mod Domain
pub mod Repository
pub mod Retry
pub mod Manager
pub mod Dispatch
pub mod Quality
pub mod Secrets
pub mod Automation
pub mod Plan
pub mod Projects
pub mod Parameters
pub mod Connectors
pub mod LoadTests
pub mod Auth
pub mod Environment
pub mod Workflows
pub mod Tests
