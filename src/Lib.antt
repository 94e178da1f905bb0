-- ===== src/Lib.antt =====
-- MeshML trains models on a mesh of workers. Its services, each a directory of services/, are: the API
-- gateway, which takes jobs and datasets; the dataset sharder, which cuts a dataset into shards and
-- hands their batches out; the task orchestrator, which knows the workers, queues jobs and assigns
-- them to workers; the parameter server, which keeps versions of the model's parameters; the model
-- registry; and the metrics service.
--
-- Modelled here, file by file:
--   * Sharder: services/dataset-sharder/app/services/dataset_sharder.py. Shards has the records and the
--     strategies, with the names of the source less a leading underscore; Chunks, Partition and Sizes
--     the proofs.
--   * Distributor: services/dataset-sharder/app/services/data_distribution.py. Assignments has the
--     records of `DataDistributor`, Strategies `assign_batches_to_workers` and what it calls, Downloads
--     the methods on a batch that is assigned; Spread, Balance, Registering, Records, Names,
--     Tracking and Retries the proofs. The batches that the batch manager lists are an argument of the call.
--     `Request` is one call of a method.
--   * Batches: services/dataset-sharder/app/services/batch_storage.py. Ids has the ids and their scopes, Files
--     `LocalBatchStorage`, Manager `BatchManager`; names are those of the source less a leading
--     underscore, and `StoredBatch` is `BatchMetadata` with all its fields. The order in which the threads
--     end is an argument. Slices, Filing and Paths are the proofs.
--   * JobQueue: services/task-orchestrator/app/services/job_queue.py. Jobs has the job records and the
--     transition table; Operations one function for each method of `JobQueue`, from a database to the
--     new database with the method's result, Upkeep the listing and the clean-up; Update, Index, Calls,
--     Lifecycle, Ending, Assignment, Choice, Sweep and Expiry the proofs. `Call` is one call of a method, the
--     clean-up included, `Reach` a sequence of them.
--   * Workers: services/task-orchestrator/app/services/worker_registry.py (Registry, where `register_worker`
--     and `assign_job` are `registry_register` and `registry_assign`) and worker_discovery.py (Membership
--     has the pools and the registration, Discovery the matching, where `assign_job_to_worker` is
--     `match_and_assign`, the pools' health and scaling). The service keeps the pools, writes to the
--     registry, and assigns jobs through JobQueue. Soundness, Pools, Matching and Rollback are the
--     proofs; `ServiceCall` is one call of a method.
--   * Tasks: services/task-orchestrator/app/services/task_assignment.py, which stands on the two before. Records
--     has its records and the exceptions, Selection the choice of a worker, Assigning `assign_job`, Batches
--     and Policies `assign_batch` and its policies, Rebalance `rebalance_load`; names are those of the source
--     less a leading underscore. Idle and Refusal are the proofs. The dataset sharder's client is a parameter.
--   * Streams: services/task-orchestrator/app/grpc_server.py and services/assignment_engine.py in the same
--     place. Tables has the rows of the tables of batches and jobs, Manager `StreamManager`, Events the rounds
--     of the engine, `_handle_task_result` and `_handle_disconnect`; Updates and Closed the proofs. `Event` is one
--     step.
--   * Models: services/model-registry/app/lifecycle/manager.py and versioning/manager.py. Table has the rows
--     of app/models.py, Managers `transition_state` and `create_version`, Queries the other queries, in
--     which rows of one time keep their order; Family, States and Latest the proofs. `ModelCall` is one call.
--   * Parameters: services/parameter-server/app/services/parameter_storage.py. Records has the records, and as
--     parameters what is used of PyTorch and of Redis; Storage the methods on parameters and versions,
--     Checkpoints those on checkpoints, without the leading underscore; Server the handlers `PullWeights`
--     and `PushGradients` of services/parameter-server/app/grpc_server.py, which keep the weights there;
--     Untouched, Log, Histories, Replay, Runs, Retention, Keys, Restore, Pushes and Pulls the proofs.
--     `StorageCall` is one call that may change the service; an update that makes no version, which changes
--     the newest parameters without a trace in Redis, is none of them.
--   * Gateway: services/api-gateway/app/routers, with models and utils/security.py beside it. Tables has the
--     rows, the queries and how a handler ends; Accounts auth.py, Groups groups.py, Invitations
--     invitations.py, Fleet workers.py and Jobs jobs.py, where `cancel_job` is `cancel_row` in the tables
--     and `cancel_in_queue` in the queue of JobQueue, `list_jobs` is `list_group_jobs` and `get_job` is
--     `get_job_row`. A handler returns the new tables or the exception; bcrypt and the JWT library are
--     a parameter. Counting, Endings, Memberships, Soundness, Admission, Calls, Access, Outsiders,
--     Sessions, Waiting and Cancelling are the proofs; `GatewayCall` is one request that may write.
--   * Redis: what the queue uses of the Redis server, as an interface of commands with the laws that
--     its documentation gives. Tests/Server has a server that meets it.
--   * Prelude: lists, Boolean tests, counting, Python's dict and stable sort.
--   * Tests: concrete runs, and an instance of each theorem that has hypotheses.
--
-- Time is a natural number or a text, which a call reads once. `str` runs on fuel: the number, which it
-- divides by ten in each step. No other loop needs any. Parameters stand for `random.shuffle`, for the
-- class of each sample, for numpy's Dirichlet draw, for the float logarithm and for float estimates.
-- Sizes in gigabytes are whole numbers, and the compute score is ten times the one of the source.
-- A utilization is compared by cross-multiplication, and a threshold is a percentage.
--
-- Not modelled: logging, locks (a method is one step), JSON, network, file and Redis errors, the text
-- of version numbers, the gateway's endpoints for datasets, models and monitoring, the cloud storage of
-- batches, the loading of datasets, the rest of the
-- parameter server and the other services, the other HTTP and gRPC handlers, and the worker, which trains with PyTorch.
pub mod Batches
pub mod Distributor
pub mod Gateway
pub mod JobQueue
pub mod Models
pub mod Parameters
pub mod Prelude
pub mod Redis
pub mod Sharder
pub mod Streams
pub mod Tasks
pub mod Tests
pub mod Workers
