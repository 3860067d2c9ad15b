-- ===== src/Lib.antt =====
-- The growtrics-challenge backend: a learner's request becomes a job, a worker takes the job from a
-- queue through four steps, and the files that the steps made are served.
--
-- The parts and their files:
--   Common         native numbers, lists, text as character codes, sorting, dictionaries.
--   Effects        `Result` for fallible code; `Exec`, a state passed from call to call, for code
--                  that writes: what was written before a raise stays written.
--   Domain         src/app/domain: the vocabularies (Enums), the error catalog (Errors), the id
--                  spine (Ids, with its round trips and patterns below it), the rows (Records), the
--                  output contracts (Contracts), the sealed brief (Briefs), the page cursor
--                  (Cursors), the wire values of the vocabularies (Values).
--   Storage        src/app/storage/memory: the tables (State), one page of a listing (Listing), the
--                  work queue (Queue), the job table (Jobs), the three rows of a submission
--                  (Submission), the principals (Principals), the artifact rows (Artifacts), the
--                  briefs (Briefs), the objects and the keys and uris that all object stores share
--                  (Objects); and the rows of src/app/storage/sql (Rows).
--   Access         src/app/access: the principal that a caller claims to be, and its row.
--   Intake         src/app/intake: the cleaning of a learner's text (Sanitiser), the fence that
--                  quotes it (Fences), the sealed brief (Sealer) and the way back to it from a row
--                  (Stored), the files of a worker from the template pack (Templates, Rendering),
--                  the step of the run (Service).
--   Generation     src/app/generation: the claims of a worker (Manifest), the paths that may be
--                  harvested (Paths), the acceptance of a whole set of claims (Acl), against the
--                  output contract of Domain.Contracts, and the step of the run (Service).
--   Custody        src/app/custody: the sniffing of a container (Candidates), the reading of claimed
--                  files (Harvester), the verdict over a file (Verifier), its bytes and row (Store),
--                  the step of the run and the download of an artifact (Service).
--   Orchestration  src/app/orchestration: the policies of a failure and of progress (Policy), the
--                  ports of the steps (Ports), the run of one claimed item (Runner), one tick of the
--                  two timeouts (Sweeper), admission, submission and the reads of jobs (Service), the
--                  reads of artifacts, over a port (Reads).
--   Pipeline       src/app/composition.py: the steps that the worker's process puts behind the ports
--                  of the run, and custody behind the port of the artifact reads.
--   Worker         src/app/worker.py: one turn of the claim loop.
--   Api            src/app/api: the status and the details of a refusal (Api), the cap on bodies
--                  (Limits), the documents (Views), the routers of jobs and of artifacts with their
--                  dependencies (Jobs, Artifacts), the stream of a job's states (Events).
--   Examples       runs on concrete data.
--
-- A `World` is the database of the in-memory adapters, the object store and the clock. A method of
-- a class is a function on worlds that returns a result beside the next world; an instant is a
-- number of microseconds since the first one, and a duration of n seconds is `seconds n`. An `id` is
-- its text. A dictionary keeps the order of insertion, as in Python.
--
-- The run of an item (Runner) calls the job table for every transition and the steps through
-- `Steps`, a record of operations. Its law `KeepsJobs` says that no step writes the job table.
-- Pipeline fills the record with the steps of Intake, Generation and Custody. A turn of the worker
-- (Worker) claims from the queue and runs what it claimed under the lease; the heartbeats of a turn
-- come before the run in the model.
--
-- The application behind the cap on bodies is any tree of calls of `receive` and `send`. The stream of
-- a job takes the readings of the clock and the reads of the job from outside.
--
-- What is not in the repository is a parameter: `uuid5`, base64, sha256, the ISO form of an instant,
-- the categories of Unicode and its normal form, JSON, `str` and `int` of a value of a document, the
-- files of the template pack, the validation of a JSON document against a model,
-- and the remote backend with the files that it serves. A worker's manifest enters the model as the
-- claims that its parser, a library, has read.
--
-- A submission writes the job, its request and its queue row in one commit; the sweeper and the
-- runner both write a job's row through `apply_transition`, each with the version that it read.
--
-- Loops: a list is walked by structural recursion. The reading of all pages has fuel, one more than
-- there are rows is enough. The chunks of an object have fuel, as much as the object has bytes is
-- enough, since a chunk is not empty. The stream of a job has fuel, one more than the maximal duration
-- has ticks is enough.
--
-- Not modelled: the token that guards the mint of an access scope; signals, asyncio tasks, the
-- naps of the worker and the ticker of the sweeper; the mock backend, a fixture; logging, metrics
-- and tracing; the statements of the SQL adapters, S3 and the file system, whose behaviour is
-- outside the repository; the validation of requests and the routing of FastAPI and pydantic; the
-- scripts.
pub mod Common
pub mod Effects
pub mod Domain
pub mod Storage
pub mod Generation
pub mod Access
pub mod Intake
pub mod Custody
pub mod Orchestration
pub mod Api
pub mod Pipeline
pub mod Worker
pub mod Examples
