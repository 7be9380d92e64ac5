-- ===== src/Lib.antt =====
-- graph_blizz stores documents in workspaces and indexes them for retrieval. A request of the HTTP
-- interface writes the source to an object store and, in one PostgreSQL transaction, the document, its
-- revision and a job. Workers claim jobs under a lease, build the derived data, and complete the job
-- together with the change of the document. This library models the tables and the Python code that
-- moves them, and proves what the parts promise each other.
--
-- Files and code:
-- * Prelude, with its children: lists, texts and results that the parts share. Errors: the exceptions.
-- * Jobs/Models is backend/jobs/models.py; Jobs/Rows is the jobs table of
--   migrations/versions/20260918_0005_create_durable_jobs.py with `_job` of backend/jobs/repository.py;
--   Jobs/Repository is that file, one function of the table for each statement. Its children hold the
--   proofs: Soundness and Changes (the constraints), Order and Claim (claim_next), Lease (heartbeat,
--   succeed, fail, recover_expired), Fencing, Completions (what statements on documents do to jobs), Steps and History (the statements as a step relation).
-- * Documents/Models is backend/documents/models.py; Documents/Db has the tables of documents,
--   revisions, workspaces and jobs with the joins; Documents/Repository is
--   backend/documents/repository.py, whose statements under a lease stand in its child Completion with
--   create_workspace_reindex of backend/jobs/repository.py, and Transitions is about the transitions of
--   a document's status.
-- * Documents/World is one connection with backend/storage/object_store.py, and Documents/SourceService
--   is backend/documents/source_service.py as actions on it.
-- * Parsers/Models, Parsers/TreeSitter, Parsers/Registry and Parsers/Markdown are the files of
--   backend/parsers with those names, Parsers/PlainText is text.py; Parsers/Intervals has the covers of
--   a source by intervals.
-- * Parsers/Sources composes them as the worker parses a stored source.
-- * Indexing/Calls are the calls of LightRAG, Indexing/Versions is backend/index_versions.py,
--   Indexing/Provenance is backend/indexing/provenance.py with what it writes and what it leaves
--   (Written, Leftovers) and the round trip of citations, Indexing/Service is
--   backend/indexing/service.py. Json has the values of the json module.
-- * Security is backend/security; Workspaces/Repository is backend/workspaces/repository.py and
--   Workspaces/Reindex backend/maintenance/reindex.py.
-- * Api is backend/api: Access has the authorization, Uploads the checks of a file, Documents and
--   Workspaces the handlers. Query/Service and Query/Request are backend/query with the handler of
--   backend/api/query.py.
-- * Rag/Registry is backend/rag/runtime_registry.py as events of the event loop; its children show which
--   runtimes it holds (Balance, Events) and how it ends (Shutdown).
-- * Embeddings/Client is backend/embeddings/client.py; a vector is a list of the bits of floats.
-- * Worker/Service is the job processor of backend/worker/service.py; its children show what a job
--   finishes with (Finishing) and what a stale attempt can do (Keeping, Steps, Fence).
-- * Worker/Runner is one round of backend/worker/runner.py over the table of jobs, any store call of which
--   may raise, and Worker/Locks the
--   lock key of its processor.
--
-- The state. A table is a list of rows in no promised order. A statement is a function of the tables
-- that its transaction sees; `now` is the transaction's timestamp, and the identifiers and rows locked
-- by others are arguments. A statement whose result breaks a constraint raises, and what it wrote is
-- not read again. Timestamps are numbers of microseconds; a shift to before the epoch stops at 0.
-- Numbers have no upper bound: Python's have none, and the INTEGER columns hold counts of attempts and
-- revisions. A text that is built or compared is a list of code points, one that is only carried a
-- String.
--
-- Actions. Documents/World/Ensures and Documents/World/Blocks have the rules by which an action is shown
-- to leave a condition when it returns and another when it raises. A call of the database or of the
-- object store raises or not as a function of its number says,
-- and a call that raises has had no effect; a lost answer to a call that took effect is not modelled.
-- Concurrent transactions are sequences of statements; what keeps them apart, the row locks and the
-- advisory locks, is PostgreSQL's.
--
-- Fuel. The decimal digits of n have n + 1 units of fuel and use one for a digit; the cuts at every
-- limit-th token have as many units as there are tokens, and each takes at least one.
--
-- Arguments that stand for libraries: sha256, the UTF-8 codec, `str.lower`, `PurePath.suffix`, and the
-- syntax tree, of which the symbols are given; base 64, json and uuid for citations, LightRAG's
-- identity of a text, its reply to a question, and the floats of an embedding.
--
-- Not modelled: the factory of runtimes and the wiring of the application. While a job is
-- processed no other transaction writes between its statements. The LLM client, what is sent to other servers, configuration,
-- demonstration scripts and the downgrades of the migrations are left out as input and output.
mod Prelude
pub mod Errors
pub mod Jobs
pub mod Documents
pub mod Parsers
pub mod Worker
pub mod Workspaces
pub mod Indexing
pub mod Json
pub mod Security
pub mod Api
pub mod Query
pub mod Rag
pub mod Embeddings
