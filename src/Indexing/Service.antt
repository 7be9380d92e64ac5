-- ===== src/Indexing/Service.antt =====
-- backend/indexing/service.py: one uploaded document, from its stored source to the index.
-- The repository's `transition_status` is an argument: the worker gives one that is fenced by its lease.
pub mod Rules
pub mod Moves
pub mod Outcomes
use graph_blizz.Prelude.{
  ℕ, Bool, true, false, not, Option, none, some, List, ◌++◌, ◌∷◌, String, Text, ◌==◌, if◌then◌else◌,
  Result, ok, err,
}
use graph_blizz.Errors.{Exn, value_error, document_state_transition}
use graph_blizz.Documents.Models.{DocumentStatus, uploaded, indexing, ready, failed, Document}
use graph_blizz.Documents.Db.{Db}
use graph_blizz.Documents.World.{
  World, Faults, Action, return, raise, ◌>>=◌, statement_at, commit, outside, get_uri, try_except,
}
use graph_blizz.Documents.SourceService.{required}
use graph_blizz.Parsers.Models.{ParsedDocument}
use graph_blizz.Parsers.Sources.{Tools, parse_source}
use graph_blizz.Security.Models.{AuthorizedWorkspaceContext}
use graph_blizz.Indexing.Versions.{IndexContract, namespace_suffix}
use graph_blizz.Indexing.Provenance.{Codec, ContentId, insert_parsed_document}

-- What the indexing of a source takes from outside: the parsers, the codecs of citations, LightRAG's
-- identities, sha256 of a profile, the bucket, and the timestamps of the transactions.
pub record Environment : Type 0 where
  pub tools : Tools
  pub codec : Codec
  pub content_id : ContentId
  pub digest : Text → Text
  pub bucket : Text
  pub clock : ℕ → ℕ

-- `transition_status` of a repository, at a timestamp.
abbrev pub Transition : Type 0
Transition =
    (workspace_id document_id : ℕ) (from_status to_status : DocumentStatus) (now : ℕ)
    → Db
    → Result Exn (Db × Option Document)

-- A result of code that only computes.
unfoldable pub lifted : {A : Type 0} → Result Exn A → Action A
lifted (ok a) = return a
lifted (err e) = raise e

-- The namespace of the runtime that the registry opens for a context.
unfoldable pub namespace_of : (digest : Text → Text) → AuthorizedWorkspaceContext → Text
unfolding namespace_suffix
namespace_of digest context = elim context.embedding_profile [
  | none ↦ context.storage_key
  | some profile ↦
      context.storage_key
      ++ (95
          ∷ namespace_suffix digest (record {
            index_schema_version = context.index_schema_version;
            embedding_profile = profile;
          }))
]

-- `runtimes.get`
unfoldable pub get_runtime : Environment → AuthorizedWorkspaceContext → Action Text
get_runtime env context = do _ ← outside; return (namespace_of env.digest context)

-- `sources.read(document).decode("utf-8")`, `get_parser` and `parser.parse`.
unfoldable pub parse_stored : Environment → Document → Action ParsedDocument
parse_stored env document = do
  source ← get_uri env.bucket document.object_uri
  lifted (parse_source env.tools document.source_type document.filename source)

-- `_transition`
unfoldable pub move :
    Environment → Transition → Document → (from_status to_status : DocumentStatus) → Action Document
move env transition document from_status to_status = do
  moved ←
      statement_at env.clock (transition document.workspace_id document.id from_status to_status)
  document' ← required moved document_state_transition
  _ ← commit
  return document'

abbrev pub swallowed : {A : Type 0} → Result Exn A × World → Result Exn (Unit {0}) × World
swallowed r = (ok tt, r.1)

-- `_mark_failed`: what the transition raises is dropped.
unfoldable pub mark_failed : Environment → Transition → Document → Action (Unit {0})
mark_failed env transition document faults w =
    swallowed (move env transition document indexing failed faults w)

-- The block under `try`.
unfoldable pub index_started :
    Environment → Transition → AuthorizedWorkspaceContext → Document → Action Document
index_started env transition context document = do
  parsed ← parse_stored env document
  namespace ← get_runtime env context
  _ ← insert_parsed_document env.codec namespace document parsed none
  move env transition document indexing ready

unfoldable pub index :
    Environment → Transition → AuthorizedWorkspaceContext → Document → Action Document
index env transition context document =
    if not (document.workspace_id == context.workspace_id) then raise value_error else do
      started ← move env transition document uploaded indexing
      try_except (index_started env transition context started) (mark_failed env transition started)
