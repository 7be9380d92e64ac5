-- ===== src/Query/Request.antt =====
-- backend/query/service.py, the query of one workspace, and backend/api/query.py, its handler.
pub mod Ready
pub mod Listed
pub mod Answers
use graph_blizz.Prelude.{
  ℕ, Bool, Option, none, some, List, Text, strip, is_empty, if◌then◌else◌, Result, ok, err,
}
use graph_blizz.Errors.{Exn, value_error, cancelled_error, http_error}
use graph_blizz.Documents.World.{World, Action, raise, ◌>>=◌, statement, outside, with_connection}
use graph_blizz.Documents.Repository.{list_documents}
use graph_blizz.Security.Models.{query_execute, AuthorizedWorkspaceContext}
use graph_blizz.Indexing.Service.{Environment, lifted, get_runtime}
use graph_blizz.Query.Service.{Reply, QueryResult, text_answer, answer_of, result_of}
use graph_blizz.Api.Access.{Access, authorized}
use graph_blizz.Api.Documents.{catching}

-- `query`; `rag` answers for a namespace and a text.
unfoldable pub query :
    Environment
    → (rag : (namespace query : Text) → Reply) (request_id : ℕ) → AuthorizedWorkspaceContext
    → Text
    → Action QueryResult
query env rag request_id context question =
    if is_empty (strip question) then raise value_error else do
      namespace ← get_runtime env context
      _ ← outside
      answer ← lifted (text_answer (answer_of (rag namespace (strip question))))
      documents ← statement (λ db. ok (db, list_documents context.workspace_id db))
      lifted (
          result_of env.codec request_id context.workspace_id (rag namespace (strip question))
            answer documents)

-- `except Exception`: every error but a cancellation is answered with 502.
abbrev pub query_error : Exn → Exn
query_error cancelled_error = cancelled_error
query_error e = http_error 502

-- `query_workspace`
unfoldable pub query_workspace :
    Access
    → Environment
    → (rag : (namespace query : Text) → Reply) (request_id workspace_id : ℕ) → Text
    → Action QueryResult
query_workspace access env rag request_id workspace_id question = with_connection (do
  context ← authorized access workspace_id query_execute
  catching query_error (query env rag request_id context question))
