-- ===== src/Worker/Service/Steps.antt =====
-- The steps of processing that touch neither documents nor jobs.
use graph_blizz.Prelude.{
  ℕ, ◌∙◌, Bool, true, false, Option, none, some, List, [], ◌∷◌, Text, Result, ok, err,
}
use graph_blizz.Errors.{Exn}
use graph_blizz.Jobs.Repository.{Jobs}
use graph_blizz.Documents.Models.{Document}
use graph_blizz.Documents.Db.{DocumentRow}
use graph_blizz.Documents.World.{statement_at}
use graph_blizz.Indexing.Provenance.{
  Codec, ContentId, CodeDocuments, code_chunk_documents, delete_all, delete_documents,
  delete_indexed_document, insert_documents, insert_parsed_document,
}
use graph_blizz.Indexing.Service.{Environment, lifted, get_runtime, parse_stored}
use graph_blizz.Parsers.Models.{ParsedDocument}
use graph_blizz.Security.Models.{AuthorizedWorkspaceContext}
use graph_blizz.Workspaces.Repository.{ensure_index_contract, get_workspace}
use graph_blizz.Worker.Service.{Settings, demand}
use graph_blizz.Worker.Service.Keeping.{
  Kept, Keeps, >>=-Keeps, return-Keeps, raise-Keeps, statement-Keeps, required-Keeps,
  with_connection-Keeps, ensure_found-kept, keeping,
}

module _ (documents : List DocumentRow) (jobs : Jobs) where
  delete_all-Keeps :
      (namespace : Text) (ids : List Text) → Keeps documents jobs (delete_all namespace ids)
  unfolding delete_all
  delete_all-Keeps namespace [] = search keeping
  delete_all-Keeps namespace (id ∷ ids) =
      >>=-Keeps documents jobs _ _ (search keeping) (λ u. delete_all-Keeps namespace ids)

  delete_documents-Keeps :
      (content_id : ContentId) (namespace : Text) (parsed : ParsedDocument)
      (found : Option CodeDocuments)
      → Keeps documents jobs (delete_documents content_id namespace parsed found)
  unfolding delete_documents
  delete_documents-Keeps content_id namespace parsed none = search keeping
  delete_documents-Keeps content_id namespace parsed (some (contents, ids, citations)) =
      delete_all-Keeps namespace ids

  pub delete_indexed_document-Keeps :
      (codec : Codec) (content_id : ContentId) (namespace : Text) (document : Document)
      (parsed : ParsedDocument)
      → Keeps documents jobs (delete_indexed_document codec content_id namespace document parsed)
  unfolding delete_indexed_document
  delete_indexed_document-Keeps codec content_id namespace document parsed =
      delete_documents-Keeps content_id namespace parsed
        (code_chunk_documents codec document parsed none)

  insert_documents-Keeps :
      (namespace : Text) (parsed : ParsedDocument) (found : Option CodeDocuments)
      → Keeps documents jobs (insert_documents namespace parsed found)
  unfolding insert_documents
  insert_documents-Keeps namespace parsed none = search keeping
  insert_documents-Keeps namespace parsed (some (contents, ids, citations)) = search keeping

  pub insert_parsed_document-Keeps :
      (codec : Codec) (namespace : Text) (document : Document) (parsed : ParsedDocument)
      (revision : Option ℕ)
      → Keeps documents jobs (insert_parsed_document codec namespace document parsed revision)
  unfolding insert_parsed_document
  insert_parsed_document-Keeps codec namespace document parsed revision =
      insert_documents-Keeps namespace parsed (code_chunk_documents codec document parsed revision)

  lifted-Keeps : {A : Type 0} (r : Result Exn A) → Keeps documents jobs (lifted r)
  unfolding lifted
  lifted-Keeps (ok a) = search keeping
  lifted-Keeps (err e) = search keeping

  pub parse_stored-Keeps :
      (env : Environment) (document : Document) → Keeps documents jobs (parse_stored env document)
  unfolding parse_stored
  parse_stored-Keeps env document = search (keeping, lifted-Keeps)

  pub get_runtime-Keeps :
      (env : Environment) (context : AuthorizedWorkspaceContext)
      → Keeps documents jobs (get_runtime env context)
  unfolding get_runtime
  get_runtime-Keeps env context = search keeping

  pub demand-Keeps : (test : Bool) (e : Exn) → Keeps documents jobs (demand test e)
  demand-Keeps true e = search keeping
  demand-Keeps false e = search keeping

  pub ensure_index_contract-Keeps :
      (env : Environment) (settings : Settings) (workspace_id : ℕ)
      → Keeps documents jobs
          (statement_at env.clock (λ now. ensure_index_contract settings.contract now workspace_id))
  unfolding ensure_index_contract
  ensure_index_contract-Keeps env settings workspace_id =
      statement-Keeps documents jobs env.clock _ (λ now k db a d j e.
        let kept =
          ensure_found-kept settings.contract now k db (get_workspace workspace_id k) a e in
        (kept.0 ∙ d, kept.1 ∙ j))

pub ruleset working = (
  keeping, delete_indexed_document-Keeps, insert_parsed_document-Keeps, parse_stored-Keeps,
  get_runtime-Keeps, demand-Keeps, ensure_index_contract-Keeps,
)
