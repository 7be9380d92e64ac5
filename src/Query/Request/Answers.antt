-- ===== src/Query/Request/Answers.antt =====
-- What a query answers with, whichever calls raise.
use graph_blizz.Prelude.{
  ℕ, suc, ◌≡◌, refl, sym, subst, ap, ◌∙◌, Bool-cases, inl, inr, false, Option, none, some, List, [],
  Text, strip, is_empty, All, map, Result, ok, err, >>=-eq-ok,
}
use graph_blizz.Errors.{Exn, value_error}
use graph_blizz.Json.{text}
use graph_blizz.Indexing.Provenance.Written.{Called, Called-start}
use graph_blizz.Indexing.Service.{Environment, lifted, namespace_of, get_runtime}
use graph_blizz.Indexing.Service.Rules.{lifted-Ensures, get_runtime-Ensures}
use graph_blizz.Documents.Models.{Document}
use graph_blizz.Documents.Db.{Db}
use graph_blizz.Documents.Repository.{list_documents}
use graph_blizz.Documents.World.{
  World, Faults, ◌>>=◌, return, call, statement, statement_at, outside,
}
use graph_blizz.Documents.World.Ensures.{
  Outcome, Ensures, bind, weaken, raises, states, passes, given,
}
use graph_blizz.Security.Models.{AuthorizedWorkspaceContext}
use graph_blizz.Query.Service.{
  QuerySource, QueryResult, Reply, answered, add_chunks, text_answer, answer_of, retrieval_of,
  retrieved_sources, ready_documents, uncited_source, sources_or_all, result_of,
}
use graph_blizz.Query.Sources.{retrieved_sources_lem}
use graph_blizz.Query.Request.{query}
use mathlib.Core.List.{Memᴰ}
use graph_blizz.Documents.Models.{DocumentStatus, DocumentRevision}
use graph_blizz.Documents.Db.{DocumentRow, document_of, shown_row}
use graph_blizz.Query.Request.Listed.{ready_documents-mem}
use graph_blizz.Query.Request.Ready.{IsReadySource, sources_or_all-IsReadySource}

-- What the answer to a query is: of the workspace of the context, with the text of LightRAG's reply in
-- the namespace of the context to the stripped question, and with sources that are READY documents.
pub record IsAnswer (env : Environment) (rag : (namespace query : Text) → Reply)
    (context : AuthorizedWorkspaceContext) (question : Text) (db : Db) (result : QueryResult)
    : Type 0 where
  pub workspace : result.workspace_id ≡ context.workspace_id
  pub answer :
      text_answer (answer_of (rag (namespace_of env.digest context) (strip question)))
      ≡ ok result.answer
  pub sources :
      All
        (IsReadySource context.workspace_id (list_documents context.workspace_id db))
        result.sources

module _ (env : Environment) (rag : (namespace query : Text) → Reply) (request_id : ℕ)
    (context : AuthorizedWorkspaceContext) (question : Text) where
  answer_with : (answer : Text) → List Document → List QuerySource → QueryResult
  answer_with answer documents sources = record {
    answer = answer;
    workspace_id = context.workspace_id;
    request_id = request_id;
    sources = sources_or_all (ready_documents context.workspace_id documents) sources;
  }

  result_of-IsAnswer :
      (db : Db) (answer : Text) (namespace : Text) (result : QueryResult)
      → namespace_of env.digest context ≡ namespace
      → text_answer (answer_of (rag namespace (strip question))) ≡ ok answer
      → result_of env.codec request_id context.workspace_id
          (rag namespace (strip question))
          answer
          (list_documents context.workspace_id db)
        ≡ ok result
      → IsAnswer env rag context question db result
  unfolding result_of answer_with
  result_of-IsAnswer db answer namespace result same reply h =
      let documents = list_documents context.workspace_id db in
      let (sources, found, last) =
        >>=-eq-ok
          (retrieved_sources env.codec (ready_documents context.workspace_id documents)
            (retrieval_of (rag namespace (strip question))))
          (λ sources. ok (answer_with answer documents sources)) h in
      let built : answer_with answer documents sources ≡ result = cc last in
      let good =
        retrieved_sources_lem env.codec (ready_documents context.workspace_id documents) _ sources
          found in
      subst (IsAnswer env rag context question db) built (record {
        workspace = refl;
        answer =
            subst (λ t. text_answer (answer_of (rag t (strip question))) ≡ ok answer) (sym same)
              reply;
        sources = sources_or_all-IsReadySource context.workspace_id documents sources good.0;
      })

  reads_documents :
      (w : World)
      → Ensures
          (Called w [])
          (statement (λ db. ok (db, list_documents context.workspace_id db)))
          (λ documents c k o l.
            Called w [] c k o l × (documents ≡ list_documents context.workspace_id w.working))
          (Called w [])
  unfolding statement_at
  reads_documents w =
      states (λ n. 0) (λ now db. ok (db, list_documents context.workspace_id db))
        (λ now c k o l db documents h e.
          let same : k ≡ db = cc e in
          let listed : list_documents context.workspace_id k ≡ documents = cc e in
          (
            subst (λ t. Called w [] c t o l) same h,
            sym listed ∙ ap (list_documents context.workspace_id) h.1,
          ))

  answered-Ensures :
      (w : World)
      → Ensures
          (Called w [])
          (get_runtime env context >>= λ namespace. outside >>= λ u.
            lifted (text_answer (answer_of (rag namespace (strip question)))) >>= λ answer.
            statement (λ db. ok (db, list_documents context.workspace_id db)) >>= λ documents.
            lifted (
              result_of env.codec request_id context.workspace_id
                (rag namespace (strip question))
                answer
                documents))
          (λ result c k o l.
            Called w [] c k o l × IsAnswer env rag context question w.working result)
          (Called w [])
  answered-Ensures w =
      bind
        (λ namespace c k o l. Called w [] c k o l × (namespace_of env.digest context ≡ namespace))
        (get_runtime-Ensures env context)
        (λ namespace. given (λ same.
          bind (λ u. Called w []) passes
            (λ u.
              bind
                (λ answer c k o l.
                  Called w [] c k o l
                  × (text_answer (answer_of (rag namespace (strip question))) ≡ ok answer))
                (lifted-Ensures (text_answer (answer_of (rag namespace (strip question)))))
                (λ answer. given (λ reply.
                  bind
                    (λ documents c k o l.
                      Called w [] c k o l
                      × (documents ≡ list_documents context.workspace_id w.working))
                    (reads_documents w)
                    (λ documents. given (λ listed.
                      weaken (λ c k o l h. h)
                        (λ result c k o l h. (
                          h.0,
                          result_of-IsAnswer w.working answer namespace result same reply (
                              subst
                                (λ t.
                                  result_of env.codec request_id context.workspace_id
                                    (rag namespace (strip question)) answer t
                                  ≡ ok result)
                                listed h.1),
                        ))
                        (λ c k o l h. h)
                        (lifted-Ensures (
                          result_of env.codec request_id context.workspace_id
                            (rag namespace (strip question)) answer documents)))))))))

  query-Ensures :
      (w : World)
      → Ensures
          (Called w [])
          (query env rag request_id context question)
          (λ result c k o l.
            Called w [] c k o l × IsAnswer env rag context question w.working result)
          (Called w [])
  unfolding query
  query-Ensures w = elim (Bool-cases (is_empty (strip question))) [
    | inl empty ↦ rw empty (raises value_error)
    | inr full ↦ rw full (answered-Ensures w)
  ]

-- Whichever calls raise: when a query returns, its result is of the workspace of the context, its
-- answer is the text that LightRAG replied in the namespace of that workspace to the stripped question,
-- and each source names a READY document of the workspace under its file name. Whether it returns or
-- raises, the tables, the objects and the index are as they were.
pub query_lem :
    (env : Environment) (rag : (namespace query : Text) → Reply) (request_id : ℕ)
    (context : AuthorizedWorkspaceContext) (question : Text) (faults : Faults) (w : World)
    → Outcome
        (λ result c k o l. Called w [] c k o l × IsAnswer env rag context question w.working result)
        (Called w [])
        (query env rag request_id context question faults w)
query_lem env rag request_id context question faults w =
    (query-Ensures env rag request_id context question w).run faults w (Called-start w)

-- The value of a run that returned.
abbrev pub ok_value : {A : Type 0} → Result Exn A × World → Option A
ok_value (ok a, w) = some a
ok_value (err e, w) = none

-- A query that LightRAG answers with a text alone.
query_value :
    (env : Environment) (rag : (namespace query : Text) → Reply) (request_id : ℕ)
    (context : AuthorizedWorkspaceContext) (question reply : Text) (faults : Faults) (w : World)
    → ((n : ℕ) → faults n ≡ none)
    → is_empty (strip question) ≡ false
    → rag (namespace_of env.digest context) (strip question) ≡ answered (text reply)
    → ok_value (query env rag request_id context question faults w)
      ≡ some (record {
        answer = reply;
        workspace_id = context.workspace_id;
        request_id = request_id;
        sources =
            map uncited_source (
              ready_documents context.workspace_id (list_documents context.workspace_id w.working));
      })
unfolding query result_of retrieved_sources add_chunks ◌>>=◌ lifted get_runtime outside call
    statement return
query_value env rag request_id context question reply faults w quiet asked replied =
    rw (asked, quiet w.calls, quiet (suc w.calls), replied, quiet (suc (suc w.calls))) refl

-- If no call raises, the question is not blank and LightRAG replies to it in the namespace of the
-- workspace with a text alone, the query returns that text. Every row of the workspace that is READY and
-- has a revision to show is among its sources, under its identifier and file name and without a
-- citation, and each source names a READY document of the workspace.
pub query-answered :
    (env : Environment) (rag : (namespace query : Text) → Reply) (request_id : ℕ)
    (context : AuthorizedWorkspaceContext) (question reply : Text) (faults : Faults) (w : World)
    (d : DocumentRow) (r : DocumentRevision)
    → ((n : ℕ) → faults n ≡ none)
    → is_empty (strip question) ≡ false
    → rag (namespace_of env.digest context) (strip question) ≡ answered (text reply)
    → Memᴰ d w.working.documents
    → d.workspace_id ≡ context.workspace_id
    → d.status ≡ DocumentStatus.ready
    → shown_row d w.working.revisions ≡ some r
    → (result : QueryResult) × (ok_value (query env rag request_id context question faults w)
        ≡ some result)
      × (result.answer ≡ reply)
      × Memᴰ (uncited_source (document_of d r)) result.sources
      × All
          (IsReadySource context.workspace_id (list_documents context.workspace_id w.working))
          result.sources
query-answered env rag request_id context question reply faults w d r quiet asked replied there here
      status shown =
    (
      _,
      query_value env rag request_id context question reply faults w quiet asked replied,
      refl,
      ready_documents-mem context.workspace_id w.working d r there here status shown,
      sources_or_all-IsReadySource context.workspace_id
          (list_documents context.workspace_id w.working) [] tt,
    )
