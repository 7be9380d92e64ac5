-- ===== src/Indexing/Service/Outcomes.antt =====
-- What indexing commits: the tables when it returns, and when it raises.
use graph_blizz.Prelude.{◌≡◌, ◌⊎◌, none, [], ◌∷◌, ◌++◌}
use graph_blizz.Documents.Models.{uploaded, indexing, ready, failed, Document}
use graph_blizz.Documents.Db.{Db}
use graph_blizz.Documents.World.{World}
use graph_blizz.Documents.World.Ensures.{Condition, Ensures}
use graph_blizz.Parsers.Models.{ParsedDocument}
use graph_blizz.Security.Models.{AuthorizedWorkspaceContext}
use graph_blizz.Indexing.Provenance.{code_chunk_documents}
use graph_blizz.Indexing.Provenance.Written.{insertion}
use graph_blizz.Indexing.Service.{Environment, namespace_of}
use graph_blizz.Indexing.Service.Rules.{IsParse}
use graph_blizz.Indexing.Service.Moves.{Repository, IsMove, started_world}

module _ (env : Environment) (repository : Repository) where
  -- After the start: the tables as they were committed, or with the document, INDEXING in them, as FAILED.
  abbrev pub Marked : Document → Db → Condition
  Marked started db =
      λ c k o l. (c ≡ db) ⊎ ((document' : Document) × IsMove started indexing failed db c document')

  module _ (context : AuthorizedWorkspaceContext) where
    -- The started document is READY, after the one call that its parse asks for.
    abbrev pub Ready : World → Document → Document → Condition
    Ready w started document' = λ c k o l.
        (parsed : ParsedDocument) × IsParse env started w.objects parsed
        × IsMove started indexing ready w.working c document'
        × (l
            ≡ w.index_calls
              ++ insertion (namespace_of env.digest context) parsed
                  (code_chunk_documents env.codec started parsed none)
                ∷ [])

    abbrev pub Indexed : World → Document → Document → Condition
    Indexed w document document' = λ c k o l.
        (started : Document) × (db : Db) × IsMove document uploaded indexing w.working db started
        × Ready (started_world w db) started document' c k o l

    abbrev pub NotIndexed : World → Document → Condition
    NotIndexed w document = λ c k o l.
        (c ≡ w.committed)
        ⊎ ((started : Document) × (db : Db) × IsMove document uploaded indexing w.working db started
            × Marked started db c k o l)
