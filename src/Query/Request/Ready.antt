-- ===== src/Query/Request/Ready.antt =====
-- The sources of an answer are READY documents of the workspace.
use mathlib.Core.List.{Memᴰ}
use graph_blizz.Prelude.{
  ℕ, ◌≡◌, refl, true, both_of_and, ==_iff, List, [], ◌∷◌, All, map, mem-filter,
}
use graph_blizz.Documents.Models.{Document, DocumentStatus}
use graph_blizz.Documents.Db.{status_eq}
use graph_blizz.Query.Service.{QuerySource, ready_documents, uncited_source, sources_or_all}
use graph_blizz.Query.Sources.{IsCited}

-- A source names a READY document of the workspace, under its file name.
pub record IsReadySource (workspace_id : ℕ) (documents : List Document) (source : QuerySource)
    : Type 0 where
  pub document : Document
  pub listed : Memᴰ document documents
  pub workspace : document.workspace_id ≡ workspace_id
  pub status : document.status ≡ DocumentStatus.ready
  pub id : source.document_id ≡ document.id
  pub filename : source.filename ≡ document.filename

status_eq-ready :
    (s : DocumentStatus) → status_eq s DocumentStatus.ready ≡ true → s ≡ DocumentStatus.ready
status_eq-ready DocumentStatus.uploaded h = cc
status_eq-ready DocumentStatus.indexing h = cc
status_eq-ready DocumentStatus.ready h = refl
status_eq-ready DocumentStatus.updating h = cc
status_eq-ready DocumentStatus.deleting h = cc
status_eq-ready DocumentStatus.deleted h = cc
status_eq-ready DocumentStatus.failed h = cc

module _ (workspace_id : ℕ) (documents : List Document) where
  listed-IsReadySource :
      (document : Document) (source : QuerySource)
      → Memᴰ document (ready_documents workspace_id documents)
      → source.document_id ≡ document.id
      → source.filename ≡ document.filename
      → IsReadySource workspace_id documents source
  unfolding ready_documents
  listed-IsReadySource document source m id filename =
      let (there, test) = mem-filter _ document documents m in
      let tests = both_of_and _ _ test in
      record {
        document = document;
        listed = there;
        workspace = (==_iff document.workspace_id workspace_id).0 tests.0;
        status = status_eq-ready document.status tests.1;
        id = id;
        filename = filename;
      }

  cited-IsReadySource :
      (sources : List QuerySource)
      → All (IsCited (ready_documents workspace_id documents)) sources
      → All (IsReadySource workspace_id documents) sources
  cited-IsReadySource [] all = tt
  cited-IsReadySource (s ∷ sources) all = (
    listed-IsReadySource all.0.document s all.0.listed all.0.id all.0.filename,
    cited-IsReadySource sources all.1,
  )

  uncited-IsReadySource :
      (listed : List Document)
      → ((d : Document) → Memᴰ d listed → Memᴰ d (ready_documents workspace_id documents))
      → All (IsReadySource workspace_id documents) (map uncited_source listed)
  uncited-IsReadySource [] there = tt
  uncited-IsReadySource (d ∷ listed) there = (
    listed-IsReadySource d (uncited_source d) (there d (Memᴰ.head refl)) refl refl,
    uncited-IsReadySource listed (λ e m. there e (Memᴰ.tail m)),
  )

  pub sources_or_all-IsReadySource :
      (sources : List QuerySource)
      → All (IsCited (ready_documents workspace_id documents)) sources
      → All
          (IsReadySource workspace_id documents)
          (sources_or_all (ready_documents workspace_id documents) sources)
  sources_or_all-IsReadySource [] all =
      uncited-IsReadySource (ready_documents workspace_id documents) (λ d m. m)
  sources_or_all-IsReadySource (s ∷ sources) all = cited-IsReadySource (s ∷ sources) all
