-- ===== src/Query/Sources.antt =====
-- The sources of an answer: which documents they name, and that none stands twice.
use mathlib.Core.List.{Memᴰ, reverse_aux}
use graph_blizz.Prelude.{
  ℕ, ◌≡◌, refl, subst, Bool, true, false, ◌&&◌, Bool-cases, inl, inr, Option, none, some, List, [],
  ◌∷◌, codes, All, any, find?, reverse, ok, >>=-eq-ok, if◌then◌else◌,
}
use graph_blizz.Json.{
  Json, null, boolean, integer, real, text, array, object, Fields, field_or_null,
}
use graph_blizz.Documents.Models.{Document}
use graph_blizz.Indexing.Provenance.{Codec, decode_chunk_provenance}
use graph_blizz.Query.Service.{
  QuerySource, is_revision, has_hash, same_source, ready_document, source_of, cited_document, cited,
  id_of, kept, cited_by, add_chunk, add_chunks, retrieved_chunks, retrieved_sources,
}

-- A source names a document of the list, under its file name, at its active revision.
pub record IsCited (documents : List Document) (source : QuerySource) : Type 0 where
  pub document : Document
  pub listed : Memᴰ document documents
  pub id : source.document_id ≡ document.id
  pub filename : source.filename ≡ document.filename
  pub revision : is_revision document.active_revision source.revision ≡ true

-- No two sources of the list have the same document, revision and lines.
abbrev pub Distinct : List QuerySource → Type 0
Distinct [] = Unit
Distinct (source ∷ sources) = (any (same_source source) sources ≡ false) × Distinct sources

find?-mem :
    {A : Type 0} (test : A → Bool) (xs : List A) (a : A) → find? test xs ≡ some a → Memᴰ a xs
unfolding find?
find?-mem test [] a h = cc
find?-mem test (x ∷ xs) a h = elim (Bool-cases (test x)) [
  | inl e ↦ let same : a ≡ x = cc (rw e at h) in Memᴰ.head same
  | inr e ↦ Memᴰ.tail (find?-mem test xs a (rw e at h))
]

module _ (codec : Codec) (documents : List Document) where
  source_of-IsCited :
      (document : Document) (provenance : Fields) (source : QuerySource)
      → Memᴰ document documents
      → (if is_revision document.active_revision (field_or_null (codes "revision") provenance)
          then some (source_of document provenance)
          else none)
        ≡ some source
      → IsCited documents source
  source_of-IsCited document provenance source there h =
      elim (Bool-cases
        (is_revision document.active_revision (field_or_null (codes "revision") provenance))) [
          | inl current ↦
              let same : source_of document provenance ≡ source = cc (rw current at h) in
              subst (IsCited documents) same (record {
                document = document;
                listed = there;
                id = refl;
                filename = refl;
                revision = current;
              })
          | inr other ↦ absurd (cc (rw other at h))
        ]

  cited_document-IsCited :
      (provenance : Fields) (found : Option Document) (source : QuerySource)
      → ((d : Document) → found ≡ some d → Memᴰ d documents)
      → cited_document provenance found ≡ some source
      → IsCited documents source
  cited_document-IsCited provenance none source listed h = cc
  cited_document-IsCited provenance (some document) source listed h =
      source_of-IsCited document provenance source (listed document refl) h

  cited-IsCited :
      (document_id : Option ℕ) (provenance : Fields) (source : QuerySource)
      → cited documents document_id provenance ≡ some source
      → IsCited documents source
  unfolding cited ready_document
  cited-IsCited none provenance source h = cc
  cited-IsCited (some document_id) provenance source h =
      cited_document-IsCited provenance (ready_document document_id documents) source
        (find?-mem _ documents) h

  cited_by-IsCited :
      (provenance : Option Fields) (source : QuerySource)
      → cited_by codec documents provenance ≡ some source
      → IsCited documents source
  cited_by-IsCited none source h = cc
  cited_by-IsCited (some provenance) source h =
      cited-IsCited (id_of codec (field_or_null (codes "document_id") provenance)) provenance source
        h

  unchanged :
      (found found' : List QuerySource)
      → All (IsCited documents) found
      → Distinct found
      → kept found none ≡ ok found'
      → All (IsCited documents) found' × Distinct found'
  unfolding kept
  unchanged found found' all apart h =
      let same : found ≡ found' = cc h in
      (subst (All (IsCited documents)) same all, subst Distinct same apart)

  kept-good :
      (found found' : List QuerySource) (source : Option QuerySource)
      → ((s : QuerySource) → source ≡ some s → IsCited documents s)
      → All (IsCited documents) found
      → Distinct found
      → kept found source ≡ ok found'
      → All (IsCited documents) found' × Distinct found'
  unfolding kept
  kept-good found found' none good all apart h = unchanged found found' all apart h
  kept-good found found' (some s) good all apart h =
      elim (Bool-cases (has_hash s.start_line && has_hash s.end_line)) [
        | inr bad ↦ absurd (cc (rw bad at h))
        | inl fine ↦ elim (Bool-cases (any (same_source s) found)) [
          | inl seen ↦
              let same : found ≡ found' = cc (rw (fine, seen) at h) in
              (subst (All (IsCited documents)) same all, subst Distinct same apart)
          | inr fresh ↦
              let same : s ∷ found ≡ found' = cc (rw (fine, fresh) at h) in
              (
                subst (All (IsCited documents)) same (good s refl, all),
                subst Distinct same (fresh, apart),
              )
        ]
      ]

  add_chunk-good :
      (found found' : List QuerySource) (chunk : Json)
      → All (IsCited documents) found
      → Distinct found
      → add_chunk codec documents found chunk ≡ ok found'
      → All (IsCited documents) found' × Distinct found'
  unfolding add_chunk kept
  add_chunk-good found found' (object chunk) all apart h =
      let (provenance, decoded, rest) =
        >>=-eq-ok (decode_chunk_provenance codec (field_or_null (codes "file_path") chunk))
          (λ p. kept found (cited_by codec documents p)) h in
      kept-good found found' (cited_by codec documents provenance) (cited_by-IsCited provenance) all
        apart rest
  add_chunk-good found found' null all apart h = unchanged found found' all apart h
  add_chunk-good found found' (boolean b) all apart h = unchanged found found' all apart h
  add_chunk-good found found' (integer n) all apart h = unchanged found found' all apart h
  add_chunk-good found found' (real n bits) all apart h = unchanged found found' all apart h
  add_chunk-good found found' (text t) all apart h = unchanged found found' all apart h
  add_chunk-good found found' (array items) all apart h = unchanged found found' all apart h

  add_chunks-good :
      (found found' : List QuerySource) (chunks : List Json)
      → All (IsCited documents) found
      → Distinct found
      → add_chunks codec documents found chunks ≡ ok found'
      → All (IsCited documents) found' × Distinct found'
  unfolding add_chunks kept
  add_chunks-good found found' [] all apart h = unchanged found found' all apart h
  add_chunks-good found found' (chunk ∷ chunks) all apart h =
      let (next, first, rest) =
        >>=-eq-ok (add_chunk codec documents found chunk) (λ f. add_chunks codec documents f chunks)
          h in
      let good = add_chunk-good found next chunk all apart first in
      add_chunks-good next found' chunks good.0 good.1 rest

-- Each source of the list differs from those before it; `earlier` stand before the list.
abbrev pub Fresh : (earlier : List QuerySource) → List QuerySource → Type 0
Fresh earlier [] = Unit
Fresh earlier (source ∷ sources) =
    (any (same_source source) earlier ≡ false) × Fresh (source ∷ earlier) sources

Fresh-reverse :
    (found later : List QuerySource)
    → Distinct found
    → Fresh found later
    → Fresh [] (reverse_aux found later)
Fresh-reverse [] later apart fresh = fresh
Fresh-reverse (s ∷ found) later apart fresh =
    Fresh-reverse found (s ∷ later) apart.1 (apart.0, fresh)

All-reverse :
    (P : QuerySource → Type 0) (found later : List QuerySource)
    → All P found
    → All P later
    → All P (reverse_aux found later)
All-reverse P [] later all rest = rest
All-reverse P (s ∷ found) later all rest = All-reverse P found (s ∷ later) all.1 (all.0, rest)

-- Whatever LightRAG returns, if its sources can be read, each names a document of the list, under its
-- file name and at its active revision, and each differs from those before it in the document, the
-- revision or the lines.
pub retrieved_sources_lem :
    (codec : Codec) (documents : List Document) (retrieval : Json) (sources : List QuerySource)
    → retrieved_sources codec documents retrieval ≡ ok sources
    → All (IsCited documents) sources × Fresh [] sources
unfolding retrieved_sources
retrieved_sources_lem codec documents retrieval sources h =
    let (found, loop, last) =
      >>=-eq-ok (add_chunks codec documents [] (retrieved_chunks retrieval)) (λ f. ok (reverse f))
        h in
    let good = add_chunks-good codec documents [] found (retrieved_chunks retrieval) tt tt loop in
    let same : reverse_aux found [] ≡ sources = cc last in
    (
      subst (All (IsCited documents)) same (All-reverse (IsCited documents) found [] good.0 tt),
      subst (Fresh []) same (Fresh-reverse found [] good.1 tt),
    )
