-- ===== src/Indexing/Service/Rules.antt =====
-- What the steps of indexing ensure: the parse of a stored source and the opening of a runtime.
use graph_blizz.Prelude.{ℕ, ◌≡◌, refl, Option, none, some, List, Text, Result, ok, err}
use graph_blizz.Errors.{Exn}
use graph_blizz.Documents.Models.{Document}
use graph_blizz.Documents.World.Ensures.{Condition, Ensures, bind, weaken, returns, raises, passes}
use graph_blizz.Documents.World.Blocks.{IsStored, reads}
use graph_blizz.Documents.SourceService.{required}
use graph_blizz.Parsers.Models.{ParsedDocument}
use graph_blizz.Parsers.Sources.{parse_source}
use graph_blizz.Security.Models.{AuthorizedWorkspaceContext}
use graph_blizz.Indexing.Service.{Environment, lifted, namespace_of, get_runtime, parse_stored}

pub required-Ensures :
    {A : Type 0} {Pre : Condition} (a : Option A) (e : Exn)
    → Ensures Pre (required a e) (λ x c k o l. Pre c k o l × (a ≡ some x)) Pre
unfolding required
required-Ensures none e = raises e
required-Ensures (some a) e =
    weaken (λ c k o l h. (h, refl)) (λ x c k o l h. h) (λ c k o l h. h) (returns a)

pub lifted-Ensures :
    {A : Type 0} {Pre : Condition} (r : Result Exn A)
    → Ensures Pre (lifted r) (λ x c k o l. Pre c k o l × (r ≡ ok x)) Pre
unfolding lifted
lifted-Ensures (ok a) =
    weaken (λ c k o l h. (h, refl)) (λ x c k o l h. h) (λ c k o l h. h) (returns a)
lifted-Ensures (err e) = raises e

-- The parse of the stored source of a document.
abbrev pub IsParse : Environment → Document → List (Text × List ℕ) → ParsedDocument → Type 0
IsParse env document objects parsed =
    (source : List ℕ) × IsStored env.bucket document.object_uri objects source
    × (parse_source env.tools document.source_type document.filename source ≡ ok parsed)

pub parse_stored-Ensures :
    {Pre : Condition} (env : Environment) (document : Document)
    → Ensures Pre
        (parse_stored env document)
        (λ parsed c k o l. Pre c k o l × IsParse env document o parsed)
        Pre
unfolding parse_stored
parse_stored-Ensures {Pre} env document =
    bind (λ source c k o l. Pre c k o l × IsStored env.bucket document.object_uri o source)
      (reads env.bucket document.object_uri)
      (λ source.
        weaken (λ c k o l h. h) (λ parsed c k o l h. (h.0.0, (source, h.0.1, h.1)))
          (λ c k o l h. h.0)
          (lifted-Ensures
            {Pre = λ c k o l. Pre c k o l × IsStored env.bucket document.object_uri o source}
            (parse_source env.tools document.source_type document.filename source)))

pub get_runtime-Ensures :
    {Pre : Condition} (env : Environment) (context : AuthorizedWorkspaceContext)
    → Ensures Pre
        (get_runtime env context)
        (λ namespace c k o l. Pre c k o l × (namespace_of env.digest context ≡ namespace))
        Pre
unfolding get_runtime
get_runtime-Ensures {Pre} env context =
    bind (λ u. Pre) passes
      (λ u.
        weaken (λ c k o l h. (h, refl)) (λ n c k o l h. h) (λ c k o l h. h)
          (returns (namespace_of env.digest context)))
