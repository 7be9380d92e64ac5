-- ===== src/Api/Access/Denied.antt =====
-- A request that is not authorized.
use graph_blizz.Prelude.{
  ℕ, ◌≡◌, refl, subst, ◌∙◌, ◌⊎◌, inl, inr, Option, none, some, [], ◌++◌, Result, ok, err,
}
use graph_blizz.Errors.{Exn, http_error}
use graph_blizz.Documents.Db.{Db, WorkspaceRow}
use graph_blizz.Documents.World.{World, Faults, Action, ◌>>=◌, call, with_connection}
use graph_blizz.Documents.World.Ensures.{
  Condition, Outcome, Ensures, bind, weaken, unless-Outcome, given,
}
use graph_blizz.Documents.World.Blocks.{connects}
use graph_blizz.Indexing.Provenance.Written.{Called, Called-start}
use graph_blizz.Indexing.Service.Rules.{required-Ensures, lifted-Ensures}
use graph_blizz.Security.Models.{Permission, AuthorizedWorkspaceContext}
use graph_blizz.Workspaces.Repository.{get_workspace}
use graph_blizz.Api.Access.{
  Access, authorize_request, committed_reading, workspace_or_404, authorized,
}

-- The workspace does not exist, or the policy refuses the permission.
abbrev pub IsDenied : Access → (workspace_id : ℕ) → Permission → Db → Type 0
IsDenied access workspace_id permission db =
    (get_workspace workspace_id db ≡ none)
    ⊎ ((found : WorkspaceRow) × (e : Exn) × (get_workspace workspace_id db ≡ some found)
        × (authorize_request access found permission ≡ err e))

-- No response, and nothing changed: the committed tables, the objects and the calls of LightRAG.
abbrev pub Untouched : World → Condition
Untouched w = λ c k o l. (c ≡ w.committed) × (o ≡ w.objects) × (l ≡ w.index_calls ++ [])

abbrev pub HasRefused : {A : Type 0} → World → Result Exn A × World → Type 0
HasRefused w r = Outcome (λ a c k o l. ⊥) (Untouched w) r

committed_reading-Ensures :
    {A : Type 0} {Pre : Condition} (query : Db → A)
    → Ensures Pre (committed_reading query) (λ a c k o l. Pre c k o l × (query c ≡ a)) Pre
unfolding committed_reading call
committed_reading-Ensures {A} {Pre} query = record {
  run = λ faults w h.
      unless-Outcome (λ (a : A) c k o l. Pre c k o l × (query c ≡ a)) Pre (faults w.calls) _ _ h
        (h, refl);
}

denied :
    (access : Access) (workspace_id : ℕ) (permission : Permission) (db : Db) (found : WorkspaceRow)
    (context : AuthorizedWorkspaceContext)
    → IsDenied access workspace_id permission db
    → get_workspace workspace_id db ≡ some found
    → authorize_request access found permission ≡ ok context
    → ⊥
denied access workspace_id permission db found context (inl missing) there passes = cc
denied access workspace_id permission db found context (inr (other, e, there', refused)) there
      passes =
    let same : found ≡ other = cc (there, there') in
    cc (subst (λ t. authorize_request access t permission ≡ ok context) same passes, refused)

authorized-Ensures :
    (access : Access) (workspace_id : ℕ) (permission : Permission) (w : World)
    → IsDenied access workspace_id permission w.committed
    → Ensures
        (Called w [])
        (authorized access workspace_id permission)
        (λ context c k o l. ⊥)
        (Called w [])
unfolding authorized workspace_or_404
authorized-Ensures access workspace_id permission w refused =
    let Found : WorkspaceRow → Condition = λ found c k o l.
      Called w [] c k o l × (get_workspace workspace_id w.committed ≡ some found) in
    bind Found
      (bind
        (λ (read : Option WorkspaceRow) c k o l.
          Called w [] c k o l × (get_workspace workspace_id w.committed ≡ read))
        (weaken (λ c k o l h. h)
          (λ (read : Option WorkspaceRow) c k o l h.
            (h.0, subst (λ t. get_workspace workspace_id t ≡ read) h.0.0 h.1))
          (λ c k o l h. h)
          (committed_reading-Ensures {Pre = Called w []} (get_workspace workspace_id)))
        (λ read. given (λ same.
          weaken (λ c k o l h. h) (λ (found : WorkspaceRow) c k o l h. (h.0, same ∙ h.1))
            (λ c k o l h. h) (required-Ensures {Pre = Called w []} read (http_error 404)))))
      (λ found. given (λ there.
        weaken (λ c k o l h. h)
          (λ (context : AuthorizedWorkspaceContext) c k o l h.
            denied access workspace_id permission w.committed found context refused there h.1)
          (λ c k o l h. h)
          (lifted-Ensures {Pre = Called w []} (authorize_request access found permission))))

-- A handler that begins with the authorization.
pub refuses :
    {A : Type 0} (access : Access) (workspace_id : ℕ) (permission : Permission)
    (rest : AuthorizedWorkspaceContext → Action A) (faults : Faults) (w : World)
    → IsDenied access workspace_id permission w.committed
    → HasRefused w (with_connection (authorized access workspace_id permission >>= rest) faults w)
refuses {A} access workspace_id permission rest faults w refused =
    (connects (Called w []) (Untouched w) (λ (a : A) c k o l. ⊥) (λ (a : A) c k o l. ⊥)
        (λ a c k o l h. h) (λ a c k o l h. absurd h) (λ c k o l h. (h.0, h.2, h.3))
        (λ c k o l h. (h.0, h.2, h.3)) (Called w []) _
        (bind (λ context c k o l. ⊥) (authorized-Ensures access workspace_id permission w refused)
          (λ context. record { run = λ faults w h. absurd h }))).run
      faults w (Called-start w)
