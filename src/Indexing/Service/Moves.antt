-- ===== src/Indexing/Service/Moves.antt =====
-- What a transition of indexing commits, with either repository.
use graph_blizz.Prelude.{
  ℕ, ◌≡◌, refl, subst, inl, inr, ◌⊎◌, Option, none, some, List, ◌++◌, String, ok,
}
use graph_blizz.Errors.{document_state_transition}
use graph_blizz.Documents.Models.{DocumentStatus, Document}
use graph_blizz.Documents.Db.{Db}
use graph_blizz.Documents.Repository.{transition_status}
use graph_blizz.Documents.Repository.Transitions.{
  Moved, transition_status-Moved, transition_status-none, transition_status_for_job-Moved,
  transition_status_for_job-none,
}
use graph_blizz.Jobs.Models.{Job}
use graph_blizz.Worker.Service.{attempt_of, leased_transition}
use graph_blizz.Documents.World.{World}
use graph_blizz.Documents.World.Ensures.{Condition, Ensures, bind, weaken, returns, states, commits}
use graph_blizz.Indexing.Calls.{IndexCall}
use graph_blizz.Indexing.Provenance.Written.{Called}
use graph_blizz.Indexing.Service.{Environment, Transition, move}
use graph_blizz.Indexing.Service.Rules.{required-Ensures}

-- The repositories that index with: the plain one, or the one that is fenced by a worker's lease.
pub data Repository : Type 0 where
  plain : Repository
  leased : Job → (lease_owner : String) → Repository

abbrev pub transition_of : Repository → Transition
transition_of plain workspace_id document_id from_status to_status now db =
    ok (transition_status now workspace_id document_id from_status to_status db)
transition_of (leased job lease_owner) workspace_id document_id from_status to_status now db =
    leased_transition job lease_owner workspace_id document_id from_status to_status now db

-- A document was found in a status and is in another, in its own row, and nothing else changed.
abbrev pub IsMove :
    Document → (from_status to_status : DocumentStatus) → Db → Db → Document → Type 0
IsMove document = Moved document.workspace_id document.id

transition_of-IsMove :
    (repository : Repository) (document document' : Document)
    (from_status to_status : DocumentStatus) (now : ℕ) (db db' : Db)
    → transition_of repository document.workspace_id document.id from_status to_status now db
      ≡ ok (db', some document')
    → IsMove document from_status to_status db db' document'
transition_of-IsMove plain document document' from_status to_status now db db' h =
    transition_status-Moved now document.workspace_id document.id from_status to_status db db'
      document' (cc h)
transition_of-IsMove (leased job o) document document' from_status to_status now db db' h =
    transition_status_for_job-Moved now (attempt_of job o document.workspace_id document.id)
      from_status to_status db db' document' (cc h)

transition_of-none :
    (repository : Repository) (document : Document) (from_status to_status : DocumentStatus)
    (now : ℕ) (db db' : Db)
    → transition_of repository document.workspace_id document.id from_status to_status now db
      ≡ ok (db', none)
    → db' ≡ db
transition_of-none plain document from_status to_status now db db' h =
    transition_status-none now document.workspace_id document.id from_status to_status db db' (cc h)
transition_of-none (leased job o) document from_status to_status now db db' h =
    transition_status_for_job-none now (attempt_of job o document.workspace_id document.id)
      from_status to_status db db' (cc h)

-- Nothing was committed, and the working tables are as before, or the move waits for a commit.
abbrev pub IsPending : World → Document → (from_status to_status : DocumentStatus) → Condition
IsPending w document from_status to_status = λ c k o l.
    (c ≡ w.committed)
    × ((k ≡ w.working)
        ⊎ ((document' : Document) × IsMove document from_status to_status w.working k document'))

-- The tables after the first transition, as a world.
abbrev pub started_world : World → Db → World
started_world w db = record w { committed = db; working = db }

module _ (env : Environment) (repository : Repository) where
  pending :
      (w : World) (document : Document) (from_status to_status : DocumentStatus)
      (moved : Option Document) (c k : Db)
      → c ≡ w.committed
      → (now : ℕ)
      → transition_of repository document.workspace_id document.id from_status to_status now
          w.working
        ≡ ok (k, moved)
      → (c ≡ w.committed)
        × ((k ≡ w.working)
            ⊎ ((document' : Document) × IsMove document from_status to_status w.working k
                  document'))
  pending w document from_status to_status none c k same now h =
      (same, inl (transition_of-none repository document from_status to_status now w.working k h))
  pending w document from_status to_status (some document') c k same now h = (
    same,
    inr (
      document',
      transition_of-IsMove repository document document' from_status to_status now w.working k h,
    ),
  )

  -- A transition is committed when it returns, and not when it raises.
  pub move-Ensures :
      (w : World) (calls : List IndexCall) (document : Document)
      (from_status to_status : DocumentStatus)
      → Ensures
          (Called w calls)
          (move env (transition_of repository) document from_status to_status)
          (λ document' c k o l.
            IsMove document from_status to_status w.working c document'
            × (k ≡ c)
            × (o ≡ w.objects)
            × (l ≡ w.index_calls ++ calls))
          (IsPending w document from_status to_status)
  unfolding move
  move-Ensures w calls document from_status to_status =
      let s = transition_of repository document.workspace_id document.id from_status to_status in
      let Ran : Option Document → Condition = λ moved c k o l.
        (c ≡ w.committed)
        × (o ≡ w.objects)
        × (l ≡ w.index_calls ++ calls)
        × (now : ℕ) × (s now w.working ≡ ok (k, moved)) in
      let Found : Option Document → Document → Condition =
        λ moved document' c k o l. Ran moved c k o l × (moved ≡ some document') in
      let Done : Document → Condition = λ document' c k o l.
        IsMove document from_status to_status w.working c document'
        × (k ≡ c)
        × (o ≡ w.objects)
        × (l ≡ w.index_calls ++ calls) in
      bind Ran
        (weaken (λ c k o l h. h) (λ a c k o l h. h)
          (λ c k o l (h : Called w calls c k o l). (h.0, inl h.1))
          (states env.clock s (λ now c k o l db a h e.
            (h.0, h.2, h.3, now, subst (λ t. s now t ≡ ok (db, a)) h.1 e))))
        (λ moved.
          bind (Found moved)
            (weaken (λ c k o l h. h) (λ a c k o l h. h)
              (λ c k o l (h : Ran moved c k o l).
                pending w document from_status to_status moved c k h.0 h.3 h.4)
              (required-Ensures moved document_state_transition))
            (λ document'.
              bind (λ u. Done document')
                (weaken (λ c k o l h. h) (λ a c k o l h. h)
                  (λ c k o l (h : Found moved document' c k o l).
                    pending w document from_status to_status moved c k h.0.0 h.0.3 h.0.4)
                  (commits (λ c k o l h. (
                    transition_of-IsMove repository document document' from_status to_status h.0.3
                        w.working k (subst (λ t. s h.0.3 w.working ≡ ok (k, t)) h.1 h.0.4),
                    refl,
                    h.0.1,
                    h.0.2,
                  ))))
                (λ u. returns document')))
