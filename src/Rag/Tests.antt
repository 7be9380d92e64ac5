-- ===== src/Rag/Tests.antt =====
-- Runs of a registry: `close` is called while `get` waits for the factory.
use graph_blizz.Prelude.{
  ℕ, ◌+◌, ◌≤◌, ◌≡◌, ◌⊎◌, refl, true, false, some, List, [], ◌∷◌, any, err, Text, ◌==◌,
}
use graph_blizz.Errors.{runtime_error}
use graph_blizz.Security.Models.{AuthorizedWorkspaceContext}
use graph_blizz.Indexing.Samples.{environment, context}
use graph_blizz.Indexing.Service.{namespace_of}
use graph_blizz.Rag.Registry.{
  creating, called, finished, RuntimeRegistry, new_registry, cache_key, runtime_for, get_locked,
  Event, getting, factory_returns, factory_raises, close_called, close_takes, close_ends,
  kept_runtime, next_state, run_events,
}
use graph_blizz.Rag.Registry.Balance.{count, kept_runtimes, taken, Unique, IsFree}
use graph_blizz.Rag.Registry.Shutdown.{Finishes, run_events_lem, close_all_lem, shutdown_ends}

abbrev digest : Text → Text
digest = environment.digest

-- `get` waits for the factory as `close` is called.
abbrev waiting : RuntimeRegistry
waiting = record new_registry {
  closing = true;
  close_task = called;
  lock = creating (cache_key context) (namespace_of digest context);
}

waiting_reached :
    run_events digest (getting context ∷ close_called ∷ []) new_registry ≡ some waiting
unfolding run_events next_state get_locked runtime_for
waiting_reached = refl

abbrev shut : RuntimeRegistry
shut = record new_registry {
  closing = true;
  close_task = finished;
  created = 7 ∷ [];
  closed = 7 ∷ [];
}

abbrev all_events : List Event
all_events = getting context ∷ close_called ∷ factory_returns 7 ∷ close_takes ∷ close_ends ∷ []

shut_reached : run_events digest all_events new_registry ≡ some shut
unfolding run_events next_state get_locked runtime_for kept_runtime any
shut_reached = refl

run_events_lem_example :
    Unique shut.runtimes
    × ((r : ℕ)
        → (count r shut.created ≤ 1)
          × (count r shut.created
              ≡ count r (kept_runtimes shut.runtimes)
                + (count r (taken shut.lock) + count r shut.closed)))
run_events_lem_example = run_events_lem digest all_events shut shut_reached

close_all_lem_example :
    (shut.runtimes ≡ [])
    × IsFree shut.lock
    × ((r : ℕ) → count r shut.closed ≡ count r shut.created)
    × ((other : AuthorizedWorkspaceContext) → get_locked digest other shut ≡ err runtime_error)
close_all_lem_example = close_all_lem digest all_events shut shut_reached refl

shutdown_ends_example :
    Finishes digest waiting (close_takes ∷ close_ends ∷ [])
    ⊎ (Finishes digest waiting (factory_raises ∷ close_takes ∷ close_ends ∷ [])
        × ((runtime : ℕ)
            → any (λ r. r == runtime) waiting.created ≡ false
            → Finishes digest waiting (factory_returns runtime ∷ close_takes ∷ close_ends ∷ [])))
shutdown_ends_example =
    shutdown_ends digest (getting context ∷ close_called ∷ []) waiting waiting_reached refl
