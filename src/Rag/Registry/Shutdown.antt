-- ===== src/Rag/Registry/Shutdown.antt =====
-- What a registry of runtimes promises at any time and when it has been closed.
use graph_blizz.Prelude.{
  ℕ, ◌+◌, ◌≤◌, ◌≡◌, refl, sym, subst, arith, false, ◌⊎◌, inl, inr, some, List, [], ◌∷◌, Text, any,
  err, ◌==◌,
}
use graph_blizz.Errors.{runtime_error}
use graph_blizz.Security.Models.{AuthorizedWorkspaceContext}
use graph_blizz.Rag.Registry.{
  CacheKey, Lock, free, creating, closing_all, called, finished, RuntimeRegistry, new_registry,
  get_locked, Event, kept_runtime, next_state, run_events, factory_returns, factory_raises,
  close_takes, close_ends,
}
use graph_blizz.Rag.Registry.Balance.{
  count, kept_runtimes, taken, Unique, IsFree, IsStage, IsSound, new_registry-IsSound,
}
use graph_blizz.Rag.Registry.Events.{run_events-IsSound}

module _ (digest : Text → Text) (events : List Event) (s : RuntimeRegistry)
    (reached : run_events digest events new_registry ≡ some s) where
  reached-IsSound : IsSound s
  reached-IsSound = run_events-IsSound digest events new_registry s new_registry-IsSound reached

  -- However `get` and `close` interleave from a new registry on: no key has two runtimes, no runtime is
  -- created twice, and each runtime that was created is registered, about to be closed by the shutdown,
  -- or closed, in exactly one of the three and only once.
  pub run_events_lem :
      Unique s.runtimes
      × ((r : ℕ)
          → (count r s.created ≤ 1)
            × (count r s.created
                ≡ count r (kept_runtimes s.runtimes) + (count r (taken s.lock) + count r s.closed)))
  run_events_lem =
      (reached-IsSound.unique, λ r. (reached-IsSound.once r, reached-IsSound.balance r))

  finished-IsStage : s.close_task ≡ finished → IsStage finished s.lock s.closing s.runtimes
  finished-IsStage ended =
      subst (λ t. IsStage t s.lock s.closing s.runtimes) ended reached-IsSound.stage

  free-taken : (r : ℕ) (lock : Lock) → IsFree lock → count r (taken lock) ≡ 0
  unfolding count
  free-taken r free h = refl
  free-taken r (creating key namespace) h = absurd h
  free-taken r (closing_all runtimes) h = absurd h

  -- Once the shutdown has ended, also when a `get` was waiting for its runtime as `close` was called:
  -- no runtime is registered or being created, every runtime that was created has been closed, and
  -- `get` raises for every context.
  pub close_all_lem :
      s.close_task ≡ finished
      → (s.runtimes ≡ [])
        × IsFree s.lock
        × ((r : ℕ) → count r s.closed ≡ count r s.created)
        × ((context : AuthorizedWorkspaceContext) → get_locked digest context s ≡ err runtime_error)
  unfolding get_locked count
  close_all_lem ended =
      let stage = finished-IsStage ended in
      (
        stage.1,
        stage.2,
        λ r.
            let emptied : count r (kept_runtimes s.runtimes) ≡ 0 =
              subst (λ t. count r (kept_runtimes t) ≡ 0) (sym stage.1) refl in
            let none_taken = free-taken r s.lock stage.2 in
            let balance = reached-IsSound.balance r in omega (arith, emptied, none_taken, balance),
        λ context. rw stage.0 refl,
      )

-- The events end the shutdown.
abbrev pub Finishes : (digest : Text → Text) → RuntimeRegistry → List Event → Type 0
Finishes digest s events =
    (s' : RuntimeRegistry) × (run_events digest events s ≡ some s') × (s'.close_task ≡ finished)

module _ (digest : Text → Text) (s : RuntimeRegistry) (waiting : s.close_task ≡ called) where
  ends_free : s.lock ≡ free → Finishes digest s (close_takes ∷ close_ends ∷ [])
  unfolding run_events next_state
  ends_free held = rw (waiting, held) (_, refl, refl)

  ends_raising :
      (key : CacheKey) (namespace : Text)
      → s.lock ≡ creating key namespace
      → Finishes digest s (factory_raises ∷ close_takes ∷ close_ends ∷ [])
  unfolding run_events next_state
  ends_raising key namespace held = rw (held, waiting) (_, refl, refl)

  ends_returning :
      (key : CacheKey) (namespace : Text) (runtime : ℕ)
      → s.lock ≡ creating key namespace
      → any (λ r. r == runtime) s.created ≡ false
      → Finishes digest s (factory_returns runtime ∷ close_takes ∷ close_ends ∷ [])
  unfolding run_events next_state kept_runtime
  ends_returning key namespace runtime held fresh = rw (held, fresh, waiting) (_, refl, refl)

  ends_at :
      (lock : Lock)
      → s.lock ≡ lock
      → IsStage called lock s.closing s.runtimes
      → Finishes digest s (close_takes ∷ close_ends ∷ [])
        ⊎ (Finishes digest s (factory_raises ∷ close_takes ∷ close_ends ∷ [])
            × ((runtime : ℕ)
                → any (λ r. r == runtime) s.created ≡ false
                → Finishes digest s (factory_returns runtime ∷ close_takes ∷ close_ends ∷ [])))
  ends_at free held stage = inl (ends_free held)
  ends_at (creating key namespace) held stage =
      inr (ends_raising key namespace held, λ runtime. ends_returning key namespace runtime held)
  ends_at (closing_all runtimes) held stage = absurd stage.1

-- The shutdown is never stuck: in every reachable state in which `close` has been called and waits for
-- the lock, it takes the runtimes and ends, at once or after the factory that a `get` waits for has
-- raised, or has returned a new runtime.
pub shutdown_ends :
    (digest : Text → Text) (events : List Event) (s : RuntimeRegistry)
    → run_events digest events new_registry ≡ some s
    → s.close_task ≡ called
    → Finishes digest s (close_takes ∷ close_ends ∷ [])
      ⊎ (Finishes digest s (factory_raises ∷ close_takes ∷ close_ends ∷ [])
          × ((runtime : ℕ)
              → any (λ r. r == runtime) s.created ≡ false
              → Finishes digest s (factory_returns runtime ∷ close_takes ∷ close_ends ∷ [])))
shutdown_ends digest events s reached waiting = ends_at digest s waiting s.lock refl (
    subst (λ t. IsStage t s.lock s.closing s.runtimes) waiting
      (reached-IsSound digest events s reached).stage)
