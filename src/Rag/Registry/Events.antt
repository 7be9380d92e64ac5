-- ===== src/Rag/Registry/Events.antt =====
-- Every event of the event loop keeps a registry sound.
use graph_blizz.Prelude.{
  ℕ, suc, ◌+◌, ◌≤◌, ◌≡◌, refl, sym, subst, arith, true, false, Bool-cases, ==_iff, inl, inr, Option,
  none, some, List, [], ◌∷◌, ◌++◌, Text, any, Result, ok, err, ◌==◌,
}
use graph_blizz.Errors.{Exn}
use graph_blizz.Security.Models.{AuthorizedWorkspaceContext}
use graph_blizz.Rag.Registry.{
  CacheKey, cache_key, Lock, free, creating, closing_all, CloseTask, not_called, called, running,
  finished, RuntimeRegistry, runtime_for, Found, present, absent, found_in, get_locked, Event, got,
  kept_runtime, failed_runtime, close, close_all, close_ended, next_state, and_then, run_events,
  factory_returns, factory_raises, close_called, close_takes, close_ends, getting,
}
use graph_blizz.Rag.Registry.Balance.{
  count, kept_runtimes, taken, IsMissing, IsStage, IsSound, count-append, count-fresh,
  freed-IsStage, locked-IsStage, stored-IsStage, ended-IsStage,
}

-- `get` goes on to the factory only while the registry is not closing and the key has no runtime.
get_locked-absent :
    (digest : Text → Text) (context : AuthorizedWorkspaceContext) (s : RuntimeRegistry)
    (key : CacheKey) (namespace : Text)
    → get_locked digest context s ≡ ok (absent key namespace)
    → (s.closing ≡ false) × (runtime_for key s.runtimes ≡ none)
unfolding get_locked
get_locked-absent digest context s key namespace h = elim (Bool-cases s.closing) [
  | inl closing ↦ absurd (cc (rw closing at h))
  | inr going ↦
      (going, missing-absent (runtime_for (cache_key context) s.runtimes) refl (cc (rw going at h)))
]
  where
    missing-absent :
        (found : Option ℕ)
        → runtime_for (cache_key context) s.runtimes ≡ found
        → found_in digest context found ≡ absent key namespace
        → runtime_for key s.runtimes ≡ none
    missing-absent none e h = subst (λ k. runtime_for k s.runtimes ≡ none) (cc h) e
    missing-absent (some r) e h = cc

abbrev kept_in : RuntimeRegistry → CacheKey → (runtime : ℕ) → RuntimeRegistry
kept_in s key runtime = record s {
  runtimes = (key, runtime) ∷ s.runtimes;
  lock = free;
  created = runtime ∷ s.created;
}

abbrev taken_by : RuntimeRegistry → RuntimeRegistry
taken_by s = record s {
  runtimes = [];
  lock = closing_all (kept_runtimes s.runtimes);
  close_task = running;
}

balance_at :
    (s : RuntimeRegistry)
    → IsSound s
    → (lock : Lock) → s.lock ≡ lock
    → (r : ℕ)
    → count r s.created
      ≡ count r (kept_runtimes s.runtimes) + (count r (taken lock) + count r s.closed)
balance_at s sound lock held r =
    subst
      (λ l.
        count r s.created
        ≡ count r (kept_runtimes s.runtimes) + (count r (taken l) + count r s.closed))
      held (sound.balance r)

-- A runtime that is new has been created once.
once_more :
    (s : RuntimeRegistry) (runtime r : ℕ)
    → (runtime == r) ≡ true
    → any (λ x. x == runtime) s.created ≡ false
    → suc (count r s.created) ≤ 1
once_more s runtime r e fresh =
    let same : runtime ≡ r = (==_iff runtime r).0 e in
    rw (sym same, count-fresh runtime s.created fresh) (omega arith)

module _ (s s' : RuntimeRegistry) (sound : IsSound s) where
  got-IsSound :
      (digest : Text → Text) (context : AuthorizedWorkspaceContext) (found : Result Exn Found)
      (lock : Lock)
      → s.lock ≡ lock
      → get_locked digest context s ≡ found
      → got found lock s ≡ some s'
      → IsSound s'
  got-IsSound digest context (ok (absent key namespace)) free held looked h =
      let (going, missing) = get_locked-absent digest context s key namespace looked in
      let same : record s { lock = creating key namespace } ≡ s' = cc h in
      subst IsSound same (record {
        unique = sound.unique;
        once = sound.once;
        missing = missing;
        stage =
            locked-IsStage s s.close_task key namespace going
              (subst (λ l. IsStage s.close_task l s.closing s.runtimes) held sound.stage);
        balance = balance_at s sound free held;
      })
  got-IsSound digest context (ok (present r)) free held looked h =
      let same : s ≡ s' = cc h in subst IsSound same sound
  got-IsSound digest context (err e) free held looked h =
      let same : s ≡ s' = cc h in subst IsSound same sound
  got-IsSound digest context (ok (absent k n)) (creating key namespace) held looked h = cc
  got-IsSound digest context (ok (absent k n)) (closing_all runtimes) held looked h = cc
  got-IsSound digest context (ok (present r)) (creating key namespace) held looked h = cc
  got-IsSound digest context (ok (present r)) (closing_all runtimes) held looked h = cc
  got-IsSound digest context (err e) (creating key namespace) held looked h = cc
  got-IsSound digest context (err e) (closing_all runtimes) held looked h = cc

  kept_runtime-IsSound :
      (runtime : ℕ) (lock : Lock)
      → s.lock ≡ lock
      → kept_runtime runtime lock s ≡ some s'
      → IsSound s'
  unfolding kept_runtime count
  kept_runtime-IsSound runtime (creating key namespace) held h =
      elim (Bool-cases (any (λ r. r == runtime) s.created)) [
        | inl seen ↦ absurd (cc (rw seen at h))
        | inr fresh ↦
            let same : kept_in s key runtime ≡ s' = cc (rw fresh at h) in
            subst IsSound same (record {
              unique = (subst (λ l. IsMissing l s.runtimes) held sound.missing, sound.unique);
              missing = tt;
              stage =
                  stored-IsStage s s.close_task key namespace ((key, runtime) ∷ s.runtimes)
                    (subst (λ l. IsStage s.close_task l s.closing s.runtimes) held sound.stage);
              balance = λ r. elim (Bool-cases (runtime == r)) [
                | inl e ↦ rw e (omega (arith, balance_at s sound (creating key namespace) held r))
                | inr e ↦ rw e (balance_at s sound (creating key namespace) held r)
              ];
              once = λ r. elim (Bool-cases (runtime == r)) [
                | inl e ↦ rw e (once_more s runtime r e fresh)
                | inr e ↦ rw e (sound.once r)
              ];
            })
      ]
  kept_runtime-IsSound runtime free held h = cc
  kept_runtime-IsSound runtime (closing_all runtimes) held h = cc

  failed_runtime-IsSound :
      (lock : Lock) → s.lock ≡ lock → failed_runtime lock s ≡ some s' → IsSound s'
  failed_runtime-IsSound (creating key namespace) held h =
      let same : record s { lock = free } ≡ s' = cc h in
      subst IsSound same (record {
        unique = sound.unique;
        missing = tt;
        stage =
            freed-IsStage s s.close_task key namespace
              (subst (λ l. IsStage s.close_task l s.closing s.runtimes) held sound.stage);
        balance = balance_at s sound (creating key namespace) held;
        once = sound.once;
      })
  failed_runtime-IsSound free held h = cc
  failed_runtime-IsSound (closing_all runtimes) held h = cc

  close_ended-IsSound : (lock : Lock) → s.lock ≡ lock → close_ended lock s ≡ some s' → IsSound s'
  unfolding count
  close_ended-IsSound (closing_all runtimes) held h =
      let same : record s { lock = free; close_task = finished; closed = runtimes ++ s.closed }
          ≡ s' =
        cc h in
      subst IsSound same (record {
        unique = sound.unique;
        missing = tt;
        stage =
            ended-IsStage s s.close_task runtimes
              (subst (λ l. IsStage s.close_task l s.closing s.runtimes) held sound.stage);
        balance = λ r.
            rw (count-append r runtimes s.closed)
              (omega (arith, balance_at s sound (closing_all runtimes) held r));
        once = sound.once;
      })
  close_ended-IsSound free held h = cc
  close_ended-IsSound (creating key namespace) held h = cc

  close_all-IsSound :
      (task : CloseTask) (lock : Lock)
      → s.close_task ≡ task
      → s.lock ≡ lock
      → close_all task lock s ≡ some s'
      → IsSound s'
  unfolding count
  close_all-IsSound called free stage_at held h =
      let same : taken_by s ≡ s' = cc h in
      let stage : IsStage called free s.closing s.runtimes =
        subst (λ t. IsStage t free s.closing s.runtimes) stage_at
          (subst (λ l. IsStage s.close_task l s.closing s.runtimes) held sound.stage) in
      subst IsSound same (record {
        unique = tt;
        missing = tt;
        stage = (stage.0, refl, λ calm. calm);
        balance = λ r. omega (arith, balance_at s sound free held r);
        once = sound.once;
      })
  close_all-IsSound not_called lock stage_at held h = cc
  close_all-IsSound running lock stage_at held h = cc
  close_all-IsSound finished lock stage_at held h = cc
  close_all-IsSound called (creating key namespace) stage_at held h = cc
  close_all-IsSound called (closing_all runtimes) stage_at held h = cc

  close-IsSound : (task : CloseTask) → s.close_task ≡ task → close task s ≡ s' → IsSound s'
  close-IsSound not_called stage_at same =
      let stage : IsStage not_called s.lock s.closing s.runtimes =
        subst (λ t. IsStage t s.lock s.closing s.runtimes) stage_at sound.stage in
      subst IsSound same (record {
        unique = sound.unique;
        missing = sound.missing;
        stage = (refl, stage.1);
        balance = sound.balance;
        once = sound.once;
      })
  close-IsSound called stage_at same = subst IsSound same sound
  close-IsSound running stage_at same = subst IsSound same sound
  close-IsSound finished stage_at same = subst IsSound same sound

-- An event of the event loop.
next_state-IsSound :
    (digest : Text → Text) (event : Event) (s s' : RuntimeRegistry)
    → IsSound s
    → next_state digest event s ≡ some s'
    → IsSound s'
unfolding next_state
next_state-IsSound digest (getting context) s s' sound h =
    got-IsSound s s' sound digest context (get_locked digest context s) s.lock refl refl h
next_state-IsSound digest (factory_returns runtime) s s' sound h =
    kept_runtime-IsSound s s' sound runtime s.lock refl h
next_state-IsSound digest factory_raises s s' sound h =
    failed_runtime-IsSound s s' sound s.lock refl h
next_state-IsSound digest close_called s s' sound h =
    close-IsSound s s' sound s.close_task refl (cc h)
next_state-IsSound digest close_takes s s' sound h =
    close_all-IsSound s s' sound s.close_task s.lock refl refl h
next_state-IsSound digest close_ends s s' sound h = close_ended-IsSound s s' sound s.lock refl h

next_step :
    (digest : Text → Text) (events : List Event) (found : Option RuntimeRegistry)
    (s' : RuntimeRegistry)
    → and_then found (λ s. run_events digest events s) ≡ some s'
    → (s : RuntimeRegistry) × (found ≡ some s) × (run_events digest events s ≡ some s')
next_step digest events none s' h = cc
next_step digest events (some s) s' h = (s, refl, h)

pub run_events-IsSound :
    (digest : Text → Text) (events : List Event) (s s' : RuntimeRegistry)
    → IsSound s
    → run_events digest events s ≡ some s'
    → IsSound s'
unfolding run_events
run_events-IsSound digest [] s s' sound h = let same : s ≡ s' = cc h in subst IsSound same sound
run_events-IsSound digest (event ∷ events) s s' sound h =
    let (middle, first, rest) = next_step digest events (next_state digest event s) s' h in
    run_events-IsSound digest events middle s'
      (next_state-IsSound digest event s middle sound first) rest
