-- ===== src/Rag/Registry/Balance.antt =====
-- What holds of a registry at every time: one runtime for a key, and no runtime lost or closed twice.
use graph_blizz.Prelude.{
  ℕ, suc, ◌+◌, ◌≤◌, ◌≡◌, refl, arith, Bool, true, false, Bool-cases, inl, inr, none, List, [], ◌∷◌,
  ◌++◌, Text, any, map, ◌==◌, if◌then◌else◌,
}
use graph_blizz.Rag.Registry.{
  CacheKey, Lock, free, creating, closing_all, CloseTask, not_called, called, running, finished,
  RuntimeRegistry, new_registry, runtime_for,
}

-- How often a runtime stands in a list.
unfoldable pub count : ℕ → List ℕ → ℕ
count r [] = 0
count r (x ∷ xs) = let rest = count r xs in if x == r then suc rest else rest

abbrev pub kept_runtimes : List (CacheKey × ℕ) → List ℕ
kept_runtimes entries = map (λ (entry : CacheKey × ℕ). entry.1) entries

abbrev pub taken : Lock → List ℕ
taken (closing_all runtimes) = runtimes
taken free = []
taken (creating key namespace) = []

-- No key stands twice.
abbrev pub Unique : List (CacheKey × ℕ) → Type 0
Unique [] = Unit
Unique (entry ∷ entries) = (runtime_for entry.0 entries ≡ none) × Unique entries

-- The key of a runtime in creation has none.
abbrev pub IsMissing : Lock → List (CacheKey × ℕ) → Type 0
IsMissing (creating key namespace) entries = runtime_for key entries ≡ none
IsMissing free entries = Unit
IsMissing (closing_all runtimes) entries = Unit

abbrev pub IsCalm : Lock → Type 0
IsCalm free = Unit
IsCalm (creating key namespace) = Unit
IsCalm (closing_all runtimes) = ⊥

abbrev pub IsFree : Lock → Type 0
IsFree free = Unit
IsFree (creating key namespace) = ⊥
IsFree (closing_all runtimes) = ⊥

-- The holder of the lock, the flag and the runtimes at each stage of the shutdown.
abbrev pub IsStage : CloseTask → Lock → Bool → List (CacheKey × ℕ) → Type 0
IsStage not_called lock closing entries = (closing ≡ false) × IsCalm lock
IsStage called lock closing entries = (closing ≡ true) × IsCalm lock
IsStage running lock closing entries = (closing ≡ true) × (entries ≡ []) × (IsCalm lock → ⊥)
IsStage finished lock closing entries = (closing ≡ true) × (entries ≡ []) × IsFree lock

pub record IsSound (s : RuntimeRegistry) : Type 0 where
  pub unique : Unique s.runtimes
  pub missing : IsMissing s.lock s.runtimes
  pub stage : IsStage s.close_task s.lock s.closing s.runtimes
  pub balance :
      (r : ℕ)
      → count r s.created
        ≡ count r (kept_runtimes s.runtimes) + (count r (taken s.lock) + count r s.closed)
  pub once : (r : ℕ) → count r s.created ≤ 1

pub new_registry-IsSound : IsSound new_registry
unfolding count
new_registry-IsSound = record {
  unique = tt;
  missing = tt;
  stage = (refl, tt);
  balance = λ r. refl;
  once = λ r. omega arith;
}

pub count-append : (r : ℕ) (xs ys : List ℕ) → count r (xs ++ ys) ≡ count r xs + count r ys
unfolding count
count-append r [] ys = omega arith
count-append r (x ∷ xs) ys = elim (Bool-cases (x == r)) [
  | inl e ↦ rw e (omega (arith, count-append r xs ys))
  | inr e ↦ rw e (count-append r xs ys)
]

pub count-fresh : (r : ℕ) (xs : List ℕ) → any (λ x. x == r) xs ≡ false → count r xs ≡ 0
unfolding count any
count-fresh r [] h = refl
count-fresh r (x ∷ xs) h = elim (Bool-cases (x == r)) [
  | inl e ↦ absurd (cc (rw e at h))
  | inr e ↦ rw e (count-fresh r xs (rw e at h))
]

-- The lock is given up, and the table is as it was.
module _ (s : RuntimeRegistry) where
  pub freed-IsStage :
      (task : CloseTask) (key : CacheKey) (namespace : Text)
      → IsStage task (creating key namespace) s.closing s.runtimes
      → IsStage task free s.closing s.runtimes
  freed-IsStage not_called key namespace h = h
  freed-IsStage called key namespace h = h
  freed-IsStage running key namespace h = absurd (h.2 tt)
  freed-IsStage finished key namespace h = absurd h.2

  pub locked-IsStage :
      (task : CloseTask) (key : CacheKey) (namespace : Text)
      → s.closing ≡ false
      → IsStage task free s.closing s.runtimes
      → IsStage task (creating key namespace) s.closing s.runtimes
  locked-IsStage not_called key namespace going h = h
  locked-IsStage called key namespace going h = absurd (cc (going, h.0))
  locked-IsStage running key namespace going h = absurd (cc (going, h.0))
  locked-IsStage finished key namespace going h = absurd (cc (going, h.0))

  pub stored-IsStage :
      (task : CloseTask) (key : CacheKey) (namespace : Text) (entries : List (CacheKey × ℕ))
      → IsStage task (creating key namespace) s.closing s.runtimes
      → IsStage task free s.closing entries
  stored-IsStage not_called key namespace entries h = h
  stored-IsStage called key namespace entries h = h
  stored-IsStage running key namespace entries h = absurd (h.2 tt)
  stored-IsStage finished key namespace entries h = absurd h.2

  pub ended-IsStage :
      (task : CloseTask) (runtimes : List ℕ)
      → IsStage task (closing_all runtimes) s.closing s.runtimes
      → IsStage finished free s.closing s.runtimes
  ended-IsStage not_called runtimes h = absurd h.1
  ended-IsStage called runtimes h = absurd h.1
  ended-IsStage running runtimes h = (h.0, h.1, tt)
  ended-IsStage finished runtimes h = absurd h.2
