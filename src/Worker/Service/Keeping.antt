-- ===== src/Worker/Service/Keeping.antt =====
-- Actions that leave documents and jobs alone, whichever calls raise.
use graph_blizz.Prelude.{
  ℕ, ◌≡◌, subst, arith, Bool-cases, inl, inr, Option, none, some, List, Text, Result, ok,
}
use graph_blizz.Errors.{Exn}
use graph_blizz.Jobs.Repository.{Jobs}
use graph_blizz.Documents.Db.{Db, DocumentRow, WorkspaceRow}
use graph_blizz.Documents.World.{
  Action, return, raise, ◌>>=◌, statement_at, commit, outside, index_call, get_uri, try_except,
  with_connection,
}
use graph_blizz.Documents.World.Ensures.{
  Condition, Ensures, bind, weaken, returns, raises, states, states_clocked, commits, passes,
  indexes,
}
use graph_blizz.Documents.World.Blocks.{reads, excepts, connects}
use graph_blizz.Documents.SourceService.{required}
use graph_blizz.Indexing.Calls.{IndexCall}
use graph_blizz.Indexing.Versions.{IndexContract}
use graph_blizz.Workspaces.Repository.{
  ensure_found, change_contract, has_contract, with_contract, workspace_checks,
}

-- The documents and the jobs, committed and not.
abbrev pub Kept : List DocumentRow → Jobs → Condition
Kept documents jobs = λ c k o l.
    (c.documents ≡ documents) × (c.jobs ≡ jobs) × (k.documents ≡ documents) × (k.jobs ≡ jobs)

pub record Keeps (documents : List DocumentRow) (jobs : Jobs) {A : Type 0} (action : Action A)
    : Type 0 where
  pub run : Ensures (Kept documents jobs) action (λ a. Kept documents jobs) (Kept documents jobs)

module _ (documents : List DocumentRow) (jobs : Jobs) where
  pub >>=-Keeps :
      {A B : Type 0} (first : Action A) (rest : A → Action B)
      → Keeps documents jobs first
      → ((a : A) → Keeps documents jobs (rest a))
      → Keeps documents jobs (first >>= rest)
  >>=-Keeps first rest f k = record { run = bind (λ a. Kept documents jobs) f.run (λ a. (k a).run) }

  pub return-Keeps : {A : Type 0} (a : A) → Keeps documents jobs (return a)
  return-Keeps a = record { run = returns a }

  pub raise-Keeps : {A : Type 0} (e : Exn) → Keeps documents jobs (raise {A = A} e)
  raise-Keeps e = record { run = raises e }

  pub outside-Keeps : Keeps documents jobs outside
  outside-Keeps = record { run = passes }

  pub commit-Keeps : Keeps documents jobs commit
  commit-Keeps = record { run = commits (λ c k o l h. (h.2, h.3, h.2, h.3)) }

  pub index_call-Keeps : (i : IndexCall) → Keeps documents jobs (index_call i)
  index_call-Keeps i = record { run = indexes i (λ c k o l h. h) }

  pub get_uri-Keeps : (bucket address : Text) → Keeps documents jobs (get_uri bucket address)
  get_uri-Keeps bucket address = record {
    run =
        weaken (λ c k o l h. h) (λ a c k o l h. h.0) (λ c k o l h. h)
          (reads {Pre = Kept documents jobs} bucket address);
  }

  pub try_except-Keeps :
      {A : Type 0} (body : Action A) (handler : Action (Unit {0}))
      → Keeps documents jobs body
      → Keeps documents jobs handler
      → Keeps documents jobs (try_except body handler)
  try_except-Keeps body handler f k = record {
    run =
        excepts (Kept documents jobs) (Kept documents jobs) (λ a. Kept documents jobs)
          (Kept documents jobs) body handler f.run k.run;
  }

  pub with_connection-Keeps :
      {A : Type 0} (body : Action A)
      → Keeps documents jobs body
      → Keeps documents jobs (with_connection body)
  with_connection-Keeps body f = record {
    run =
        connects (Kept documents jobs) (Kept documents jobs) (λ a. Kept documents jobs)
          (λ a. Kept documents jobs) (λ a c k o l h. (h.2, h.3, h.2, h.3)) (λ a c k o l h. h)
          (λ c k o l h. h) (λ c k o l h. (h.0, h.1, h.0, h.1)) (Kept documents jobs) body f.run;
  }

  -- A statement that leaves documents and jobs as they are.
  pub statement-Keeps :
      {A : Type 0} (clock : ℕ → ℕ) (s : ℕ → Db → Result Exn (Db × A))
      → ((now : ℕ) (k db : Db) (a : A)
          → k.documents ≡ documents
          → k.jobs ≡ jobs
          → s now k ≡ ok (db, a)
          → (db.documents ≡ documents) × (db.jobs ≡ jobs))
      → Keeps documents jobs (statement_at clock s)
  statement-Keeps clock s keeps = record {
    run = states clock s (λ now c k o l db a h e.
        let kept = keeps now k db a h.2 h.3 e in (h.0, h.1, kept.0, kept.1));
  }

  -- The same, of what the clock gives.
  pub clocked-Keeps :
      {A : Type 0} (clock : ℕ → ℕ) (s : ℕ → Db → Result Exn (Db × A))
      → ((n : ℕ) (k db : Db) (a : A)
          → k.documents ≡ documents
          → k.jobs ≡ jobs
          → s (clock n) k ≡ ok (db, a)
          → (db.documents ≡ documents) × (db.jobs ≡ jobs))
      → Keeps documents jobs (statement_at clock s)
  clocked-Keeps clock s keeps = record {
    run =
        states_clocked clock s
          (λ n c k o l db a h e. let kept = keeps n k db a h.2 h.3 e in (h.0, h.1, kept.0, kept.1));
  }

  pub reading-Keeps :
      {A : Type 0} (clock : ℕ → ℕ) (query : Db → A)
      → Keeps documents jobs (statement_at clock (λ now db. ok (db, query db)))
  reading-Keeps clock query = statement-Keeps clock _ (λ now k db a d j e.
      let same : k ≡ db = cc e in
      (
        subst (λ (t : Db). t.documents ≡ documents) same d,
        subst (λ (t : Db). t.jobs ≡ jobs) same j,
      ))

  pub required-Keeps : {A : Type 0} (a : Option A) (e : Exn) → Keeps documents jobs (required a e)
  unfolding required
  required-Keeps none e = raise-Keeps e
  required-Keeps (some a) e = return-Keeps a

change_contract-kept :
    (contract : IndexContract) (now : ℕ) (k db : Db) (w : WorkspaceRow) (a : Option WorkspaceRow)
    → change_contract contract now k w ≡ ok (db, a)
    → (db.documents ≡ k.documents) × (db.jobs ≡ k.jobs)
unfolding change_contract
change_contract-kept contract now k db w a e =
    elim (Bool-cases (workspace_checks (with_contract contract now w))) [
      | inl good ↦ let e' = rw good at e in (ground (arith, e'), ground (arith, e'))
      | inr bad ↦ absurd (cc (rw bad at e))
    ]

pub ensure_found-kept :
    (contract : IndexContract) (now : ℕ) (k db : Db) (w a : Option WorkspaceRow)
    → ensure_found contract now k w ≡ ok (db, a)
    → (db.documents ≡ k.documents) × (db.jobs ≡ k.jobs)
unfolding ensure_found
ensure_found-kept contract now k db none a e = (ground (arith, e), ground (arith, e))
ensure_found-kept contract now k db (some w) a e = elim (Bool-cases (has_contract contract w)) [
  | inl same ↦ let e' = rw same at e in (ground (arith, e'), ground (arith, e'))
  | inr other ↦ change_contract-kept contract now k db w a (rw other at e)
]

pub ruleset keeping = (
  >>=-Keeps, return-Keeps, raise-Keeps, outside-Keeps, commit-Keeps, index_call-Keeps,
  get_uri-Keeps, try_except-Keeps, with_connection-Keeps, reading-Keeps, required-Keeps,
)
