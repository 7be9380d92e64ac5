-- ===== src/Jobs/Repository/Steps.antt =====
-- Histories of the jobs table: each step is a statement that writes to it and did not raise, those of
-- the repository of jobs and the four that complete or move a document under a lease.
use mathlib.Core.List.{Memᴰ}
use graph_blizz.Prelude.{
  ℕ, ◌≤◌, ◌≡◌, refl, true, ◌⊎◌, inl, inr, Bool, List, [], ◌∷◌, ◌++◌, arith, String, ℤ, update_where,
  ok, Option, Bool-cases,
}
use graph_blizz.Jobs.Models.{Job, JobErrorCode, running, in_transitions, is_terminal}
use graph_blizz.Jobs.Rows.{JobRow}
use graph_blizz.Jobs.Repository.{
  Jobs, is_claimable, claimed, claim_next, is_owned, renewed, heartbeat, completed, succeed,
  released, fail, is_expired, recover_expired, create_indexing, create_deletion,
}
use graph_blizz.Documents.Models.{Document}
use graph_blizz.Documents.Db.{Db}
use graph_blizz.Documents.Repository.Completion.{Attempt, create_workspace_reindex}
use graph_blizz.Documents.Repository.Completion.Outcome.{CompletionCall, completion_call}

pub data Step (rows rows' : Jobs) : Type 0 where
  creates_indexing :
      (has_revision : ℕ → ℕ → Bool) (id now document revision max_attempts : ℕ) (job : Job)
      → create_indexing has_revision id now document revision max_attempts rows ≡ ok (rows', job)
      → Step rows rows'
  creates_deletion :
      (has_revision : ℕ → ℕ → Bool) (id now document revision max_attempts : ℕ) (job : Job)
      → create_deletion has_revision id now document revision max_attempts rows ≡ ok (rows', job)
      → Step rows rows'
  claims :
      (locked : ℕ → Bool) (now : ℕ) (owner : String) (lease_for : ℤ) (job : Option Job)
      → claim_next locked now owner lease_for rows ≡ ok (rows', job)
      → Step rows rows'
  beats :
      (id : ℕ) (owner : String) (attempt now : ℕ) (lease_for : ℤ) (job : Option Job)
      → heartbeat id owner attempt now lease_for rows ≡ ok (rows', job)
      → Step rows rows'
  succeeds :
      (id : ℕ) (owner : String) (attempt now : ℕ) (job : Option Job)
      → succeed id owner attempt now rows ≡ ok (rows', job)
      → Step rows rows'
  fails :
      (id : ℕ) (owner : String) (attempt now : ℕ) (error : JobErrorCode) (retry_after : ℤ)
      (job : Option Job)
      → fail id owner attempt now error retry_after rows ≡ ok (rows', job)
      → Step rows rows'
  recovers :
      (now : ℕ) (retry_after : ℤ) (jobs : List Job)
      → recover_expired now retry_after rows ≡ ok (rows', jobs)
      → Step rows rows'
  creates_reindexing :
      (job_id_of : ℕ → ℕ) (now workspace_id : ℕ) (db db' : Db) (jobs : List Job)
      → db.jobs ≡ rows
      → db'.jobs ≡ rows'
      → create_workspace_reindex job_id_of now workspace_id db ≡ ok (db', jobs)
      → Step rows rows'
  completes :
      (call : CompletionCall) (a : Attempt) (now : ℕ) (db db' : Db) (document : Option Document)
      → db.jobs ≡ rows
      → db'.jobs ≡ rows'
      → completion_call call a now db ≡ ok (db', document)
      → Step rows rows'

pub data Reach (rows : Jobs) : Jobs → Type 0 where
  here : Reach rows rows
  next : {mid end : Jobs} → Reach rows mid → Step mid end → Reach rows end

-- What a statement may do to a row: its identity stays, its attempts do not fall, its status stays
-- or follows `_TRANSITIONS`, and a job that has ended is not touched.
pub record Follows (r r' : JobRow) : Type 0 where
  pub id : r'.id ≡ r.id
  pub document : r'.document_id ≡ r.document_id
  pub revision : r'.document_revision ≡ r.document_revision
  pub type : r'.job_type ≡ r.job_type
  pub max_attempts : r'.max_attempts ≡ r.max_attempts
  pub created : r'.created_at ≡ r.created_at
  pub attempts : r.attempts ≤ r'.attempts
  pub status : (r'.status ≡ r.status) ⊎ (in_transitions r.status r'.status ≡ true)
  pub frozen : is_terminal r.status ≡ true → r' ≡ r

-- Each row of the old table stands in its place in the new one, related; new rows come behind.
abbrev pub Extends : (JobRow → JobRow → Type 0) → Jobs → Jobs → Type 0
Extends R [] rows' = Unit
Extends R (r ∷ rows) [] = ⊥
Extends R (r ∷ rows) (r' ∷ rows') = R r r' × Extends R rows rows'

pub Follows-refl : (r : JobRow) → Follows r r
Follows-refl r = record {
  id = refl;
  document = refl;
  revision = refl;
  type = refl;
  max_attempts = refl;
  created = refl;
  attempts = omega arith;
  status = inl refl;
  frozen = λ t. refl;
}

pub claimed-Follows :
    (locked : ℕ → Bool) (now : ℕ) (owner : String) (lease_for : ℤ) (r : JobRow)
    → is_claimable locked now r ≡ true
    → Follows r (claimed owner lease_for now r)
unfolding is_claimable claimed
claimed-Follows locked now owner lease_for r h = record {
  id = refl;
  document = refl;
  revision = refl;
  type = refl;
  max_attempts = refl;
  created = refl;
  attempts = omega arith;
  status = inr (ground arith);
  frozen = λ t. absurd (ground arith);
}

pub renewed-Follows :
    (id : ℕ) (owner : String) (attempt now : ℕ) (lease_for : ℤ) (r : JobRow)
    → is_owned id owner attempt now r ≡ true
    → Follows r (renewed lease_for now r)
unfolding is_owned renewed
renewed-Follows id owner attempt now lease_for r h = record {
  id = refl;
  document = refl;
  revision = refl;
  type = refl;
  max_attempts = refl;
  created = refl;
  attempts = omega arith;
  status = inl refl;
  frozen = λ t. absurd (ground arith);
}

pub completed-Follows :
    (id : ℕ) (owner : String) (attempt now : ℕ) (r : JobRow)
    → is_owned id owner attempt now r ≡ true
    → Follows r (completed now r)
unfolding is_owned completed
completed-Follows id owner attempt now r h = record {
  id = refl;
  document = refl;
  revision = refl;
  type = refl;
  max_attempts = refl;
  created = refl;
  attempts = omega arith;
  status = inr (ground arith);
  frozen = λ t. absurd (ground arith);
}

pub released-Follows :
    (error : JobErrorCode) (retry_after : ℤ) (now : ℕ) (r : JobRow)
    → r.status ≡ running
    → Follows r (released error retry_after now r)
unfolding released
released-Follows error retry_after now r h = record {
  id = refl;
  document = refl;
  revision = refl;
  type = refl;
  max_attempts = refl;
  created = refl;
  attempts = omega arith;
  status = inr (ground arith);
  frozen = λ t. absurd (ground arith);
}

pub owned-running :
    (id : ℕ) (owner : String) (attempt now : ℕ) (r : JobRow)
    → is_owned id owner attempt now r ≡ true
    → r.status ≡ running
unfolding is_owned
owned-running id owner attempt now r h = ground arith

pub expired-running : (now : ℕ) (r : JobRow) → is_expired now r ≡ true → r.status ≡ running
unfolding is_expired
expired-running now r h = ground arith

pub update_where-Extends :
    (test : JobRow → Bool) (change : JobRow → JobRow) (rows : Jobs)
    → ((r : JobRow) → Memᴰ r rows → test r ≡ true → Follows r (change r))
    → Extends Follows rows (update_where test change rows)
unfolding update_where
update_where-Extends test change [] f = tt
update_where-Extends test change (r ∷ rows) f =
    let rest = update_where-Extends test change rows (λ q m. f q (Memᴰ.tail m)) in
    elim (Bool-cases (test r)) [
      | inl e ↦ rw e (f r (Memᴰ.head refl) e, rest)
      | inr e ↦ rw e (Follows-refl r, rest)
    ]

pub append-Extends : (rows more : Jobs) → Extends Follows rows (rows ++ more)
append-Extends [] more = tt
append-Extends (r ∷ rows) more = (Follows-refl r, append-Extends rows more)
