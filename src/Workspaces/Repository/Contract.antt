-- ===== src/Workspaces/Repository/Contract.antt =====
-- What a change of the index contract marks, and what it leaves alone.
use graph_blizz.Prelude.{
  ℕ, ◌≡◌, refl, sym, subst, ◌∙◌, arith, Bool, true, false, ◌&&◌, Bool-cases, inl, inr, some, List,
  [], ◌∷◌, any, find?, update_where, ◌==◌, if◌then◌else◌,
}
use mathlib.Core.List.{Memᴰ}
use graph_blizz.Documents.Models.{DocumentRevision, deleted}
use graph_blizz.Documents.Db.{Db, WorkspaceRow, DocumentRow, find_revision, status_eq}
use graph_blizz.Documents.Repository.Completion.{active_row, is_active_workspace}
use graph_blizz.Documents.Repository.Completion.Reindex.{find?-test}
use graph_blizz.Indexing.Versions.{IndexContract}
use graph_blizz.Workspaces.Repository.{with_contract, is_marked_by, marked}

-- A row of a table after an UPDATE: the changed row, if it was to be changed.
pub find?-update_where :
    {A : Type 0} (key test : A → Bool) (change : A → A) (xs : List A) (a : A)
    → ((x : A) → key (change x) ≡ key x)
    → find? key xs ≡ some a
    → find? key (update_where test change xs) ≡ some (if test a then change a else a)
unfolding find? update_where
find?-update_where key test change [] a same found = cc
find?-update_where key test change (x ∷ xs) a same found = elim (Bool-cases (key x)) [
  | inl here ↦
      let first : x ≡ a = cc (rw here at found) in
      subst
        (λ y.
          (if key (if test x then change x else x)
            then some (if test x then change x else x)
            else find? key (update_where test change xs))
          ≡ some (if test y then change y else y))
        first
        (elim (Bool-cases (test x)) [
          | inl t ↦ rw t (rw (same x, here) refl)
          | inr t ↦ rw t (rw here refl)
        ])
  | inr later ↦
      let rest = find?-update_where key test change xs a same (rw later at found) in
      elim (Bool-cases (test x)) [
        | inl t ↦ rw t (rw (same x, later) rest)
        | inr t ↦ rw t (rw later rest)
      ]
]

pub any-mem :
    {A : Type 0} (test : A → Bool) (a : A) (xs : List A)
    → Memᴰ a xs
    → test a ≡ true
    → any test xs ≡ true
unfolding any
any-mem test a [] m t = elim m [ ]
any-mem test a (x ∷ xs) (Memᴰ.head same) t = rw (subst (λ y. test y ≡ true) same t) refl
any-mem test a (x ∷ xs) (Memᴰ.tail m) t = ground (arith, any-mem test a xs m t)

any-find? :
    {A : Type 0} (key other : A → Bool) (xs : List A) (a : A)
    → find? key xs ≡ some a
    → other a ≡ true
    → any (λ x. key x && other x) xs ≡ true
unfolding find? any
any-find? key other [] a found t = cc
any-find? key other (x ∷ xs) a found t = elim (Bool-cases (key x)) [
  | inl here ↦
      let first : x ≡ a = cc (rw here at found) in
      rw (here, subst (λ y. other y ≡ true) (sym first) t) refl
  | inr later ↦ rw later (any-find? key other xs a (rw later at found) t)
]

-- The active revision of a document of the workspace is marked, unless the document is deleted.
pub active_row-marked :
    (db : Db) (workspace_id n : ℕ) (d : DocumentRow) (r : DocumentRevision)
    → Memᴰ d db.documents
    → (d.workspace_id == workspace_id) ≡ true
    → status_eq d.status deleted ≡ false
    → d.active_revision ≡ some n
    → find_revision d.id n db.revisions ≡ some r
    → active_row d
        (update_where (λ q. any (is_marked_by workspace_id q) db.documents) marked db.revisions)
      ≡ some (marked r)
unfolding find_revision
active_row-marked db workspace_id n d r there inside alive active found =
    let key : DocumentRevision → Bool = λ q. q.document_id == d.id && q.revision == n in
    let numbered = find?-test key db.revisions r found in
    let test =
      any-mem (is_marked_by workspace_id r) d db.documents there
        (unfold is_marked_by in rw active (ground (arith, numbered))) in
    rw active (
      (find?-update_where key (λ q. any (is_marked_by workspace_id q) db.documents) marked
        db.revisions r (λ q. refl) found)
      ∙ (rw test refl))

-- An active workspace stays active.
pub workspace-stays :
    (c : IndexContract) (now workspace_id id : ℕ) (rows : List WorkspaceRow) (w : WorkspaceRow)
    → find? (λ q. q.id == workspace_id) rows ≡ some w
    → is_active_workspace w.status ≡ true
    → any
        (λ q. q.id == workspace_id && is_active_workspace q.status)
        (update_where (λ q. q.id == id) (with_contract c now) rows)
      ≡ true
workspace-stays c now workspace_id id rows w found is_active =
    any-find? (λ q. q.id == workspace_id) (λ q. is_active_workspace q.status) _ _
      (find?-update_where (λ q. q.id == workspace_id) (λ q. q.id == id) (with_contract c now) rows w
        (λ q. refl) found)
      (elim (Bool-cases (w.id == id)) [ inl e ↦ rw e is_active | inr e ↦ rw e is_active ])
