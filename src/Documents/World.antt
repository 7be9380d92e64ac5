-- ===== src/Documents/World.antt =====
-- What a request of backend/documents/source_service.py acts on: one database connection, the
-- object store behind backend/storage/object_store.py, and the calls of both that may raise.
-- A call of the database or of the object store that raises has had no effect; a call of LightRAG is
-- on record once it is made, whether or not it raises. The connection's transaction is the pair of
-- the committed tables and the tables that it works on.
pub mod Transactions
pub mod Ensures
pub mod Blocks
use graph_blizz.Prelude.{
  ℕ, suc, Option, none, some, List, [], ◌∷◌, ◌++◌, Text, codes, text_eq, not, filter, Result, ok,
  err, if◌then◌else◌, ◌==◌,
}
use graph_blizz.Errors.{Exn, object_storage_error, object_not_found}
use graph_blizz.Indexing.Calls.{IndexCall}
use graph_blizz.Documents.Db.{Db}

pub record World : Type 0 where
  pub committed : Db
  pub working : Db
  pub objects : List (Text × List ℕ)
  pub stored_key : Option Text
  pub index_calls : List IndexCall
  pub calls : ℕ

-- The exception that the n-th call of the database or of the object store raises, if it raises.
abbrev pub Faults : Type 0
Faults = ℕ → Option Exn

abbrev pub Action : Type 0 → Type 0
Action A = Faults → World → Result Exn A × World

unfoldable pub return : {A : Type 0} → A → Action A
return a faults w = (ok a, w)

unfoldable pub raise : {A : Type 0} → Exn → Action A
raise e faults w = (err e, w)

abbrev pub after :
    {A B : Type 0} → (A → Action B) → Faults → Result Exn A × World → Result Exn B × World
after rest faults (ok a, w) = rest a faults w
after rest faults (err e, w) = (err e, w)

infixl 5 ◌>>=◌
unfoldable pub ◌>>=◌ : {A B : Type 0} → Action A → (A → Action B) → Action B
(first >>= rest) faults w = after rest faults (first faults w)

abbrev pub unless : {A : Type 0} → Option Exn → World → Result Exn A × World → Result Exn A × World
unless none w r = r
unless (some e) w r = (err e, w)

-- One external call.
unfoldable pub call : {A : Type 0} → (World → Result Exn A × World) → Action A
call effect faults w =
    let w' = record w { calls = suc w.calls } in unless (faults w.calls) w' (effect w')

-- A statement: one that raises leaves the tables as they were.
abbrev pub ran : {A : Type 0} → World → Result Exn (Db × A) → Result Exn A × World
ran w (ok r) = (ok r.1, record w { working = r.0 })
ran w (err e) = (err e, w)

unfoldable pub statement : {A : Type 0} → (Db → Result Exn (Db × A)) → Action A
statement s = call (λ w. ran w (s w.working))

-- A statement at the timestamp of its transaction, which `clock` gives for the number of the call.
unfoldable pub statement_at :
    {A : Type 0} → (clock : ℕ → ℕ) → (ℕ → Db → Result Exn (Db × A)) → Action A
statement_at clock s faults w = statement (s (clock w.calls)) faults w

unfoldable pub commit : Action (Unit {0})
commit = call (λ w. (ok tt, record w { committed = w.working }))

unfoldable pub rollback : Action (Unit {0})
rollback = call (λ w. (ok tt, record w { working = w.committed }))

-- A call of a LightRAG runtime.
unfoldable pub index_call : IndexCall → Action (Unit {0})
index_call c faults w =
    call (λ w. (ok tt, w)) faults (record w { index_calls = w.index_calls ++ c ∷ [] })

-- A call that only may raise, such as the opening of a runtime or the taking of a lock.
unfoldable pub outside : Action (Unit {0})
outside = call (λ w. (ok tt, w))

-- `async with` a connection: the block's transaction is committed at its end, and rolled back when it
-- raises, whatever the rollback does.
abbrev pub closed : {A : Type 0} → Faults → Result Exn A × World → Result Exn A × World
closed faults (ok a, w) = after (λ u. return a) faults (commit faults w)
closed faults (err e, w) = (err e, (rollback faults w).1)

unfoldable pub with_connection : {A : Type 0} → Action A → Action A
with_connection body faults w = closed faults (body faults w)

-- ObjectStore.put, delete, uri, get and get_uri.
abbrev pub without : Text → List (Text × List ℕ) → List (Text × List ℕ)
without key objects = filter (λ o. not (text_eq o.0 key)) objects

unfoldable pub put : Text → List ℕ → Action (Unit {0})
put key content = call (λ w. (ok tt, record w { objects = (key, content) ∷ without key w.objects }))

unfoldable pub delete : Text → Action (Unit {0})
delete key = call (λ w. (ok tt, record w { objects = without key w.objects }))

unfoldable pub lookup : Text → List (Text × List ℕ) → Option (List ℕ)
lookup key [] = none
lookup key (o ∷ objects) =
    let rest = lookup key objects in if text_eq o.0 key then some o.1 else rest

abbrev pub found_object : World → Option (List ℕ) → Result Exn (List ℕ) × World
found_object w none = (err object_not_found, w)
found_object w (some content) = (ok content, w)

unfoldable pub get_object : Text → Action (List ℕ)
get_object key = call (λ w. found_object w (lookup key w.objects))

unfoldable pub bucket_prefix : Text → Text
bucket_prefix bucket = codes "s3://" ++ (bucket ++ codes "/")

unfoldable pub uri : (bucket key : Text) → Text
unfolding bucket_prefix
uri bucket key = bucket_prefix bucket ++ key

-- The text after a prefix, if it starts with it.
unfoldable pub after_prefix : Text → Text → Option Text
after_prefix [] text = some text
after_prefix (c ∷ prefix) [] = none
after_prefix (c ∷ prefix) (d ∷ text) =
    let rest = after_prefix prefix text in if c == d then rest else none

-- The key of an address of the bucket, if it has one.
abbrev pub get_key : Option Text → Action (List ℕ)
get_key none = raise object_storage_error
get_key (some []) = raise object_storage_error
get_key (some (c ∷ key)) = get_object (c ∷ key)

unfoldable pub get_uri : (bucket uri : Text) → Action (List ℕ)
unfolding after_prefix bucket_prefix
get_uri bucket uri = get_key (after_prefix (bucket_prefix bucket) uri)

-- `except BaseException: handler; raise`: an exception of the handler takes the first one's place.
abbrev pub reraise : {A : Type 0} → Exn → Result Exn (Unit {0}) × World → Result Exn A × World
reraise e (ok u, w) = (err e, w)
reraise e (err e', w) = (err e', w)

abbrev pub handle :
    {A : Type 0} → Action (Unit {0}) → Faults → Result Exn A × World → Result Exn A × World
handle handler faults (ok a, w) = (ok a, w)
handle handler faults (err e, w) = reraise e (handler faults w)

unfoldable pub try_except : {A : Type 0} → Action A → Action (Unit {0}) → Action A
try_except body handler faults w = handle handler faults (body faults w)
