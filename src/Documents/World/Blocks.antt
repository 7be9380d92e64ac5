-- ===== src/Documents/World/Blocks.antt =====
-- What the blocks of the code ensure: `try` with its handler, a connection, and a read of an object.
use graph_blizz.Prelude.{
  ℕ, suc, ◌≡◌, refl, Option, none, some, List, [], ◌∷◌, Text, Result, ok, err,
}
use graph_blizz.Errors.{Exn, object_storage_error}
use graph_blizz.Indexing.Calls.{IndexCall}
use graph_blizz.Documents.Db.{Db}
use graph_blizz.Documents.World.{
  World, Faults, Action, return, after, unless, call, commit, rollback, closed, with_connection,
  get_object, get_key, get_uri, found_object, lookup, after_prefix, bucket_prefix, reraise, handle,
  try_except,
}
use graph_blizz.Documents.World.Ensures.{
  Condition, AtWorld, Outcome, Ensures, after-Outcome, unless-Outcome, weaken, returns, raises,
  commits,
}

-- `try` with a handler that lets the exception go on.
module _ {A : Type 0} (Mid Bad : Condition) (Ok : A → Condition) where
  reraise-Outcome :
      (e : Exn) (r : Result Exn (Unit {0}) × World)
      → Outcome (λ u. Bad) Bad r
      → Outcome Ok Bad (reraise {A = A} e r)
  reraise-Outcome e (ok u, w) h = h
  reraise-Outcome e (err e', w) h = h

  handle-Outcome :
      (handler : Action (Unit {0}))
      → Ensures Mid handler (λ u. Bad) Bad
      → (faults : Faults) (r : Result Exn A × World) → Outcome Ok Mid r
      → Outcome Ok Bad (handle handler faults r)
  handle-Outcome handler k faults (ok a, w) h = h
  handle-Outcome handler k faults (err e, w) h =
      reraise-Outcome e (handler faults w) (k.run faults w h)

  pub excepts :
      (Pre : Condition) (body : Action A) (handler : Action (Unit {0}))
      → Ensures Pre body Ok Mid
      → Ensures Mid handler (λ u. Bad) Bad
      → Ensures Pre (try_except body handler) Ok Bad
  unfolding try_except
  excepts Pre body handler f k = record {
    run = λ faults w h. handle-Outcome handler k faults (body faults w) (f.run faults w h);
  }

-- A connection: the block's tables are committed at its end, or what the block had not committed goes.
module _ {A : Type 0} (Bad Bad' : Condition) (Ok Ok' : A → Condition)
    (good : (a : A) (c k : Db) (o : List (Text × List ℕ)) (l : List IndexCall)
      → Ok a c k o l
      → Ok' a k k o l)
    (lost : (a : A) (c k : Db) (o : List (Text × List ℕ)) (l : List IndexCall)
      → Ok a c k o l
      → Bad' c k o l)
    (bad : (c k : Db) (o : List (Text × List ℕ)) (l : List IndexCall) → Bad c k o l → Bad' c k o l)
    (undone : (c k : Db) (o : List (Text × List ℕ)) (l : List IndexCall)
      → Bad c k o l
      → Bad' c c o l) where
  committed-Outcome :
      (a : A) (faults : Faults) (w : World)
      → AtWorld (Ok a) w
      → Outcome Ok' Bad' (after (λ u. return a) faults (commit faults w))
  committed-Outcome a faults w h =
      after-Outcome (λ (u : Unit {0}). Ok' a) Ok' Bad' (λ u. return a) (λ u. returns a) faults
        (commit faults w)
        ((weaken {Pre = Ok a} {Pre' = Ok a} {Ok = λ (u : Unit {0}). Ok' a} {Ok' = λ u. Ok' a}
            {Bad = Ok a} {Bad' = Bad'} (λ c k o l t. t) (λ u c k o l t. t) (lost a)
            (commits (good a))).run
          faults w h)

  rolled_back :
      (fault : Option Exn) (w : World)
      → AtWorld Bad w
      → AtWorld Bad' ((unless fault w (ok (tt {0}), record w { working = w.committed })).1)
  rolled_back none w h = undone w.committed w.working w.objects w.index_calls h
  rolled_back (some e) w h = bad w.committed w.working w.objects w.index_calls h

  closed-Outcome :
      (faults : Faults) (r : Result Exn A × World)
      → Outcome Ok Bad r
      → Outcome Ok' Bad' (closed faults r)
  unfolding rollback call
  closed-Outcome faults (ok a, w) h = committed-Outcome a faults w h
  closed-Outcome faults (err e, w) h =
      rolled_back (faults w.calls) (record w { calls = suc w.calls }) h

  pub connects :
      (Pre : Condition) (body : Action A)
      → Ensures Pre body Ok Bad
      → Ensures Pre (with_connection body) Ok' Bad'
  unfolding with_connection
  connects Pre body f = record {
    run = λ faults w h. closed-Outcome faults (body faults w) (f.run faults w h);
  }

-- The object that an address names.
abbrev pub IsStored : (bucket address : Text) → List (Text × List ℕ) → List ℕ → Type 0
IsStored bucket address objects content =
    (key : Text) × (after_prefix (bucket_prefix bucket) address ≡ some key)
    × (lookup key objects ≡ some content)

-- A read returns the stored object, or raises and changes nothing.
got-Outcome :
    (Pre : Condition) (bucket address key : Text) (w : World) (found : Option (List ℕ))
    → after_prefix (bucket_prefix bucket) address ≡ some key
    → lookup key w.objects ≡ found
    → AtWorld Pre w
    → Outcome
        (λ content c k o l. Pre c k o l × IsStored bucket address o content)
        Pre
        (found_object w found)
got-Outcome Pre bucket address key w none named there h = h
got-Outcome Pre bucket address key w (some content) named there h = (h, (key, named, there))

get_object-Ensures :
    (Pre : Condition) (bucket address key : Text)
    → after_prefix (bucket_prefix bucket) address ≡ some key
    → Ensures Pre
        (get_object key)
        (λ content c k o l. Pre c k o l × IsStored bucket address o content)
        Pre
unfolding get_object call
get_object-Ensures Pre bucket address key named = record {
  run = λ faults w h.
      unless-Outcome _ Pre (faults w.calls) _ _ h
        (got-Outcome Pre bucket address key _ (lookup key w.objects) named refl h);
}

get_key-Ensures :
    (Pre : Condition) (bucket address : Text) (key : Option Text)
    → after_prefix (bucket_prefix bucket) address ≡ key
    → Ensures Pre
        (get_key key)
        (λ content c k o l. Pre c k o l × IsStored bucket address o content)
        Pre
get_key-Ensures Pre bucket address none named = raises object_storage_error
get_key-Ensures Pre bucket address (some []) named = raises object_storage_error
get_key-Ensures Pre bucket address (some (d ∷ key)) named =
    get_object-Ensures Pre bucket address (d ∷ key) named

pub reads :
    {Pre : Condition} (bucket address : Text)
    → Ensures Pre
        (get_uri bucket address)
        (λ content c k o l. Pre c k o l × IsStored bucket address o content)
        Pre
unfolding get_uri
reads {Pre} bucket address =
    get_key-Ensures Pre bucket address (after_prefix (bucket_prefix bucket) address) refl
