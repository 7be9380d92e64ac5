-- ===== src/Documents/World/Ensures.antt =====
-- What an action ensures of the tables, the objects and the calls of LightRAG, when it returns and when
-- it raises, whichever calls raise.
use graph_blizz.Prelude.{
  ℕ, ◌≡◌, refl, Option, none, some, List, [], ◌∷◌, ◌++◌, Text, Result, ok, err,
}
use graph_blizz.Errors.{Exn}
use graph_blizz.Indexing.Calls.{IndexCall}
use graph_blizz.Documents.Db.{Db}
use graph_blizz.Documents.World.{
  World, Faults, Action, return, raise, after, ◌>>=◌, unless, call, ran, statement, statement_at,
  commit, rollback, index_call, outside,
}

-- A condition on the committed tables, the working tables, the objects and the calls.
abbrev pub Condition : Type 1
Condition = Db → Db → List (Text × List ℕ) → List IndexCall → Type 0

abbrev pub AtWorld : Condition → World → Type 0
AtWorld P w = P w.committed w.working w.objects w.index_calls

abbrev pub Outcome : {A : Type 0} → (A → Condition) → Condition → Result Exn A × World → Type 0
Outcome Ok Bad (ok a, w) = AtWorld (Ok a) w
Outcome Ok Bad (err e, w) = AtWorld Bad w

pub record Ensures {A : Type 0} (Pre : Condition) (action : Action A) (Ok : A → Condition)
    (Bad : Condition) : Type 0 where
  pub run : (faults : Faults) (w : World) → AtWorld Pre w → Outcome Ok Bad (action faults w)

module _ {A B : Type 0} where
  pub after-Outcome :
      (Mid : A → Condition) (Ok : B → Condition) (Bad : Condition) (rest : A → Action B)
      → ((a : A) → Ensures (Mid a) (rest a) Ok Bad)
      → (faults : Faults) (r : Result Exn A × World) → Outcome Mid Bad r
      → Outcome Ok Bad (after rest faults r)
  after-Outcome Mid Ok Bad rest k faults (ok a, w) h = (k a).run faults w h
  after-Outcome Mid Ok Bad rest k faults (err e, w) h = h

  pub bind :
      {Pre : Condition} (Mid : A → Condition) {Ok : B → Condition} {Bad : Condition}
      {first : Action A} {rest : A → Action B}
      → Ensures Pre first Mid Bad
      → ((a : A) → Ensures (Mid a) (rest a) Ok Bad)
      → Ensures Pre (first >>= rest) Ok Bad
  unfolding ◌>>=◌
  bind Mid {Ok} {Bad} {first} {rest} f k = record {
    run = λ faults w h. after-Outcome Mid Ok Bad rest k faults (first faults w) (f.run faults w h);
  }

module _ {A : Type 0} where
  weaken-Outcome :
      (Ok Ok' : A → Condition) (Bad Bad' : Condition)
      → ((a : A) (c k : Db) (o : List (Text × List ℕ)) (l : List IndexCall)
          → Ok a c k o l
          → Ok' a c k o l)
      → ((c k : Db) (o : List (Text × List ℕ)) (l : List IndexCall) → Bad c k o l → Bad' c k o l)
      → (r : Result Exn A × World) → Outcome Ok Bad r
      → Outcome Ok' Bad' r
  weaken-Outcome Ok Ok' Bad Bad' good bad (ok a, w) h =
      good a w.committed w.working w.objects w.index_calls h
  weaken-Outcome Ok Ok' Bad Bad' good bad (err e, w) h =
      bad w.committed w.working w.objects w.index_calls h

  pub weaken :
      {Pre Pre' : Condition} {Ok Ok' : A → Condition} {Bad Bad' : Condition} {action : Action A}
      → ((c k : Db) (o : List (Text × List ℕ)) (l : List IndexCall) → Pre' c k o l → Pre c k o l)
      → ((a : A) (c k : Db) (o : List (Text × List ℕ)) (l : List IndexCall)
          → Ok a c k o l
          → Ok' a c k o l)
      → ((c k : Db) (o : List (Text × List ℕ)) (l : List IndexCall) → Bad c k o l → Bad' c k o l)
      → Ensures Pre action Ok Bad
      → Ensures Pre' action Ok' Bad'
  weaken {Pre} {Pre'} {Ok} {Ok'} {Bad} {Bad'} {action} pre good bad f = record {
    run = λ faults w h.
        weaken-Outcome Ok Ok' Bad Bad' good bad (action faults w)
          (f.run faults w (pre w.committed w.working w.objects w.index_calls h));
  }

  pub returns : {Ok : A → Condition} {Bad : Condition} (a : A) → Ensures (Ok a) (return a) Ok Bad
  unfolding return
  returns a = record { run = λ faults w h. h }

  pub raises : {Ok : A → Condition} {Bad : Condition} (e : Exn) → Ensures Bad (raise e) Ok Bad
  unfolding raise
  raises e = record { run = λ faults w h. h }

  pub unless-Outcome :
      (Ok : A → Condition) (Bad : Condition) (fault : Option Exn) (w : World)
      (r : Result Exn A × World)
      → AtWorld Bad w
      → Outcome Ok Bad r
      → Outcome Ok Bad (unless fault w r)
  unless-Outcome Ok Bad none w r bad good = good
  unless-Outcome Ok Bad (some e) w r bad good = bad

  ran-Outcome :
      (Ok : A → Condition) (Bad : Condition) (w : World) (r : Result Exn (Db × A))
      → AtWorld Bad w
      → ((db : Db) (a : A) → r ≡ ok (db, a) → Ok a w.committed db w.objects w.index_calls)
      → Outcome Ok Bad (ran w r)
  ran-Outcome Ok Bad w (ok p) bad good = good p.0 p.1 refl
  ran-Outcome Ok Bad w (err e) bad good = bad

  -- A statement: what holds before it holds when it raises.
  pub states :
      {Pre : Condition} {Ok : A → Condition} (clock : ℕ → ℕ) (s : ℕ → Db → Result Exn (Db × A))
      → ((now : ℕ) (c k : Db) (o : List (Text × List ℕ)) (l : List IndexCall) (db : Db) (a : A)
          → Pre c k o l
          → s now k ≡ ok (db, a)
          → Ok a c db o l)
      → Ensures Pre (statement_at clock s) Ok Pre
  unfolding statement_at statement call
  states {Pre} {Ok} clock s good = record {
    run = λ faults w h. unless-Outcome Ok Pre (faults w.calls) _ _ h (
        ran-Outcome Ok Pre _ (s (clock w.calls) w.working) h
          (λ db a e. good (clock w.calls) w.committed w.working w.objects w.index_calls db a h e));
  }

  -- The same for a statement at one of the instants of the clock.
  pub states_clocked :
      {Pre : Condition} {Ok : A → Condition} (clock : ℕ → ℕ) (s : ℕ → Db → Result Exn (Db × A))
      → ((n : ℕ) (c k : Db) (o : List (Text × List ℕ)) (l : List IndexCall) (db : Db) (a : A)
          → Pre c k o l
          → s (clock n) k ≡ ok (db, a)
          → Ok a c db o l)
      → Ensures Pre (statement_at clock s) Ok Pre
  unfolding statement_at statement call
  states_clocked {Pre} {Ok} clock s good = record {
    run = λ faults w h. unless-Outcome Ok Pre (faults w.calls) _ _ h (
        ran-Outcome Ok Pre _ (s (clock w.calls) w.working) h
          (λ db a e. good w.calls w.committed w.working w.objects w.index_calls db a h e));
  }

pub commits :
    {Pre : Condition} {Ok : Condition}
    → ((c k : Db) (o : List (Text × List ℕ)) (l : List IndexCall) → Pre c k o l → Ok k k o l)
    → Ensures Pre commit (λ u. Ok) Pre
unfolding commit call
commits {Pre} {Ok} good = record {
  run = λ faults w h.
      unless-Outcome (λ (u : Unit {0}). Ok) Pre (faults w.calls) _ _ h
        (good w.committed w.working w.objects w.index_calls h);
}

-- A call that may raise and changes nothing.
pub passes : {Pre : Condition} → Ensures Pre outside (λ u. Pre) Pre
unfolding outside call
passes {Pre} = record {
  run = λ faults w h. unless-Outcome (λ (u : Unit {0}). Pre) Pre (faults w.calls) _ _ h h;
}

-- A call of LightRAG is on record also when it raises.
pub indexes :
    {Pre Post : Condition} (i : IndexCall)
    → ((c k : Db) (o : List (Text × List ℕ)) (l : List IndexCall)
        → Pre c k o l
        → Post c k o (l ++ i ∷ []))
    → Ensures Pre (index_call i) (λ u. Post) Post
unfolding index_call call
indexes {Pre} {Post} i good = record {
  run = λ faults w h.
      let now = good w.committed w.working w.objects w.index_calls h in
      unless-Outcome (λ (u : Unit {0}). Post) Post (faults w.calls) _ _ now now;
}

-- A fact that no call changes may be used on the way.
module _ {A : Type 0} where
  given-run :
      (Pre : Condition) (P : Type 0) (action : Action A) (Ok : A → Condition) (Bad : Condition)
      → (P → Ensures Pre action Ok Bad)
      → (faults : Faults) (w : World) → AtWorld Pre w × P
      → Outcome Ok Bad (action faults w)
  given-run Pre P action Ok Bad k faults w h = (k h.1).run faults w h.0

  pub given :
      {Pre : Condition} {P : Type 0} {action : Action A} {Ok : A → Condition} {Bad : Condition}
      → (P → Ensures Pre action Ok Bad)
      → Ensures (λ c k o l. Pre c k o l × P) action Ok Bad
  given {Pre} {P} {action} {Ok} {Bad} k = record { run = given-run Pre P action Ok Bad k }

-- The same for a value that the condition speaks of.
module _ {A X : Type 0} where
  chosen-run :
      (Pre : X → Condition) (action : Action A) (Ok : A → Condition) (Bad : Condition)
      → ((x : X) → Ensures (Pre x) action Ok Bad)
      → (faults : Faults) (w : World)
      → ((x : X) × Pre x w.committed w.working w.objects w.index_calls)
      → Outcome Ok Bad (action faults w)
  chosen-run Pre action Ok Bad k faults w h = (k h.0).run faults w h.1

  pub chosen :
      (Pre : X → Condition) {action : Action A} {Ok : A → Condition} {Bad : Condition}
      → ((x : X) → Ensures (Pre x) action Ok Bad)
      → Ensures (λ c k o l. (x : X) × Pre x c k o l) action Ok Bad
  chosen Pre {action} {Ok} {Bad} k = record { run = chosen-run Pre action Ok Bad k }

pub rolls_back :
    {Pre : Condition}
    → ((c k : Db) (o : List (Text × List ℕ)) (l : List IndexCall) → Pre c k o l → Pre c c o l)
    → Ensures Pre rollback (λ u. Pre) Pre
unfolding rollback call
rolls_back {Pre} good = record {
  run = λ faults w h.
      unless-Outcome (λ (u : Unit {0}). Pre) Pre (faults w.calls) _ _ h
        (good w.committed w.working w.objects w.index_calls h);
}
