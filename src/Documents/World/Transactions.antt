-- ===== src/Documents/World/Transactions.antt =====
-- Rules for actions: which leave the committed tables alone, and which commit as their last call.
use graph_blizz.Prelude.{◌≡◌, refl, ◌∙◌, Option, none, some, ℕ, List, Text, Result, ok, err}
use graph_blizz.Errors.{Exn}
use graph_blizz.Documents.Db.{Db}
use graph_blizz.Documents.World.{
  World, Faults, Action, return, raise, after, ◌>>=◌, unless, call, ran, statement, commit,
  rollback, put, delete, reraise, handle, try_except,
}

pub record KeepsCommitted {A : Type 0} (action : Action A) : Type 0 where
  pub run : (faults : Faults) (w : World) → (action faults w).1.committed ≡ w.committed

-- All of the transaction is committed when the action returns, and nothing when it raises.
abbrev pub IsTransacted : {A : Type 0} → World → Result Exn A × World → Type 0
IsTransacted w (ok a, w') = w'.committed ≡ w'.working
IsTransacted w (err e, w') = w'.committed ≡ w.committed

pub record Transacts {A : Type 0} (action : Action A) : Type 0 where
  pub run : (faults : Faults) (w : World) → IsTransacted w (action faults w)

unless-keeps :
    {A : Type 0} (fault : Option Exn) (w : World) (r : Result Exn A × World)
    → r.1.committed ≡ w.committed
    → (unless fault w r).1.committed ≡ w.committed
unless-keeps none w r same = same
unless-keeps (some e) w r same = refl

call-KeepsCommitted :
    {A : Type 0} (effect : World → Result Exn A × World)
    → ((w : World) → (effect w).1.committed ≡ w.committed)
    → KeepsCommitted (call effect)
unfolding call
call-KeepsCommitted effect keeps = record {
  run = λ faults w. unless-keeps (faults w.calls) _ _ (keeps _);
}

ran-keeps : {A : Type 0} (w : World) (r : Result Exn (Db × A)) → (ran w r).1.committed ≡ w.committed
ran-keeps w (ok p) = refl
ran-keeps w (err e) = refl

pub statement-KeepsCommitted :
    {A : Type 0} (s : Db → Result Exn (Db × A)) → KeepsCommitted (statement s)
unfolding statement
statement-KeepsCommitted s = call-KeepsCommitted _ (λ w. ran-keeps w (s w.working))

pub put-KeepsCommitted : (key : Text) (content : List ℕ) → KeepsCommitted (put key content)
unfolding put
put-KeepsCommitted key content = call-KeepsCommitted _ (λ w. refl)

pub delete-KeepsCommitted : (key : Text) → KeepsCommitted (delete key)
unfolding delete
delete-KeepsCommitted key = call-KeepsCommitted _ (λ w. refl)

pub rollback-KeepsCommitted : KeepsCommitted rollback
unfolding rollback
rollback-KeepsCommitted = call-KeepsCommitted _ (λ w. refl)

pub return-KeepsCommitted : {A : Type 0} (a : A) → KeepsCommitted (return a)
unfolding return
return-KeepsCommitted a = record { run = λ faults w. refl }

pub raise-KeepsCommitted : {A : Type 0} (e : Exn) → KeepsCommitted (raise {A = A} e)
unfolding raise
raise-KeepsCommitted e = record { run = λ faults w. refl }

module _ {A B : Type 0} (rest : A → Action B) where
  after-keeps :
      (faults : Faults) (r : Result Exn A × World)
      → ((a : A) → KeepsCommitted (rest a))
      → (after rest faults r).1.committed ≡ r.1.committed
  after-keeps faults (ok a, w) k = (k a).run faults w
  after-keeps faults (err e, w) k = refl

  moved :
      (w' w : World) (r : Result Exn B × World)
      → w'.committed ≡ w.committed
      → IsTransacted w' r
      → IsTransacted w r
  moved w' w (ok b, v) same t = t
  moved w' w (err e, v) same t = t ∙ same

  after-Transacts :
      (faults : Faults) (w : World) (r : Result Exn A × World)
      → r.1.committed ≡ w.committed
      → ((a : A) → Transacts (rest a))
      → IsTransacted w (after rest faults r)
  after-Transacts faults w (ok a, w') same t =
      moved w' w (rest a faults w') same ((t a).run faults w')
  after-Transacts faults w (err e, w') same t = same

pub >>=-KeepsCommitted :
    {A B : Type 0} (first : Action A) (rest : A → Action B)
    → KeepsCommitted first
    → ((a : A) → KeepsCommitted (rest a))
    → KeepsCommitted (first >>= rest)
unfolding ◌>>=◌
>>=-KeepsCommitted first rest f k = record {
  run = λ faults w. (after-keeps rest faults (first faults w) k) ∙ (f.run faults w);
}

pub >>=-Transacts :
    {A B : Type 0} (first : Action A) (rest : A → Action B)
    → KeepsCommitted first
    → ((a : A) → Transacts (rest a))
    → Transacts (first >>= rest)
unfolding ◌>>=◌
>>=-Transacts first rest f t = record {
  run = λ faults w. after-Transacts rest faults w (first faults w) (f.run faults w) t;
}

pub raise-Transacts : {A : Type 0} (e : Exn) → Transacts (raise {A = A} e)
unfolding raise
raise-Transacts e = record { run = λ faults w. refl }

committed_last :
    {A : Type 0} (a : A) (faults : Faults) (w v : World) (fault : Option Exn)
    → v.committed ≡ w.committed
    → IsTransacted w (
        after
          (λ u. return a)
          faults
          (unless fault v (ok (tt {0}), record v { committed = v.working })))
unfolding return
committed_last a faults w v none same = refl
committed_last a faults w v (some e) same = same

pub commit-Transacts : {A : Type 0} (a : A) → Transacts (commit >>= (λ u. return a))
unfolding ◌>>=◌ call commit
commit-Transacts a = record { run = λ faults w. committed_last a faults w _ (faults w.calls) refl }

reraise-IsTransacted :
    (A : Type 0) (e : Exn) (w : World) (r : Result Exn (Unit {0}) × World)
    → r.1.committed ≡ w.committed
    → IsTransacted w (reraise {A = A} e r)
reraise-IsTransacted A e w (ok u, w') same = same
reraise-IsTransacted A e w (err e', w') same = same

handle-IsTransacted :
    {A : Type 0} (handler : Action (Unit {0}))
    → KeepsCommitted handler
    → (faults : Faults) (w : World) (r : Result Exn A × World) → IsTransacted w r
    → IsTransacted w (handle handler faults r)
handle-IsTransacted handler k faults w (ok a, w') t = t
handle-IsTransacted {A = A} handler k faults w (err e, w') t =
    reraise-IsTransacted A e w (handler faults w') ((k.run faults w') ∙ t)

pub try_except-Transacts :
    {A : Type 0} (body : Action A) (handler : Action (Unit {0}))
    → Transacts body
    → KeepsCommitted handler
    → Transacts (try_except body handler)
unfolding try_except
try_except-Transacts body handler t k = record {
  run = λ faults w. handle-IsTransacted handler k faults w (body faults w) (t.run faults w);
}

pub ruleset transactions = (
  statement-KeepsCommitted, put-KeepsCommitted, delete-KeepsCommitted, rollback-KeepsCommitted,
  return-KeepsCommitted, raise-KeepsCommitted, >>=-KeepsCommitted, >>=-Transacts, raise-Transacts,
  commit-Transacts, try_except-Transacts,
)
