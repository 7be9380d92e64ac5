-- ===== src/Rag/Registry.antt =====
-- backend/rag/runtime_registry.py: one runtime for each workspace, under a lock, and its shutdown.
-- A runtime is a number. `created` and `closed` are a history, which the code does not keep.
pub mod Balance
pub mod Events
pub mod Shutdown
use graph_blizz.Prelude.{
  ℕ, Bool, true, false, ◌&&◌, ◌==◌, if◌then◌else◌, Option, none, some, is_some, List, [], ◌∷◌, ◌++◌,
  Text, text_eq, any, map, Result, ok, err, find?,
}
use graph_blizz.Errors.{Exn, runtime_error}
use graph_blizz.Security.Models.{AuthorizedWorkspaceContext}
use graph_blizz.Indexing.Service.{namespace_of}

pub record CacheKey : Type 0 where
  pub workspace_id : ℕ
  pub index_schema_version : ℕ
  pub embedding_profile : Option Text

abbrev pub profile_eq : Option Text → Option Text → Bool
profile_eq none none = true
profile_eq (some a) (some b) = text_eq a b
profile_eq a b = false

abbrev pub key_eq : CacheKey → CacheKey → Bool
key_eq a b =
    a.workspace_id == b.workspace_id
    && a.index_schema_version == b.index_schema_version
    && profile_eq a.embedding_profile b.embedding_profile

-- Who holds the lock: nobody, a `get` that waits for the factory, or `_close_all` with the runtimes
-- that it took.
pub data Lock : Type 0 where
  free : Lock
  creating : CacheKey → (namespace : Text) → Lock
  closing_all : List ℕ → Lock

-- `_close_task`: none, waiting for the lock, holding it, or done.
pub data CloseTask : Type 0 where
  not_called called running finished : CloseTask

pub record RuntimeRegistry : Type 0 where
  pub runtimes : List (CacheKey × ℕ)
  pub closing : Bool
  pub lock : Lock
  pub close_task : CloseTask
  pub created : List ℕ
  pub closed : List ℕ

-- `__init__`
abbrev pub new_registry : RuntimeRegistry
new_registry = record {
  runtimes = [];
  closing = false;
  lock = free;
  close_task = not_called;
  created = [];
  closed = [];
}

abbrev pub cache_key : AuthorizedWorkspaceContext → CacheKey
cache_key context = record {
  workspace_id = context.workspace_id;
  index_schema_version = context.index_schema_version;
  embedding_profile = context.embedding_profile;
}

-- `self._runtimes.get`
unfoldable pub runtime_for : CacheKey → List (CacheKey × ℕ) → Option ℕ
runtime_for key [] = none
runtime_for key (entry ∷ entries) =
    let rest = runtime_for key entries in if key_eq entry.0 key then some entry.1 else rest

-- What `get` finds once it holds the lock.
pub data Found : Type 0 where
  present : ℕ → Found
  absent : CacheKey → (namespace : Text) → Found

abbrev pub found_in : (digest : Text → Text) → AuthorizedWorkspaceContext → Option ℕ → Found
found_in digest context (some runtime) = present runtime
found_in digest context none = absent (cache_key context) (namespace_of digest context)

-- `get`, from the lock to the factory. The check before the lock asks the same earlier.
unfoldable pub get_locked :
    (digest : Text → Text) → AuthorizedWorkspaceContext → RuntimeRegistry → Result Exn Found
get_locked digest context s =
    if s.closing
    then err runtime_error
    else ok (found_in digest context (runtime_for (cache_key context) s.runtimes))

-- What the tasks of the event loop do between two waits.
pub data Event : Type 0 where
  getting : AuthorizedWorkspaceContext → Event
  factory_returns : (runtime : ℕ) → Event
  factory_raises close_called close_takes close_ends : Event

-- A `get` that takes the lock: it raises, returns a runtime, or waits for the factory.
abbrev pub got : Result Exn Found → Lock → RuntimeRegistry → Option RuntimeRegistry
got (ok (absent key namespace)) free s = some (record s { lock = creating key namespace })
got (ok (present runtime)) free s = some s
got (err e) free s = some s
got found lock s = none

-- The factory returns a runtime that is new, and `get` keeps it.
unfoldable pub kept_runtime : (runtime : ℕ) → Lock → RuntimeRegistry → Option RuntimeRegistry
kept_runtime runtime (creating key namespace) s =
    if any (λ r. r == runtime) s.created
    then none
    else some (record s {
      runtimes = (key, runtime) ∷ s.runtimes;
      lock = free;
      created = runtime ∷ s.created;
    })
kept_runtime runtime lock s = none

abbrev pub failed_runtime : Lock → RuntimeRegistry → Option RuntimeRegistry
failed_runtime (creating key namespace) s = some (record s { lock = free })
failed_runtime lock s = none

-- `close`, up to its wait for the task.
abbrev pub close : CloseTask → RuntimeRegistry → RuntimeRegistry
close not_called s = record s { closing = true; close_task = called }
close task s = s

-- `_close_all`, from the lock to its wait for the runtimes.
abbrev pub close_all : CloseTask → Lock → RuntimeRegistry → Option RuntimeRegistry
close_all called free s = some (record s {
  runtimes = [];
  lock = closing_all (map (λ (entry : CacheKey × ℕ). entry.1) s.runtimes);
  close_task = running;
})
close_all task lock s = none

-- `_close_all`, when every runtime has been closed or has raised.
abbrev pub close_ended : Lock → RuntimeRegistry → Option RuntimeRegistry
close_ended (closing_all runtimes) s =
    some (record s { lock = free; close_task = finished; closed = runtimes ++ s.closed })
close_ended lock s = none

-- What `_close_all` raises: the first of the errors.
unfoldable pub first_error : List (Option Exn) → Result Exn (Unit {0})
first_error [] = ok tt
first_error (none ∷ results) = first_error results
first_error (some e ∷ results) = err e

unfoldable pub next_state :
    (digest : Text → Text) → Event → RuntimeRegistry → Option RuntimeRegistry
unfolding get_locked kept_runtime
next_state digest (getting context) s = got (get_locked digest context s) s.lock s
next_state digest (factory_returns runtime) s = kept_runtime runtime s.lock s
next_state digest factory_raises s = failed_runtime s.lock s
next_state digest close_called s = some (close s.close_task s)
next_state digest close_takes s = close_all s.close_task s.lock s
next_state digest close_ends s = close_ended s.lock s

abbrev pub and_then : {A B : Type 0} → Option A → (A → Option B) → Option B
and_then none f = none
and_then (some a) f = f a

-- A sequence of events; none, if one of them cannot happen where it stands.
unfoldable pub run_events :
    (digest : Text → Text) → List Event → RuntimeRegistry → Option RuntimeRegistry
run_events digest [] s = some s
run_events digest (event ∷ events) s =
    and_then (next_state digest event s) (λ s'. run_events digest events s')
