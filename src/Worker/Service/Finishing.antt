-- ===== src/Worker/Service/Finishing.antt =====
-- Rebuilding, replacement and deletion: what is committed when they return and when they raise.
use graph_blizz.Prelude.{
  ℕ, ◌≡◌, refl, sym, subst, Bool, true, false, Option, none, some, List, [], ◌∷◌, ◌++◌, Text,
  Result, ok,
}
use graph_blizz.Errors.{Exn, runtime_error}
use graph_blizz.Jobs.Models.{Job}
use graph_blizz.Documents.Models.{ready, deleting, Document}
use graph_blizz.Documents.Db.{Db}
use graph_blizz.Documents.World.{World, Faults, Action, ◌>>=◌}
use graph_blizz.Documents.World.Ensures.{
  Condition, Outcome, Ensures, bind, weaken, returns, raises, states, commits, given,
}
use graph_blizz.Documents.Repository.Completion.{
  complete_replacement_for_job, complete_deletion_for_job, complete_reindex_for_job,
}
use graph_blizz.Indexing.Calls.{IndexCall}
use graph_blizz.Parsers.Models.{ParsedDocument}
use graph_blizz.Security.Models.{AuthorizedWorkspaceContext}
use graph_blizz.Indexing.Provenance.{
  code_chunk_documents, delete_indexed_document, insert_parsed_document,
}
use graph_blizz.Indexing.Provenance.Written.{
  Called, Began, Called-start, insertion, deletion, insert_parsed_document-Ensures,
  delete_indexed_document-Ensures,
}
use graph_blizz.Indexing.Service.{Environment, namespace_of, parse_stored}
use graph_blizz.Indexing.Service.Rules.{
  required-Ensures, IsParse, parse_stored-Ensures, get_runtime-Ensures,
}
use graph_blizz.Worker.Service.{
  demand, is_in, is_job_revision, attempt_in, versions_of, finish, reindex_job, replace_job,
  delete_job,
}

demand-Ensures :
    {Pre : Condition} (test : Bool) (e : Exn)
    → Ensures Pre (demand test e) (λ u c k o l. Pre c k o l × (test ≡ true)) Pre
demand-Ensures true e =
    weaken (λ c k o l h. (h, refl)) (λ x c k o l h. h) (λ c k o l h. h) (returns tt)
demand-Ensures false e = raises e

-- A completing statement that got its document has been committed, after these calls.
abbrev pub Finished :
    World → (complete : ℕ → Db → Result Exn (Db × Option Document)) → List IndexCall → Condition
Finished w complete calls = λ c k o l.
    (now : ℕ) × (document : Document) × (complete now w.working ≡ ok (c, some document))
    × (l ≡ w.index_calls ++ calls)

abbrev pub Uncommitted : World → Condition
Uncommitted w = λ c k o l. c ≡ w.committed

finish-Ensures :
    (w : World) (env : Environment) (complete : ℕ → Db → Result Exn (Db × Option Document))
    (calls : List IndexCall)
    → Ensures
        (Called w calls)
        (finish env complete)
        (λ u. Finished w complete calls)
        (Uncommitted w)
unfolding finish
finish-Ensures w env complete calls =
    let Ran : Option Document → Condition = λ completed c k o l.
      (c ≡ w.committed)
      × (now : ℕ) × (complete now w.working ≡ ok (k, completed))
      × (l ≡ w.index_calls ++ calls) in
    bind Ran
      (weaken (λ c k o l h. h) (λ a c k o l h. h) (λ c k o l (h : Called w calls c k o l). h.0)
        (states env.clock complete (λ now c k o l db a h e.
          (h.0, now, subst (λ t. complete now t ≡ ok (db, a)) h.1 e, h.3))))
      (λ completed.
        bind (λ (document : Document) c k o l. Ran completed c k o l × (completed ≡ some document))
          (weaken (λ c k o l h. h) (λ a c k o l h. h) (λ c k o l (h : Ran completed c k o l). h.0)
            (required-Ensures completed runtime_error))
          (λ document.
            weaken (λ c k o l h. h) (λ a c k o l h. h)
              (λ c k o l (h : Ran completed c k o l × (completed ≡ some document)). h.0.0)
              (commits (λ c k o l h. (
                h.0.1,
                document,
                subst (λ t. complete h.0.1 w.working ≡ ok (k, t)) h.1 h.0.2,
                h.0.3,
              )))))

module _ (w : World) where
  -- A step before the completing statement: a raise leaves nothing committed.
  then_step :
      {A : Type 0} {first : Action A} {rest : A → Action (Unit {0})} {Ok : Unit {0} → Condition}
      (Mid : A → Condition)
      → Ensures (Called w []) first Mid (Called w [])
      → ((a : A) → Ensures (Mid a) (rest a) Ok (Uncommitted w))
      → Ensures (Called w []) (first >>= rest) Ok (Uncommitted w)
  then_step Mid f k =
      bind Mid
        (weaken (λ c k o l h. h) (λ a c k o l h. h) (λ c k o l (h : Called w [] c k o l). h.0) f) k

  parses :
      (env : Environment) (document : Document)
      → Ensures
          (Called w [])
          (parse_stored env document)
          (λ parsed c k o l. Called w [] c k o l × IsParse env document w.objects parsed)
          (Called w [])
  parses env document =
      weaken (λ c k o l h. h)
        (λ parsed c k o l h. (h.0, subst (λ t. IsParse env document t parsed) h.0.2 h.1))
        (λ c k o l h. h) (parse_stored-Ensures {Pre = Called w []} env document)

  module _ (env : Environment) (context : AuthorizedWorkspaceContext) (job : Job) where
    abbrev pub Deleted : Document → Condition
    Deleted document = λ c k o l.
        (is_in deleting document ≡ true)
        × (is_job_revision document job ≡ true)
        × (parsed : ParsedDocument) × IsParse env document w.objects parsed
        × Finished w (complete_deletion_for_job (attempt_in context document job))
            (deletion env.content_id (namespace_of env.digest context) parsed
              (code_chunk_documents env.codec document parsed none))
            c k o l

    delete_written :
        (document : Document) (parsed : ParsedDocument) (namespace : Text)
        → is_in deleting document ≡ true
        → is_job_revision document job ≡ true
        → IsParse env document w.objects parsed
        → namespace_of env.digest context ≡ namespace
        → Ensures
            (Called w [])
            (delete_indexed_document env.codec env.content_id namespace document parsed
              >>= (λ u. finish env (complete_deletion_for_job (attempt_in context document job))))
            (λ u. Deleted document)
            (Uncommitted w)
    delete_written document parsed namespace waits current found same =
        let complete = complete_deletion_for_job (attempt_in context document job) in
        let calls : Text → List IndexCall = λ n.
          deletion env.content_id n parsed (code_chunk_documents env.codec document parsed none) in
        bind (λ u. Called w (calls namespace))
          (weaken (λ c k o l h. h) (λ a c k o l h. h)
            (λ c k o l (h : Began w (calls namespace) c k o l). h.3.0)
            (delete_indexed_document-Ensures w [] env.codec env.content_id namespace document
              parsed))
          (λ u.
            weaken (λ c k o l h. h)
              (λ a c k o l h. (
                waits,
                current,
                parsed,
                found,
                subst (λ n. Finished w complete (calls n) c k o l) (sym same) h,
              ))
              (λ c k o l h. h) (finish-Ensures w env complete (calls namespace)))

    delete_job-Ensures :
        (document : Document)
        → Ensures
            (Called w [])
            (delete_job env context document job)
            (λ u. Deleted document)
            (Uncommitted w)
    unfolding delete_job
    delete_job-Ensures document =
        then_step _ (demand-Ensures (is_in deleting document) runtime_error) (λ u. given (λ waits.
          then_step _ (demand-Ensures (is_job_revision document job) runtime_error) (λ u.
            given (λ current. then_step _ (parses env document) (λ parsed. given (λ found.
              then_step _ (get_runtime-Ensures env context) (λ namespace.
                given
                  (λ same. delete_written document parsed namespace waits current found same))))))))

    abbrev pub Reindexed : Document → Condition
    Reindexed document = λ c k o l.
        (is_in ready document ≡ true)
        × (is_job_revision document job ≡ true)
        × (parsed : ParsedDocument) × IsParse env document w.objects parsed
        × Finished w
            (complete_reindex_for_job (attempt_in context document job) (versions_of context))
            (insertion (namespace_of env.digest context) parsed
                (code_chunk_documents env.codec document parsed (some job.document_revision))
              ∷ [])
            c k o l

    reindex_written :
        (document : Document) (parsed : ParsedDocument) (namespace : Text)
        → is_in ready document ≡ true
        → is_job_revision document job ≡ true
        → IsParse env document w.objects parsed
        → namespace_of env.digest context ≡ namespace
        → Ensures
            (Called w [])
            (insert_parsed_document env.codec namespace document parsed (some job.document_revision)
              >>= (λ u. finish env (
                  complete_reindex_for_job
                    (attempt_in context document job)
                    (versions_of context))))
            (λ u. Reindexed document)
            (Uncommitted w)
    reindex_written document parsed namespace waits current found same =
        let complete =
          complete_reindex_for_job (attempt_in context document job) (versions_of context) in
        let calls : Text → List IndexCall = λ n.
          insertion n parsed
            (code_chunk_documents env.codec document parsed (some job.document_revision))
          ∷ [] in
        bind (λ u. Called w (calls namespace))
          (weaken (λ c k o l h. h) (λ a c k o l h. h)
            (λ c k o l (h : Called w (calls namespace) c k o l). h.0)
            (insert_parsed_document-Ensures w [] env.codec namespace document parsed
              (some job.document_revision)))
          (λ u.
            weaken (λ c k o l h. h)
              (λ a c k o l h. (
                waits,
                current,
                parsed,
                found,
                subst (λ n. Finished w complete (calls n) c k o l) (sym same) h,
              ))
              (λ c k o l h. h) (finish-Ensures w env complete (calls namespace)))

    reindex_job-Ensures :
        (document : Document)
        → Ensures
            (Called w [])
            (reindex_job env context document job)
            (λ u. Reindexed document)
            (Uncommitted w)
    unfolding reindex_job
    reindex_job-Ensures document =
        then_step _ (demand-Ensures (is_in ready document) runtime_error) (λ u. given (λ waits.
          then_step _ (demand-Ensures (is_job_revision document job) runtime_error) (λ u.
            given (λ current. then_step _ (parses env document) (λ parsed. given (λ found.
              then_step _ (get_runtime-Ensures env context) (λ namespace.
                given (λ same.
                  reindex_written document parsed namespace waits current found same))))))))

    -- The calls of a replacement: the active revision goes, then the new one comes.
    abbrev pub replacement_calls :
        (active replacement : Document) (old_content new_content : ParsedDocument)
        (namespace : Text)
        → List IndexCall
    replacement_calls active_document replacement old_content new_content n =
        deletion env.content_id n old_content
          (code_chunk_documents env.codec active_document old_content none)
        ++ insertion n new_content
            (code_chunk_documents env.codec replacement new_content (some job.document_revision))
          ∷ []

    abbrev pub Replaced : (active replacement : Document) → Condition
    Replaced active_document replacement = λ c k o l.
        (old_content : ParsedDocument) × (new_content : ParsedDocument) × IsParse env
          active_document w.objects old_content
        × IsParse env replacement w.objects new_content
        × Finished w (complete_replacement_for_job (attempt_in context replacement job))
            (replacement_calls active_document replacement old_content new_content
              (namespace_of env.digest context))
            c k o l

    replace_written :
        (active_document replacement : Document) (old_content new_content : ParsedDocument)
        (namespace : Text)
        → IsParse env active_document w.objects old_content
        → IsParse env replacement w.objects new_content
        → namespace_of env.digest context ≡ namespace
        → Ensures
            (Called w [])
            (delete_indexed_document env.codec env.content_id namespace active_document old_content
              >>= (λ u.
                  insert_parsed_document env.codec namespace replacement new_content
                    (some job.document_revision)
                  >>= (λ u.
                      finish env
                        (complete_replacement_for_job (attempt_in context replacement job)))))
            (λ u. Replaced active_document replacement)
            (Uncommitted w)
    replace_written active_document replacement old_content new_content namespace found found'
          same =
        let complete = complete_replacement_for_job (attempt_in context replacement job) in
        let calls = replacement_calls active_document replacement old_content new_content in
        let gone =
          deletion env.content_id namespace old_content
            (code_chunk_documents env.codec active_document old_content none) in
        bind (λ u. Called w gone)
          (weaken (λ c k o l h. h) (λ a c k o l h. h) (λ c k o l (h : Began w gone c k o l). h.3.0)
            (delete_indexed_document-Ensures w [] env.codec env.content_id namespace active_document
              old_content))
          (λ u.
            bind (λ u. Called w (calls namespace))
              (weaken (λ c k o l h. h) (λ a c k o l h. h)
                (λ c k o l (h : Called w (calls namespace) c k o l). h.0)
                (insert_parsed_document-Ensures w gone env.codec namespace replacement new_content
                  (some job.document_revision)))
              (λ u.
                weaken (λ c k o l h. h)
                  (λ a c k o l h. (
                    old_content,
                    new_content,
                    found,
                    found',
                    subst (λ n. Finished w complete (calls n) c k o l) (sym same) h,
                  ))
                  (λ c k o l h. h) (finish-Ensures w env complete (calls namespace))))

    replace_job-Ensures :
        (active_document replacement : Document)
        → Ensures
            (Called w [])
            (replace_job env context active_document replacement job)
            (λ u. Replaced active_document replacement)
            (Uncommitted w)
    unfolding replace_job
    replace_job-Ensures active_document replacement =
        then_step _ (parses env active_document) (λ old_content. given (λ found.
          then_step _ (parses env replacement) (λ new_content. given (λ found'.
            then_step _ (get_runtime-Ensures env context) (λ namespace. given (λ same.
              replace_written active_document replacement old_content new_content namespace found
                found' same))))))

    -- Whichever calls raise: when the worker's rebuild, replacement or deletion returns, it has parsed
    -- the stored sources, made exactly the calls of LightRAG that these parses ask for, the deletions
    -- before the insertion, and only then committed the one statement that completes the job together
    -- with the document. When it raises, nothing has been committed. A rebuild returns only for a
    -- READY document and a deletion only for a DELETING one, at the active revision of the job.
    pub jobs_finish :
        (document active_document : Document) (faults : Faults)
        → Outcome
            (λ u. Reindexed document)
            (Uncommitted w)
            (reindex_job env context document job faults w)
          × Outcome
              (λ u. Replaced active_document document)
              (Uncommitted w)
              (replace_job env context active_document document job faults w)
          × Outcome
              (λ u. Deleted document)
              (Uncommitted w)
              (delete_job env context document job faults w)
    jobs_finish document active_document faults = (
      (reindex_job-Ensures document).run faults w (Called-start w),
      (replace_job-Ensures active_document document).run faults w (Called-start w),
      (delete_job-Ensures document).run faults w (Called-start w),
    )
