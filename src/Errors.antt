-- ===== src/Errors.antt =====
-- The exception classes that the backend raises or catches, and `except` as a handler of results.
-- An exception carries no message here, but for the faults of the Job constructor.
use graph_blizz.Jobs.Models.{JobFault}
use graph_blizz.Prelude.{ℕ, Result, ok, err}

pub data Exn : Type 0 where
  value_error type_error attribute_error overflow_error lookup_error runtime_error
        permission_error :
      Exn
  job_value_error : JobFault → Exn
  integrity_error connection_error timeout_error cancelled_error unicode_error : Exn
  document_scope_conflict document_state_transition : Exn
  object_storage_error object_not_found : Exn
  unsupported_document_type binary_document_type : Exn
  embedding_error llm_error : Exn
  http_error : (status_code : ℕ) → Exn

abbrev pub lift_fault : {A : Type 0} → Result JobFault A → Result Exn A
lift_fault (ok a) = ok a
lift_fault (err fault) = err (job_value_error fault)
