-- ===== src/Api/Errors.antt =====
-- pulsepay/core/exceptions.py: `register_exception_handlers`. The text of an exception, which is
-- the "message" of the answer, is not modelled.
use tru_dev_tasks.Prelude.{ℕ, String, Option, none, some, str_eq, if◌then◌else◌}
use tru_dev_tasks.Api.Schemas.{Content, error}
use tru_dev_tasks.Core.Exceptions.{Exception, error_code, status_code}
use tru_dev_tasks.Exec.{Result, ok, err}

-- A response: its status code, its content, `X-Request-ID` and `Retry-After`, in milliseconds.
pub record Response : Type 0 where
  pub status : ℕ
  pub content : Content
  pub request_id : Option String
  pub retry_after : Option ℕ

abbrev pub respond : ℕ → Content → Response
respond status content = record {
  status = status;
  content = content;
  request_id = none;
  retry_after = none;
}

-- `value`, if it is there and not empty
abbrev pub or_else : Option String → String → String
or_else none other = other
or_else (some value) other = if str_eq value "" then other else value

-- `_request_id_from`, by `request.state` and the header of the request
unfoldable pub request_id_from : Option String → Option String → String
request_id_from state header = or_else state (or_else header "")

abbrev pub answer_error : Exception → String → Option String → Option ℕ → Result Response
answer_error e id (some code) (some status) = ok (respond status (error code id))
answer_error e id _ _ = err e

-- `pulsepay_exception_handler`; any other exception goes on.
unfoldable pub on_exception : Exception → String → Result Response
on_exception e id = answer_error e id (error_code e) (status_code e)
