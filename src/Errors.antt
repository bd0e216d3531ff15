-- ===== src/Errors.antt =====
-- apps/api/src/shared/errors (app-error.ts, problem-details.ts, error-middleware.ts): the
-- application errors and how a thrown value becomes a response.
pub mod Laws
use tasks_platform.Common.{
  ℕ, String, Bool, false, ◌||◌, Option, none, some, List, str_eq, if◌then◌else◌,
}

-- `ValidationErrors` of the contracts: a list of messages for each field.
abbrev pub ValidationErrors : Type 0
ValidationErrors = List (String × List String)

-- The subclasses of `AppError`, each with the arguments of its constructor.
pub data AppError : Type 0 where
  not_found : Option String → AppError
  validation : Option String → Option ValidationErrors → AppError
  unauthorized : Option String → AppError
  forbidden : Option String → AppError
  conflict : Option String → AppError
  unprocessable_entity : Option String → AppError
  service_unavailable : Option String → AppError
  too_many_requests : ℕ → Option String → AppError

-- Any value that a handler can throw: an `AppError`, the `SyntaxError` of the body parser, or
-- another `Error` by its name and message.
pub data Thrown : Type 0 where
  app : AppError → Thrown
  syntax_error : Option String → Thrown
  other : String → String → Thrown

-- What the constructor of each subclass passes to `super`.
abbrev pub status : AppError → ℕ
status (not_found d) = 404
status (validation d es) = 400
status (unauthorized d) = 401
status (forbidden d) = 403
status (conflict d) = 409
status (unprocessable_entity d) = 422
status (service_unavailable d) = 503
status (too_many_requests s d) = 429

abbrev pub type_uri : AppError → String
type_uri (not_found d) = "https://tasks-platform.dev/errors/not-found"
type_uri (validation d es) = "https://tasks-platform.dev/errors/validation"
type_uri (unauthorized d) = "https://tasks-platform.dev/errors/unauthorized"
type_uri (forbidden d) = "https://tasks-platform.dev/errors/forbidden"
type_uri (conflict d) = "https://tasks-platform.dev/errors/conflict"
type_uri (unprocessable_entity d) = "https://tasks-platform.dev/errors/unprocessable-entity"
type_uri (service_unavailable d) = "https://tasks-platform.dev/errors/service-unavailable"
type_uri (too_many_requests s d) = "https://tasks-platform.dev/errors/too-many-requests"

abbrev pub title : AppError → String
title (not_found d) = "Not Found"
title (validation d es) = "Validation Error"
title (unauthorized d) = "Unauthorized"
title (forbidden d) = "Forbidden"
title (conflict d) = "Conflict"
title (unprocessable_entity d) = "Unprocessable Entity"
title (service_unavailable d) = "Service Unavailable"
title (too_many_requests s d) = "Too Many Requests"

abbrev pub detail : AppError → Option String
detail (not_found d) = d
detail (validation d es) = d
detail (unauthorized d) = d
detail (forbidden d) = d
detail (conflict d) = d
detail (unprocessable_entity d) = d
detail (service_unavailable d) = d
detail (too_many_requests s d) = d

abbrev pub validation_errors : AppError → Option ValidationErrors
validation_errors (validation d es) = es
validation_errors (not_found d) = none
validation_errors (unauthorized d) = none
validation_errors (forbidden d) = none
validation_errors (conflict d) = none
validation_errors (unprocessable_entity d) = none
validation_errors (service_unavailable d) = none
validation_errors (too_many_requests s d) = none

pub record ProblemDetails : Type 0 where
  pub type_uri : String
  pub title : String
  pub status : ℕ
  pub detail : Option String
  pub instance_id : Option String
  pub errors : Option ValidationErrors

pub is_redis_unavailable : Thrown → Bool
is_redis_unavailable (app e) = false
is_redis_unavailable (syntax_error t) = false
is_redis_unavailable (other name message) =
    str_eq name "MaxRetriesPerRequestError"
    || str_eq message "Command timed out"
    || str_eq message "Connection is closed."

abbrev is_type : Option String → String → Bool
is_type none t = false
is_type (some s) t = str_eq s t

pub is_malformed_json_body : Thrown → Bool
is_malformed_json_body (app e) = false
is_malformed_json_body (syntax_error t) = is_type t "entity.parse.failed"
is_malformed_json_body (other name message) = false

-- An `AppError` as the object literal that `toProblemDetails` returns for it.
pub of_app_error : AppError → Option String → ProblemDetails
of_app_error e instance_id = record {
  type_uri = type_uri e;
  title = title e;
  status = status e;
  detail = detail e;
  instance_id = instance_id;
  errors = validation_errors e;
}

abbrev malformed_json : AppError
malformed_json = validation (some "The request body is not valid JSON") none

abbrev try_again : AppError
try_again = service_unavailable (some "The service is temporarily unavailable, try again shortly")

pub to_problem_details : Thrown → Option String → ProblemDetails
unfolding of_app_error is_malformed_json_body is_redis_unavailable
to_problem_details (app e) instance_id = of_app_error e instance_id
to_problem_details error instance_id =
    if is_malformed_json_body error
    then of_app_error malformed_json instance_id
    else if is_redis_unavailable error
    then of_app_error try_again instance_id
    else record {
      type_uri = "https://tasks-platform.dev/errors/internal";
      title = "Internal Server Error";
      status = 500;
      detail = none;
      instance_id = instance_id;
      errors = none;
    }

-- The response of `errorHandler`: the body, and the Retry-After header.
pub record Response : Type 0 where
  pub body : ProblemDetails
  pub retry_after : Option ℕ

abbrev retry_after_of : Thrown → Option ℕ
retry_after_of (app (too_many_requests seconds d)) = some seconds
retry_after_of _ = none

pub error_handler : Thrown → Option String → Response
unfolding to_problem_details
error_handler error request_id = record {
  body = to_problem_details error request_id;
  retry_after = retry_after_of error;
}
