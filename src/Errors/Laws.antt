-- ===== src/Errors/Laws.antt =====
-- What a client can read off an error response.
use tasks_platform.Common.{
  String, true, false, ◌≡◌, ◌≢◌, ◌⊎◌, inl, inr, refl, Option, none, some, map_option, ◌==◌,
  if◌then◌else◌, arith, str_eq, eq_iff, Bool-cases, ap,
}
use tasks_platform.Errors.{
  AppError, not_found, validation, unauthorized, forbidden, conflict, unprocessable_entity,
  service_unavailable, too_many_requests, Thrown, app, syntax_error, other, Response, error_handler,
  is_redis_unavailable,
}

-- The error that a response tells of, by the meaning that HTTP gives to its status.
abbrev pub recover : Response → Option AppError
recover r =
    if r.body.status == 400
    then some (validation r.body.detail r.body.errors)
    else if r.body.status == 401
    then some (unauthorized r.body.detail)
    else if r.body.status == 403
    then some (forbidden r.body.detail)
    else if r.body.status == 404
    then some (not_found r.body.detail)
    else if r.body.status == 409
    then some (conflict r.body.detail)
    else if r.body.status == 422
    then some (unprocessable_entity r.body.detail)
    else if r.body.status == 429
    then map_option (λ seconds. too_many_requests seconds r.body.detail) r.retry_after
    else if r.body.status == 503
    then some (service_unavailable r.body.detail)
    else none

-- A response that tells nothing of what happened.
abbrev pub Silent : Response → Type 0
Silent r = (r.body.status ≡ 500) × (r.body.detail ≡ none) × (r.body.errors ≡ none)

-- A client of Redis that has given up, by what it throws.
abbrev pub Outage : String → String → Type 0
Outage name message =
    (name ≡ "MaxRetriesPerRequestError")
    ⊎ ((message ≡ "Command timed out") ⊎ (message ≡ "Connection is closed."))

-- What a response tells of a thrown value.
abbrev pub Told : Thrown → Response → Type 0
Told (app e) r = recover r ≡ some e
Told (syntax_error type) r =
    ((type ≡ some "entity.parse.failed")
      × (recover r ≡ some (validation (some "The request body is not valid JSON") none)))
    ⊎ ((type ≢ some "entity.parse.failed") × Silent r)
Told (other name message) r =
    (Outage name message
      × (recover r
          ≡ some (
              service_unavailable
                (some "The service is temporarily unavailable, try again shortly"))))
    ⊎ ((¬ Outage name message) × Silent r)

app-Told :
    (e : AppError) (request_id : Option String)
    → recover (error_handler (app e) request_id) ≡ some e
unfolding error_handler
app-Told (not_found d) request_id = refl
app-Told (validation d es) request_id = refl
app-Told (unauthorized d) request_id = refl
app-Told (forbidden d) request_id = refl
app-Told (conflict d) request_id = refl
app-Told (unprocessable_entity d) request_id = refl
app-Told (service_unavailable d) request_id = refl
app-Told (too_many_requests s d) request_id = refl

some-injective : (a b : String) → some a ≡ some b → a ≡ b
some-injective a b e = cc e

syntax_error-Told :
    (type request_id : Option String)
    → Told (syntax_error type) (error_handler (syntax_error type) request_id)
unfolding error_handler
syntax_error-Told none request_id = inr ((λ e. cc e), (refl, refl, refl))
syntax_error-Told (some s) request_id = elim (Bool-cases (str_eq s "entity.parse.failed")) [
  | inl same ↦ inl (ap some ((eq_iff _ _).0 same), rw same refl)
  | inr apart ↦ inr (
    (λ e. cc (apart, (eq_iff s "entity.parse.failed").1 (some-injective s _ e))),
    (rw apart refl, rw apart refl, rw apart refl),
  )
]

is_redis_unavailable-Outage :
    (name message : String) → is_redis_unavailable (other name message) ≡ true → Outage name message
unfolding is_redis_unavailable
is_redis_unavailable-Outage name message h = ground (
  arith,
  eq_iff name "MaxRetriesPerRequestError",
  eq_iff message "Command timed out",
  eq_iff message "Connection is closed.",
)

not-Outage :
    (name message : String)
    → is_redis_unavailable (other name message) ≡ false
    → ¬ Outage name message
unfolding is_redis_unavailable
not-Outage name message h gone = ground (
  arith,
  eq_iff name "MaxRetriesPerRequestError",
  eq_iff message "Command timed out",
  eq_iff message "Connection is closed.",
)

other-Told :
    (name message : String) (request_id : Option String)
    → Told (other name message) (error_handler (other name message) request_id)
unfolding error_handler is_redis_unavailable
other-Told name message request_id = elim (Bool-cases (is_redis_unavailable (other name message))) [
  | inl gone ↦ inl (is_redis_unavailable-Outage name message gone, rw gone refl)
  | inr there ↦ inr (not-Outage name message there, (rw there refl, rw there refl, rw there refl))
]

-- From the response to an application error a client can recover the error itself, by what HTTP means by the
-- status: its kind, its detail, the messages for each field and the seconds to wait. A body that is not JSON
-- is told as a validation error, and a client of Redis that has given up as a service that is unavailable.
-- Any other value is a 500 with neither detail nor messages. And every response carries the request's id.
pub error_handler-Told :
    (error : Thrown) (request_id : Option String)
    → Told error (error_handler error request_id)
      × ((error_handler error request_id).body.instance_id ≡ request_id)
unfolding error_handler
error_handler-Told (app e) request_id = (app-Told e request_id, refl)
error_handler-Told (syntax_error type) request_id =
    (syntax_error-Told type request_id, ground arith)
error_handler-Told (other name message) request_id =
    (other-Told name message request_id, ground arith)
