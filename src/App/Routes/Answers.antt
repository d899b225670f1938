-- ===== src/App/Routes/Answers.antt =====
-- services/authentication/pentagon5_auth/app.py: the exception handlers, with the envelope of an error.
use pentagon5_foundation.Prelude.{ℕ, String, Bool, true, false, Option, none, ◌==◌, if◌then◌else◌}
use pentagon5_foundation.Prelude.Json.{Members}
use pentagon5_foundation.Runtime.Envelopes.{error_envelope}
use pentagon5_foundation.App.Routes.{Failure, api_error, http_exception, invalid_request, uncaught}

-- What `error_response` is called with.
pub record ErrorAnswer : Type 0 where
  pub status_code : ℕ
  pub error_code : String
  pub error_message : String
  pub retryable : Bool
  pub field : Option String

-- `http_error_handler`
unfoldable pub http_answer : ℕ → ErrorAnswer
http_answer n =
    if n == 404
    then record {
      status_code = n;
      error_code = "NOT_FOUND";
      error_message = "Resource not found";
      retryable = false;
      field = none;
    }
    else if n == 405
    then record {
      status_code = n;
      error_code = "METHOD_NOT_ALLOWED";
      error_message = "Method not allowed";
      retryable = false;
      field = none;
    }
    else record {
      status_code = n;
      error_code = "HTTP_ERROR";
      error_message = "Request could not be completed";
      retryable = false;
      field = none;
    }

unfoldable pub answer : Failure → ErrorAnswer
answer (api_error e) = record {
  status_code = e.status_code;
  error_code = e.error_code;
  error_message = e.error_message;
  retryable = e.retryable;
  field = none;
}
answer (http_exception n) = http_answer n
answer (invalid_request place) = record {
  status_code = 422;
  error_code = "REQUEST_VALIDATION_FAILED";
  error_message = "Request validation failed";
  retryable = false;
  field = place;
}
answer uncaught = record {
  status_code = 500;
  error_code = "INTERNAL_ERROR";
  error_message = "An internal error occurred";
  retryable = true;
  field = none;
}

-- `error_response`: the status and the envelope.
unfoldable pub error_response :
    {F : Type 0} → String → String → String → ErrorAnswer → ℕ × Members F
error_response message_id base_text correlation_id a = (
  a.status_code,
  error_envelope message_id base_text correlation_id a.error_code a.error_message a.retryable
      a.field,
)
