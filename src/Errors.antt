-- ===== src/Errors.antt =====
-- server/src/errors.ts: the closed error set, and what an operation answers. A database
-- constraint that no statement handles, and a defect that the code reports by a plain `Error`,
-- are failures of their own.
use mcp_ui.Common.{ℕ, String, Option, none, some}

pub data ErrorCode : Type 0 where
  malformed_request unauthenticated insufficient_scope not_found device_not_found : ErrorCode
  device_name_conflict device_version_conflict device_limit_reached username_taken : ErrorCode
  validation_failed invalid_state rate_limited internal_error service_unavailable : ErrorCode

unfoldable pub error_status : ErrorCode → ℕ
error_status malformed_request = 400
error_status unauthenticated = 401
error_status insufficient_scope = 403
error_status not_found = 404
error_status device_not_found = 404
error_status device_name_conflict = 409
error_status device_version_conflict = 409
error_status device_limit_reached = 409
error_status username_taken = 409
error_status validation_failed = 422
error_status invalid_state = 422
error_status rate_limited = 429
error_status internal_error = 500
error_status service_unavailable = 503

unfoldable pub default_message : ErrorCode → String
default_message malformed_request = "The request body could not be read."
default_message unauthenticated = "Invalid username or password."
default_message insufficient_scope = "This credential is not permitted to perform that action."
default_message not_found = "No such endpoint."
default_message device_not_found = "That device does not exist."
default_message device_name_conflict = "A device with this name already exists."
default_message device_version_conflict = "This device changed. Refresh it and try again."
default_message device_limit_reached = "You have reached the maximum number of devices."
default_message username_taken = "That username is already taken."
default_message validation_failed = "One or more fields are invalid."
default_message invalid_state = "State must be exactly \"on\" or \"off\"."
default_message rate_limited = "Too many requests. Try again shortly."
default_message internal_error = "Unexpected error."
default_message service_unavailable = "Temporarily unavailable. Try again shortly."

pub record AppError : Type 0 where
  pub code : ErrorCode
  pub message : String
  pub status : ℕ
  pub field : Option String

abbrev message_or : Option String → ErrorCode → String
unfolding default_message
message_or none code = default_message code
message_or (some m) code = m

-- The constructor: an absent message is the default one.
unfoldable pub app_error : ErrorCode → Option String → Option String → AppError
unfolding error_status default_message
app_error code message field = record {
  code = code;
  message = message_or message code;
  status = error_status code;
  field = field;
}

pub data Failure : Type 0 where
  app : AppError → Failure
  unique_violation : Failure
  other_error : String → Failure

-- `throw new AppError(code)`
abbrev pub throw_code : ErrorCode → Failure
throw_code code = app (app_error code none none)

-- `throw new AppError(code, message, field)`
abbrev pub throw_field : ErrorCode → String → String → Failure
throw_field code message field = app (app_error code (some message) (some field))

-- What `toBody` puts into the JSON of an answer; an absent field is left out.
pub record ErrorBody : Type 0 where
  pub code : ErrorCode
  pub message : String
  pub field : Option String
  pub request_id : String

unfoldable pub to_body : AppError → String → ErrorBody
to_body error request_id = record {
  code = error.code;
  message = error.message;
  field = error.field;
  request_id = request_id;
}
