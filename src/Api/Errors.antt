-- ===== src/Api/Errors.antt =====
-- Eve/api/errors.py: the envelope of a failed request of the API; Eve/api/throttling.py: throttles
-- that let a request pass where the cache cannot be reached. Of Django REST framework its exceptions, its
-- `exception_handler` and its throttles are arguments.
pub mod Envelope
use django_app_eve.Prelude.{
  ℕ, ◌≡◌, String, Option, none, some, Bool, true, false, List, [], ◌∷◌, ◌==◌, str_eq, if◌then◌else◌,
}

-- The classes of the framework that the table names, APIError, and any other APIException. None of them
-- is a subclass of another.
pub data Kind : Type 0 where
  parse_error authentication_failed not_authenticated permission_denied not_found method_not_allowed
        not_acceptable unsupported_media_type throttled validation_error other_exception :
      Kind
  api_error : (code : String) → (details : List (String × String)) → Kind

-- `exc.detail`: a text, messages by field, or a list of messages.
pub data Detail : Type 0 where
  message : String → Detail
  fields : List (String × List String) → Detail
  messages : List String → Detail

pub record ApiException : Type 0 where
  pub kind : Kind
  pub detail : Detail
  pub status_code : ℕ
  -- the seconds of a Throttled exception
  pub wait : Option ℕ

-- What a view raises. `unhandled` is an exception that is none of the others.
pub data Raised : Type 0 where
  http404 permission_refused unhandled : Raised
  api : ApiException → Raised

-- The entry "details".
pub data Details : Type 0 where
  by_field : List (String × List String) → Details
  non_field_errors : Detail → Details
  of_error : List (String × String) → Details
  retry_after_seconds : ℕ → Details

pub record Response : Type 0 where
  pub status_code : ℕ
  pub code : String
  pub message : String
  pub details : Details
  pub request_id : String

-- `drf_exception_handler` with the status of its response, `NotFound()`, `PermissionDenied()`, and
-- `str` of a detail that is no text.
pub record Drf : Type 0 where
  pub handle : Raised → Option ℕ
  pub new_not_found : ApiException
  pub new_permission_denied : ApiException
  pub show : Detail → String

-- What the framework documents of them.
pub record DrfLaws (drf : Drf) : Type 0 where
  pub handles : (e : ApiException) → drf.handle (api e) ≡ some e.status_code
  pub leaves : drf.handle unhandled ≡ none
  pub not_found_kind : drf.new_not_found.kind ≡ not_found
  pub not_found_status : drf.new_not_found.status_code ≡ 404
  pub permission_denied_kind : drf.new_permission_denied.kind ≡ permission_denied
  pub permission_denied_status : drf.new_permission_denied.status_code ≡ 403

abbrev index : Kind → ℕ
index parse_error = 0
index authentication_failed = 1
index not_authenticated = 2
index permission_denied = 3
index not_found = 4
index method_not_allowed = 5
index not_acceptable = 6
index unsupported_media_type = 7
index throttled = 8
index validation_error = 9
index other_exception = 10
index (api_error code details) = 11

-- `isinstance(exc, exc_type)` for a class of the table.
unfoldable pub is_instance : Kind → Kind → Bool
is_instance k class = index k == index class

-- `CODES`
unfoldable pub codes : List (Kind × String)
codes =
    (parse_error, "malformed_request")
    ∷ (authentication_failed, "authentication_failed")
    ∷ (not_authenticated, "authentication_required")
    ∷ (permission_denied, "permission_denied")
    ∷ (not_found, "not_found")
    ∷ (method_not_allowed, "method_not_allowed")
    ∷ (not_acceptable, "not_acceptable")
    ∷ (unsupported_media_type, "unsupported_media_type")
    ∷ (throttled, "rate_limited")
    ∷ (validation_error, "validation_error")
    ∷ []

unfoldable pub first_code : Kind → List (Kind × String) → String
unfolding is_instance
first_code k [] = "error"
first_code k ((class, code) ∷ rest) =
    let later = first_code k rest in if is_instance k class then code else later

unfoldable pub code_for : Kind → String
unfolding first_code codes
code_for (api_error code details) = code
code_for k = first_code k codes

module _ (drf : Drf) where
  -- The exception after the first two tests.
  unfoldable pub normalised : Raised → Raised
  normalised http404 = api drf.new_not_found
  normalised permission_refused = api drf.new_permission_denied
  normalised r = r

  abbrev texts_or : Detail → String
  texts_or (message s) = if str_eq s "" then "Request failed." else s
  texts_or (fields []) = "Request failed."
  texts_or (messages []) = "Request failed."
  texts_or d = drf.show d

  unfoldable pub message_of : Kind → Detail → String
  message_of validation_error d = "The request payload failed validation."
  message_of k d = texts_or d

  unfoldable pub details_of : Kind → Detail → Option ℕ → Details
  details_of validation_error (fields f) wait = by_field f
  details_of validation_error d wait = non_field_errors d
  details_of (api_error code details) d wait = of_error details
  details_of throttled d (some n) = if n == 0 then of_error [] else retry_after_seconds n
  details_of k d wait = of_error []

  unfoldable pub envelope : String → ApiException → ℕ → Response
  unfolding code_for message_of details_of
  envelope request_id e status = record {
    status_code = status;
    code = code_for e.kind;
    message = message_of e.kind e.detail;
    details = details_of e.kind e.detail e.wait;
    request_id = request_id;
  }

  -- An exception without a detail, of no class of the table.
  abbrev nameless : String → ℕ → Response
  nameless request_id status = record {
    status_code = status;
    code = "error";
    message = "Request failed.";
    details = of_error [];
    request_id = request_id;
  }

  abbrev enveloped : String → Raised → Option ℕ → Option Response
  enveloped request_id r none = none
  enveloped request_id (api e) (some status) = some (envelope request_id e status)
  enveloped request_id r (some status) = some (nameless request_id status)

  -- `exception_handler`; `none` leaves the exception to Django.
  unfoldable pub exception_handler : String → Raised → Option Response
  unfolding normalised envelope
  exception_handler request_id r = enveloped request_id (normalised r) (drf.handle (normalised r))

-- `FailOpenMixin.allow_request` over the framework's own throttle, which answers or raises (none).
unfoldable pub allow_request : Option Bool → Bool
allow_request none = true
allow_request (some b) = b
