-- ===== src/Api/Errors/Envelope.antt =====
-- What a client can rely on when a request fails.
use django_app_eve.Prelude.{ℕ, ◌≡◌, refl, ap, ◌∙◌, String, Option, none, some}
use django_app_eve.Api.Errors.{
  Kind, parse_error, authentication_failed, not_authenticated, permission_denied, not_found,
  method_not_allowed, not_acceptable, unsupported_media_type, throttled, validation_error,
  other_exception, api_error, ApiException, Raised, http404, permission_refused, unhandled, api,
  Response, Drf, DrfLaws, is_instance, codes, first_code, code_for, normalised, envelope,
  exception_handler,
}

-- The documented code of each class.
abbrev pub stable_code : Kind → String
stable_code parse_error = "malformed_request"
stable_code authentication_failed = "authentication_failed"
stable_code not_authenticated = "authentication_required"
stable_code permission_denied = "permission_denied"
stable_code not_found = "not_found"
stable_code method_not_allowed = "method_not_allowed"
stable_code not_acceptable = "not_acceptable"
stable_code unsupported_media_type = "unsupported_media_type"
stable_code throttled = "rate_limited"
stable_code validation_error = "validation_error"
stable_code other_exception = "error"
stable_code (api_error code details) = code

-- The entries that a client may branch on, with the status.
pub record Tells (request_id : String) (status : ℕ) (k : Kind) (o : Option Response) : Type 0 where
  pub body : Response
  pub answered : o ≡ some body
  pub has_status : body.status_code ≡ status
  pub has_code : body.code ≡ stable_code k
  pub has_id : body.request_id ≡ request_id

-- A client is told what failed; only an exception that nobody raised on purpose is left to Django.
abbrev pub Contract : String → Raised → Option Response → Type 0
Contract request_id http404 o = Tells request_id 404 not_found o
Contract request_id permission_refused o = Tells request_id 403 permission_denied o
Contract request_id unhandled o = o ≡ none
Contract request_id (api e) o = Tells request_id e.status_code e.kind o

code_for_lem : (k : Kind) → code_for k ≡ stable_code k
unfolding code_for first_code codes is_instance
code_for_lem parse_error = refl
code_for_lem authentication_failed = refl
code_for_lem not_authenticated = refl
code_for_lem permission_denied = refl
code_for_lem not_found = refl
code_for_lem method_not_allowed = refl
code_for_lem not_acceptable = refl
code_for_lem unsupported_media_type = refl
code_for_lem throttled = refl
code_for_lem validation_error = refl
code_for_lem other_exception = refl
code_for_lem (api_error code details) = refl

module _ (drf : Drf) (laws : DrfLaws drf) where
  tells :
      (id : String) (e : ApiException) (r : Raised) (status : ℕ) (k : Kind)
      → normalised drf r ≡ api e
      → e.status_code ≡ status
      → e.kind ≡ k
      → Tells id status k (exception_handler drf id r)
  unfolding exception_handler envelope
  tells id e r status k n has_status has_kind = record {
    body = envelope drf id e e.status_code;
    answered = rw n (rw (laws.handles e) refl);
    has_status = has_status;
    has_code = code_for_lem e.kind ∙ ap stable_code has_kind;
    has_id = refl;
  }

  left_alone : (id : String) → exception_handler drf id unhandled ≡ none
  unfolding exception_handler
  left_alone id = rw laws.leaves refl

  -- Whatever a view raises, the handler of the API answers as documented: a missing page and a refused
  -- permission as 404 not_found and 403 permission_denied, any exception of the framework or of the
  -- views with its own status, the stable code of its class and the id of the request, and no
  -- other exception at all, which is left to Django.
  pub exception_handler-Contract :
      (id : String) (r : Raised) → Contract id r (exception_handler drf id r)
  unfolding normalised
  exception_handler-Contract id http404 =
      tells id drf.new_not_found http404 404 not_found refl laws.not_found_status
        laws.not_found_kind
  exception_handler-Contract id permission_refused =
      tells id drf.new_permission_denied permission_refused 403 permission_denied refl
        laws.permission_denied_status laws.permission_denied_kind
  exception_handler-Contract id unhandled = left_alone id
  exception_handler-Contract id (api e) = tells id e (api e) e.status_code e.kind refl refl refl
