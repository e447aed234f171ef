-- ===== src/Tests/Operations.antt =====
-- The theorems about the gates of a release and the envelope of errors, at small inputs.
use django_app_eve.Prelude.{
  ℕ, ◌+◌, ◌*◌, ◌≤◌, ◌≡◌, refl, ◌↔◌, Option, none, some, true, false, List, [], ◌∷◌, leb, ltb, ◌==◌,
  str_eq, length, find, select, if◌then◌else◌,
}
use django_app_eve.Core.Health.{readiness_view}
use django_app_eve.Core.Throttling.{
  effective_limit, rate_limit, current_count, count_from, incremented, exceeds,
}
use django_app_eve.Core.Contact.{
  Submission, visit, invalid, valid, contact_limit, contact_all, contact_view, save, page_of,
}
use django_app_eve.Core.Contact.Flooding.{contact_all-bounded}
use django_app_eve.Accounts.Privacy.{ContactMessage}
use django_app_eve.Deploy.{Url, passed, verify, is_origin}
use django_app_eve.Deploy.Streak.{Passes, Three}
use django_app_eve.Deploy.Gate.{Conditions, all_up, probe_of, verify_iff}
use django_app_eve.Loadtest.Stats.{
  Floats, Row, text, missing, read_rows, mem, evaluate_stats, flow_failures, was_seen,
  is_over_ratio,
}
use django_app_eve.Loadtest.Resources.{
  Line, blank, sample, main, evaluate_resources, line_failures, sample_failures, is_exhausted,
  is_snapshot, snapshot_failures, is_sampled,
}
use django_app_eve.Loadtest.Accepts.{Evidence, main_iff}
use django_app_eve.Api.Errors.{
  ApiException, Raised, api, throttled, not_found, permission_denied, message, Drf, DrfLaws,
  http404, permission_refused, unhandled, exception_handler,
}
use django_app_eve.Api.Errors.Envelope.{Contract, exception_handler-Contract}
use django_app_eve.Tests.Caches.{dict_cache, dict_laws, empty_dict}

abbrev url : Url
url = record { scheme = "https"; netloc = "eve.example"; username = none; password = none }

is_https : is_origin url ≡ true
unfolding is_origin
is_https = refl

-- PostgreSQL answers from the third attempt on.
abbrev worker : ℕ → Conditions dict_cache
worker n = record { postgresql = leb 3 n; mongodb = true; cache = empty_dict }

verify_iff_example :
    Passes (verify url 12 (λ n. probe_of dict_cache (worker n)))
    ↔ ((j : ℕ) × (1 ≤ j) × (j + 2 ≤ 12) × Three (λ n. all_up dict_cache (worker n)) j)
verify_iff_example = verify_iff dict_cache url 12 worker is_https

-- The first three ready attempts are 3, 4 and 5.
passes : verify url 12 (λ n. probe_of dict_cache (worker n)) ≡ passed 5
unfolding verify probe_of readiness_view
passes = refl

abbrev floats : Floats
floats = record {
  Float = ℕ;
  parse = λ s. if str_eq s "25" then some 25 else if str_eq s "310" then some 310 else none;
  truncated = λ n. n;
  of_int = λ n. n;
  above = λ a b. ltb b a;
}

abbrev rows : List Row
rows =
    record {
      name = text "GET /";
      request_count = text "25";
      failure_count = text "";
      p95 = text "310";
    }
    ∷ record {
      name = text "Aggregated";
      request_count = text "25";
      failure_count = missing;
      p95 = missing;
    }
    ∷ []

abbrev lines : List (Line ℕ)
lines =
    blank
    ∷ sample (record {
      event = "resource_snapshot";
      pg_total = some 10;
      pg_max = some 100;
      redis_in_use = none;
      redis_max = some 50;
      is_uncertain = false;
    })
    ∷ []

in_budget :
    main
      (λ n. n == 0)
      (λ used maximum. ltb (maximum * 80) (used * 100))
      floats
      ("GET /" ∷ [])
      20
      rows
      lines
    ≡ some 0
unfolding main read_rows mem evaluate_resources line_failures evaluate_stats
    mathlib.Core.List.flat_map flow_failures find select was_seen is_over_ratio sample_failures
    is_exhausted is_snapshot snapshot_failures is_sampled
in_budget = refl

main_iff_example :
    (main
        (λ n. n == 0)
        (λ used maximum. ltb (maximum * 80) (used * 100))
        floats
        ("GET /" ∷ [])
        20
        rows
        lines
      ≡ some 0)
    ↔ Evidence
        (λ n. n == 0)
        (λ used maximum. ltb (maximum * 80) (used * 100))
        floats
        ("GET /" ∷ [])
        20
        rows
        lines
main_iff_example =
    main_iff (λ n. n == 0) (λ used maximum. ltb (maximum * 80) (used * 100)) floats ("GET /" ∷ [])
      20 rows lines

abbrev missing_page : ApiException
missing_page = record {
  kind = not_found;
  detail = message "Not found.";
  status_code = 404;
  wait = none;
}

abbrev refused_page : ApiException
refused_page = record {
  kind = permission_denied;
  detail = message "No.";
  status_code = 403;
  wait = none;
}

abbrev status_of : Raised → Option ℕ
status_of http404 = some 404
status_of permission_refused = some 403
status_of unhandled = none
status_of (api e) = some e.status_code

abbrev drf : Drf
drf = record {
  handle = status_of;
  new_not_found = missing_page;
  new_permission_denied = refused_page;
  show = λ d. "detail";
}

drf_laws : DrfLaws drf
drf_laws = record {
  handles = λ e. refl;
  leaves = refl;
  not_found_kind = refl;
  not_found_status = refl;
  permission_denied_kind = refl;
  permission_denied_status = refl;
}

abbrev slowed : Raised
slowed = api (record {
  kind = throttled;
  detail = message "Request was throttled.";
  status_code = 429;
  wait = some 30;
})

exception_handler-Contract_example : Contract "r1" slowed (exception_handler drf "r1" slowed)
exception_handler-Contract_example = exception_handler-Contract drf drf_laws "r1" slowed

abbrev spam : ContactMessage
spam = record { name = "a"; email = "a@x"; subject = "s"; message = "m"; created_at = 5 }

abbrev flood : List Submission
flood =
    valid spam
    ∷ invalid
    ∷ valid spam
    ∷ valid spam
    ∷ visit
    ∷ valid spam
    ∷ valid spam
    ∷ valid spam
    ∷ []

-- The sixth and the seventh POST are refused.
stores_four : length (contact_all dict_cache (λ n. n) "k" flood (empty_dict, [])).1 ≡ 4
unfolding contact_all contact_view save page_of rate_limit current_count count_from incremented
    exceeds effective_limit
stores_four = refl

contact_all-bounded_example :
    length (contact_all dict_cache (λ n. n) "k" flood (empty_dict, [])).1
    ≤ length {A = ContactMessage} [] + effective_limit (λ n. n) contact_limit
contact_all-bounded_example =
    contact_all-bounded dict_cache dict_laws (λ n. n) "k" flood empty_dict [] refl
