-- ===== src/Ecommerce/SaleorClient.antt =====
-- Eve/ecommerce/services/saleor_client.py: the GraphQL client of Saleor with its bounded retries and
-- the circuit breaker that the workers share through the cache. What Saleor answers to each
-- request is an argument; the waits between attempts are not modelled.
pub mod Circuit
pub mod Attempts
pub mod FailsFast
use django_app_eve.Prelude.{
  ℕ, zero, suc, ◌+◌, ◌*◌, String, Option, none, some, Bool, true, false, List, [], ◌∷◌, ◌&&◌, ◌||◌,
  not, leb, ltb, ◌==◌, if◌then◌else◌,
}
use django_app_eve.Core.Cache.{Cache, Value, num, text, flag, Reply, ok, value_error, unreachable}

abbrev pub max_attempts : ℕ
max_attempts = 3

abbrev pub circuit_failure_threshold : ℕ
circuit_failure_threshold = 5

abbrev pub circuit_cooldown_seconds : ℕ
circuit_cooldown_seconds = 60

-- `status in RETRYABLE_STATUS`
unfoldable pub is_retryable : ℕ → Bool
is_retryable s = s == 429 || s == 502 || s == 503 || s == 504

abbrev pub failures_key : String
failures_key = "saleor:circuit:failures"

abbrev pub open_key : String
open_key = "saleor:circuit:open"

abbrev pub was_open_key : String
was_open_key = "saleor:circuit:was-open"

-- An element of `errors`: no object, which is passed over; an object whose `extensions` are falsy or an
-- object, from which the code is read; or an object with other `extensions`, which have no `get`.
pub data ErrorItem : Type 0 where
  passed_over readable unreadable : ErrorItem

-- The `errors` of an object: absent or falsy, a value that cannot be iterated over, or the elements.
pub data Errors : Type 0 where
  no_errors : Errors
  not_iterable : Errors
  error_items : List ErrorItem → Errors

-- The decoded body: no JSON, no object, or an object with its `errors` and its `data`, where that is
-- an object.
pub data Body (D : Type 0) : Type 0 where
  invalid : Body D
  not_object : Body D
  object : Errors → Option D → Body D

pub record HttpResponse (D : Type 0) : Type 0 where
  pub status_code : ℕ
  -- "application/json" stands in the content type
  pub is_json : Bool
  pub body : Body D

-- What one request comes to: a response, a timeout or another RequestException.
pub data Upstream (D : Type 0) : Type 0 where
  response : HttpResponse D → Upstream D
  timeout : Upstream D
  connection_error : Upstream D

-- The codes of SaleorAPIError; `circuit_open` is SaleorCircuitOpen.
pub data Code : Type 0 where
  not_configured circuit_open timed_out no_connection http_error non_json_response invalid_json
        unexpected_shape graphql_error missing_data :
      Code

pub data Parsed (D : Type 0) : Type 0 where
  bad : Code → Parsed D
  good : D → Parsed D
  -- the TypeError or AttributeError of reading the codes
  raised : Parsed D

abbrev is_unreadable : ErrorItem → Bool
is_unreadable passed_over = false
is_unreadable readable = false
is_unreadable unreadable = true

unfoldable pub any_unreadable : List ErrorItem → Bool
any_unreadable [] = false
any_unreadable (x ∷ rest) = is_unreadable x || any_unreadable rest

-- Reading the codes of `errors` raises.
unfoldable pub is_malformed : Errors → Bool
unfolding any_unreadable
is_malformed no_errors = false
is_malformed not_iterable = true
is_malformed (error_items l) = any_unreadable l

unfoldable pub parse_body : {D : Type 0} → Body D → Parsed D
unfolding is_malformed
parse_body invalid = bad invalid_json
parse_body not_object = bad unexpected_shape
parse_body (object no_errors none) = bad missing_data
parse_body (object no_errors (some d)) = good d
parse_body (object errors o) = if is_malformed errors then raised else bad graphql_error

unfoldable pub parse_response : {D : Type 0} → HttpResponse D → Parsed D
unfolding parse_body
parse_response r =
    if leb 400 r.status_code
    then bad http_error
    else if r.is_json
    then parse_body r.body
    else bad non_json_response

-- How `saleor_graphql` ends: with data, with SaleorAPIError, with an exception of the parsing that it
-- does not catch, or with the TypeError of `raise last_error` where `last_error` is still None.
pub data Outcome (D : Type 0) : Type 0 where
  answer : D → Outcome D
  failed : Code → Outcome D
  uncaught : Outcome D
  no_error_to_raise : Outcome D

module _ (c : Cache) where
  open c use {State, get, add, set, incr, delete}

  unfoldable pub is_present : Reply (Option Value) → Bool
  is_present (ok (some _)) = true
  is_present _ = false

  unfoldable pub circuit_is_open : State → Bool
  unfolding is_present
  circuit_is_open s = is_present (get open_key s)

  -- Go on with the state of a call that returned; an exception ends the `try`.
  abbrev pub when_ok : {A : Type 0} → Reply A × State → (A → State → State) → State
  when_ok (ok a, s) k = k a s
  when_ok (value_error, s) k = s
  when_ok (unreachable, s) k = s

  unfoldable pub open_circuit : State → State
  open_circuit s = when_ok (set open_key flag circuit_cooldown_seconds s) (λ _ s1.
      when_ok (set was_open_key flag (circuit_cooldown_seconds * 10) s1)
        (λ _ s2. when_ok (delete failures_key s2) (λ _ s3. s3)))

  unfoldable pub open_at_threshold : ℕ → State → State
  unfolding open_circuit
  open_at_threshold failures s =
      if leb circuit_failure_threshold failures then open_circuit s else s

  unfoldable pub circuit_record_failure : State → State
  circuit_record_failure s =
      when_ok (add failures_key (num 1) (circuit_cooldown_seconds * 2) s) (λ fresh s1.
        if fresh
        then open_at_threshold 1 s1
        else when_ok (incr failures_key s1) (λ n s2. open_at_threshold n s2))

  unfoldable pub circuit_record_success : State → State
  unfolding is_present
  circuit_record_success s = when_ok (delete failures_key s) (λ _ s1.
      if is_present (get was_open_key s1)
      then when_ok (delete was_open_key s1) (λ _ s2. s2)
      else s1)

  module _ {D : Type 0} (upstream : ℕ → Upstream D) (retry : Bool) where
    -- A run: how it ends, how many requests were sent, and the cache.
    abbrev pub Run : Type 0
    Run = Outcome D × ℕ × State

    -- After the last attempt: `raise last_error`.
    unfoldable pub give_up : ℕ → Option Code → State → Run
    give_up sent none s = (no_error_to_raise, sent, circuit_record_failure s)
    give_up sent (some e) s = (failed e, sent, circuit_record_failure s)

    unfoldable pub conclude : ℕ → Parsed D → State → Run
    conclude sent (bad e) s = (failed e, sent, circuit_record_failure s)
    conclude sent (good d) s = (answer d, sent, circuit_record_success s)
    conclude sent raised s = (uncaught, sent, s)

    -- The loop, with the attempts that are left, the number of those made, and `last_error`.
    abbrev pub is_last : ℕ → Bool
    is_last zero = true
    is_last (suc _) = false

    -- One turn of the loop: `again` is the rest of the loop, given `last_error`.
    unfoldable pub on_reply : ℕ → ℕ → Option Code → State → Upstream D → (Option Code → Run) → Run
    on_reply left made last s timeout again = again (some timed_out)
    on_reply left made last s connection_error again = again (some no_connection)
    on_reply left made last s (response r) again =
        if retry && (is_retryable r.status_code && not (is_last left))
        then again last
        else conclude (made + 1) (parse_response r) s

    unfoldable pub attempt_loop : ℕ → ℕ → Option Code → State → Run
    attempt_loop zero made last s = give_up made last s
    attempt_loop (suc left) made last s =
        on_reply left made last s (upstream made) (λ e. attempt_loop left (made + 1) e s)

    unfoldable pub saleor_graphql : Bool → State → Run
    saleor_graphql configured s =
        if not configured
        then (failed not_configured, 0, s)
        else if circuit_is_open s
        then (failed circuit_open, 0, s)
        else attempt_loop (if retry then max_attempts else 1) 0 none s
