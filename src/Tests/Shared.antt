-- ===== src/Tests/Shared.antt =====
-- The theorems about the shared cache, at a dictionary: the polling of a value, the lockout
-- and the circuit breaker.
use django_app_eve.Core.Lease.Waiting.{Ends, wait_until-Ends}
use django_app_eve.Prelude.{
  ◌*◌, ◌==◌, ◌+◌, zero, suc, some, arith, Bool, str_eq, ℕ, String, ◌≡◌, ◌≢◌, ◌≤◌, ◌<◌, refl, true,
  Option, none, [], ◌∷◌, count, leb, if◌then◌else◌,
}
use django_app_eve.Core.Cache.{Value, num}
use django_app_eve.Accounts.Lockout.{User, notify_lockout, is_locked, fail_times}
use django_app_eve.Accounts.Lockout.Window.{is_mail, mails_due, lockout_exact}
use django_app_eve.Accounts.Login.Locks.{guess_times}
use django_app_eve.Ecommerce.SaleorClient.{
  Upstream, timeout, Code, timed_out, circuit_open, failed, uncaught, give_up, on_reply,
  attempt_loop, circuit_record_failure, circuit_is_open, is_present, open_at_threshold,
  open_circuit, max_attempts, no_error_to_raise, failures_key, saleor_graphql,
}
use django_app_eve.Ecommerce.SaleorClient.Attempts.{GotMalformed, saleor_graphql_requests}
use django_app_eve.Ecommerce.SaleorClient.Circuit.{Closed}
use django_app_eve.Ecommerce.SaleorClient.FailsFast.{call, after_calls, saleor_graphql_fails_fast}
use django_app_eve.Tests.Caches.{dict_cache, dict_laws, empty_dict, with_entry}

abbrev World : Type 0
World = String → Option Value

abbrev unscaled : ℕ → ℕ
unscaled n = n

-- A view that answers 7.
abbrev seven : World → ℕ × World
seven s = (7, s)

abbrev twice : World
twice = with_entry "rate" (num 2) empty_dict

abbrev seven_down : Unit {0} → ℕ × Unit {0}
seven_down s = (7, s)

abbrev bob : User
bob = record { pk = 1; username = "bob"; email = "b@x" }

abbrev key_of : String → String
key_of name = name

lockout_exact_example :
    (is_locked dict_cache key_of "bob"
        (fail_times dict_cache key_of 10 (bob ∷ []) "bob" empty_dict).1
      ≡ leb 10 10)
    × (count is_mail (fail_times dict_cache key_of 10 (bob ∷ []) "bob" empty_dict).0
        ≡ mails_due dict_cache dict_laws key_of 10 (notify_lockout (bob ∷ []) "bob"))
lockout_exact_example =
    lockout_exact dict_cache dict_laws key_of 10 (bob ∷ []) "bob" empty_dict refl

-- The password of every name is "secret".
abbrev is_secret : String → String → Bool
is_secret username password = str_eq password "secret"

abbrev guessed : World
guessed = guess_times dict_cache key_of (bob ∷ []) is_secret 12 "bob" "guess" empty_dict

-- A circuit with no failure counted.
closed : Closed dict_cache dict_laws 0 empty_dict
closed = record { counter = refl; is_closed = refl; was_open = (none, refl) }

abbrev failing : World
failing = with_entry failures_key (num 4) empty_dict

-- Saleor never answers in time.
abbrev slow : ℕ → Upstream ℕ
slow n = timeout

saleor_graphql_requests_example :
    ((saleor_graphql dict_cache slow true true empty_dict).1 ≤ (if true then max_attempts else 1))
    × ((saleor_graphql dict_cache slow true true empty_dict).0 ≢ no_error_to_raise)
    × ((saleor_graphql dict_cache slow true true empty_dict).0 ≡ uncaught
        → GotMalformed dict_cache slow true (saleor_graphql dict_cache slow true true empty_dict).1)
saleor_graphql_requests_example = saleor_graphql_requests dict_cache slow true true empty_dict

abbrev all_slow : ℕ → ℕ → Upstream ℕ
all_slow i = slow

abbrev retried : ℕ → Bool
retried i = true

-- Each of the first five calls ends in a timeout.
all_fail :
    (i : ℕ)
    → i < 5
    → (e : Code) × ((call dict_cache all_slow retried i
          (after_calls dict_cache all_slow retried i empty_dict)).0
        ≡ failed e)
unfolding after_calls saleor_graphql attempt_loop on_reply give_up circuit_record_failure
    circuit_is_open is_present open_at_threshold open_circuit
all_fail zero h = (timed_out, refl)
all_fail (suc zero) h = (timed_out, refl)
all_fail (suc (suc zero)) h = (timed_out, refl)
all_fail (suc (suc (suc zero))) h = (timed_out, refl)
all_fail (suc (suc (suc (suc zero)))) h = (timed_out, refl)
all_fail (suc (suc (suc (suc (suc i))))) h = absurd (omega (arith, h))

saleor_graphql_fails_fast_example :
    saleor_graphql dict_cache slow true true (after_calls dict_cache all_slow retried 5 empty_dict)
    ≡ (failed circuit_open, 0, after_calls dict_cache all_slow retried 5 empty_dict)
saleor_graphql_fails_fast_example =
    saleor_graphql_fails_fast dict_cache dict_laws all_slow retried slow true empty_dict closed
      all_fail

-- A sleep of 50 milliseconds that takes 60, and a value that is there at the third poll.
abbrev clock : ℕ → ℕ
clock k = 60 * k + 7

abbrev third : ℕ → Option String
third k = if k == 2 then some "value" else none

sleeps : (i : ℕ) → clock i + 50 ≤ clock (suc i)
sleeps i = omega arith

wait_until-Ends_example : Ends clock third 20 (5 + 1000) 0
wait_until-Ends_example =
    wait_until-Ends clock third 5 1000 50 20 (omega arith) sleeps (omega arith)
