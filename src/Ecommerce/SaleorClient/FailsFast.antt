-- ===== src/Ecommerce/SaleorClient/FailsFast.antt =====
-- What failed calls of Eve/ecommerce/services/saleor_client.py do to the next call.
use django_app_eve.Prelude.{
  ℕ, zero, suc, ◌+◌, ◌≤◌, ◌<◌, ◌≡◌, refl, ◌∙◌, ap, Option, none, some, Bool, true, false, ◌&&◌, not,
  leb, if◌then◌else◌, if-both, arith,
}
use django_app_eve.Core.Cache.{Cache, Laws}
use django_app_eve.Ecommerce.SaleorClient.{
  Upstream, response, timeout, connection_error, Code, timed_out, no_connection, circuit_open,
  Parsed, bad, good, raised, Outcome, failed, circuit_failure_threshold, max_attempts, is_retryable,
  parse_response, circuit_is_open, circuit_record_failure, is_last, on_reply, give_up, conclude,
  attempt_loop, saleor_graphql,
}
use django_app_eve.Ecommerce.SaleorClient.Circuit.{Closed, fail_times, circuit_exact}

module _ (c : Cache) {D : Type 0} where
  open c use {State}

  -- A run that ends with SaleorAPIError has counted one failure.
  abbrev Records : State → Outcome D × ℕ × State → Type 0
  Records s r = (e : Code) → r.0 ≡ failed e → r.2 ≡ circuit_record_failure c s

  module _ (upstream : ℕ → Upstream D) (retry : Bool) where
    conclude-Records :
        (sent : ℕ) (p : Parsed D) (s : State) → Records s (conclude c upstream retry sent p s)
    unfolding conclude
    conclude-Records sent (bad e) s = λ code h. refl
    conclude-Records sent (good d) s = λ code h. cc
    conclude-Records sent raised s = λ code h. cc

    on_reply-Records :
        (left made : ℕ) (last : Option Code) (s : State) (u : Upstream D)
        (again : Option Code → Outcome D × ℕ × State)
        → ((e : Option Code) → Records s (again e))
        → Records s (on_reply c upstream retry left made last s u again)
    unfolding on_reply
    on_reply-Records left made last s timeout again h = h (some timed_out)
    on_reply-Records left made last s connection_error again h = h (some no_connection)
    on_reply-Records left made last s (response r) again h =
        if-both (Records s)
          (retry && (is_retryable r.status_code && not (is_last c upstream retry left))) _ _
          (λ e. h last) (λ e. conclude-Records (made + 1) (parse_response r) s)

    attempt_loop-Records :
        (left made : ℕ) (last : Option Code) (s : State)
        → Records s (attempt_loop c upstream retry left made last s)
    unfolding attempt_loop give_up
    attempt_loop-Records zero made none s = λ code h. cc
    attempt_loop-Records zero made (some e) s = λ code h. refl
    attempt_loop-Records (suc left) made last s =
        on_reply-Records left made last s (upstream made) _
          (λ e. attempt_loop-Records left (made + 1) e s)

    -- A call that reached Saleor and failed.
    saleor_graphql-Records :
        (s : State)
        → circuit_is_open c s ≡ false
        → Records s (saleor_graphql c upstream retry true s)
    unfolding saleor_graphql
    saleor_graphql-Records s closed =
        rw closed (attempt_loop-Records (if retry then max_attempts else 1) 0 none s)

  -- The cache after `n` calls, one after another: `replies i` is what Saleor answers to the requests
  -- of the call `i`, and `retries i` whether that call may repeat them.
  module _ (replies : ℕ → ℕ → Upstream D) (retries : ℕ → Bool) where
    abbrev pub call : ℕ → State → Outcome D × ℕ × State
    call i s = saleor_graphql c (replies i) (retries i) true s

    unfoldable pub after_calls : ℕ → State → State
    after_calls zero s = s
    after_calls (suc n) s = (call n (after_calls n s)).2

    after_calls-fail_times :
        (laws : Laws c) (n : ℕ) (s : State)
        → n ≤ circuit_failure_threshold
        → Closed c laws 0 s
        → ((i : ℕ) → i < n → (e : Code) × ((call i (after_calls i s)).0 ≡ failed e))
        → after_calls n s ≡ fail_times c laws n s
    unfolding after_calls fail_times
    after_calls-fail_times laws zero s small closed fails = refl
    after_calls-fail_times laws (suc n) s small closed fails =
        let same =
          after_calls-fail_times laws n s (omega (arith, small)) closed
            (λ i h. fails i (omega (arith, h))) in
        let still_closed : circuit_is_open c (after_calls n s) ≡ false =
          ap (circuit_is_open c) same
          ∙ circuit_exact c laws n s (omega (arith, small)) closed
          ∙ below n small in
        let (e, failed_so) = fails n (omega arith) in
        saleor_graphql-Records (replies n) (retries n) (after_calls n s) still_closed e failed_so
        ∙ ap (circuit_record_failure c) same
      where
        below :
            (m : ℕ) → suc m ≤ circuit_failure_threshold → leb circuit_failure_threshold m ≡ false
        below m h = ground arith

-- Five calls in a row that end with SaleorAPIError, from a closed circuit with no failure counted, each
-- with whatever answers of Saleor, leave a state in which the next call is refused as long as the
-- open entry lasts: no request is sent, whatever Saleor would answer, and the cache is left alone.
pub saleor_graphql_fails_fast :
    (c : Cache) (laws : Laws c) {D : Type 0} (replies : ℕ → ℕ → Upstream D) (retries : ℕ → Bool)
    (upstream : ℕ → Upstream D) (retry : Bool) (s : c.State)
    → Closed c laws 0 s
    → ((i : ℕ)
        → i < circuit_failure_threshold
        → (e : Code) × ((call c replies retries i (after_calls c replies retries i s)).0
            ≡ failed e))
    → let s' = after_calls c replies retries circuit_failure_threshold s in
      saleor_graphql c upstream retry true s' ≡ (failed circuit_open, 0, s')
unfolding saleor_graphql
saleor_graphql_fails_fast c laws replies retries upstream retry s closed fails = rw (
    ap (circuit_is_open c) (
      after_calls-fail_times c replies retries laws circuit_failure_threshold s (omega arith) closed
        fails)
    ∙ circuit_exact c laws circuit_failure_threshold s (omega arith) closed)
