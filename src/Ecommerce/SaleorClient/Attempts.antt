-- ===== src/Ecommerce/SaleorClient/Attempts.antt =====
-- How many requests a call of Eve/ecommerce/services/saleor_client.py sends, and how it ends.
use django_app_eve.Prelude.{
  ℕ, zero, suc, ◌+◌, ◌≤◌, ◌<◌, ◌≡◌, ◌≢◌, refl, inl, inr, Bool-cases, leb, Option, none, some, Bool,
  true, false, ◌&&◌, not, if◌then◌else◌, if-both, &&-right, arith,
}
use django_app_eve.Core.Cache.{Cache}
use django_app_eve.Ecommerce.SaleorClient.{
  Errors, no_errors, not_iterable, error_items, is_malformed, Body, invalid, not_object, object,
  HttpResponse, Upstream, response, timeout, connection_error, Code, timed_out, no_connection,
  Parsed, bad, good, raised, parse_body, Outcome, uncaught, no_error_to_raise, max_attempts,
  is_retryable, parse_response, circuit_is_open, is_last, on_reply, give_up, conclude, attempt_loop,
  saleor_graphql,
}

module _ (c : Cache) {D : Type 0} (upstream : ℕ → Upstream D) (retry : Bool) where
  open c use {State}

  -- What a loop that starts after `made` requests with `left` attempts may do.
  -- The answer to one of `sent` requests has `errors` whose codes cannot be read.
  pub record GotMalformed (sent : ℕ) : Type 0 where
    pub request : ℕ
    pub received : request < sent
    pub reply : HttpResponse D
    pub errors : Errors
    pub payload : Option D
    pub got : upstream request ≡ response reply
    pub body : reply.body ≡ object errors payload
    pub malformed : is_malformed errors ≡ true

  parse_body-raised :
      (b : Body D)
      → parse_body b ≡ raised
      → (e : Errors) × (o : Option D) × (b ≡ object e o) × (is_malformed e ≡ true)
  unfolding parse_body
  parse_body-raised invalid h = cc
  parse_body-raised not_object h = cc
  parse_body-raised (object no_errors none) h = cc
  parse_body-raised (object no_errors (some d)) h = cc
  parse_body-raised (object not_iterable o) h = (not_iterable, o, refl, refl)
  parse_body-raised (object (error_items l) o) h =
      elim (Bool-cases (is_malformed (error_items l))) [
        | inl e ↦ (error_items l, o, refl, e)
        | inr e ↦ cc (rw e at h)
      ]

  parse_response-raised :
      (x : HttpResponse D)
      → parse_response x ≡ raised
      → (e : Errors) × (o : Option D) × (x.body ≡ object e o) × (is_malformed e ≡ true)
  unfolding parse_response
  parse_response-raised x h = elim (Bool-cases (leb 400 x.status_code)) [
    | inl e ↦ cc (rw e at h)
    | inr e ↦ elim (Bool-cases x.is_json) [
      | inl j ↦ parse_body-raised x.body (rw j at (rw e at h))
      | inr j ↦ cc (rw j at (rw e at h))
    ]
  ]

  record Fine (made left : ℕ) (r : Outcome D × ℕ × State) : Type 0 where
    least : made ≤ r.1
    most : r.1 ≤ made + left
    raises : r.0 ≢ no_error_to_raise
    catches : r.0 ≡ uncaught → GotMalformed r.1

  conclude-Fine :
      (made left : ℕ) (p : Parsed D) (s : State)
      → (p ≡ raised → GotMalformed (made + 1))
      → Fine made (suc left) (conclude c upstream retry (made + 1) p s)
  unfolding conclude
  conclude-Fine made left raised s h = record {
    least = omega arith;
    most = omega arith;
    raises = λ h. cc;
    catches = λ e. h refl;
  }
  conclude-Fine made left (bad e) s h = record {
    least = omega arith;
    most = omega arith;
    raises = λ h. cc;
    catches = λ h. cc;
  }
  conclude-Fine made left (good d) s h = record {
    least = omega arith;
    most = omega arith;
    raises = λ h. cc;
    catches = λ h. cc;
  }

  abbrev AnyError : ℕ → Option Code → Type 0
  AnyError zero none = ⊥
  AnyError _ _ = Unit

  any_some : (k : ℕ) (e : Code) → AnyError k (some e)
  any_some zero e = tt
  any_some (suc k) e = tt

  more :
      (made left : ℕ) (r : Outcome D × ℕ × State) → Fine (made + 1) left r → Fine made (suc left) r
  more made left r f = record {
    least = omega (arith, f.least);
    most = omega (arith, f.most);
    raises = f.raises;
    catches = f.catches;
  }

  on_reply-Fine :
      (left made : ℕ) (last : Option Code) (s : State) (u : Upstream D)
      (again : Option Code → Outcome D × ℕ × State)
      → upstream made ≡ u
      → ((e : Option Code) → AnyError left e → Fine (made + 1) left (again e))
      → Fine made (suc left) (on_reply c upstream retry left made last s u again)
  unfolding on_reply
  on_reply-Fine left made last s timeout again got h =
      more made left _ (h (some timed_out) (any_some left timed_out))
  on_reply-Fine left made last s connection_error again got h =
      more made left _ (h (some no_connection) (any_some left no_connection))
  on_reply-Fine left made last s (response r) again got h =
      if-both (Fine made (suc left))
        (retry && (is_retryable r.status_code && not (is_last c upstream retry left))) _ _
        (λ e. more made left _ (h last (not_last left last (&&-right _ _ (&&-right retry _ e)))))
        (λ e. conclude-Fine made left (parse_response r) s (λ z.
          let (errors, payload, body, malformed) = parse_response-raised r z in
          record {
            request = made;
            received = omega arith;
            reply = r;
            errors = errors;
            payload = payload;
            got = got;
            body = body;
            malformed = malformed;
          }))
    where
      not_last : (k : ℕ) (e : Option Code) → not (is_last c upstream retry k) ≡ true → AnyError k e
      not_last zero e h = cc
      not_last (suc k) none h = tt
      not_last (suc k) (some e) h = tt

  attempt_loop-Fine :
      (left made : ℕ) (last : Option Code) (s : State)
      → AnyError left last
      → Fine made left (attempt_loop c upstream retry left made last s)
  unfolding attempt_loop give_up
  attempt_loop-Fine zero made none s h = absurd h
  attempt_loop-Fine zero made (some e) s h = record {
    least = omega arith;
    most = omega arith;
    raises = λ h. cc;
    catches = λ h. cc;
  }
  attempt_loop-Fine (suc left) made last s h =
      on_reply-Fine left made last s (upstream made) _ refl
        (λ e any. attempt_loop-Fine left (made + 1) e s any)

-- A call sends at most three requests, and a mutation (`retry=False`) at most one: it is never sent
-- again, whatever comes back. It ends with data, with SaleorAPIError, or with an exception that it
-- does not catch, the last only if one of the answers has `errors` whose codes cannot be read; it
-- never raises None.
pub saleor_graphql_requests :
    (c : Cache) {D : Type 0} (upstream : ℕ → Upstream D) (retry configured : Bool) (s : c.State)
    → let r = saleor_graphql c upstream retry configured s in
      (r.1 ≤ (if retry then max_attempts else 1))
      × (r.0 ≢ no_error_to_raise)
      × (r.0 ≡ uncaught → GotMalformed c upstream retry r.1)
unfolding saleor_graphql
saleor_graphql_requests c {D} upstream retry configured s =
    if-both Good (not configured) _ _ (λ e. (omega arith, λ h. cc, λ h. cc))
      (λ e.
        if-both Good (circuit_is_open c s) _ _ (λ e. (omega arith, λ h. cc, λ h. cc))
          (λ e.
            let f =
              attempt_loop-Fine c upstream retry (if retry then max_attempts else 1) 0 none s
                (budget retry) in
            (omega (arith, f.most), f.raises, f.catches)))
  where
    Good : Outcome D × ℕ × c.State → Type 0
    Good r =
        (r.1 ≤ (if retry then max_attempts else 1))
        × (r.0 ≢ no_error_to_raise)
        × (r.0 ≡ uncaught → GotMalformed c upstream retry r.1)

    budget : (b : Bool) → AnyError c upstream retry (if b then max_attempts else 1) none
    budget true = tt
    budget false = tt
