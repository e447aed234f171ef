-- ===== src/Loadtest/Stats.antt =====
-- `evaluate_stats` of Eve/loadtest/evaluate.py, with the budgets of Eve/loadtest/config.py. The rows of the
-- CSV file arrive parsed.
use django_app_eve.Prelude.{
  ℕ, ◌+◌, ◌*◌, String, Option, none, some, Bool, true, false, List, [], ◌∷◌, ◌++◌, ◌||◌, not, ltb,
  ◌==◌, map, flat_map, find, select, str_eq, if◌then◌else◌,
}

-- Python's floats, of which the program uses: `float` of a text (none is ValueError), `int` of a finite
-- float that is not negative, the float of an integer, and the comparison.
pub record Floats : Type 1 where
  pub Float : Type 0
  pub parse : String → Option Float
  pub truncated : Float → ℕ
  pub of_int : ℕ → Float
  pub above : Float → Float → Bool

-- A column of a row: `row.get` gives the default where the header lacks it, and None where the row is
-- too short.
pub data Cell : Type 0 where
  missing short : Cell
  text : String → Cell

pub record Row : Type 0 where
  pub name : Cell
  pub request_count : Cell
  pub failure_count : Cell
  pub p95 : Cell

abbrev pub p95_budgets_ms : List (String × ℕ)
p95_budgets_ms =
    ("GET /", 500)
    ∷ ("GET /shop/catalogue/", 500)
    ∷ ("GET /shop/product/[hit]", 500)
    ∷ ("GET /shop/product/[miss]", 800)
    ∷ ("POST /accounts/login/", 1000)
    ∷ ("POST /shop/cart/add/", 500)
    ∷ ("GET /shop/cart/", 500)
    ∷ ("POST /payments/webhooks/saleor/", 300)
    ∷ []

-- The failures, without the numbers of their messages.
pub data Failure : Type 0 where
  too_few too_slow missing_flow : String → Failure
  too_many_failures no_samples : Failure
  invalid_json pool_exhausted pg_utilization redis_utilization uncertain_backlog : ℕ → Failure

-- What the loop takes from a row: nothing, its counts, or the flow that it measures.
pub data Flow (Float : Type 0) : Type 0 where
  skipped : Flow Float
  counted : (requests failed : ℕ) → Flow Float
  measured : (name : String) (requests failed : ℕ) → Float → Flow Float

unfoldable pub mem : String → List String → Bool
mem x [] = false
mem x (y ∷ rest) = let later = mem x rest in if str_eq x y then true else later

unfoldable pub budget_of : String → Option (String × ℕ)
budget_of name = find (λ (b : String × ℕ). str_eq b.0 name) p95_budgets_ms

-- `ratio > MAX_FAILURE_RATIO`, which is 0.01; the ratio of no requests is 1.0. The division of the
-- floats is exact enough for counts below 2 ^ 46.
unfoldable pub is_over_ratio : (failed requests : ℕ) → Bool
is_over_ratio failed requests = requests == 0 || ltb requests (failed * 100)

-- What the loop adds up.
module _ {Float : Type 0} where
  abbrev pub requests_of : Flow Float → ℕ
  requests_of skipped = 0
  requests_of (counted n f) = n
  requests_of (measured name n f p95) = n

  abbrev pub failed_of : Flow Float → ℕ
  failed_of skipped = 0
  failed_of (counted n f) = f
  failed_of (measured name n f p95) = f

  abbrev pub total : (Flow Float → ℕ) → List (Flow Float) → ℕ
  total f [] = 0
  total f (x ∷ rest) = f x + total f rest

  abbrev pub is_flow : String → Flow Float → Bool
  is_flow name (measured other n f p95) = str_eq other name
  is_flow name _ = false

  unfoldable pub was_seen : List (Flow Float) → String → Bool
  was_seen [] name = false
  was_seen (x ∷ rest) name =
      let later = was_seen rest name in if is_flow name x then true else later

module _ (floats : Floats) where
  open floats use {Float, of_int, above}

  unfoldable pub over_budget : Float → Option (String × ℕ) → Bool
  over_budget p95 none = false
  over_budget p95 (some (name, budget)) = above p95 (of_int budget)

module _ (floats : Floats) (required : List String) (min_requests : ℕ) where
  open floats use {Float, parse, truncated, of_int}

  -- `_number`
  unfoldable pub number : Cell → Option Float
  number missing = some (of_int 0)
  number short = some (of_int 0)
  number (text s) =
      let value = parse s in if str_eq s "" || str_eq s "N/A" then some (of_int 0) else value

  unfoldable pub read_measured : String → ℕ → ℕ → Option Float → Option (Flow Float)
  read_measured name requests failed none = none
  read_measured name requests failed (some p95) = some (measured name requests failed p95)

  abbrev is_required : Cell → Bool
  is_required (text s) = mem s required
  is_required _ = false

  abbrev name_of : Cell → String
  name_of (text s) = s
  name_of _ = ""

  unfoldable pub read_counts : Row → Option Float → Option Float → Option (Flow Float)
  unfolding read_measured number
  read_counts row none failed = none
  read_counts row (some requests) none = none
  read_counts row (some requests) (some failed) =
      if is_required row.name
      then read_measured (name_of row.name) (truncated requests) (truncated failed) (number row.p95)
      else some (counted (truncated requests) (truncated failed))

  -- `name in ("Aggregated", "")`
  abbrev is_summary : Cell → Bool
  is_summary missing = true
  is_summary short = false
  is_summary (text s) = str_eq s "Aggregated" || str_eq s ""

  unfoldable pub read_row : Row → Option (Flow Float)
  unfolding read_counts
  read_row row =
      if is_summary row.name
      then some skipped
      else read_counts row (number row.request_count) (number row.failure_count)

  abbrev and_flows : {A : Type 0} → Option A → Option (List A) → Option (List A)
  and_flows none l = none
  and_flows (some a) none = none
  and_flows (some a) (some l) = some (a ∷ l)

  -- The rows in order; a number that cannot be read ends the program.
  unfoldable pub read_rows : List Row → Option (List (Flow Float))
  unfolding read_row
  read_rows [] = some []
  read_rows (row ∷ rest) = and_flows (read_row row) (read_rows rest)

  unfoldable pub flow_failures : Flow Float → List Failure
  unfolding over_budget budget_of
  flow_failures (measured name requests failed p95) =
      (if ltb requests min_requests then too_few name ∷ [] else [])
      ++ (if over_budget floats p95 (budget_of name) then too_slow name ∷ [] else [])
  flow_failures _ = []

  -- `evaluate_stats`; `required` is in the order of `sorted`, without repetition.
  unfoldable pub evaluate_stats : List (Flow Float) → List Failure
  evaluate_stats flows =
      flat_map flow_failures flows
      ++ map missing_flow (select (λ name. not (was_seen flows name)) required)
      ++ (if is_over_ratio (total failed_of flows) (total requests_of flows)
          then too_many_failures ∷ []
          else [])
