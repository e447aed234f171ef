-- ===== src/Deploy.antt =====
-- `verify` of Eve/deploy/verify_deployment.py: the gate after a rollout, which asks the two health
-- probes of a deployment. What the URL parses to (`urllib.parse.urlparse`) and what the requests come to
-- are arguments; the waits between attempts are not modelled.
pub mod Streak
pub mod Gate
pub mod Lock
use django_app_eve.Prelude.{
  ℕ, zero, suc, String, Option, none, some, Bool, true, false, List, ◌&&◌, ◌||◌, not, str_eq, leb,
  ◌==◌, if◌then◌else◌,
}
use django_app_eve.Core.Health.{all_ok}

pub record Url : Type 0 where
  pub scheme : String
  pub netloc : String
  pub username : Option String
  pub password : Option String

abbrev is_given : Option String → Bool
is_given none = false
is_given (some s) = not (str_eq s "")

unfoldable pub is_origin : Url → Bool
is_origin u =
    str_eq u.scheme "https"
    && not (str_eq u.netloc "")
    && not (is_given u.username)
    && not (is_given u.password)

-- The JSON of the readiness probe: an object with its status (none where it is missing) and its
-- checks (empty where they are missing), or a value on which `.get` or `.values` raises.
pub data Body : Type 0 where
  object : Option String → List (String × String) → Body
  no_object : Body

-- The answers of the two probes, or one of the exceptions that `verify` catches.
pub data Probe : Type 0 where
  answers : (live_status : ℕ) → (is_alive : Bool) → (ready_status : ℕ) → Body → Probe
  caught : Probe

pub data Verdict : Type 0 where
  healthy unhealthy raises : Verdict

abbrev says_ready : Option String → Bool
says_ready none = false
says_ready (some s) = str_eq s "ready"

unfoldable pub judge_body : Body → Verdict
judge_body (object status checks) =
    if says_ready status && all_ok checks then healthy else unhealthy
judge_body no_object = raises

-- `healthy`, whose conditions are evaluated from the left.
unfoldable pub judge : Probe → Verdict
unfolding judge_body
judge (answers live_status is_alive ready_status body) =
    if (live_status == 200) && is_alive && (ready_status == 200) then judge_body body else unhealthy
judge caught = unhealthy

pub data Result : Type 0 where
  passed : (attempt : ℕ) → Result
  failed : Result
  -- ValueError of an URL that is no origin, and AttributeError of a body that is no object
  refused : Result
  raised : Result

-- What one attempt comes to, with the ready ones in a row before it: `more` is the rest of the loop
-- after another ready one, `again` the rest after the count was reset.
unfoldable pub on_verdict :
    Verdict → (attempt consecutive_ready : ℕ) → (more again : Result) → Result
on_verdict healthy attempt streak more again = if leb 3 (suc streak) then passed attempt else more
on_verdict unhealthy attempt streak more again = again
on_verdict raises attempt streak more again = raised

-- The attempts that are left, the number of the next one, and the ready ones in a row before it.
unfoldable pub verify_from : (ℕ → Verdict) → (left attempt consecutive_ready : ℕ) → Result
unfolding on_verdict
verify_from verdict zero attempt streak = failed
verify_from verdict (suc left) attempt streak =
    on_verdict (verdict attempt) attempt streak
      (verify_from verdict left (suc attempt) (suc streak))
      (verify_from verdict left (suc attempt) 0)

unfoldable pub verify : Url → (attempts : ℕ) → (ℕ → Probe) → Result
unfolding is_origin judge verify_from
verify url attempts probe =
    if is_origin url then verify_from (λ n. judge (probe n)) attempts 1 0 else refused
