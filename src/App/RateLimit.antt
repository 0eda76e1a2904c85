-- ===== src/App/RateLimit.antt =====
-- crates/variance-app/src/api/rate_limit.rs: the limit on requests to the local HTTP API. The inner
-- service and the clock (in seconds) are arguments. All clones of the service share one window, which
-- is the state here; its lock is held from the reading of the window to its writing.
pub mod Window
mod Tests
use variance.Prelude.{ℕ, suc, ◌+◌, ◌-◌, List, [], ◌∷◌, Bool, true, false, ltb, leb, if◌then◌else◌}

pub record WindowState : Type 0 where
  pub count : ℕ
  pub window_start : ℕ

pub record LocalRateLimit : Type 0 where
  pub state : WindowState
  pub max_requests : ℕ
  pub window_secs : ℕ

-- `LocalRateLimitLayer::new`.
unfoldable pub new_layer : ℕ → ℕ → LocalRateLimit
new_layer max_requests window_secs = record {
  state = record { count = 0; window_start = 0 };
  max_requests = max_requests;
  window_secs = window_secs;
}

-- The test that `call` makes under the lock. A count stays below the limit, so `+= 1` does not wrap.
unfoldable pub allow : LocalRateLimit → ℕ → LocalRateLimit × Bool
allow l now =
    if leb l.window_secs (now - l.state.window_start)
    then (record l { state = record { count = 1; window_start = now } }, true)
    else (if ltb l.state.count l.max_requests
        then (record l { state = record l.state { count = suc l.state.count } }, true)
        else (l, false))

pub data Answer {ℓ} (Response : Type ℓ) : Type ℓ where
  too_many_requests : Answer Response
  answered : Response → Answer Response

unfoldable pub call {ℓ κ} :
    {Request : Type ℓ} {Response : Type κ}
    → LocalRateLimit
    → (Request → Response)
    → Request
    → ℕ
    → LocalRateLimit × Answer Response
call l inner req now =
    let (l', allowed) = allow l now in
    (l', (if allowed then answered (inner req) else too_many_requests))
