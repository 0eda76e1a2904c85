-- ===== src/App/RateLimit/Window.antt =====
-- How many requests a window lets through.
use variance.Prelude.{
  ℕ, suc, ◌+◌, ◌-◌, ◌≤◌, ◌<◌, ◌≡◌, List, [], ◌∷◌, Bool, true, false, arith, All, length,
  if◌then◌else◌, ltb, leb, Bool-cases, inl, inr,
}
use Prim.Native.Nat.{min, max}
use variance.App.RateLimit.{LocalRateLimit, Answer, too_many_requests, answered, allow, call}

abbrev is_answered {ℓ} : {Response : Type ℓ} → Answer Response → Bool
is_answered too_many_requests = false
is_answered (answered r) = true

module _ {ℓ κ} {Request : Type ℓ} {Response : Type κ} (inner : Request → Response) where
  -- How many of the requests, each with its time, reach the inner service.
  unfoldable pub answers : LocalRateLimit → List (Request × ℕ) → ℕ
  answers l [] = 0
  answers l ((req, now) ∷ rs) =
      let (l', answer) = call l inner req now in
      let rest = answers l' rs in if is_answered answer then suc rest else rest

  -- Of the requests that come in the current window, as many are answered as the limit leaves.
  pub answers-window :
      (l : LocalRateLimit) (rs : List (Request × ℕ))
      → All (λ r. r.1 - l.state.window_start < l.window_secs) rs
      → answers l rs ≡ min (length rs) (l.max_requests - l.state.count)
  unfolding answers call allow
  answers-window l [] h = omega arith
  answers-window l ((req, now) ∷ rs) h = elim (Bool-cases (ltb l.state.count l.max_requests)) [
    | inl free ↦ ground (
      arith,
      answers-window (record l { state = record l.state { count = suc l.state.count } }) rs h.1,
    )
    | inr full ↦ ground (arith, answers-window l rs h.1)
  ]

  in_window :
      (from now secs : ℕ) (rs : List (Request × ℕ))
      → from ≤ now
      → All (λ r. (from ≤ r.1) × (r.1 < from + secs)) rs
      → All (λ r. r.1 - now < secs) rs
  in_window from now secs [] le h = tt
  in_window from now secs (r ∷ rs) le h =
      (omega (arith, h.0.0, h.0.1), in_window from now secs rs le h.1)

  -- In any span of the window's length, no more requests are answered than two windows allow,
  -- whatever was answered before and however the times are ordered.
  pub answers-span :
      (l : LocalRateLimit) (from : ℕ) (rs : List (Request × ℕ))
      → All (λ r. (from ≤ r.1) × (r.1 < from + l.window_secs)) rs
      → answers l rs ≤ (l.max_requests - l.state.count) + max 1 l.max_requests
  unfolding answers call allow
  answers-span l from [] h = omega arith
  answers-span l from ((req, now) ∷ rs) h =
      elim (Bool-cases (leb l.window_secs (now - l.state.window_start))) [
        | inl over ↦ ground (
          arith,
          answers-window (record l { state = record { count = 1; window_start = now } }) rs
              (in_window from now l.window_secs rs h.0.0 h.1),
        )
        | inr within ↦ elim (Bool-cases (ltb l.state.count l.max_requests)) [
          | inl free ↦ ground (
            arith,
            answers-span (record l { state = record l.state { count = suc l.state.count } }) from rs
                h.1,
          )
          | inr full ↦ ground (arith, answers-span l from rs h.1)
        ]
      ]
