-- ===== src/App/RateLimit/Tests.antt =====
-- Three requests in ten seconds, by a service that answers with the request.
use variance.Prelude.{ℕ, ◌≤◌, ◌≡◌, refl, arith, List, [], ◌∷◌}
use variance.App.RateLimit.{LocalRateLimit, new_layer, allow, call}
use variance.App.RateLimit.Window.{answers, answers-span}

abbrev begun : LocalRateLimit
begun = record (new_layer 3 10) { state = record { count = 1; window_start = 100 } }

abbrev burst : List (ℕ × ℕ)
burst = (7, 108) ∷ (8, 108) ∷ (9, 109) ∷ []

abbrev edge : List (ℕ × ℕ)
edge = (1, 108) ∷ (2, 109) ∷ (3, 110) ∷ (4, 110) ∷ (5, 111) ∷ (6, 111) ∷ []

answers-span_example : answers (λ r. r) begun edge ≤ 5
unfolding new_layer
answers-span_example = answers-span (λ r. r) begun 105 edge (ground arith)

-- The window does not slide: five requests in four seconds, where the limit is three in ten.
five_at_the_edge : answers (λ r. r) begun edge ≡ 5
unfolding answers call allow new_layer
five_at_the_edge = refl
