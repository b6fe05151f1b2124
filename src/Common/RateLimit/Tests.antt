-- ===== src/Common/RateLimit/Tests.antt =====
-- Runs of the limiter, and the theorems at concrete inputs.
use stellar_tipz.Base.{◌-◌, min, ◌≡◌, refl, none, [], ◌∷◌, arith}
use stellar_tipz.Common.RateLimit.{Limiter, Window, set_hit, consume_all}
use stellar_tipz.Common.RateLimit.Budget.{consume_all_budget}

abbrev window : Window
window = record { count = 1; reset_at = 110 }

abbrev limiter : Limiter
limiter = record { max = 2; window_ms = 10; hits = set_hit "ip" window (λ j. none) }

five_hits : (consume_all "ip" (101 ∷ 102 ∷ 103 ∷ 110 ∷ 111 ∷ []) limiter).0 ≡ 3
unfolding consume_all
five_hits = refl

consume_all_budget_example : (consume_all "ip" (101 ∷ 102 ∷ 103 ∷ []) limiter).0 ≡ min 3 (2 - 1)
consume_all_budget_example =
    consume_all_budget "ip" (101 ∷ 102 ∷ 103 ∷ []) limiter window refl (omega arith)
