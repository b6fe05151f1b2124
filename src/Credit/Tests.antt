-- ===== src/Credit/Tests.antt =====
-- Runs of the formula, and the theorems at concrete inputs.
use stellar_tipz.Base.{◌≤◌, ◌≡◌, refl, some, arith}
use stellar_tipz.Base.Int.{pos, negsuc}
use stellar_tipz.Credit.{ScoreInput, compute_credit_score, default_formula}
use stellar_tipz.Credit.Bounds.{IsProper}
use stellar_tipz.Credit.Monotone.{InputLe, score_mono}
use stellar_tipz.Credit.Tiers.{tiers}

abbrev creator : ScoreInput
creator = record {
  total_tips = 500_000_000;
  followers = 1000;
  engagement = 55;
  age_days = 365;
  streak_bonus = some (pos 4);
}

abbrev newcomer : ScoreInput
newcomer = record {
  total_tips = 0;
  followers = 0;
  engagement = 0;
  age_days = 0;
  streak_bonus = some (negsuc 2);
}

creator_score :
    ((compute_credit_score creator default_formula tiers).score ≡ 64)
    × ((compute_credit_score creator default_formula tiers).tier ≡ "Gold")
unfolding compute_credit_score
creator_score = (refl, refl)

newcomer_score : (compute_credit_score newcomer default_formula tiers).score ≡ 40
unfolding compute_credit_score
newcomer_score = refl

default-IsProper : IsProper default_formula
default-IsProper = omega arith

newcomer-InputLe : InputLe newcomer creator
newcomer-InputLe = omega arith

score-mono_example :
    (compute_credit_score newcomer default_formula tiers).score
    ≤ (compute_credit_score creator default_formula tiers).score
score-mono_example =
    score_mono newcomer creator default_formula tiers default-IsProper newcomer-InputLe
