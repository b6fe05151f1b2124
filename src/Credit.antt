-- ===== src/Credit.antt =====
-- The credit score (backend/src/modules/credit/credit.formula.ts and credit.config.ts).
-- Configuration values, counts and days are natural numbers. A fraction of an engagement average
-- or of a day is dropped before the division, which `Math.floor` makes no difference to. The raw
-- streak bonus may be negative, or NaN (`none`).
pub mod Bounds
pub mod Monotone
pub mod Tiers
mod Tests
use stellar_tipz.Base.{
  ℕ, ◌+◌, ◌*◌, ◌/◌, ◌≤◌, min, max, Bool, true, false, ◌&&◌, Option, none, some, List, [], ◌∷◌, find,
  ltb, leb, ◌==◌, if◌then◌else◌,
}
use stellar_tipz.Base.Int.{ℤ, pos, negsuc, pos_part, leb_ℤ}
use stellar_tipz.Base.Text.{String}

pub record Weights : Type 0 where
  pub base : ℕ
  pub tip : ℕ
  pub x : ℕ
  pub age : ℕ

pub record Divisors : Type 0 where
  pub tip : ℕ
  pub follower : ℕ
  pub engagement : ℕ
  pub age : ℕ

pub record Caps : Type 0 where
  pub max_score : ℕ
  pub x_sub : ℕ
  pub age_sub : ℕ
  pub tip_sub : ℕ
  pub streak_bonus : ℕ

-- `CreditScoreFormula`
pub record Formula : Type 0 where
  pub weights : Weights
  pub divisors : Divisors
  pub caps : Caps

-- `Math.min(Math.max(value, min), max)`
unfoldable pub clamp : ℤ → ℤ → ℤ → ℤ
clamp value low high =
    let raised = if leb_ℤ value low then low else value in
    if leb_ℤ raised high then raised else high

unfoldable pub compute_tip_sub_score : ℕ → Formula → ℕ
unfolding clamp
compute_tip_sub_score total_tips c =
    let clamped = pos_part (clamp (pos total_tips) (pos 0) (pos 1_000_000_000)) in
    min (clamped / c.divisors.tip) c.caps.tip_sub

unfoldable pub compute_x_sub_score : ℕ → ℕ → Formula → ℕ
compute_x_sub_score followers engagement c =
    if (followers == 0) && (engagement == 0)
    then 0
    else let follower_part = min (followers / c.divisors.follower) c.caps.x_sub in
      let engagement_part = min (engagement / c.divisors.engagement) c.caps.x_sub in
      min (follower_part + engagement_part) c.caps.max_score

unfoldable pub compute_age_sub_score : ℕ → Formula → ℕ
compute_age_sub_score days c = if ltb days 1 then 0 else min (days / c.divisors.age) c.caps.age_sub

unfoldable pub compute_streak_bonus : Option ℤ → Formula → ℕ
unfolding clamp
compute_streak_bonus none c = 0
compute_streak_bonus (some raw) c =
    let cap = clamp (pos c.caps.streak_bonus) (pos 0) (pos c.caps.max_score) in
    pos_part (clamp raw (pos 0) cap)

unfoldable pub apply_weight : ℕ → ℕ → ℕ → ℕ
apply_weight sub weight max_score = sub * weight / max_score

pub record ScoreInput : Type 0 where
  pub total_tips : ℕ
  pub followers : ℕ
  pub engagement : ℕ
  pub age_days : ℕ
  pub streak_bonus : Option ℤ

pub record Components : Type 0 where
  pub base : ℕ
  pub tip_volume : ℕ
  pub x_metrics : ℕ
  pub account_age : ℕ
  pub streak_bonus : ℕ

pub record Tier : Type 0 where
  pub low : ℕ
  pub high : ℕ
  pub label : String

-- `tiers.find(...)?.label ?? 'New'`
unfoldable pub get_tier_for_score : ℕ → List Tier → String
get_tier_for_score score tiers = elim (find (λ t. leb t.low score && leb score t.high) tiers) [
  | some t ↦ t.label
  | none ↦ "New"
]

pub record ScoreResult : Type 0 where
  pub score : ℕ
  pub components : Components
  pub tier : String

unfoldable pub compute_components : ScoreInput → Formula → Components
unfolding compute_tip_sub_score compute_x_sub_score compute_age_sub_score compute_streak_bonus
    apply_weight
compute_components i c = record {
  base = c.weights.base;
  tip_volume = apply_weight (compute_tip_sub_score i.total_tips c) c.weights.tip c.caps.max_score;
  x_metrics =
      apply_weight (compute_x_sub_score i.followers i.engagement c) c.weights.x c.caps.max_score;
  account_age = apply_weight (compute_age_sub_score i.age_days c) c.weights.age c.caps.max_score;
  streak_bonus = compute_streak_bonus i.streak_bonus c;
}

-- The sum of the components, clamped.
unfoldable pub total_score : Components → Formula → ℕ
unfolding clamp
total_score p c = pos_part (
    clamp (pos (p.base + p.tip_volume + p.x_metrics + p.account_age + p.streak_bonus)) (pos 0)
      (pos c.caps.max_score))

unfoldable pub compute_credit_score : ScoreInput → Formula → List Tier → ScoreResult
unfolding compute_components total_score get_tier_for_score
compute_credit_score i c tiers =
    let parts = compute_components i c in
    let total = total_score parts c in
    record { score = total; components = parts; tier = get_tier_for_score total tiers }

-- `loadCreditScoreConfig()` with no environment variable set.
abbrev pub default_formula : Formula
default_formula = record {
  weights = record { base = 40; tip = 20; x = 30; age = 10 };
  divisors = record { tip = 10_000_000; follower = 50; engagement = 10; age = 10 };
  caps = record { max_score = 100; x_sub = 50; age_sub = 100; tip_sub = 100; streak_bonus = 10 };
}
