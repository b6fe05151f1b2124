-- ===== src/Credit/Bounds.antt =====
-- How far each part of a score of backend/src/modules/credit/credit.formula.ts can go.
use stellar_tipz.Base.{ℕ, ◌+◌, ◌*◌, ◌/◌, ◌≤◌, ◌<◌, ◌≡◌, refl, min, Option, none, some, arith, List}
use stellar_tipz.Base.Int.{ℤ}
use stellar_tipz.Credit.{
  Formula, ScoreInput, Components, Tier, compute_tip_sub_score, compute_x_sub_score,
  compute_age_sub_score, compute_streak_bonus, apply_weight, compute_components, total_score,
  compute_credit_score,
}

-- A configuration whose divisions are by positive numbers, and whose sub-score caps are at most
-- the maximal score.
pub record IsProper (c : Formula) : Type 0 where
  pub max_pos : 0 < c.caps.max_score
  pub tip_pos : 0 < c.divisors.tip
  pub follower_pos : 0 < c.divisors.follower
  pub engagement_pos : 0 < c.divisors.engagement
  pub age_pos : 0 < c.divisors.age
  pub tip_fits : c.caps.tip_sub ≤ c.caps.max_score
  pub age_fits : c.caps.age_sub ≤ c.caps.max_score

pub div-le : (a b c : ℕ) → 0 < c → a ≤ b * c → a / c ≤ b
div-le a b c p h = grind arith

-- A sub-score within the maximum contributes at most its weight.
apply_weight-le : (sub weight m : ℕ) → 0 < m → sub ≤ m → apply_weight sub weight m ≤ weight
unfolding apply_weight
apply_weight-le sub weight m p h = div-le (sub * weight) weight m p (grind arith)

tip_sub-le : (t : ℕ) (c : Formula) → compute_tip_sub_score t c ≤ c.caps.tip_sub
unfolding compute_tip_sub_score
tip_sub-le t c = ground arith

x_sub-le : (f e : ℕ) (c : Formula) → compute_x_sub_score f e c ≤ c.caps.max_score
unfolding compute_x_sub_score
x_sub-le f e c = ground arith

age_sub-le : (d : ℕ) (c : Formula) → compute_age_sub_score d c ≤ c.caps.age_sub
unfolding compute_age_sub_score
age_sub-le d c = ground arith

streak-le :
    (s : Option ℤ) (c : Formula)
    → compute_streak_bonus s c ≤ min c.caps.streak_bonus c.caps.max_score
unfolding compute_streak_bonus
streak-le none c = ground arith
streak-le (some s) c = ground arith

-- Each component of a score is at most its weight, the streak bonus at most its cap and the
-- maximal score.
components_bounds :
    (i : ScoreInput) (c : Formula)
    → IsProper c
    → let p = compute_components i c in
      (p.base ≡ c.weights.base)
      × (p.tip_volume ≤ c.weights.tip)
      × (p.x_metrics ≤ c.weights.x)
      × (p.account_age ≤ c.weights.age)
      × (p.streak_bonus ≤ min c.caps.streak_bonus c.caps.max_score)
unfolding compute_components
components_bounds i c h = (
  refl,
  apply_weight-le _ c.weights.tip c.caps.max_score h.max_pos
      (omega (arith, tip_sub-le i.total_tips c, h)),
  apply_weight-le _ c.weights.x c.caps.max_score h.max_pos (x_sub-le i.followers i.engagement c),
  apply_weight-le _ c.weights.age c.caps.max_score h.max_pos
      (omega (arith, age_sub-le i.age_days c, h)),
  streak-le i.streak_bonus c,
)

total_score_lem :
    (p : Components) (c : Formula)
    → total_score p c
      ≡ min (p.base + p.tip_volume + p.x_metrics + p.account_age + p.streak_bonus) c.caps.max_score
unfolding total_score
total_score_lem p c = ground arith

capped_bounds : (s sum m b : ℕ) → s ≡ min sum m → b ≤ sum → (s ≤ m) × (min b m ≤ s)
capped_bounds s sum m b e h = omega arith

-- The score is the sum of its components, cut off at the maximum: never above it, and never below
-- the base score where that is within the maximum.
score_is_capped_sum :
    (i : ScoreInput) (c : Formula) (tiers : List Tier)
    → IsProper c
    → let r = compute_credit_score i c tiers in
      let p = r.components in
      (r.score
        ≡ min
            (p.base + p.tip_volume + p.x_metrics + p.account_age + p.streak_bonus)
            c.caps.max_score)
      × (r.score ≤ c.caps.max_score)
      × (min c.weights.base c.caps.max_score ≤ r.score)
unfolding compute_credit_score
score_is_capped_sum i c tiers h =
    let p = compute_components i c in
    let e = total_score_lem p c in
    let (top, bottom) =
      capped_bounds _ (p.base + p.tip_volume + p.x_metrics + p.account_age + p.streak_bonus)
        c.caps.max_score c.weights.base e (omega arith) in
    (e, top, bottom)
