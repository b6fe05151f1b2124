-- ===== src/Credit/Monotone.antt =====
-- How the score of backend/src/modules/credit/credit.formula.ts changes with its inputs.
use stellar_tipz.Base.{ℕ, ◌*◌, ◌/◌, ◌≤◌, ◌<◌, ◌≡◌, refl, Option, none, some, arith, List}
use stellar_tipz.Base.Int.{ℤ, pos, ◌≤ℤ◌}
use stellar_tipz.Credit.{
  Formula, ScoreInput, Components, Tier, compute_tip_sub_score, compute_x_sub_score,
  compute_age_sub_score, compute_streak_bonus, apply_weight, compute_components, total_score,
  compute_credit_score,
}
use stellar_tipz.Credit.Bounds.{IsProper}

div_mono : (a b c : ℕ) → 0 < c → a ≤ b → a / c ≤ b / c
div_mono a b c p h = grind arith

apply_weight_mono :
    (s s' weight m : ℕ) → 0 < m → s ≤ s' → apply_weight s weight m ≤ apply_weight s' weight m
unfolding apply_weight
apply_weight_mono s s' weight m p h = div_mono (s * weight) (s' * weight) m p (grind arith)

tip_sub_mono :
    (t t' : ℕ) (c : Formula)
    → 0 < c.divisors.tip
    → t ≤ t'
    → compute_tip_sub_score t c ≤ compute_tip_sub_score t' c
unfolding compute_tip_sub_score
tip_sub_mono t t' c p h =
    ground (arith, div_mono t t' c.divisors.tip, div_mono t 1_000_000_000 c.divisors.tip)

x_sub_mono :
    (f f' e e' : ℕ) (c : Formula)
    → 0 < c.divisors.follower
    → 0 < c.divisors.engagement
    → f ≤ f'
    → e ≤ e'
    → compute_x_sub_score f e c ≤ compute_x_sub_score f' e' c
unfolding compute_x_sub_score
x_sub_mono f f' e e' c p q hf he =
    ground (arith, div_mono f f' c.divisors.follower, div_mono e e' c.divisors.engagement)

age_sub_mono :
    (d d' : ℕ) (c : Formula)
    → 0 < c.divisors.age
    → d ≤ d'
    → compute_age_sub_score d c ≤ compute_age_sub_score d' c
unfolding compute_age_sub_score
age_sub_mono d d' c p h = ground (arith, div_mono d d' c.divisors.age)

-- The streak bonuses in order, a missing one (NaN) as 0 at most.
abbrev pub StreakLe : Option ℤ → Option ℤ → Type 0
StreakLe none s = Unit
StreakLe (some s) none = s ≤ℤ pos 0
StreakLe (some s) (some s') = s ≤ℤ s'

streak_mono :
    (s s' : Option ℤ) (c : Formula)
    → StreakLe s s'
    → compute_streak_bonus s c ≤ compute_streak_bonus s' c
unfolding compute_streak_bonus
streak_mono none s' c h = omega arith
streak_mono (some s) none c h = ground arith
streak_mono (some s) (some s') c h = ground arith

pub record InputLe (i j : ScoreInput) : Type 0 where
  pub tips_le : i.total_tips ≤ j.total_tips
  pub followers_le : i.followers ≤ j.followers
  pub engagement_le : i.engagement ≤ j.engagement
  pub age_le : i.age_days ≤ j.age_days
  pub streak_le : StreakLe i.streak_bonus j.streak_bonus

total_score_mono :
    (p q : Components) (c : Formula)
    → p.base ≡ q.base
    → p.tip_volume ≤ q.tip_volume
    → p.x_metrics ≤ q.x_metrics
    → p.account_age ≤ q.account_age
    → p.streak_bonus ≤ q.streak_bonus
    → total_score p c ≤ total_score q c
unfolding total_score
total_score_mono p q c base tip x age streak = ground arith

-- The score is monotone in all its inputs together, under any proper configuration.
pub score_mono :
    (i j : ScoreInput) (c : Formula) (tiers : List Tier)
    → IsProper c
    → InputLe i j
    → (compute_credit_score i c tiers).score ≤ (compute_credit_score j c tiers).score
unfolding compute_credit_score
score_mono i j c tiers h le =
    total_score_mono (compute_components i c) (compute_components j c) c refl
      (apply_weight_mono _ _ c.weights.tip c.caps.max_score h.max_pos
        (tip_sub_mono i.total_tips j.total_tips c h.tip_pos le.tips_le))
      (apply_weight_mono _ _ c.weights.x c.caps.max_score h.max_pos (
        x_sub_mono i.followers j.followers i.engagement j.engagement c h.follower_pos
          h.engagement_pos le.followers_le le.engagement_le))
      (apply_weight_mono _ _ c.weights.age c.caps.max_score h.max_pos
        (age_sub_mono i.age_days j.age_days c h.age_pos le.age_le))
      (streak_mono i.streak_bonus j.streak_bonus c le.streak_le)
