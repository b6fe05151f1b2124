-- ===== src/Credit/Tiers.antt =====
-- The tiers of the service (backend/src/modules/credit/credit.service.ts).
use stellar_tipz.Base.{ℕ, ◌≤◌, ◌≡◌, List, [], ◌∷◌, arith, ltb, if◌then◌else◌}
use stellar_tipz.Credit.{Tier, get_tier_for_score}

-- `TIERS`
abbrev pub tiers : List Tier
tiers =
    record { low = 80; high = 100; label = "Diamond" }
    ∷ record { low = 60; high = 79; label = "Gold" }
    ∷ record { low = 40; high = 59; label = "Silver" }
    ∷ record { low = 20; high = 39; label = "Bronze" }
    ∷ record { low = 0; high = 19; label = "New" }
    ∷ []

-- The tier as its thresholds say it, for every score up to 100.
tier_by_threshold :
    (score : ℕ)
    → score ≤ 100
    → get_tier_for_score score tiers ≡ (
        if ltb score 20
        then "New"
        else if ltb score 40
        then "Bronze"
        else if ltb score 60
        then "Silver"
        else if ltb score 80
        then "Gold"
        else "Diamond")
unfolding get_tier_for_score
tier_by_threshold score h = ground arith
