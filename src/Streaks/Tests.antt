-- ===== src/Streaks/Tests.antt =====
-- Tips on three days, two of them in a row, and an update that another request gets before.
use stellar_tipz.Base.{
  ℕ, ◌≡◌, Option, none, some, List, [], ◌∷◌, map, arith, ◌+◌, ◌==◌, Bool, true, false, ap,
  if◌then◌else◌,
}
use stellar_tipz.Streaks.{Streak, day_of, update_streak_for_tip}
use stellar_tipz.Streaks.Runs.{Counts}
use stellar_tipz.Streaks.Tips.{after_tips_service, after_tips_guarded, streaks_count_runs}
use stellar_tipz.Streaks.Guarded.{Serial, guarded-Serial}

-- Days 5, 9 and 10, with two tips on the last.
abbrev earlier : List ℕ
earlier = 864_001_000 ∷ 777_700_000 ∷ 432_000_000 ∷ []

streaks_count_runs_example :
    ((s : Streak) × (after_tips_service (900_000_000 ∷ earlier) ≡ some s)
      × Counts (map day_of (900_000_000 ∷ earlier)) (day_of 900_000_000) s)
    × ((s : Streak) × (after_tips_guarded (900_000_000 ∷ earlier) ≡ some s)
        × Counts (map day_of (900_000_000 ∷ earlier)) (day_of 900_000_000) s)
streaks_count_runs_example =
    streaks_count_runs 900_000_000 earlier (omega arith, (omega arith, (omega arith, tt)))

abbrev row : Streak
row = record {
  current_streak = 4;
  longest_streak = 6;
  last_tip_date = some 777_700_000;
  version = 2;
}

-- Another tip of the same user, and that during the first attempt.
abbrev bump : Option Streak → Option Streak
bump none = none
bump (some s) = some (record s { current_streak = s.current_streak + 1; version = s.version + 1 })

abbrev other_tip : ℕ → Option Streak → Option Streak
other_tip left r = if left == 2 then bump r else r

abbrev version_of : Option Streak → ℕ
version_of none = 0
version_of (some s) = s.version

either-versioned :
    (b : Bool) (s r : Streak)
    → (if b then bump (some s) else some s) ≡ some r
    → r.version ≡ s.version
    → r ≡ s
either-versioned true s r e v =
    let next : s.version + 1 ≡ r.version = ap version_of e in absurd (omega arith)
either-versioned false s r e v = cc

other_tip-versioned :
    (left : ℕ) (s r : Streak) → other_tip left (some s) ≡ some r → r.version ≡ s.version → r ≡ s
other_tip-versioned left = either-versioned (left == 2)

guarded-Serial_example :
    let (end, row') = update_streak_for_tip other_tip 864_001_000 (some row) in
    Serial other_tip 864_001_000 3 (some row) end row'
guarded-Serial_example = guarded-Serial other_tip other_tip-versioned 864_001_000 (some row)
