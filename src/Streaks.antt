-- ===== src/Streaks.antt =====
-- Tipping streaks: `updateStreakOnTip` of backend/src/modules/streaks/streaks.service.ts, and
-- `updateStreakForTip` of backend/src/common/utils/concurrency.ts, which guards its write by a version
-- and tries again. Times are milliseconds since 1970 and the server's clock is UTC; one call reads
-- the clock once. Another request may change the row between the read and the write of a call.
pub mod Runs
pub mod Tips
pub mod Guarded
mod Tests
use stellar_tipz.Base.{
  ℕ, zero, suc, ◌+◌, ◌*◌, ◌/◌, Bool, true, false, Option, none, some, List, [], ◌∷◌, max, ◌==◌,
  when_some, if◌then◌else◌,
}

pub record Streak : Type 0 where
  pub current_streak : ℕ
  pub longest_streak : ℕ
  pub last_tip_date : Option ℕ
  pub version : ℕ

pub record StreakUpdate : Type 0 where
  pub current_streak : ℕ
  pub longest_streak : ℕ
  pub streak_updated : Bool

abbrev pub day_ms : ℕ
day_ms = 86_400_000

unfoldable pub day_of : ℕ → ℕ
day_of time = time / day_ms

-- The start of the day.
unfoldable pub get_today_utc : ℕ → ℕ
unfolding day_of
get_today_utc now = day_of now * day_ms

unfoldable pub is_yesterday : ℕ → Option ℕ → Bool
unfolding day_of
is_yesterday now none = false
is_yesterday now (some d) = day_of d + 1 == day_of now

unfoldable pub is_today : ℕ → Option ℕ → Bool
unfolding day_of
is_today now none = false
is_today now (some d) = day_of d == day_of now

-- The number of days with the tip of today.
unfoldable pub next_current : ℕ → Streak → ℕ
unfolding is_yesterday
next_current now s = if is_yesterday now s.last_tip_date then s.current_streak + 1 else 1

unfoldable pub update_existing_streak : ℕ → Streak → StreakUpdate × Streak
unfolding is_today next_current get_today_utc
update_existing_streak now s =
    if is_today now s.last_tip_date
    then (
      record {
        current_streak = s.current_streak;
        longest_streak = s.longest_streak;
        streak_updated = false;
      },
      s,
    )
    else (
      record {
        current_streak = next_current now s;
        longest_streak = max (next_current now s) s.longest_streak;
        streak_updated = true;
      },
      record s {
        current_streak = next_current now s;
        longest_streak = max (next_current now s) s.longest_streak;
        last_tip_date = some (get_today_utc now);
      },
    )

-- The row as it is read, and as it is when a new one is to be inserted.
unfoldable pub update_streak_on_tip : ℕ → Option Streak → Option Streak → StreakUpdate × Streak
unfolding update_existing_streak get_today_utc
update_streak_on_tip now (some s) raced = update_existing_streak now s
update_streak_on_tip now none (some s) = update_existing_streak now s
update_streak_on_tip now none none = (
  record { current_streak = 1; longest_streak = 1; streak_updated = true },
  record {
    current_streak = 1;
    longest_streak = 1;
    last_tip_date = some (get_today_utc now);
    version = 0;
  },
)

-- The first row of a user.
unfoldable pub new_streak : ℕ → Streak
new_streak now = record {
  current_streak = 1;
  longest_streak = 1;
  last_tip_date = some now;
  version = 0;
}

unfoldable pub next_streak : ℕ → Streak → Streak
unfolding next_current
next_streak now s = record {
  current_streak = next_current now s;
  longest_streak = max s.longest_streak (next_current now s);
  last_tip_date = some now;
  version = s.version + 1;
}

-- How an attempt ends.
pub data Attempt : Type 0 where
  done again : Attempt

-- One attempt from the row that it read, on the row at its write.
unfoldable pub attempt_update : ℕ → Option Streak → Option Streak → Attempt × Option Streak
unfolding is_today next_streak new_streak
attempt_update now none none = (done, some (new_streak now))
attempt_update now none (some r) = (again, some r)
attempt_update now (some s) row =
    if is_today now s.last_tip_date
    then (done, row)
    else when_some row (again, none)
        (λ r. if r.version == s.version then (done, some (next_streak now s)) else (again, row))

abbrev pub max_optimistic_retries : ℕ
max_optimistic_retries = 3

-- What follows an attempt.
abbrev pub end_or_retry :
    Attempt → Option Streak → Attempt × Option Streak → Attempt × Option Streak
end_or_retry done row rest = (done, row)
end_or_retry again row rest = rest

-- The attempts that are left, with what other requests do to the row between the read and the write
-- of each.
unfoldable pub attempt_loop :
    (ℕ → Option Streak → Option Streak) → ℕ → ℕ → Option Streak → Attempt × Option Streak
unfolding attempt_update
attempt_loop others now zero row = (again, row)
attempt_loop others now (suc left) row =
    let (end, row') = attempt_update now row (others left row) in
    let rest = attempt_loop others now left row' in end_or_retry end row' rest

-- `again` at the end is the error of a version conflict.
unfoldable pub update_streak_for_tip :
    (ℕ → Option Streak → Option Streak) → ℕ → Option Streak → Attempt × Option Streak
unfolding attempt_loop
update_streak_for_tip others now row = attempt_loop others now max_optimistic_retries row
