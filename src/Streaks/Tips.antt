-- ===== src/Streaks/Tips.antt =====
-- A user's tips one after the other, under `updateStreakOnTip`
-- (backend/src/modules/streaks/streaks.service.ts) and under `updateStreakForTip`
-- (backend/src/common/utils/concurrency.ts).
use stellar_tipz.Base.{
  ℕ, suc, ◌+◌, ◌≤◌, ◌<◌, ◌≡◌, refl, sym, ap, ◌∙◌, inl, inr, true, Option, none, some, List, [], ◌∷◌,
  map, arith, ◌==◌, Bool-cases, if◌then◌else◌,
}
use stellar_tipz.Streaks.{
  Streak, day_of, get_today_utc, is_yesterday, is_today, next_current, update_existing_streak,
  update_streak_on_tip, new_streak, next_streak, Attempt, done, attempt_update, attempt_loop,
  end_or_retry, update_streak_for_tip,
}
use stellar_tipz.Streaks.Runs.{Counts, first-Counts, same_day-Counts, next_day-Counts}

-- The row after tips at these times, the newest first.
unfoldable pub after_tips_service : List ℕ → Option Streak
unfolding update_streak_on_tip
after_tips_service [] = none
after_tips_service (t ∷ ts) =
    let row = after_tips_service ts in some (update_streak_on_tip t row row).1

unfoldable pub after_tips_guarded : List ℕ → Option Streak
unfolding update_streak_for_tip
after_tips_guarded [] = none
after_tips_guarded (t ∷ ts) =
    let row = after_tips_guarded ts in (update_streak_for_tip (λ left r. r) t row).1

-- No tip is earlier than one behind it.
abbrev pub NewestFirst : List ℕ → Type 0
NewestFirst [] = Unit
NewestFirst (t ∷ []) = Unit
NewestFirst (t ∷ u ∷ ts) = (u ≤ t) × NewestFirst (u ∷ ts)

day_of_monotone : (u t : ℕ) → u ≤ t → day_of u ≤ day_of t
unfolding day_of
day_of_monotone u t le = omega arith

day_of-get_today_utc : (now : ℕ) → day_of (get_today_utc now) ≡ day_of now
unfolding day_of get_today_utc
day_of-get_today_utc now = omega arith

-- What the tests on the last tip compare.
is_today-day :
    (now last time : ℕ) (s : Streak)
    → s.last_tip_date ≡ some time
    → day_of time ≡ last
    → (is_today now s.last_tip_date ≡ (last == day_of now))
      × (next_current now s ≡ (if last + 1 == day_of now then s.current_streak + 1 else 1))
unfolding is_today next_current is_yesterday
is_today-day now last time s date same = rw (date, same) (refl, refl)

update_existing-Counts :
    (days : List ℕ) (last now : ℕ) (s : Streak)
    → Counts days last s
    → last ≤ day_of now
    → Counts (day_of now ∷ days) (day_of now) (update_existing_streak now s).1
unfolding update_existing_streak
update_existing-Counts days last now s k le =
    let (time, date, same) = k.last_day in
    let (today, next) = is_today-day now last time s date same in
    elim (Bool-cases (last == day_of now)) [
      | inl p ↦
          let e : last ≡ day_of now = ground arith in
          rw (today, p) (rw (sym e) (same_day-Counts days last s k))
      | inr p ↦
          let lt : last < day_of now = ground arith in
          rw (today, p)
            (next_day-Counts days last (day_of now) (get_today_utc now) s _ k lt next (omega arith)
              refl (day_of-get_today_utc now))
    ]

next_streak-Counts :
    (days : List ℕ) (last now : ℕ) (s : Streak)
    → Counts days last s
    → last < day_of now
    → Counts (day_of now ∷ days) (day_of now) (next_streak now s)
unfolding next_streak
next_streak-Counts days last now s k lt =
    let (time, date, same) = k.last_day in
    let (today, next) = is_today-day now last time s date same in
    next_day-Counts days last (day_of now) now s _ k lt next refl refl refl

-- An attempt that is done ends the loop.
pub loop_done :
    (others : ℕ → Option Streak → Option Streak) (now left : ℕ) (row row' : Option Streak)
    → attempt_update now row (others left row) ≡ (done, row')
    → attempt_loop others now (suc left) row ≡ (done, row')
unfolding attempt_loop
loop_done others now left row row' h =
    ap (λ (p : Attempt × Option Streak). end_or_retry p.0 p.1 (attempt_loop others now left p.1)) h

-- With no other request the first attempt is the last.
guarded_alone :
    (days : List ℕ) (last now : ℕ) (s : Streak)
    → Counts days last s
    → last ≤ day_of now
    → (s' : Streak) × (attempt_update now (some s) (some s) ≡ (done, some s'))
      × Counts (day_of now ∷ days) (day_of now) s'
unfolding attempt_update
guarded_alone days last now s k le =
    let (time, date, same) = k.last_day in
    let (today, next) = is_today-day now last time s date same in
    elim (Bool-cases (last == day_of now)) [
      | inl p ↦
          let e : last ≡ day_of now = ground arith in
          (s, rw (today, p) refl, rw (sym e) (same_day-Counts days last s k))
      | inr p ↦
          let lt : last < day_of now = ground arith in
          let version : (s.version == s.version) ≡ true = ground arith in
          (next_streak now s, rw (today, p, version) refl, next_streak-Counts days last now s k lt)
    ]

first_attempt : (t : ℕ) → attempt_update t none none ≡ (done, some (new_streak t))
unfolding attempt_update
first_attempt t = refl

service_counts :
    (t : ℕ) (ts : List ℕ)
    → NewestFirst (t ∷ ts)
    → (s : Streak) × (after_tips_service (t ∷ ts) ≡ some s)
      × Counts (map day_of (t ∷ ts)) (day_of t) s
unfolding after_tips_service update_streak_on_tip
service_counts t [] h =
    (_, refl, first-Counts (day_of t) (get_today_utc t) _ refl refl refl (day_of-get_today_utc t))
service_counts t (u ∷ us) (le, h) =
    let (s, e, k) = service_counts u us h in
    (
      _,
      ap (λ row. some (update_streak_on_tip t row row).1) e,
      update_existing-Counts _ (day_of u) t s k (day_of_monotone u t le),
    )

guarded_counts :
    (t : ℕ) (ts : List ℕ)
    → NewestFirst (t ∷ ts)
    → (s : Streak) × (after_tips_guarded (t ∷ ts) ≡ some s)
      × Counts (map day_of (t ∷ ts)) (day_of t) s
unfolding after_tips_guarded update_streak_for_tip new_streak
guarded_counts t [] h =
    let first = loop_done (λ left r. r) t 2 none (some (new_streak t)) (first_attempt t) in
    (new_streak t, ap (λ p. p.1) first, first-Counts (day_of t) t _ refl refl refl refl)
guarded_counts t (u ∷ us) (le, h) =
    let (s, e, k) = guarded_counts u us h in
    let (s', e', k') = guarded_alone _ (day_of u) t s k (day_of_monotone u t le) in
    let first = loop_done (λ left r. r) t 2 (some s) (some s') e' in
    (s', ap (λ row. (update_streak_for_tip (λ left r. r) t row).1) e ∙ ap (λ p. p.1) first, k')

-- Of tips in the order of time, under each of the two updates: the current streak is the number of
-- days in a row, up to that of the last tip, with a tip, and the longest one is the longest such run
-- up to it.
pub streaks_count_runs :
    (t : ℕ) (ts : List ℕ)
    → NewestFirst (t ∷ ts)
    → ((s : Streak) × (after_tips_service (t ∷ ts) ≡ some s)
        × Counts (map day_of (t ∷ ts)) (day_of t) s)
      × ((s : Streak) × (after_tips_guarded (t ∷ ts) ≡ some s)
          × Counts (map day_of (t ∷ ts)) (day_of t) s)
streaks_count_runs t ts h = (service_counts t ts h, guarded_counts t ts h)
