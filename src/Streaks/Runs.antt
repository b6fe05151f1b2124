-- ===== src/Streaks/Runs.antt =====
-- Streaks and runs of days (backend/src/modules/streaks/streaks.service.ts and
-- backend/src/common/utils/concurrency.ts), with no other request between a read and a write.
use stellar_tipz.Base.{
  ℕ, zero, suc, ◌+◌, ◌-◌, ◌≤◌, ◌<◌, ◌≡◌, refl, sym, ap, ◌∙◌, inl, inr, Bool, true, false, ◌||◌,
  some, List, [], ◌∷◌, max, arith, All, All_map, ◌==◌, Bool-cases, if◌then◌else◌,
}
use stellar_tipz.Streaks.{Streak, day_of}

abbrev pub mem : ℕ → List ℕ → Bool
mem d [] = false
mem d (e ∷ es) = d == e || mem d es

-- How many days in a row up to `d` are in the list?
unfoldable pub run_ending : List ℕ → ℕ → ℕ
run_ending ds zero = if mem zero ds then 1 else 0
run_ending ds (suc d) = let before = run_ending ds d in if mem (suc d) ds then before + 1 else 0

-- The longest of these runs that end at `d` or before.
unfoldable pub longest_run : List ℕ → ℕ → ℕ
unfolding run_ending
longest_run ds zero = run_ending ds zero
longest_run ds (suc d) = max (longest_run ds d) (run_ending ds (suc d))

-- A day that is added counts for no run that ends before it.
run_before : (d : ℕ) (ds : List ℕ) (e : ℕ) → e < d → run_ending (d ∷ ds) e ≡ run_ending ds e
unfolding run_ending
run_before d ds zero lt = ground arith
run_before d ds (suc e) lt = ground (arith, run_before d ds e (omega arith))

longest_before : (d : ℕ) (ds : List ℕ) (e : ℕ) → e < d → longest_run (d ∷ ds) e ≡ longest_run ds e
unfolding longest_run
longest_before d ds zero lt = run_before d ds zero lt
longest_before d ds (suc e) lt =
    rw (longest_before d ds e (omega arith), run_before d ds (suc e) lt) refl

-- A day that is there already changes nothing.
mem_again : (d : ℕ) (ds : List ℕ) (e : ℕ) → mem d ds ≡ true → mem e (d ∷ ds) ≡ mem e ds
mem_again d ds e h = elim (Bool-cases (e == d)) [
  | inl p ↦
      let same : e ≡ d = ground arith in
      let there : mem e ds ≡ true = ap (λ x. mem x ds) same ∙ h in ground (arith, there)
  | inr p ↦ rw p refl
]

run_again :
    (d : ℕ) (ds : List ℕ) (e : ℕ) → mem d ds ≡ true → run_ending (d ∷ ds) e ≡ run_ending ds e
unfolding run_ending
run_again d ds zero h = rw (mem_again d ds zero h) refl
run_again d ds (suc e) h = rw (mem_again d ds (suc e) h, run_again d ds e h) refl

longest_again :
    (d : ℕ) (ds : List ℕ) (e : ℕ) → mem d ds ≡ true → longest_run (d ∷ ds) e ≡ longest_run ds e
unfolding longest_run
longest_again d ds zero h = run_again d ds zero h
longest_again d ds (suc e) h = rw (longest_again d ds e h, run_again d ds (suc e) h) refl

-- No run ends after the last day.
mem_after : (ds : List ℕ) (l e : ℕ) → All (λ d. d ≤ l) ds → l < e → mem e ds ≡ false
mem_after [] l e h lt = refl
mem_after (d ∷ ds) l e (le, h) lt = ground (arith, mem_after ds l e h lt)

run_after : (ds : List ℕ) (l e : ℕ) → All (λ d. d ≤ l) ds → l < e → run_ending ds e ≡ 0
unfolding run_ending
run_after ds l zero h lt = rw (mem_after ds l zero h lt) refl
run_after ds l (suc e) h lt = rw (mem_after ds l (suc e) h lt) refl

longest_after :
    (ds : List ℕ) (l e : ℕ) → All (λ d. d ≤ l) ds → longest_run ds (l + e) ≡ longest_run ds l
unfolding longest_run
longest_after ds l zero h = ap (longest_run ds) (omega arith)
longest_after ds l (suc e) h =
    let next : l + suc e ≡ suc (l + e) = omega arith in
    let empty = run_after ds l (suc (l + e)) h (omega arith) in
    let same = longest_after ds l e h in ap (longest_run ds) next ∙ rw empty (omega arith)

-- A streak that stands for the days so far, whose last is `last`.
pub record Counts (days : List ℕ) (last : ℕ) (s : Streak) : Type 0 where
  pub last_day : (time : ℕ) × (s.last_tip_date ≡ some time) × (day_of time ≡ last)
  pub latest : All (λ d. d ≤ last) days
  pub there : mem last days ≡ true
  pub current : s.current_streak ≡ run_ending days last
  pub longest : s.longest_streak ≡ longest_run days last

-- The counters after the tip of another day.
run_next :
    (days : List ℕ) (last day : ℕ)
    → All (λ d. d ≤ last) days
    → last < day
    → run_ending (day ∷ days) day ≡ (if last + 1 == day then run_ending days last + 1 else 1)
unfolding run_ending
run_next days last zero h lt = absurd (omega arith)
run_next days last (suc day) h lt =
    let same : (suc day == suc day) ≡ true = ground arith in
    let before = run_before (suc day) days day (omega arith) in
    rw (same, before)
      (elim (Bool-cases (last + 1 == suc day)) [
        | inl p ↦ let e : day ≡ last = ground arith in rw p (ap (λ x. run_ending days x + 1) e)
        | inr p ↦
            let lt' : last < day = ground arith in
            let empty = run_after days last day h lt' in rw (p, empty) (omega arith)
      ])

longest_next :
    (days : List ℕ) (last day : ℕ)
    → All (λ d. d ≤ last) days
    → last < day
    → longest_run (day ∷ days) day ≡ max (longest_run days last) (run_ending (day ∷ days) day)
unfolding longest_run
longest_next days last zero h lt = absurd (omega arith)
longest_next days last (suc day) h lt =
    let before = longest_before (suc day) days day (omega arith) in
    let far : day ≡ last + (day - last) = omega arith in
    let same = ap (longest_run days) far ∙ longest_after days last (day - last) h in
    ap (λ x. max x (run_ending (suc day ∷ days) (suc day))) (before ∙ same)

run_nil : (e : ℕ) → run_ending [] e ≡ 0
unfolding run_ending
run_nil zero = refl
run_nil (suc e) = refl

longest_nil : (e : ℕ) → longest_run [] e ≡ 0
unfolding longest_run
longest_nil zero = run_nil zero
longest_nil (suc e) = rw (longest_nil e, run_nil (suc e)) refl

run_first : (d : ℕ) → (run_ending (d ∷ []) d ≡ 1) × (longest_run (d ∷ []) d ≡ 1)
unfolding run_ending longest_run
run_first zero = (refl, refl)
run_first (suc d) =
    let same : (suc d == suc d) ≡ true = ground arith in
    let run = run_before (suc d) [] d (omega arith) ∙ run_nil d in
    let longest = longest_before (suc d) [] d (omega arith) ∙ longest_nil d in
    (rw (same, run) refl, rw (same, run, longest) refl)

-- The first tip, another of the same day, and one of a later day.
pub first-Counts :
    (day time : ℕ) (s : Streak)
    → s.current_streak ≡ 1
    → s.longest_streak ≡ 1
    → s.last_tip_date ≡ some time
    → day_of time ≡ day
    → Counts (day ∷ []) day s
first-Counts day time s current longest date same =
    let (run, most) = run_first day in
    record {
      last_day = (time, date, same);
      latest = (omega arith, tt);
      there = ground arith;
      current = current ∙ sym run;
      longest = longest ∙ sym most;
    }

pub same_day-Counts :
    (days : List ℕ) (last : ℕ) (s : Streak) → Counts days last s → Counts (last ∷ days) last s
same_day-Counts days last s k = record {
  last_day = k.last_day;
  latest = (omega arith, k.latest);
  there = ground arith;
  current = k.current ∙ sym (run_again last days last k.there);
  longest = k.longest ∙ sym (longest_again last days last k.there);
}

pub next_day-Counts :
    (days : List ℕ) (last day time : ℕ) (s s' : Streak)
    → Counts days last s
    → last < day
    → s'.current_streak ≡ (if last + 1 == day then s.current_streak + 1 else 1)
    → s'.longest_streak ≡ max s.longest_streak s'.current_streak
    → s'.last_tip_date ≡ some time
    → day_of time ≡ day
    → Counts (day ∷ days) day s'
next_day-Counts days last day time s s' k lt current longest date same =
    let run = run_next days last day k.latest lt in
    let now : s'.current_streak ≡ run_ending (day ∷ days) day =
      current ∙ ap (λ n. if last + 1 == day then n + 1 else 1) k.current ∙ sym run in
    record {
      last_day = (time, date, same);
      latest = (omega arith, All_map (λ d le. omega arith) days k.latest);
      there = ground arith;
      current = now;
      longest = longest ∙ rw (k.longest, now) (sym (longest_next days last day k.latest lt));
    }
