-- ===== src/Streaks/Guarded.antt =====
-- The guarded update of backend/src/common/utils/concurrency.ts while other requests change the row.
use mathlib.Core.Path.{subst}
use stellar_tipz.Base.{
  ℕ, zero, suc, ◌≡◌, ◌⊎◌, refl, inl, inr, Option, none, some, arith, ◌==◌, Bool-cases, Option-cases,
  if◌then◌else◌,
}
use stellar_tipz.Streaks.{
  Streak, is_today, new_streak, next_streak, Attempt, done, again, attempt_update, attempt_loop,
  end_or_retry, update_streak_for_tip,
}

-- The tip of a moment in one step.
unfoldable pub apply_tip : ℕ → Option Streak → Option Streak
unfolding is_today new_streak next_streak
apply_tip now none = some (new_streak now)
apply_tip now (some s) = if is_today now s.last_tip_date then some s else some (next_streak now s)

-- The run of the other requests' changes, one per attempt that is left, with the tip put between two
-- of them, as a step of its own, if the update is done, and nowhere if it fails: after the change of
-- an attempt, or before it, where it makes no difference.
unfoldable pub Serial :
    (ℕ → Option Streak → Option Streak) → ℕ → ℕ → Option Streak → Attempt → Option Streak → Type 0
unfolding apply_tip
Serial others now zero row end row' = (end ≡ again) × (row' ≡ row)
Serial others now (suc left) row end row' =
    ((end ≡ done)
      × ((row' ≡ apply_tip now (others left row)) ⊎ (row' ≡ others left (apply_tip now row))))
    ⊎ Serial others now left (others left row) end row'

module _ (others : ℕ → Option Streak → Option Streak)
    (versioned : (left : ℕ) (s : Streak) (r : Streak)
      → others left (some s) ≡ some r
      → r.version ≡ s.version
      → r ≡ s)
    (now : ℕ) where
  -- One attempt is done as if in one step, or leaves the row to the other request.
  attempt_serial :
      (left : ℕ) (row : Option Streak)
      → let w = others left row in
        let (end, row') = attempt_update now row w in
        ((end ≡ done) × ((row' ≡ apply_tip now w) ⊎ (row' ≡ others left (apply_tip now row))))
        ⊎ ((end ≡ again) × (row' ≡ w))
  unfolding attempt_update apply_tip
  attempt_serial left none = elim (Option-cases (others left none)) [
    | inl e ↦ rw e (inl (refl, inl refl))
    | inr (r, e) ↦ rw e (inr (refl, refl))
  ]
  attempt_serial left (some s) = elim (Bool-cases (is_today now s.last_tip_date)) [
    | inl p ↦ rw p (inl (refl, inr refl))
    | inr p ↦ rw p (elim (Option-cases (others left (some s))) [
      | inl e ↦ rw e (inr (refl, refl))
      | inr (r, e) ↦ rw e (elim (Bool-cases (r.version == s.version)) [
        | inr q ↦ rw q (inr (refl, refl))
        | inl q ↦
            let same : r ≡ s = versioned left s r e (ground arith) in
            rw (q, same, p) (inl (refl, inl refl))
      ])
    ])
  ]

  after_attempt :
      (left : ℕ) (row : Option Streak) (end : Attempt) (row' : Option Streak)
      → ((end ≡ done)
          × ((row' ≡ apply_tip now (others left row)) ⊎ (row' ≡ others left (apply_tip now row))))
        ⊎ ((end ≡ again) × (row' ≡ others left row))
      → let (e, r) = attempt_loop others now left row' in
        Serial others now left row' e r
        → let (e, r) = end_or_retry end row' (attempt_loop others now left row') in
          Serial others now (suc left) row e r
  unfolding Serial
  after_attempt left row done row' (inl h) rest = inl h
  after_attempt left row done row' (inr (e, _)) rest = absurd (ground (arith, e))
  after_attempt left row again row' (inl (e, _)) rest = absurd (ground (arith, e))
  after_attempt left row again row' (inr (_, same)) rest =
      let (e, r) = attempt_loop others now left row' in
      inr (subst (λ x. Serial others now left x e r) same rest)

  loop-Serial :
      (left : ℕ) (row : Option Streak)
      → let (end, row') = attempt_loop others now left row in Serial others now left row end row'
  unfolding attempt_loop Serial
  loop-Serial zero row = (refl, refl)
  loop-Serial (suc left) row =
      let (end, row') = attempt_update now row (others left row) in
      after_attempt left row end row' (attempt_serial left row) (loop-Serial left row')

  -- Where another request that leaves a row its version leaves the row: an update that is done has the
  -- effect of one tip put between the changes that the other requests make during its at most three
  -- attempts, and after one that fails only their changes are there.
  pub guarded-Serial :
      (row : Option Streak)
      → let (end, row') = update_streak_for_tip others now row in Serial others now 3 row end row'
  unfolding update_streak_for_tip
  guarded-Serial row = loop-Serial 3 row
