-- ===== src/Common/Pagination/Order.antt =====
-- The order of the rows of a list (backend/src/common/pagination/cursor.ts).
use stellar_tipz.Base.{
  ◌≡◌, refl, Bool, true, false, List, [], ◌∷◌, ◌++◌, arith, All, filter, ◌<◌, ◌⊎◌, inl, inr,
  All_map,
}
use stellar_tipz.Common.Pagination.{Text, lt_text, CursorPosition, Row, is_after}

-- Of two texts at most one is before the other, and none is before itself.
lt_text_asym : (t u : Text) → lt_text t u ≡ true → lt_text u t ≡ false
unfolding lt_text
lt_text_asym t [] h = absurd (ground arith)
lt_text_asym [] (d ∷ ds) h = refl
lt_text_asym (c ∷ cs) (d ∷ ds) h = ground (arith, lt_text_asym cs ds)

lt_text_irrefl : (t : Text) → lt_text t t ≡ false
unfolding lt_text
lt_text_irrefl [] = refl
lt_text_irrefl (c ∷ cs) = ground (arith, lt_text_irrefl cs)

module _ {ℓ} {A : Type ℓ} where
  abbrev pub position_of : Row A → CursorPosition
  position_of r = record { sort_value = r.created_at; id = r.id }

  -- A later time, or the same time and a later id.
  abbrev pub Precedes : Row A → Row A → Type 0
  Precedes r x =
      (x.created_at < r.created_at) ⊎ ((x.created_at ≡ r.created_at) × (lt_text x.id r.id ≡ true))

  is_after-Precedes : (r x : Row A) → Precedes r x → is_after (position_of r) x ≡ true
  unfolding is_after
  is_after-Precedes r x (inl lt) = ground arith
  is_after-Precedes r x (inr (same, lt)) = ground (arith, same, lt)

  -- Each row precedes all rows behind it.
  unfoldable pub Descends : List (Row A) → Type ℓ
  Descends [] = Unit
  Descends (r ∷ rs) = All (Precedes r) rs × Descends rs

  is_after_asym :
      (r x : Row A) → is_after (position_of r) x ≡ true → is_after (position_of x) r ≡ false
  unfolding is_after
  is_after_asym r x h = ground (arith, lt_text_asym x.id r.id)

  is_after_irrefl : (r : Row A) → is_after (position_of r) r ≡ false
  unfolding is_after
  is_after_irrefl r = ground (arith, lt_text_irrefl r.id)

  filter_all :
      (test : Row A → Bool) (rs : List (Row A)) → All (λ x. test x ≡ true) rs → filter test rs ≡ rs
  filter_all test [] h = refl
  filter_all test (r ∷ rs) (h, hs) = rw (h, filter_all test rs hs) refl

  -- Of rows in descending order, those after one of them are the ones that follow it.
  pub filter-is_after :
      (before : List (Row A)) (r : Row A) (rest : List (Row A))
      → Descends (before ++ r ∷ rest)
      → filter (is_after (position_of r)) (before ++ r ∷ rest) ≡ rest
  unfolding Descends
  filter-is_after [] r rest (h, hs) =
      rw
        (
          is_after_irrefl r,
          filter_all (is_after (position_of r)) rest (All_map (is_after-Precedes r) rest h),
        )
        refl
  filter-is_after (x ∷ before) r rest (h, hs) =
      rw
        (
          is_after_asym x r (is_after-Precedes x r (among before r rest h)),
          filter-is_after before r rest hs,
        )
        refl
    where
      among :
          (before : List (Row A)) (r : Row A) (rest : List (Row A))
          → All (Precedes x) (before ++ r ∷ rest)
          → Precedes x r
      among [] r rest (k, ks) = k
      among (y ∷ ys) r rest (k, ks) = among ys r rest ks
