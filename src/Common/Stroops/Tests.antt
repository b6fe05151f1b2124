-- ===== src/Common/Stroops/Tests.antt =====
-- Runs of the parser, and the theorem at a concrete input.
use stellar_tipz.Base.{◌≡◌, ◌≢◌, ◌⊎◌, refl, true, false}
use stellar_tipz.Base.Int.{pos, ◌≤ℤ◌}
use stellar_tipz.Base.Text.{codes}
use stellar_tipz.Common.Stroops.{
  bigint, text, ok, err, negative, zero_amount, above_maximum, not_an_integer, max_stroop_amount,
  parse_stroops, to_amount,
}
use stellar_tipz.Common.Stroops.Range.{parse_stroops_exact}

parse_runs :
    (parse_stroops false (text (codes "0012")) ≡ ok (pos 12))
    × (parse_stroops false (text (codes "-3")) ≡ err negative)
    × (parse_stroops false (text (codes "-0")) ≡ err zero_amount)
    × (parse_stroops true (text (codes "-0")) ≡ ok (pos 0))
    × (parse_stroops false (text (codes "1.5")) ≡ err not_an_integer)
    × (parse_stroops false (text (codes "9223372036854775808")) ≡ err above_maximum)
unfolding parse_stroops
parse_runs = (refl, refl, refl, refl, refl, refl)

parse_stroops_exact_example :
    (parse_stroops false (bigint (pos 7)) ≡ ok (pos 7)
      → (pos 7 ≡ pos 7)
        × (pos 0 ≤ℤ pos 7)
        × (pos 7 ≤ℤ pos max_stroop_amount)
        × (false ≡ false → pos 7 ≢ pos 0))
    × (pos 0 ≤ℤ pos 7
        → pos 7 ≤ℤ pos max_stroop_amount
        → (false ≡ true) ⊎ (pos 1 ≤ℤ pos 7)
        → parse_stroops false (bigint (pos 7)) ≡ ok (pos 7))
unfolding to_amount
parse_stroops_exact_example = parse_stroops_exact false (bigint (pos 7)) (pos 7) (pos 7) refl
