-- ===== src/Withdrawals/Fees.antt =====
-- The fee of a withdrawal (`calculateWithdrawalFee` of
-- backend/src/modules/withdrawals/withdrawals.service.ts).
use stellar_tipz.Base.{ℕ, ◌+◌, ◌-◌, ◌*◌, ◌/◌, ◌≤◌, ◌<◌, ◌≡◌, some, arith}
use stellar_tipz.Base.Int.{pos, ◌-ℤ◌}
use stellar_tipz.Withdrawals.{WithdrawalFee, calculate_withdrawal_fee}

-- The fee and the net amount of a positive amount.
record Exact (n fee_bps : ℕ) (f : WithdrawalFee) : Type 0 where
  pub rate_below : f.fee * 10000 ≤ n * fee_bps
  pub rate_above : n * fee_bps < f.fee * 10000 + 10000
  pub at_most : f.fee ≤ n
  pub net : f.net_amount ≡ pos (n - f.fee)

net_of :
    (n : ℕ) (f : WithdrawalFee)
    → f.fee ≤ n
    → f.net_amount ≡ pos n -ℤ pos f.fee
    → f.net_amount ≡ pos (n - f.fee)
unfolding ◌-ℤ◌
net_of n f le e = ground (arith, e)

calculate-Exact :
    (n fee_bps : ℕ) (f : WithdrawalFee)
    → fee_bps ≤ 10000
    → calculate_withdrawal_fee (pos n) fee_bps ≡ some f
    → Exact n fee_bps f
unfolding calculate_withdrawal_fee
calculate-Exact n fee_bps f h e =
    let fee_is : f.fee ≡ n * fee_bps / 10000 = ground (arith, e) in
    let product : n * fee_bps ≤ n * 10000 = grind arith in
    record {
      rate_below = omega (arith, fee_is);
      rate_above = omega (arith, fee_is);
      at_most = omega (arith, fee_is, product);
      net = net_of n f (ground (arith, fee_is, product)) (ground (arith, e));
    }

-- The fee is the configured share, at most the whole, of a positive amount, rounded down, and the
-- rest is the net amount; so two withdrawals cost together as much as one of their sum, or one
-- stroop less.
pub fee_of_sum :
    (a b fee_bps : ℕ) (f g h : WithdrawalFee)
    → fee_bps ≤ 10000
    → calculate_withdrawal_fee (pos a) fee_bps ≡ some f
    → calculate_withdrawal_fee (pos b) fee_bps ≡ some g
    → calculate_withdrawal_fee (pos (a + b)) fee_bps ≡ some h
    → (h.fee * 10000 ≤ (a + b) * fee_bps)
      × ((a + b) * fee_bps < (h.fee + 1) * 10000)
      × (h.net_amount ≡ pos (a + b - h.fee))
      × (h.fee ≤ a + b)
      × (f.fee + g.fee ≤ h.fee)
      × (h.fee ≤ f.fee + g.fee + 1)
fee_of_sum a b fee_bps f g h le ef eg eh =
    let x = calculate-Exact a fee_bps f le ef in
    let y = calculate-Exact b fee_bps g le eg in
    let z = calculate-Exact (a + b) fee_bps h le eh in
    let sum : (a + b) * fee_bps ≡ a * fee_bps + b * fee_bps = omega arith in
    (
      z.rate_below,
      omega (arith, z.rate_above),
      z.net,
      z.at_most,
      omega (arith, x.rate_below, y.rate_below, z.rate_above, sum),
      omega (arith, x.rate_above, y.rate_above, z.rate_below, sum),
    )
