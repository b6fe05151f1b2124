-- ===== src/Withdrawals/Race.antt =====
-- Submissions whose parts interleave
-- (`submitWithdrawal` of backend/src/modules/withdrawals/withdrawals.service.ts).
use stellar_tipz.Base.{
  ℕ, ◌+◌, ◌*◌, ◌/◌, ◌≤◌, ◌<◌, ◌≡◌, ◌≢◌, refl, ap, ◌∙◌, false, none, some, ◌∷◌, ◌==◌, ltb, arith,
}
use stellar_tipz.Base.Int.{pos, ◌-ℤ◌}
use stellar_tipz.Withdrawals.{
  Account, WithdrawalDb, Checked, passed, taken, pending, find_account, total_received,
  total_withdrawn, withdrawable_balance, calculate_withdrawal_fee, check_amount_of,
  check_submission, find_withdrawal, create_withdrawal, record_submission, after_check,
}

-- The checks pass an amount within the balance.
check_passes :
    (fee_bps user_id n : ℕ) (u : Account) (db : WithdrawalDb)
    → find_account user_id db.users ≡ some u
    → 0 < n
    → n ≤ withdrawable_balance u db
    → (c : Checked) × (check_submission fee_bps user_id (pos n) db ≡ passed c)
      × (c.user_id ≡ u.id)
      × (c.amount ≡ n)
unfolding check_submission check_amount_of calculate_withdrawal_fee
check_passes fee_bps user_id n u db found positive within =
    let some_amount : (n == 0) ≡ false = ground arith in
    let enough : ltb (withdrawable_balance u db) n ≡ false = ground arith in
    let fee = n * fee_bps / 10000 in
    (
      record {
        user_id = u.id;
        amount = n;
        charge = record { fee = fee; net_amount = pos n -ℤ pos fee };
      },
      rw (found, some_amount, enough) refl,
      refl,
      refl,
    )

-- A row of one hash is not found under another.
find_other :
    (c : Checked) (hash other : ℕ) (db : WithdrawalDb)
    → hash ≢ other
    → find_withdrawal other db ≡ none
    → find_withdrawal other (record db {
      withdrawals =
          record {
            id = db.next_id;
            user_id = c.user_id;
            amount = c.amount;
            fee = c.charge.fee;
            tx_hash = some hash;
            status = pending;
          }
          ∷ db.withdrawals;
      next_id = db.next_id + 1;
    })
      ≡ none
unfolding find_withdrawal
find_other c hash other db ne e =
    let miss : (hash == other) ≡ false = ground (arith, ne) in rw miss e

-- A hash that no row has is recorded.
record_fresh :
    (c : Checked) (user_id n hash : ℕ) (db : WithdrawalDb)
    → c.user_id ≡ user_id
    → c.amount ≡ n
    → find_withdrawal hash db ≡ none
    → let db' = (record_submission c (taken hash) db).0 in
      (total_withdrawn user_id db'.withdrawals ≡ n + total_withdrawn user_id db.withdrawals)
      × (db'.tips ≡ db.tips)
      × ((other : ℕ)
          → hash ≢ other
          → find_withdrawal other db ≡ none
          → find_withdrawal other db' ≡ none)
unfolding record_submission create_withdrawal total_withdrawn
record_fresh c user_id n hash db user amount fresh =
    rw fresh (ground (arith, user, amount), refl, λ other ne e. find_other c hash other db ne e)

-- Two submissions of one user whose checks both come before either is recorded, with transactions
-- of different hashes that are not recorded yet: if each amount is positive and within the balance
-- and their sum is not, then both are recorded, and the user has withdrawn more than was received.
pub two_submissions_overdraw :
    (fee_bps user_id a b h k : ℕ) (u : Account) (db : WithdrawalDb)
    → find_account user_id db.users ≡ some u
    → 0 < a
    → 0 < b
    → a ≤ withdrawable_balance u db
    → b ≤ withdrawable_balance u db
    → withdrawable_balance u db < a + b
    → find_withdrawal h db ≡ none
    → find_withdrawal k db ≡ none
    → h ≢ k
    → let first = check_submission fee_bps user_id (pos a) db in
      let second = check_submission fee_bps user_id (pos b) db in
      let db' = (after_check second (taken k) (after_check first (taken h) db).0).0 in
      (total_withdrawn u.id db'.withdrawals ≡ b + (a + total_withdrawn u.id db.withdrawals))
      × (total_received u.stellar_address db'.tips < total_withdrawn u.id db'.withdrawals)
unfolding withdrawable_balance
two_submissions_overdraw fee_bps user_id a b h k u db found pa pb wa wb over fh fk ne =
    let (c, ec, uc, ac) = check_passes fee_bps user_id a u db found pa wa in
    let (d, ed, ud, ad) = check_passes fee_bps user_id b u db found pb wb in
    let db1 = (record_submission c (taken h) db).0 in
    let (first, tips1, keep) = record_fresh c u.id a h db uc ac fh in
    let (second, tips2, keep2) = record_fresh d u.id b k db1 ud ad (keep k ne fk) in
    let sum = second ∙ ap (λ n. b + n) first in
    let received = ap (total_received u.stellar_address) (tips2 ∙ tips1) in
    rw (ec, ed) (sum, ground (arith, sum, received, over))
