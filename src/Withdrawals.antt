-- ===== src/Withdrawals.antt =====
-- Withdrawals by their users (backend/src/modules/withdrawals/withdrawals.service.ts). A submission is
-- cut at its waits into `check_submission`, `find_withdrawal` and `create_withdrawal`, so that
-- submissions can interleave. What the network answers is an argument; a transaction's hash is a number.
pub mod Fees
pub mod Balance
pub mod Race
mod Tests
use stellar_tipz.Base.{
  ℕ, zero, suc, ◌+◌, ◌-◌, ◌*◌, ◌/◌, Bool, true, false, not, ◌&&◌, ◌||◌, Option, none, some, List,
  [], ◌∷◌, ◌==◌, ltb, find, when_some, if◌then◌else◌,
}
use stellar_tipz.Base.Int.{ℤ, pos, negsuc, ◌-ℤ◌}

pub data WithdrawalStatus : Type 0 where
  pending : WithdrawalStatus
  confirmed : WithdrawalStatus
  failed : WithdrawalStatus

pub record Withdrawal : Type 0 where
  pub id : ℕ
  pub user_id : ℕ
  pub amount : ℕ
  pub fee : ℕ
  pub tx_hash : Option ℕ
  pub status : WithdrawalStatus

-- What the balance reads of a user and of a tip.
pub record Account : Type 0 where
  pub id : ℕ
  pub stellar_address : ℕ

pub record ReceivedTip : Type 0 where
  pub to_address : ℕ
  pub amount_stroops : ℕ
  pub is_confirmed : Bool

pub record WithdrawalDb : Type 0 where
  pub users : List Account
  pub tips : List ReceivedTip
  pub withdrawals : List Withdrawal
  pub next_id : ℕ

unfoldable pub find_account : ℕ → List Account → Option Account
find_account id us = find (λ u. u.id == id) us

-- The sum of the confirmed tips to an address.
unfoldable pub total_received : ℕ → List ReceivedTip → ℕ
total_received address [] = 0
total_received address (t ∷ ts) =
    (if (t.to_address == address) && t.is_confirmed then t.amount_stroops else 0)
    + total_received address ts

abbrev pub counts : WithdrawalStatus → Bool
counts pending = true
counts confirmed = true
counts failed = false

-- The sum of a user's withdrawals that are pending or confirmed.
unfoldable pub total_withdrawn : ℕ → List Withdrawal → ℕ
total_withdrawn user_id [] = 0
total_withdrawn user_id (w ∷ ws) =
    (if (w.user_id == user_id) && counts w.status then w.amount else 0) + total_withdrawn user_id ws

unfoldable pub withdrawable_balance : Account → WithdrawalDb → ℕ
unfolding total_received total_withdrawn
withdrawable_balance u db =
    let received = total_received u.stellar_address db.tips in
    let withdrawn = total_withdrawn u.id db.withdrawals in
    if ltb withdrawn received then received - withdrawn else 0

pub record WithdrawalFee : Type 0 where
  pub fee : ℕ
  pub net_amount : ℤ

-- `none` if the amount is not positive.
unfoldable pub calculate_withdrawal_fee : ℤ → ℕ → Option WithdrawalFee
calculate_withdrawal_fee (negsuc n) fee_bps = none
calculate_withdrawal_fee (pos n) fee_bps =
    if n == 0
    then none
    else let fee = n * fee_bps / 10000 in some (record { fee = fee; net_amount = pos n -ℤ pos fee })

pub data Refusal : Type 0 where
  user_not_found : Refusal
  amount_not_positive : Refusal
  insufficient_balance : Refusal
  malformed_transaction : Refusal
  network_failed : Refusal
  network_rejected : Refusal

pub record SubmitWithdrawalResult : Type 0 where
  pub id : ℕ
  pub tx_hash : Option ℕ
  pub status : WithdrawalStatus
  pub amount : ℕ
  pub fee : ℕ
  pub net_amount : ℤ

pub data Submitted : Type 0 where
  submitted : SubmitWithdrawalResult → Submitted
  refused : Refusal → Submitted

-- What comes of sending the transaction.
pub data Sent : Type 0 where
  malformed : Sent
  unreachable : Sent
  error : Sent
  taken : (hash : ℕ) → Sent

-- What the checks let through.
pub record Checked : Type 0 where
  pub user_id : ℕ
  pub amount : ℕ
  pub charge : WithdrawalFee

pub data CheckResult : Type 0 where
  passed : Checked → CheckResult
  denied : Refusal → CheckResult

unfoldable pub check_amount_of : ℕ → Account → ℤ → WithdrawalDb → CheckResult
unfolding withdrawable_balance calculate_withdrawal_fee
check_amount_of fee_bps u (negsuc n) db = denied amount_not_positive
check_amount_of fee_bps u (pos n) db =
    if n == 0
    then denied amount_not_positive
    else if ltb (withdrawable_balance u db) n
    then denied insufficient_balance
    else when_some (calculate_withdrawal_fee (pos n) fee_bps) (denied amount_not_positive)
        (λ charge. passed (record { user_id = u.id; amount = n; charge = charge }))

-- The checks before the transaction is sent.
unfoldable pub check_submission : ℕ → ℕ → ℤ → WithdrawalDb → CheckResult
unfolding find_account check_amount_of
check_submission fee_bps user_id amount db =
    when_some (find_account user_id db.users) (denied user_not_found)
      (λ u. check_amount_of fee_bps u amount db)

abbrev pub has_hash : ℕ → Withdrawal → Bool
has_hash hash w = when_some w.tx_hash false (λ h. h == hash)

-- `withdrawal.findUnique({ where: { txHash } })`
unfoldable pub find_withdrawal : ℕ → WithdrawalDb → Option Withdrawal
find_withdrawal hash db = find (has_hash hash) db.withdrawals

unfoldable pub serialize_submitted_withdrawal : Withdrawal → ℤ → Submitted
serialize_submitted_withdrawal w net_amount = submitted (record {
  id = w.id;
  tx_hash = w.tx_hash;
  status = w.status;
  amount = w.amount;
  fee = w.fee;
  net_amount = net_amount;
})

-- The creation. The table has a unique index on the hash (backend/prisma/migrations,
-- 20260624074500_expand_models), so where the hash is taken the creation fails with `P2002`, and the
-- row that has it is the answer.
unfoldable pub create_withdrawal : Checked → ℕ → WithdrawalDb → WithdrawalDb × Submitted
unfolding find_withdrawal serialize_submitted_withdrawal
create_withdrawal c hash db =
    let row : Withdrawal = record {
      id = db.next_id;
      user_id = c.user_id;
      amount = c.amount;
      fee = c.charge.fee;
      tx_hash = some hash;
      status = pending;
    } in
    when_some (find_withdrawal hash db)
      (
        record db { withdrawals = row ∷ db.withdrawals; next_id = db.next_id + 1 },
        serialize_submitted_withdrawal row c.charge.net_amount,
      )
      (λ w. (db, serialize_submitted_withdrawal w c.charge.net_amount))

-- What follows the network's answer.
unfoldable pub record_submission : Checked → Sent → WithdrawalDb → WithdrawalDb × Submitted
unfolding create_withdrawal
record_submission c malformed db = (db, refused malformed_transaction)
record_submission c unreachable db = (db, refused network_failed)
record_submission c error db = (db, refused network_rejected)
record_submission c (taken hash) db =
    when_some (find_withdrawal hash db) (create_withdrawal c hash db)
      (λ w. (db, serialize_submitted_withdrawal w c.charge.net_amount))

abbrev pub after_check : CheckResult → Sent → WithdrawalDb → WithdrawalDb × Submitted
after_check (denied r) sent db = (db, refused r)
after_check (passed c) sent db = record_submission c sent db

-- A submission with no other in between.
unfoldable pub submit_withdrawal : ℕ → ℕ → ℤ → Sent → WithdrawalDb → WithdrawalDb × Submitted
unfolding check_submission record_submission
submit_withdrawal fee_bps user_id amount sent db =
    after_check (check_submission fee_bps user_id amount db) sent db
