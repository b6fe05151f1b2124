-- ===== src/Withdrawals/Balance.antt =====
-- Withdrawals served one after the other keep within what their users received
-- (backend/src/modules/withdrawals/withdrawals.service.ts).
use stellar_tipz.Base.{
  ℕ, ◌+◌, ◌≤◌, ◌<◌, ◌≡◌, ◌⊎◌, refl, sym, ap, ◌∙◌, inl, inr, some, List, [], ◌∷◌, ◌==◌, find_passes,
  arith, Bool-cases, Option-cases,
}
use stellar_tipz.Base.Int.{ℤ, pos, negsuc}
use stellar_tipz.Withdrawals.{
  Account, ReceivedTip, Withdrawal, WithdrawalDb, Checked, CheckResult, Refusal, passed, denied,
  Sent, malformed, unreachable, error, taken, find_account, total_received, total_withdrawn,
  withdrawable_balance, calculate_withdrawal_fee, check_amount_of, check_submission,
  find_withdrawal, create_withdrawal, record_submission, submit_withdrawal,
}

-- What changes balances: a submission, and a tip that the indexer stores.
pub data Event : Type 0 where
  submission : (user_id : ℕ) → (amount : ℤ) → (sent : Sent) → Event
  tip : ReceivedTip → Event

unfoldable pub serve_events : ℕ → List Event → WithdrawalDb → WithdrawalDb
serve_events fee_bps [] db = db
serve_events fee_bps (submission user_id amount sent ∷ es) db =
    serve_events fee_bps es (submit_withdrawal fee_bps user_id amount sent db).0
serve_events fee_bps (tip t ∷ es) db = serve_events fee_bps es (record db { tips = t ∷ db.tips })

-- No user has withdrawn more than was received.
abbrev pub Covered : WithdrawalDb → Type 0
Covered db =
    (id : ℕ) (u : Account)
    → find_account id db.users ≡ some u
    → total_withdrawn u.id db.withdrawals ≤ total_received u.stellar_address db.tips

find_account-id :
    (id : ℕ) (us : List Account) (u : Account) → find_account id us ≡ some u → u.id ≡ id
unfolding find_account
find_account-id id us u e = let h = find_passes (λ v. v.id == id) us u e in ground (arith, h)

account_of : {u v : Account} → some u ≡ some v → u ≡ v
account_of e = cc

CheckResult-cases :
    (r : CheckResult) → ((x : Refusal) × (r ≡ denied x)) ⊎ ((c : Checked) × (r ≡ passed c))
CheckResult-cases (denied x) = inl (x, refl)
CheckResult-cases (passed c) = inr (c, refl)

-- What the checks say of the user and the balance.
pub record Allowed (db : WithdrawalDb) (user_id : ℕ) (c : Checked) : Type 0 where
  pub user : Account
  pub found : find_account user_id db.users ≡ some user
  pub own : c.user_id ≡ user.id
  pub positive : 0 < c.amount
  pub within :
      total_withdrawn user.id db.withdrawals + c.amount
      ≤ total_received user.stellar_address db.tips

amount-Allowed :
    (fee_bps user_id : ℕ) (u : Account) (amount : ℤ) (db : WithdrawalDb) (c : Checked)
    → find_account user_id db.users ≡ some u
    → check_amount_of fee_bps u amount db ≡ passed c
    → Allowed db user_id c
unfolding check_amount_of calculate_withdrawal_fee withdrawable_balance
amount-Allowed fee_bps user_id u (negsuc n) db c found e = absurd (ground arith)
amount-Allowed fee_bps user_id u (pos n) db c found e = record {
  user = u;
  found = found;
  own = ground arith;
  positive = ground arith;
  within = ground arith;
}

pub check-Allowed :
    (fee_bps user_id : ℕ) (amount : ℤ) (db : WithdrawalDb) (c : Checked)
    → check_submission fee_bps user_id amount db ≡ passed c
    → Allowed db user_id c
unfolding check_submission
check-Allowed fee_bps user_id amount db c e = elim (Option-cases (find_account user_id db.users)) [
  | inl p ↦ absurd (ground (arith, p, e))
  | inr (u, p) ↦ amount-Allowed fee_bps user_id u amount db c p (sym (rw p refl) ∙ e)
]

-- The rows after the network's answer: the old ones, or one more.
pub data Recorded (c : Checked) (db : WithdrawalDb) : WithdrawalDb → Type 0 where
  kept : Recorded c db db
  added :
      (w : Withdrawal)
      → w.user_id ≡ c.user_id
      → w.amount ≡ c.amount
      → Recorded c db (record db { withdrawals = w ∷ db.withdrawals; next_id = db.next_id + 1 })

pub record-Recorded :
    (c : Checked) (sent : Sent) (db : WithdrawalDb) → Recorded c db (record_submission c sent db).0
unfolding record_submission create_withdrawal
record-Recorded c malformed db = kept
record-Recorded c unreachable db = kept
record-Recorded c error db = kept
record-Recorded c (taken hash) db = elim (Option-cases (find_withdrawal hash db)) [
  | inl e ↦ rw e (added _ refl refl)
  | inr (w, e) ↦ rw e kept
]

Recorded-Covered :
    (user_id : ℕ) (c : Checked) (db db' : WithdrawalDb)
    → Recorded c db db'
    → Allowed db user_id c
    → Covered db
    → Covered db'
unfolding total_withdrawn
Recorded-Covered user_id c db db' kept a h = h
Recorded-Covered user_id c db db' (added w own amount) a h = λ id v e.
    elim (Bool-cases (w.user_id == v.id)) [
      | inr p ↦ ground (arith, p, h id v e)
      | inl p ↦
          let named : id ≡ user_id =
            sym (find_account-id id db.users v e)
            ∙ sym (ground (arith, p))
            ∙ own
            ∙ a.own
            ∙ find_account-id user_id db.users a.user a.found in
          let same : a.user ≡ v =
            account_of (sym a.found ∙ ap (λ i. find_account i db.users) (sym named) ∙ e) in
          let within : total_withdrawn v.id db.withdrawals + c.amount
              ≤ total_received v.stellar_address db.tips =
            rw (← same) a.within in
          ground (arith, within, amount, h id v e)
    ]

tip-Covered :
    (t : ReceivedTip) (db : WithdrawalDb) → Covered db → Covered (record db { tips = t ∷ db.tips })
unfolding total_received
tip-Covered t db h = λ id v e. omega (arith, h id v e)

submit-Covered :
    (fee_bps user_id : ℕ) (amount : ℤ) (sent : Sent) (db : WithdrawalDb)
    → Covered db
    → Covered (submit_withdrawal fee_bps user_id amount sent db).0
unfolding submit_withdrawal
submit-Covered fee_bps user_id amount sent db h =
    elim (CheckResult-cases (check_submission fee_bps user_id amount db)) [
      | inl (r, e) ↦ rw e h
      | inr (c, e) ↦ rw e (
          Recorded-Covered user_id c db _ (record-Recorded c sent db)
            (check-Allowed fee_bps user_id amount db c e) h)
    ]

-- If no user has withdrawn more than was received, then none has after any submissions, one after the
-- other, of any amounts by any users with any answers of the network, and any tips stored in between.
pub serve_events-Covered :
    (fee_bps : ℕ) (es : List Event) (db : WithdrawalDb)
    → Covered db
    → Covered (serve_events fee_bps es db)
unfolding serve_events
serve_events-Covered fee_bps [] db h = h
serve_events-Covered fee_bps (submission user_id amount sent ∷ es) db h =
    serve_events-Covered fee_bps es _ (submit-Covered fee_bps user_id amount sent db h)
serve_events-Covered fee_bps (tip t ∷ es) db h =
    serve_events-Covered fee_bps es _ (tip-Covered t db h)
