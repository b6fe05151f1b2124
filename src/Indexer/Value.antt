-- ===== src/Indexer/Value.antt =====
-- Decoded event values and how the projections read them (the helpers at the end of
-- backend/src/indexer/projections.ts). `Number(x)` is exact in the model: ledgers, scores and unix
-- seconds lie far inside the exact range of a JavaScript number.
use stellar_tipz.Base.{ℕ, zero, suc, Bool, false, Option, none, some, List, [], ◌∷◌, if◌then◌else◌}
use stellar_tipz.Base.Int.{ℤ, pos, ◌+ℤ◌, ◌*ℤ◌, ltb_ℤ, eqb_ℤ, leb_ℤ}
use stellar_tipz.Base.Text.{String, str_eq, decimal}

-- A JavaScript number: an integer, or any other, by the text that prints it.
pub data Number : Type 0 where
  integer : ℤ → Number
  not_integer : String → Number

mutual
  -- `unknown`: what `scValToNative` and the JSON conversion can hand over.
  pub data Value : Type 0 where
    undefined null : Value
    bool : Bool → Value
    num : Number → Value
    bigint : ℤ → Value
    text : String → Value
    array : Items → Value
    object : Fields → Value

  pub data Items : Type 0 where
    nil : Items
    cons : Value → Items → Items

  pub data Fields : Type 0 where
    end : Fields
    field : String → Value → Fields → Fields

unfoldable pub items : Items → List Value
items nil = []
items (cons v vs) = v ∷ items vs

-- `obj[key]`
unfoldable pub get_field : String → Fields → Value
get_field key end = undefined
get_field key (field k v fs) = if str_eq k key then v else get_field key fs

-- `[a, b, c, ...] = values`: the place `i`, undefined past the end.
unfoldable pub arg : ℕ → List Value → Value
arg i [] = undefined
arg zero (v ∷ vs) = v
arg (suc i) (v ∷ vs) = arg i vs

-- `v === 1 || v === '1'`
unfoldable pub is_version_one : Value → Bool
is_version_one (num (integer z)) = eqb_ℤ z (pos 1)
is_version_one (text s) = str_eq s "1"
is_version_one _ = false

unfoldable pub skip_version : List Value → List Value
unfolding is_version_one
skip_version [] = []
skip_version (v ∷ vs) = if is_version_one v then vs else v ∷ vs

unfoldable pub tuple_args : Value → List Value
unfolding items
tuple_args (array xs) = items xs
tuple_args _ = []

unfoldable pub subscription_args : Value → List Value
unfolding tuple_args skip_version
subscription_args v = skip_version (tuple_args v)

-- `typeof v === 'string' ? v : none`
unfoldable pub as_text : Value → Option String
as_text (text s) = some s
as_text _ = none

unfoldable pub address_arg : Value → Option String
unfolding items arg as_text
address_arg (text s) = some s
address_arg (array xs) = as_text (arg 0 (items xs))
address_arg _ = none

unfoldable pub to_bigint : Value → Option ℤ
to_bigint (bigint z) = some z
to_bigint (num (integer z)) = some z
to_bigint (text s) = elim (decimal s) [ none ↦ none | some n ↦ some (pos n) ]
to_bigint _ = none

unfoldable pub to_number : Value → Option Number
to_number (num n) = some n
to_number (bigint z) = some (integer z)
to_number (text s) = elim (decimal s) [ none ↦ none | some n ↦ some (integer (pos n)) ]
to_number _ = none

-- Milliseconds of a `Date` from unix seconds; 0 and what is no integer give none.
unfoldable pub to_timestamp : Value → Option ℤ
unfolding to_bigint
to_timestamp v = elim (to_bigint v) [
  | none ↦ none
  | some seconds ↦ if eqb_ℤ seconds (pos 0) then none else some (seconds *ℤ pos 1000)
]

unfoldable pub to_interval_days : Value → ℤ
unfolding to_bigint
to_interval_days v = elim (to_bigint v) [
  | none ↦ pos 30
  | some days ↦ if ltb_ℤ (pos 0) days then days else pos 30
]

pub data Interval : Type 0 where
  daily weekly monthly : Interval

unfoldable pub interval_from_days : ℤ → Interval
interval_from_days days =
    if leb_ℤ days (pos 1) then daily else if leb_ℤ days (pos 7) then weekly else monthly

-- `nextInterval === 'DAILY' ? 1 : nextInterval === 'WEEKLY' ? 7 : 30`
unfoldable pub days_of : Interval → ℤ
days_of daily = pos 1
days_of weekly = pos 7
days_of monthly = pos 30

unfoldable pub add_days : ℤ → ℤ → ℤ
add_days from days = from +ℤ days *ℤ pos 86_400_000

pub record ParsedTip : Type 0 where
  pub from : String
  pub to : String
  pub amount : ℤ
  pub message : Option String

pub record ParsedRefund : Type 0 where
  pub tip_tx_hash : String
  pub amount : ℤ
  pub reason : Option String

-- The checks of `parseTip` on the four parts.
unfoldable pub tip_of_parts : Value → Value → Value → Value → Option ParsedTip
unfolding as_text to_bigint
tip_of_parts from to amount message = elim (as_text from) [
  | none ↦ none
  | some f ↦ elim (as_text to) [
    | none ↦ none
    | some t ↦ elim (to_bigint amount) [
      | none ↦ none
      | some z ↦ some (record { from = f; to = t; amount = z; message = as_text message })
    ]
  ]
]

unfoldable pub parse_tip : Value → Option ParsedTip
unfolding tip_of_parts items arg skip_version get_field
parse_tip (array xs) =
    let parts = skip_version (items xs) in
    tip_of_parts (arg 0 parts) (arg 1 parts) (arg 2 parts) (arg 3 parts)
parse_tip (object fs) =
    tip_of_parts (get_field "from" fs) (get_field "to" fs) (get_field "amount" fs)
      (get_field "message" fs)
parse_tip _ = none

unfoldable pub refund_of_parts : Value → Value → Value → Option ParsedRefund
unfolding as_text to_bigint
refund_of_parts hash amount reason = elim (as_text hash) [
  | none ↦ none
  | some h ↦ elim (to_bigint amount) [
    | none ↦ none
    | some z ↦ some (record { tip_tx_hash = h; amount = z; reason = as_text reason })
  ]
]

unfoldable pub parse_refund : Value → Option ParsedRefund
unfolding refund_of_parts items arg get_field
parse_refund (array xs) =
    let parts = items xs in refund_of_parts (arg 0 parts) (arg 1 parts) (arg 2 parts)
parse_refund (object fs) =
    refund_of_parts (get_field "tipTxHash" fs) (get_field "amount" fs) (get_field "reason" fs)
parse_refund _ = none

-- A decoded event. The paging token is the poller's concern.
pub record Event : Type 0 where
  pub ledger : ℕ
  pub tx_hash : String
  pub paging_token : String
  pub topic : String
  pub value : Value
