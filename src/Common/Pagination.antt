-- ===== src/Common/Pagination.antt =====
-- Signed pagination cursors and keyset pages (backend/src/common/pagination/cursor.ts), and a list
-- endpoint over them (`listMySubscriptions` of backend/src/modules/subscriptions/subscriptions.service.ts
-- and `getMyRefunds` of backend/src/modules/refunds/refunds.service.ts, which read rows alike).
-- Texts and byte strings are lists of codes; a date is its milliseconds.
pub mod Codec
pub mod Order
pub mod Listing
mod Tests
use stellar_tipz.Base.{
  ℕ, zero, suc, ◌+◌, ◌≡◌, Bool, true, false, not, ◌&&◌, ◌||◌, Option, none, some, List, [], ◌∷◌,
  ◌++◌, ltb, ◌==◌, length, filter, take, when_some, if◌then◌else◌,
}

abbrev pub Text : Type 0
Text = List ℕ

unfoldable pub eq_text : Text → Text → Bool
eq_text [] [] = true
eq_text [] (d ∷ ds) = false
eq_text (c ∷ cs) [] = false
eq_text (c ∷ cs) (d ∷ ds) = c == d && eq_text cs ds

-- The order of ids, by code.
unfoldable pub lt_text : Text → Text → Bool
lt_text cs [] = false
lt_text [] (d ∷ ds) = true
lt_text (c ∷ cs) (d ∷ ds) = ltb c d || (c == d && lt_text cs ds)

abbrev pub is_nil {ℓ} : {A : Type ℓ} → List A → Bool
is_nil [] = true
is_nil (x ∷ xs) = false

pub record CursorPayload : Type 0 where
  pub version : ℕ
  pub scope : Text
  pub sort_value : ℕ
  pub id : Text

pub record CursorPosition : Type 0 where
  pub sort_value : ℕ
  pub id : Text

-- What the code calls of Node: base64url, HMAC-SHA-256 under the signing key, and the JSON text of a
-- payload with its date in ISO form. Reading back gives nothing where the text is no such object.
pub record Crypto : Type 0 where
  pub to_base64 : List ℕ → Text
  pub from_base64 : Text → List ℕ
  pub hmac : Text → List ℕ
  pub to_json : CursorPayload → List ℕ
  pub from_json : List ℕ → Option CursorPayload

abbrev pub dot : ℕ
dot = 46

abbrev pub onto_first : ℕ → List Text → List Text
onto_first c [] = (c ∷ []) ∷ []
onto_first c (t ∷ ts) = (c ∷ t) ∷ ts

-- `text.split('.')`
unfoldable pub split : Text → List Text
split [] = [] ∷ []
split (c ∷ cs) = let rest = split cs in if c == dot then [] ∷ rest else onto_first c rest

-- `cursorPayloadSchema`, on an object of the right shape.
unfoldable pub is_payload : CursorPayload → Bool
is_payload p = p.version == 1 && not (is_nil p.scope) && not (is_nil p.id)

unfoldable pub encode_cursor : Crypto → CursorPosition → Text → Text
encode_cursor k position scope =
    let payload = k.to_base64 (
      k.to_json (record {
        version = 1;
        scope = scope;
        sort_value = position.sort_value;
        id = position.id;
      })) in
    payload ++ dot ∷ k.to_base64 (k.hmac payload)

-- The three tests of the signature: canonical text, same length, same bytes.
unfoldable pub is_signed : Crypto → Text → Text → Bool
unfolding eq_text
is_signed k payload signature =
    let supplied = k.from_base64 signature in
    let expected = k.hmac payload in
    eq_text (k.to_base64 supplied) signature
    && length supplied == length expected
    && eq_text supplied expected

unfoldable pub read_payload : Text → CursorPayload → Option CursorPosition
unfolding is_payload
read_payload expected_scope p =
    if is_payload p && eq_text p.scope expected_scope
    then some (record { sort_value = p.sort_value; id = p.id })
    else none

unfoldable pub decode_parts : Crypto → Text → List Text → Option CursorPosition
unfolding is_signed read_payload
decode_parts k expected_scope (payload ∷ signature ∷ []) =
    if is_nil payload || is_nil signature || not (is_signed k payload signature)
    then none
    else when_some (k.from_json (k.from_base64 payload)) none (read_payload expected_scope)
decode_parts k expected_scope parts = none

-- None is the `BadRequestError`, which every other failure is turned into.
unfoldable pub decode_cursor : Crypto → Text → Text → Option CursorPosition
unfolding decode_parts split
decode_cursor k cursor expected_scope = decode_parts k expected_scope (split cursor)

-- A row with the timestamp that it is sorted by.
pub record Row {ℓ} (A : Type ℓ) : Type ℓ where
  pub created_at : ℕ
  pub id : Text
  pub value : A

-- The boundary: is the row after the position?
unfoldable pub is_after {ℓ} : {A : Type ℓ} → CursorPosition → Row A → Bool
unfolding lt_text
is_after p r = ltb r.created_at p.sort_value || (r.created_at == p.sort_value && lt_text r.id p.id)

-- `descendingCursorCondition` as a filter; an empty cursor is none.
unfoldable pub descending_cursor_condition {ℓ} :
    {A : Type ℓ} → Crypto → Option Text → Text → Option (Row A → Bool)
unfolding is_after decode_cursor
descending_cursor_condition k none scope = some (λ r. true)
descending_cursor_condition k (some []) scope = some (λ r. true)
descending_cursor_condition k (some (c ∷ cs)) scope =
    when_some (decode_cursor k (c ∷ cs) scope) none (λ position. some (is_after position))

abbrev pub last_of {ℓ} : {A : Type ℓ} → List A → Option A
last_of [] = none
last_of (x ∷ []) = some x
last_of (x ∷ y ∷ xs) = last_of (y ∷ xs)

pub record Page {ℓ} (A : Type ℓ) : Type ℓ where
  pub data_rows : List (Row A)
  pub next_cursor : Option Text

abbrev pub cursor_of {ℓ} : {A : Type ℓ} → Crypto → Text → Option (Row A) → Option Text
cursor_of k scope none = none
cursor_of k scope (some r) =
    some (encode_cursor k (record { sort_value = r.created_at; id = r.id }) scope)

unfoldable pub to_cursor_page {ℓ} : {A : Type ℓ} → Crypto → List (Row A) → ℕ → Text → Page A
unfolding encode_cursor
to_cursor_page k rows limit scope =
    let has_more = ltb limit (length rows) in
    let rows' = if has_more then take limit rows else rows in
    record {
      data_rows = rows';
      next_cursor = if has_more then cursor_of k scope (last_of rows') else none;
    }

-- A list endpoint: of the rows that its other filters leave, in descending order of time and id, the
-- page after the cursor.
unfoldable pub list_page {ℓ} :
    {A : Type ℓ} → Crypto → Text → ℕ → List (Row A) → Option Text → Option (Page A)
unfolding descending_cursor_condition to_cursor_page
list_page k scope limit rows cursor =
    when_some (descending_cursor_condition k cursor scope) none
      (λ test. some (to_cursor_page k (take (limit + 1) (filter test rows)) limit scope))
