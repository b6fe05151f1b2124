-- ===== src/Common/Pagination/Tests.antt =====
-- A toy cryptography with the laws of the real one, and the theorems at concrete inputs.
use stellar_tipz.Base.{
  ℕ, ◌+◌, ◌-◌, ◌≡◌, ◌≢◌, inl, inr, refl, ap, false, Option, none, some, List, [], ◌∷◌, ◌++◌, arith,
  map, length, take, drop, All,
}
use stellar_tipz.Common.Pagination.{
  Crypto, CursorPayload, CursorPosition, Row, lt_text, dot, is_nil, decode_cursor, encode_cursor,
}
use stellar_tipz.Common.Pagination.Codec.{IsCrypto, cursor_roundtrip}
use stellar_tipz.Common.Pagination.Order.{Descends}
use stellar_tipz.Common.Pagination.Listing.{list_all, list_all_complete}

abbrev print : CursorPayload → List ℕ
print p = p.version ∷ p.sort_value ∷ length p.scope ∷ p.scope ++ p.id

abbrev parse : List ℕ → Option CursorPayload
parse (v ∷ s ∷ n ∷ rest) =
    some (record { version = v; sort_value = s; scope = take n rest; id = drop n rest })
parse _ = none

abbrev toy : Crypto
toy = record {
  to_base64 = map (λ c. c + 100);
  from_base64 = map (λ c. c - 100);
  hmac = λ t. 7 ∷ t;
  to_json = print;
  from_json = parse;
}

shift_back : (b : List ℕ) → map (λ c. c - 100) (map (λ c. c + 100) b) ≡ b
shift_back [] = refl
shift_back (c ∷ b) = let e : c + 100 - 100 ≡ c = omega arith in rw (e, shift_back b) refl

shift_dotless : (b : List ℕ) → All (λ c. c ≢ dot) (map (λ c. c + 100) b)
shift_dotless [] = tt
shift_dotless (c ∷ b) = (λ e. omega arith, shift_dotless b)

shift_some : (b : List ℕ) → is_nil b ≡ false → is_nil (map (λ c. c + 100) b) ≡ false
shift_some [] h = cc
shift_some (c ∷ b) h = refl

take_front : (xs ys : List ℕ) → take (length xs) (xs ++ ys) ≡ xs
take_front [] ys = refl
take_front (x ∷ xs) ys = ap (λ zs. x ∷ zs) (take_front xs ys)

drop_front : (xs ys : List ℕ) → drop (length xs) (xs ++ ys) ≡ ys
drop_front [] ys = refl
drop_front (x ∷ xs) ys = drop_front xs ys

toy-IsCrypto : IsCrypto toy
toy-IsCrypto = record {
  base64_back = shift_back;
  base64_dotless = shift_dotless;
  base64_some = shift_some;
  hmac_some = λ t. refl;
  json_back = λ p. rw (take_front p.scope p.id, drop_front p.scope p.id) refl;
  json_some = λ p. refl;
}

abbrev place : CursorPosition
place = record { sort_value = 5; id = 1 ∷ 2 ∷ [] }

cursor_roundtrip_example :
    (decode_cursor toy (encode_cursor toy place (9 ∷ [])) (9 ∷ []) ≡ some place)
    × (decode_cursor toy (encode_cursor toy place (9 ∷ [])) (8 ∷ []) ≡ none)
cursor_roundtrip_example =
    cursor_roundtrip toy toy-IsCrypto place (9 ∷ []) (8 ∷ []) refl refl (λ e. ground arith)

abbrev row : ℕ → ℕ → Row ℕ
row time id = record { created_at = time; id = id ∷ []; value = time }

-- Two of the rows have the same time.
abbrev rows : List (Row ℕ)
rows = row 9 1 ∷ row 7 4 ∷ row 7 2 ∷ []

rows-Descends : Descends rows
unfolding Descends lt_text
rows-Descends = ((inl (omega arith), (inl (omega arith), tt)), ((inr (refl, refl), tt), (tt, tt)))

list_all_complete_example : list_all (3 + 1) toy (9 ∷ []) 2 rows none ≡ some rows
list_all_complete_example =
    list_all_complete toy toy-IsCrypto (9 ∷ []) 2 refl (omega arith) rows rows-Descends
      (refl, (refl, (refl, tt)))
