-- ===== src/Common/Pagination/Codec.antt =====
-- Cursors that are written and read back (backend/src/common/pagination/cursor.ts).
use stellar_tipz.Base.{
  ℕ, ◌≡◌, ◌≢◌, refl, ap, ◌∙◌, true, false, none, some, List, [], ◌∷◌, ◌++◌, arith, ◌==◌, All,
  Bool-cases, inl, inr, if◌then◌else◌,
}
use stellar_tipz.Common.Pagination.{
  Text, Crypto, CursorPayload, CursorPosition, dot, is_nil, eq_text, split, is_payload,
  encode_cursor, is_signed, read_payload, decode_parts, decode_cursor,
}

-- What Node's base64url, HMAC and JSON do: what is written is read back, a base64url text has no dot,
-- and none of the texts is empty.
pub record IsCrypto (k : Crypto) : Type 0 where
  pub base64_back : (b : List ℕ) → k.from_base64 (k.to_base64 b) ≡ b
  pub base64_dotless : (b : List ℕ) → All (λ c. c ≢ dot) (k.to_base64 b)
  pub base64_some : (b : List ℕ) → is_nil b ≡ false → is_nil (k.to_base64 b) ≡ false
  pub hmac_some : (t : Text) → is_nil (k.hmac t) ≡ false
  pub json_back : (p : CursorPayload) → k.from_json (k.to_json p) ≡ some p
  pub json_some : (p : CursorPayload) → is_nil (k.to_json p) ≡ false

pub eq_text_refl : (t : Text) → eq_text t t ≡ true
unfolding eq_text
eq_text_refl [] = refl
eq_text_refl (c ∷ cs) = ground (arith, eq_text_refl cs)

pub eq_of_eq_text : (t u : Text) → eq_text t u ≡ true → t ≡ u
unfolding eq_text
eq_of_eq_text [] [] h = refl
eq_of_eq_text [] (d ∷ ds) h = cc
eq_of_eq_text (c ∷ cs) [] h = cc
eq_of_eq_text (c ∷ cs) (d ∷ ds) h =
    let rest = eq_of_eq_text cs ds (ground arith) in let head : c ≡ d = ground arith in cc

split_dotless : (t : Text) → All (λ c. c ≢ dot) t → split t ≡ t ∷ []
unfolding split
split_dotless [] h = refl
split_dotless (c ∷ cs) (h, hs) =
    let miss : (c == dot) ≡ false = ground arith in rw (split_dotless cs hs, miss) refl

split_pair :
    (t u : Text) → All (λ c. c ≢ dot) t → All (λ c. c ≢ dot) u → split (t ++ dot ∷ u) ≡ t ∷ u ∷ []
unfolding split
split_pair [] u h k = rw (split_dotless u k) refl
split_pair (c ∷ cs) u (h, hs) k =
    let miss : (c == dot) ≡ false = ground arith in rw (split_pair cs u hs k, miss) refl

some-append : (t u : Text) → is_nil t ≡ false → is_nil (t ++ u) ≡ false
some-append [] u h = cc
some-append (c ∷ cs) u h = refl

module _ (k : Crypto) (laws : IsCrypto k) where
  own_signature : (t : Text) → is_signed k t (k.to_base64 (k.hmac t)) ≡ true
  unfolding is_signed
  own_signature t =
      rw
        (
          laws.base64_back (k.hmac t),
          eq_text_refl (k.to_base64 (k.hmac t)),
          eq_text_refl (k.hmac t),
        )
        (ground arith)

  -- The two parts of a cursor that the code wrote for `p`.
  decode_own :
      (p : CursorPayload) (expected : Text)
      → let payload = k.to_base64 (k.to_json p) in
        decode_parts k expected (payload ∷ k.to_base64 (k.hmac payload) ∷ [])
        ≡ read_payload expected p
  unfolding decode_parts
  decode_own p expected =
      let payload = k.to_base64 (k.to_json p) in
      rw
        (
          laws.base64_some (k.to_json p) (laws.json_some p),
          laws.base64_some (k.hmac payload) (laws.hmac_some payload),
          own_signature payload,
          laws.base64_back (k.to_json p),
          laws.json_back p,
        )
        refl

  read_own :
      (position : CursorPosition) (scope expected : Text)
      → is_nil scope ≡ false
      → is_nil position.id ≡ false
      → read_payload expected (record {
        version = 1;
        scope = scope;
        sort_value = position.sort_value;
        id = position.id;
      })
        ≡ (if eq_text scope expected then some position else none)
  unfolding read_payload is_payload
  read_own position scope expected s i = rw (s, i) refl

  pub decode-encode :
      (position : CursorPosition) (scope expected : Text)
      → is_nil scope ≡ false
      → is_nil position.id ≡ false
      → decode_cursor k (encode_cursor k position scope) expected
        ≡ (if eq_text scope expected then some position else none)
  unfolding decode_cursor encode_cursor
  decode-encode position scope expected s i =
      let p : CursorPayload = record {
        version = 1;
        scope = scope;
        sort_value = position.sort_value;
        id = position.id;
      } in
      let payload = k.to_base64 (k.to_json p) in
      ap (decode_parts k expected) (
        split_pair payload (k.to_base64 (k.hmac payload)) (laws.base64_dotless (k.to_json p))
          (laws.base64_dotless (k.hmac payload)))
      ∙ decode_own p expected
      ∙ read_own position scope expected s i

  -- No cursor is empty.
  pub encode_some : (p : CursorPosition) (scope : Text) → is_nil (encode_cursor k p scope) ≡ false
  unfolding encode_cursor
  encode_some p scope = some-append _ _ (laws.base64_some _ (laws.json_some _))

  -- With base64url, HMAC and JSON as documented: a cursor that was written for a position with a
  -- non-empty id, under a non-empty scope, is read back as that position under the same scope, and is
  -- refused under any other.
  pub cursor_roundtrip :
      (position : CursorPosition) (scope other : Text)
      → is_nil scope ≡ false
      → is_nil position.id ≡ false
      → scope ≢ other
      → (decode_cursor k (encode_cursor k position scope) scope ≡ some position)
        × (decode_cursor k (encode_cursor k position scope) other ≡ none)
  cursor_roundtrip position scope other s i ne = (
    decode-encode position scope scope s i ∙ rw (eq_text_refl scope) refl,
    decode-encode position scope other s i ∙ elim (Bool-cases (eq_text scope other)) [
      | inl same ↦ absurd (ne (eq_of_eq_text scope other same))
      | inr differ ↦ rw differ refl
    ],
  )
