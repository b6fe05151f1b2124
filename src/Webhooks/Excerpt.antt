-- ===== src/Webhooks/Excerpt.antt =====
-- The excerpt of a response's body: `readResponseBodyExcerpt`, `decodeWithinByteLimit` and
-- `boundedReason` of backend/src/jobs/webhookDelivery.ts. `TextDecoder` and `Buffer.from` are a
-- parameter, `Codec`.
pub mod Bounds
use stellar_tipz.Base.{
  ℕ, zero, suc, ◌-◌, ◌+◌, Bool, true, false, Option, none, some, List, [], ◌∷◌, ◌++◌, ◌==◌, ltb,
  length, take, if◌then◌else◌, ◌≡◌,
}
use stellar_tipz.Webhooks.{Units}

-- UTF-8: `new TextDecoder().decode` and `Buffer.from`, of which an empty text has no byte.
pub record Codec : Type 0 where
  pub decode : List ℕ → Units
  pub encode : Units → List ℕ
  pub encode_empty : encode [] ≡ []

-- What a promise is rejected with: the message of an `Error`, or another value.
abbrev pub Thrown : Type 0
Thrown = Option Units

-- One answer of `reader.read()` that is not the end.
pub data Chunk : Type 0 where
  bytes : List ℕ → Chunk
  broken : Thrown → Chunk

pub record Response : Type 0 where
  pub status : ℕ
  pub status_text : Units
  pub body : Option (List Chunk)

pub data Gathered : Type 0 where
  gathered : List (List ℕ) → Gathered
  threw : Thrown → Gathered

pub data Excerpt : Type 0 where
  excerpt : Option Units → Excerpt
  unreadable : Thrown → Excerpt

abbrev pub push_chunk : List ℕ → Gathered → Gathered
push_chunk chunk (gathered chunks) = gathered (chunk ∷ chunks)
push_chunk chunk (threw e) = threw e

-- The loop over the reads, with the number of bytes read so far.
unfoldable pub read_chunks : ℕ → ℕ → List Chunk → Gathered
read_chunks max_bytes bytes_read [] = gathered []
read_chunks max_bytes bytes_read (broken e ∷ cs) =
    if ltb bytes_read max_bytes then threw e else gathered []
read_chunks max_bytes bytes_read (bytes value ∷ cs) =
    let remaining = max_bytes - bytes_read in
    let chunk = if ltb remaining (length value) then take remaining value else value in
    let rest = push_chunk chunk (read_chunks max_bytes (bytes_read + length chunk) cs) in
    if ltb bytes_read max_bytes
    then (if ltb remaining (length value) then gathered (chunk ∷ []) else rest)
    else gathered []

-- `combined`
unfoldable pub combine : List (List ℕ) → List ℕ
combine [] = []
combine (c ∷ cs) = c ++ combine cs

module _ (codec : Codec) where
  -- The loop `while (Buffer.byteLength(decoded) > maxBytes)`; the fuel is the length of the text.
  unfoldable pub shorten : ℕ → ℕ → Units → Units
  shorten zero max_bytes decoded = decoded
  shorten (suc fuel) max_bytes decoded =
      let rest = shorten fuel max_bytes (take (length decoded - 1) decoded) in
      if ltb max_bytes (length (codec.encode decoded)) then rest else decoded

  unfoldable pub decode_within_byte_limit : List ℕ → ℕ → Units
  unfolding shorten
  decode_within_byte_limit b max_bytes =
      let decoded = codec.decode (take max_bytes b) in shorten (length decoded) max_bytes decoded

  unfoldable pub bounded_reason : Units → Units
  unfolding decode_within_byte_limit
  bounded_reason reason = decode_within_byte_limit (codec.encode reason) 1024

  unfoldable pub excerpt_of : ℕ → Gathered → Excerpt
  unfolding combine decode_within_byte_limit
  excerpt_of max_bytes (threw e) = unreadable e
  excerpt_of max_bytes (gathered chunks) =
      if length (combine chunks) == 0
      then excerpt none
      else excerpt (some (decode_within_byte_limit (combine chunks) max_bytes))

  unfoldable pub read_response_body_excerpt : Response → ℕ → Excerpt
  unfolding read_chunks excerpt_of
  read_response_body_excerpt response max_bytes = elim response.body [
    | none ↦ excerpt none
    | some chunks ↦
        if max_bytes == 0
        then excerpt none
        else excerpt_of max_bytes (read_chunks max_bytes 0 chunks)
  ]
