-- ===== src/Webhooks/Excerpt/Bounds.antt =====
-- The excerpt of a body (`readResponseBodyExcerpt` of backend/src/jobs/webhookDelivery.ts) as a part
-- of the text that the first bytes of the body write.
use stellar_tipz.Base.{
  ℕ, zero, suc, ◌-◌, ◌+◌, ◌≤◌, ◌<◌, ◌≡◌, refl, sym, ap, ◌∙◌, inl, inr, Option, none, some, List, [],
  ◌∷◌, ◌++◌, ◌==◌, ltb, leb, length, take, take-take, length-take, take_all, take_append,
  take_within, arith, Bool-cases,
}
use mathlib.Core.Path.{subst}
use mathlib.Core.List.{append-nil}
use stellar_tipz.Webhooks.{Units}
use stellar_tipz.Webhooks.Excerpt.{
  Codec, Chunk, bytes, broken, Response, Gathered, gathered, threw, excerpt, push_chunk,
  read_chunks, combine, shorten, decode_within_byte_limit, excerpt_of, read_response_body_excerpt,
}

-- The bytes that come before the end of the body or the failure of a read.
abbrev pub stream : List Chunk → List ℕ
stream [] = []
stream (bytes b ∷ cs) = b ++ stream cs
stream (broken e ∷ cs) = []

abbrev pub body_stream : Option (List Chunk) → List ℕ
body_stream none = []
body_stream (some cs) = stream cs

chunks_of : {xs ys : List (List ℕ)} → gathered xs ≡ gathered ys → xs ≡ ys
chunks_of e = cc

text_of : {s t : Units} → excerpt (some s) ≡ excerpt (some t) → s ≡ t
text_of e = cc

push_chunk-gathered :
    (chunk : List ℕ) (g : Gathered) (chunks : List (List ℕ))
    → push_chunk chunk g ≡ gathered chunks
    → (rest : List (List ℕ)) × (g ≡ gathered rest) × (chunks ≡ chunk ∷ rest)
push_chunk-gathered chunk (gathered rest) chunks e = (rest, refl, cc)
push_chunk-gathered chunk (threw t) chunks e = absurd (ground arith)

-- What the loop gathers from `n` bytes on are the next bytes of the stream, up to the limit.
pub combine-read_chunks :
    (limit n : ℕ) (cs : List Chunk) (chunks : List (List ℕ))
    → n ≤ limit
    → read_chunks limit n cs ≡ gathered chunks
    → combine chunks ≡ take (limit - n) (stream cs)
unfolding read_chunks combine
combine-read_chunks limit n [] chunks le e =
    let none_read : chunks ≡ [] = cc in rw none_read (sym (take_all (limit - n) [] (omega arith)))
combine-read_chunks limit n (broken t ∷ cs) chunks le e = elim (Bool-cases (ltb n limit)) [
  | inl p ↦ ground (arith, p, e)
  | inr p ↦
      let none_read : chunks ≡ [] = ground (arith, p, e) in
      rw none_read (sym (take_all (limit - n) [] (omega arith)))
]
combine-read_chunks limit n (bytes v ∷ cs) chunks le e = elim (Bool-cases (ltb n limit)) [
  | inr p ↦
      let none_read : chunks ≡ [] = ground (arith, p, e) in
      let full : 0 ≡ limit - n = ground (arith, p) in
      rw none_read (ap (λ k. take k (v ++ stream cs)) full)
  | inl p ↦ elim (Bool-cases (ltb (limit - n) (length v))) [
    | inl q ↦
        let one : chunks ≡ take (limit - n) v ∷ [] = sym (chunks_of (sym (rw (p, q) refl) ∙ e)) in
        rw (one, append-nil) (sym (take_within (limit - n) v (stream cs) (ground (arith, q))))
    | inr q ↦
        let (rest, tail, whole) =
          push_chunk-gathered v (read_chunks limit (n + length v) cs) chunks
            (sym (rw (p, q) refl) ∙ e) in
        let fits : length v ≤ limit - n = ground (arith, q) in
        rw
          (
            whole,
            combine-read_chunks limit (n + length v) cs rest (omega arith) tail,
            take_append (limit - n) v (stream cs) fits,
          )
          (ap (λ k. v ++ take k (stream cs)) (omega arith))
  ]
]

-- Shortening a text stops at its longest part, counted from the whole, that has few enough bytes.
pub record LongestWithin (codec : Codec) (limit : ℕ) (whole s : Units) : Type 0 where
  pub size : ℕ
  pub part : s ≡ take size whole
  pub at_most : size ≤ length whole
  pub within : length (codec.encode s) ≤ limit
  pub longest : (m : ℕ) → size < m → m ≤ length whole → limit < length (codec.encode (take m whole))

module _ (codec : Codec) where
  shorten_longest :
      (fuel limit : ℕ) (s : Units)
      → length s ≤ fuel
      → LongestWithin codec limit s (shorten codec fuel limit s)
  unfolding shorten
  shorten_longest zero limit [] h = record {
    size = 0;
    part = refl;
    at_most = omega arith;
    within = rw codec.encode_empty (omega arith);
    longest = λ m lt le. absurd (omega arith);
  }
  shorten_longest zero limit (c ∷ cs) h = absurd (omega arith)
  shorten_longest (suc fuel) limit s h =
      let n = length s - 1 in
      let shorter = length-take n s (omega arith) in
      elim (Bool-cases (ltb limit (length (codec.encode s)))) [
        | inr p ↦ rw p (record {
          size = length s;
          part = sym (take_all (length s) s (omega arith));
          at_most = omega arith;
          within = ground (arith, p);
          longest = λ m lt le. absurd (omega arith);
        })
        | inl p ↦
            let r = shorten_longest fuel limit (take n s) (omega (arith, shorter)) in
            rw p (record {
              size = r.size;
              part = r.part ∙ take-take r.size n s (omega (arith, r.at_most, shorter));
              at_most = omega (arith, r.at_most, shorter);
              within = r.within;
              longest = λ m lt le. elim (Bool-cases (leb m n)) [
                | inl q ↦
                    let inside : m ≤ n = ground (arith, q) in
                    subst (λ t. limit < length (codec.encode t)) (take-take m n s inside)
                      (r.longest m lt (omega (arith, shorter)))
                | inr q ↦
                    let all : m ≡ length s = ground (arith, q) in
                    rw (all, take_all (length s) s (omega arith)) (ground (arith, p))
              ];
            })
      ]

  decoded_longest :
      (limit : ℕ) (g : Gathered) (whole : List ℕ) (s : Units)
      → ((chunks : List (List ℕ)) → g ≡ gathered chunks → combine chunks ≡ take limit whole)
      → excerpt_of codec limit g ≡ excerpt (some s)
      → LongestWithin codec limit (codec.decode (take limit whole)) s
  unfolding excerpt_of decode_within_byte_limit
  decoded_longest limit (threw t) whole s read e = absurd (ground arith)
  decoded_longest limit (gathered chunks) whole s read e =
      elim (Bool-cases (length (combine chunks) == 0)) [
        | inl p ↦ absurd (ground (arith, p, e))
        | inr p ↦
            let bytes_read : combine chunks ≡ take limit whole = read chunks refl in
            let decoded = codec.decode (take limit (take limit whole)) in
            let out : excerpt_of codec limit (gathered chunks)
                ≡ excerpt (some (shorten codec (length decoded) limit decoded)) =
              rw p (ap (λ b. excerpt (some (decode_within_byte_limit codec b limit))) bytes_read) in
            let same : s ≡ shorten codec (length decoded) limit decoded = text_of (sym e ∙ out) in
            rw same (
              subst
                (λ d.
                  LongestWithin codec limit (codec.decode d)
                    (shorten codec (length decoded) limit decoded))
                (take-take limit limit whole (omega arith))
                (shorten_longest (length decoded) limit decoded (omega arith)))
      ]

  read_longest :
      (body : Option (List Chunk)) (r : Response) (limit : ℕ) (s : Units)
      → r.body ≡ body
      → read_response_body_excerpt codec r limit ≡ excerpt (some s)
      → LongestWithin codec limit (codec.decode (take limit (body_stream body))) s
  unfolding read_response_body_excerpt
  read_longest none r limit s b e = absurd (ground (arith, b, e))
  read_longest (some cs) r limit s b e = elim (Bool-cases (limit == 0)) [
    | inl p ↦ absurd (ground (arith, b, p, e))
    | inr p ↦
        decoded_longest limit (read_chunks limit 0 cs) (stream cs) s
          (λ chunks read.
            combine-read_chunks limit 0 cs chunks (omega arith) read
            ∙ ap (λ k. take k (stream cs)) (omega arith))
          (sym (rw (b, p) refl) ∙ e)
  ]

  -- An excerpt of a body is the longest part of the text of its first `limit` bytes that has at
  -- most `limit` bytes.
  pub excerpt_longest :
      (r : Response) (limit : ℕ) (s : Units)
      → read_response_body_excerpt codec r limit ≡ excerpt (some s)
      → LongestWithin codec limit (codec.decode (take limit (body_stream r.body))) s
  excerpt_longest r limit s e = read_longest r.body r limit s refl e
