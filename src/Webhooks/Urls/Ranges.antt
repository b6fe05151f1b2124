-- ===== src/Webhooks/Urls/Ranges.antt =====
-- The reserved IPv4 addresses by their octets (`isPrivateIpv4` of
-- backend/src/modules/webhooks/webhooks.url-safety.ts).
use stellar_tipz.Base.{
  ℕ, ◌+◌, ◌*◌, ◌/◌, ◌^◌, ◌≤◌, ◌≡◌, ap, ◌∙◌, Bool, false, ◌&&◌, ◌||◌, ◌==◌, leb, arith,
}
use mathlib.Core.Path.{ap₂}
use stellar_tipz.Webhooks.Urls.{ipv4_blocks, in_blocks, to_int}

-- Is the address a.b.c.d of a network that is not public?
unfoldable pub is_reserved : ℕ → ℕ → ℕ → ℕ → Bool
is_reserved a b c d =
    (a == 0)
    || ((a == 10)
        || (((a == 100) && (leb 64 b && leb b 127))
            || ((a == 127)
                || (((a == 169) && (b == 254))
                    || (((a == 172) && (leb 16 b && leb b 31))
                        || (((a == 192) && ((b == 0) && (c == 0)))
                            || (((a == 192) && ((b == 0) && (c == 2)))
                                || (((a == 192) && (b == 168))
                                    || (((a == 198) && (leb 18 b && leb b 19))
                                        || (((a == 198) && ((b == 51) && (c == 100)))
                                            || (((a == 203) && ((b == 0) && (c == 113)))
                                                || ((leb 224 a && leb a 239)
                                                    || (leb 240 a && leb a 255)))))))))))))

or_both : {p q r s : Bool} → p ≡ q → r ≡ s → (p || r) ≡ (q || s)
or_both e f = ap₂ (λ x y. x || y) e f

module _ (a b c d : ℕ) (ha : a ≤ 255) (hb : b ≤ 255) (hc : c ≤ 255) (hd : d ≤ 255) where
  by_octet : to_int a b c d / 2 ^ 24 ≡ a
  unfolding to_int
  by_octet = omega arith

  by_pair : to_int a b c d / 2 ^ 16 ≡ a * 256 + b
  unfolding to_int
  by_pair = omega arith

  by_triple : to_int a b c d / 2 ^ 8 ≡ a * 65536 + b * 256 + c
  unfolding to_int
  by_triple = omega arith

  by_22 : to_int a b c d / 2 ^ 22 ≡ a * 4 + b / 64
  unfolding to_int
  by_22 = omega arith

  by_20 : to_int a b c d / 2 ^ 20 ≡ a * 16 + b / 16
  unfolding to_int
  by_20 = omega arith

  by_17 : to_int a b c d / 2 ^ 17 ≡ a * 128 + b / 2
  unfolding to_int
  by_17 = omega arith

  by_28 : to_int a b c d / 2 ^ 28 ≡ a / 16
  unfolding to_int
  by_28 = omega arith

  one_octet : (m : ℕ) → (to_int a b c d / 2 ^ 24 == m) ≡ (a == m)
  one_octet m = ap (λ n. n == m) by_octet

  two_octets :
      (m n : ℕ) → n ≤ 255 → (to_int a b c d / 2 ^ 16 == m * 256 + n) ≡ ((a == m) && (b == n))
  two_octets m n h = ap (λ k. k == m * 256 + n) by_pair ∙ ground arith

  three_octets :
      (m n k : ℕ)
      → n ≤ 255
      → k ≤ 255
      → (to_int a b c d / 2 ^ 8 == m * 65536 + n * 256 + k) ≡ ((a == m) && ((b == n) && (c == k)))
  three_octets m n k h i = ap (λ j. j == m * 65536 + n * 256 + k) by_triple ∙ ground arith

  carrier : (to_int a b c d / 2 ^ 22 == 401) ≡ ((a == 100) && (leb 64 b && leb b 127))
  carrier = ap (λ n. n == 401) by_22 ∙ ground arith

  private_172 : (to_int a b c d / 2 ^ 20 == 2753) ≡ ((a == 172) && (leb 16 b && leb b 31))
  private_172 = ap (λ n. n == 2753) by_20 ∙ ground arith

  benchmark : (to_int a b c d / 2 ^ 17 == 25353) ≡ ((a == 198) && (leb 18 b && leb b 19))
  benchmark = ap (λ n. n == 25353) by_17 ∙ ground arith

  multicast : (to_int a b c d / 2 ^ 28 == 14) ≡ (leb 224 a && leb a 239)
  multicast = ap (λ n. n == 14) by_28 ∙ ground arith

  future : ((to_int a b c d / 2 ^ 28 == 15) || false) ≡ (leb 240 a && leb a 255)
  future = ap (λ n. (n == 15) || false) by_28 ∙ ground arith

  -- The blocks of the code hold exactly the reserved addresses, given by their octets, each at most
  -- 255.
  pub in_blocks_exact : in_blocks (to_int a b c d) ipv4_blocks ≡ is_reserved a b c d
  unfolding in_blocks ipv4_blocks is_reserved
  in_blocks_exact = or_both (one_octet 0) (
      or_both (one_octet 10) (
        or_both carrier (
          or_both (one_octet 127) (
            or_both (two_octets 169 254 (omega arith)) (
              or_both private_172 (
                or_both (three_octets 192 0 0 (omega arith) (omega arith)) (
                  or_both (three_octets 192 0 2 (omega arith) (omega arith)) (
                    or_both (two_octets 192 168 (omega arith)) (
                      or_both benchmark (
                        or_both (three_octets 198 51 100 (omega arith) (omega arith)) (
                          or_both (three_octets 203 0 113 (omega arith) (omega arith))
                            (or_both multicast future))))))))))))
