-- ===== src/Webhooks/Urls.antt =====
-- The guard of webhook targets (backend/src/modules/webhooks/webhooks.url-safety.ts): addresses, urls
-- and the request. The parser of urls, `isIP`, `Number` and the resolver are arguments. A mask of the
-- source keeps all but the lowest bits, so it stands here as a division by their power of 2.
pub mod Ranges
pub mod Public
mod Tests
use stellar_tipz.Base.{
  ℕ, zero, suc, ◌+◌, ◌-◌, ◌*◌, ◌/◌, ◌%◌, ◌^◌, Bool, true, false, not, ◌&&◌, ◌||◌, Option, none,
  some, List, [], ◌∷◌, ◌++◌, ◌==◌, leb, ltb, length, every, take, drop, when_some, if◌then◌else◌,
}
use stellar_tipz.Base.Text.{codes, is_digit}
use stellar_tipz.Base.Decimal.{print}
use stellar_tipz.Webhooks.{Units}
use stellar_tipz.Webhooks.Signing.{units_eq, is_hex, hex_value, any}

-- A block of addresses: its network, and how many low bits its mask leaves free.
abbrev pub Block : Type 0
Block = ℕ × ℕ

unfoldable pub ipv4_blocks : List Block
ipv4_blocks =
    (0x00000000, 24)
    ∷ (0x0a000000, 24)
    ∷ (0x64400000, 22)
    ∷ (0x7f000000, 24)
    ∷ (0xa9fe0000, 16)
    ∷ (0xac100000, 20)
    ∷ (0xc0000000, 8)
    ∷ (0xc0000200, 8)
    ∷ (0xc0a80000, 16)
    ∷ (0xc6120000, 17)
    ∷ (0xc6336400, 8)
    ∷ (0xcb007100, 8)
    ∷ (0xe0000000, 28)
    ∷ (0xf0000000, 28)
    ∷ []

-- `IPV4_BLOCKS.some(([network, mask]) => (value & mask) === (network & mask))`
unfoldable pub in_blocks : ℕ → List Block → Bool
in_blocks value [] = false
in_blocks value ((network, bits) ∷ bs) =
    (value / 2 ^ bits == network / 2 ^ bits) || in_blocks value bs

unfoldable pub to_int : ℕ → ℕ → ℕ → ℕ → ℕ
to_int a b c d = a * 16777216 + b * 65536 + c * 256 + d

-- `String.prototype.split` by one character.
unfoldable pub split_at : ℕ → Units → Units → List Units
split_at c part [] = part ∷ []
split_at c part (x ∷ xs) =
    let more = part ∷ split_at c [] xs in
    let same = split_at c (part ++ (x ∷ [])) xs in if x == c then more else same

abbrev is_octet : ℕ → Bool
is_octet n = leb n 255

-- The four octets; `none` if a part is no number, or out of range, or there are not four.
unfoldable pub octets : (Units → Option ℕ) → List Units → Option (ℕ × ℕ × ℕ × ℕ)
octets number_of (s ∷ t ∷ u ∷ v ∷ []) = when_some (number_of s) none (λ a.
    when_some (number_of t) none (λ b. when_some (number_of u) none (λ c.
      when_some (number_of v) none (λ d.
        if is_octet a && (is_octet b && (is_octet c && is_octet d))
        then some (a, b, c, d)
        else none))))
octets number_of _ = none

unfoldable pub ipv4_to_int : (Units → Option ℕ) → Units → Option ℕ
unfolding split_at octets to_int
ipv4_to_int number_of address =
    when_some (octets number_of (split_at b'.' [] address)) none
      (λ (a, b, c, d). some (to_int a b c d))

unfoldable pub is_private_ipv4 : (Units → Option ℕ) → Units → Bool
unfolding ipv4_to_int in_blocks ipv4_blocks
is_private_ipv4 number_of address =
    when_some (ipv4_to_int number_of address) true (λ value. in_blocks value ipv4_blocks)

abbrev pub starts_with : Units → Units → Bool
starts_with prefix s = units_eq (take (length prefix) s) prefix

-- `toLowerCase` of ASCII, and the part before `%`.
abbrev to_lower : ℕ → ℕ
to_lower c = if leb b'A' c && leb c b'Z' then c + 32 else c

unfoldable pub before_zone : Units → Units
before_zone [] = []
before_zone (c ∷ cs) = let rest = before_zone cs in if c == b'%' then [] else to_lower c ∷ rest

abbrev is_digits : Units → Bool
is_digits [] = false
is_digits (c ∷ cs) = every is_digit (c ∷ cs)

abbrev is_dotted : List Units → Bool
is_dotted (s ∷ t ∷ u ∷ v ∷ []) = is_digits s && (is_digits t && (is_digits u && is_digits v))
is_dotted _ = false

-- `/::ffff:(\d+\.\d+\.\d+\.\d+)$/`
unfoldable pub mapped_dotted : Units → Option Units
unfolding split_at units_eq
mapped_dotted [] = none
mapped_dotted (c ∷ cs) =
    let rest = mapped_dotted cs in
    let address = drop 7 (c ∷ cs) in
    if starts_with (codes "::ffff:") (c ∷ cs) && is_dotted (split_at b'.' [] address)
    then some address
    else rest

-- `Number.parseInt(part, 16)` of hexadecimal digits.
unfoldable pub parse_hex : ℕ → Units → ℕ
parse_hex n [] = n
parse_hex n (c ∷ cs) = parse_hex (n * 16 + hex_value c) cs

abbrev is_group : Units → Bool
is_group s = every is_hex s && (ltb 0 (length s) && leb (length s) 4)

abbrev hex_groups : List Units → Option (ℕ × ℕ)
hex_groups (high ∷ low ∷ []) =
    if is_group high && is_group low then some (parse_hex 0 high, parse_hex 0 low) else none
hex_groups _ = none

-- `/^::ffff:([0-9a-f]{1,4}):([0-9a-f]{1,4})$/`, as the text of an IPv4 address.
unfoldable pub mapped_hex : Units → Option Units
unfolding split_at units_eq parse_hex
mapped_hex s =
    if starts_with (codes "::ffff:") s
    then when_some (hex_groups (split_at b':' [] (drop 7 s))) none (λ (high, low). some (
        print (high / 256)
        ++ (b'.'
            ∷ (print (high % 256) ++ (b'.' ∷ (print (low / 256) ++ (b'.' ∷ print (low % 256))))))))
    else none

-- `/^fe[89ab]/`
abbrev is_link_local : Units → Bool
is_link_local (a ∷ b ∷ c ∷ cs) =
    (a == b'f') && ((b == b'e') && ((c == b'8') || ((c == b'9') || ((c == b'a') || (c == b'b')))))
is_link_local _ = false

unfoldable pub is_private_ipv6 : (Units → Option ℕ) → Units → Bool
unfolding before_zone mapped_dotted mapped_hex is_private_ipv4 units_eq
is_private_ipv6 number_of address =
    let s = before_zone address in
    if units_eq s (codes "::")
      || (units_eq s (codes "::1")
          || (starts_with (codes "fc") s
              || (starts_with (codes "fd") s
                  || (is_link_local s
                      || (starts_with (codes "ff") s || starts_with (codes "2001:db8:") s)))))
    then true
    else when_some (mapped_dotted s)
        (when_some (mapped_hex s) false (λ v4. is_private_ipv4 number_of v4))
        (λ v4. is_private_ipv4 number_of v4)

pub data Family : Type 0 where
  ipv4 : Family
  ipv6 : Family
  no_address : Family

-- `new URL(raw)`
pub record Url : Type 0 where
  pub protocol : Units
  pub username : Units
  pub password : Units
  pub hostname : Units

pub data UrlError : Type 0 where
  not_valid : UrlError
  not_https : UrlError
  has_credentials : UrlError
  local_hostname : UrlError
  not_public_address : UrlError
  not_resolved : UrlError
  resolved_not_public : UrlError
  redirected : UrlError

pub data Guarded {ℓ} (A : Type ℓ) : Type ℓ where
  allowed : A → Guarded A
  blocked : UrlError → Guarded A

-- What Node and the network give to the guard; `resolve` is `none` where the lookup is rejected.
pub record Host : Type 0 where
  pub number_of : Units → Option ℕ
  pub is_ip : Units → Family
  pub parse_url : Units → Option Url
  pub resolve : Units → Option (List Units)

abbrev is_some_text : Units → Bool
is_some_text [] = false
is_some_text (c ∷ cs) = true

abbrev pub is_address : Family → Bool
is_address no_address = false
is_address _ = true

abbrev pub ends_with : Units → Units → Bool
ends_with suffix s =
    leb (length suffix) (length s) && units_eq (drop (length s - length suffix) s) suffix

-- A hostname without the brackets of an IPv6 address; the parser's hostnames are in lower case.
abbrev pub unbracketed : Units → Units
unbracketed s =
    if starts_with (codes "[") s && ends_with (codes "]") s
    then take (length s - 2) (drop 1 s)
    else s

unfoldable pub is_public_of : (Units → Option ℕ) → Units → Family → Bool
unfolding is_private_ipv4 is_private_ipv6
is_public_of number_of address ipv4 = not (is_private_ipv4 number_of address)
is_public_of number_of address ipv6 = not (is_private_ipv6 number_of address)
is_public_of number_of address no_address = false

module _ (host : Host) where
  unfoldable pub is_public_ip : Units → Bool
  unfolding is_public_of
  is_public_ip address = is_public_of host.number_of address (host.is_ip address)

  unfoldable pub check_url : Url → Guarded Url
  unfolding units_eq is_public_ip
  check_url url =
      let name = url.hostname in
      if not (units_eq url.protocol (codes "https:"))
      then blocked not_https
      else if is_some_text url.username || is_some_text url.password
      then blocked has_credentials
      else if not (is_some_text name)
          || (units_eq name (codes "localhost") || ends_with (codes ".localhost") name)
      then blocked local_hostname
      else if is_address (host.is_ip (unbracketed name)) && not (is_public_ip (unbracketed name))
      then blocked not_public_address
      else allowed url

  unfoldable pub parse_webhook_url : Units → Guarded Url
  unfolding check_url
  parse_webhook_url raw = when_some (host.parse_url raw) (blocked not_valid) (λ url. check_url url)

  -- The resolution of the url's name, if it is no address itself.
  unfoldable pub check_resolved : Url → Guarded Url
  unfolding is_public_ip any
  check_resolved url =
      let name = unbracketed url.hostname in
      if is_address (host.is_ip name)
      then allowed url
      else when_some (host.resolve name) (blocked not_resolved) (λ addresses.
        if (length addresses == 0) || any (λ a. not (is_public_ip a)) addresses
        then blocked resolved_not_public
        else allowed url)

  abbrev pub then_check : Guarded Url → Guarded Url
  then_check (blocked e) = blocked e
  then_check (allowed url) = check_resolved url

  unfoldable pub assert_safe_webhook_url : Units → Guarded Url
  unfolding parse_webhook_url check_resolved
  assert_safe_webhook_url raw = then_check (parse_webhook_url raw)

  -- A call of `fetchFn` is noted by its url, and of its answer the status is kept. The request asks
  -- for redirects by hand, so that an answer is no second request.
  abbrev pub send_to : (Url → ℕ) → Guarded Url → List Url × Guarded ℕ
  send_to fetch_fn (blocked e) = ([], blocked e)
  send_to fetch_fn (allowed url) =
      let status = fetch_fn url in
      (url ∷ [], if leb 300 status && ltb status 400 then blocked redirected else allowed status)

  -- The requests that are sent, and what comes back or is thrown.
  unfoldable pub safe_webhook_fetch : (Url → ℕ) → Units → List Url × Guarded ℕ
  unfolding assert_safe_webhook_url
  safe_webhook_fetch fetch_fn raw = send_to fetch_fn (assert_safe_webhook_url raw)
