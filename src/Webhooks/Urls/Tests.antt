-- ===== src/Webhooks/Urls/Tests.antt =====
-- Tests of the guard of webhook targets, and its theorems at concrete inputs.
use stellar_tipz.Base.{ℕ, ◌≡◌, ◌⊎◌, refl, true, false, Option, some, [], ◌∷◌, arith, if◌then◌else◌}
use stellar_tipz.Base.Text.{codes}
use stellar_tipz.Base.Decimal.{value_from, print}
use stellar_tipz.Webhooks.{Units}
use stellar_tipz.Webhooks.Signing.{units_eq}
use stellar_tipz.Webhooks.Urls.{
  ipv4, no_address, Url, UrlError, blocked, redirected, assert_safe_webhook_url,
  resolved_not_public, Host, to_int, in_blocks, ipv4_blocks, is_private_ipv4, is_private_ipv6,
  safe_webhook_fetch,
}
use stellar_tipz.Webhooks.Urls.Ranges.{is_reserved, in_blocks_exact}
use stellar_tipz.Webhooks.Urls.Public.{IsSafe, Answered, safe_webhook_fetch-IsSafe}

abbrev number_of : Units → Option ℕ
number_of s = some (value_from 0 s)

abbrev example_url : Url
example_url = record {
  protocol = codes "https:";
  username = [];
  password = [];
  hostname = codes "a.example";
}

abbrev host_at : Units → Host
host_at address = record {
  number_of = number_of;
  is_ip = λ s. if units_eq s address then ipv4 else no_address;
  parse_url = λ raw. some example_url;
  resolve = λ name. some (address ∷ []);
}

metadata_is_private : is_private_ipv4 number_of (codes "169.254.169.254") ≡ true
unfolding is_private_ipv4 value_from
metadata_is_private = refl

mapped_loopback : is_private_ipv6 number_of (codes "::ffff:7f00:1") ≡ true
unfolding is_private_ipv6 value_from print
mapped_loopback = refl

-- The loopback address behind the prefix of NAT64 passes.
nat64_loopback : is_private_ipv6 number_of (codes "64:ff9b::7f00:1") ≡ false
unfolding is_private_ipv6 value_from
nat64_loopback = refl

inside_is_blocked :
    safe_webhook_fetch (host_at (codes "10.0.0.7")) (λ url. 200) (codes "https://a.example")
    ≡ ([], blocked resolved_not_public)
unfolding safe_webhook_fetch value_from
inside_is_blocked = refl

in_blocks_exact_example : in_blocks (to_int 172 31 0 1) ipv4_blocks ≡ is_reserved 172 31 0 1
in_blocks_exact_example =
    in_blocks_exact 172 31 0 1 (omega arith) (omega arith) (omega arith) (omega arith)

-- A name that resolves to a public address, and an answer that redirects.
redirect_is_refused :
    safe_webhook_fetch (host_at (codes "93.184.216.34")) (λ url. 302) (codes "x")
    ≡ (example_url ∷ [], blocked redirected)
unfolding safe_webhook_fetch value_from
redirect_is_refused = refl

abbrev always : Url → ℕ
always url = 302

safe_webhook_fetch-IsSafe_example :
    let host = host_at (codes "93.184.216.34") in
    let (sent, answer) = safe_webhook_fetch host always (codes "x") in
    ((x : UrlError) × (assert_safe_webhook_url host (codes "x") ≡ blocked x)
      × (sent ≡ [])
      × (answer ≡ blocked x))
    ⊎ ((url : Url) × (sent ≡ url ∷ []) × IsSafe host (codes "x") url × Answered (always url) answer)
safe_webhook_fetch-IsSafe_example =
    safe_webhook_fetch-IsSafe (host_at (codes "93.184.216.34")) always (codes "x")
