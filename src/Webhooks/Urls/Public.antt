-- ===== src/Webhooks/Urls/Public.antt =====
-- What a request of a webhook may reach: `safeWebhookFetch` of
-- backend/src/modules/webhooks/webhooks.url-safety.ts.
use stellar_tipz.Base.{
  ℕ, ◌≤◌, ◌<◌, ◌≡◌, ◌≢◌, ◌⊎◌, refl, sym, ap, ◌∙◌, inl, inr, Bool, true, false, not, ◌&&◌, ◌||◌,
  Option, some, List, [], ◌∷◌, ◌==◌, leb, ltb, length, All, arith, Bool-cases, Option-cases,
  if◌then◌else◌,
}
use stellar_tipz.Base.Text.{codes}
use stellar_tipz.Webhooks.{Units}
use stellar_tipz.Webhooks.Signing.{units_eq, any}
use stellar_tipz.Webhooks.Signing.Verified.{units_eq_sound, units_eq_refl}
use stellar_tipz.Webhooks.Urls.{
  Family, ipv4, ipv6, no_address, Url, UrlError, Guarded, allowed, blocked, Host, split_at, octets,
  ipv4_to_int, is_private_ipv4, is_private_ipv6, is_public_ip, check_url, parse_webhook_url,
  is_address, ends_with, then_check, resolved_not_public, redirected, not_resolved, not_valid,
  unbracketed, check_resolved, assert_safe_webhook_url, safe_webhook_fetch,
}
use stellar_tipz.Webhooks.Urls.Ranges.{is_reserved, in_blocks_exact}

-- An IPv4 address by its octets.
pub record IsPublicIpv4 (host : Host) (address : Units) : Type 0 where
  pub a : ℕ
  pub b : ℕ
  pub c : ℕ
  pub d : ℕ
  pub parts : octets host.number_of (split_at b'.' [] address) ≡ some (a, b, c, d)
  pub not_reserved : is_reserved a b c d ≡ false

-- An address that is not of a reserved network.
abbrev pub IsPublic : Host → Units → Type 0
IsPublic host address =
    ((host.is_ip address ≡ ipv4) × IsPublicIpv4 host address)
    ⊎ ((host.is_ip address ≡ ipv6) × (is_private_ipv6 host.number_of address ≡ false))

octets_bound :
    (number_of : Units → Option ℕ) (parts : List Units) (a b c d : ℕ)
    → octets number_of parts ≡ some (a, b, c, d)
    → (a ≤ 255) × (b ≤ 255) × (c ≤ 255) × (d ≤ 255)
unfolding octets
octets_bound number_of [] a b c d e = absurd (ground arith)
octets_bound number_of (s ∷ []) a b c d e = absurd (ground arith)
octets_bound number_of (s ∷ t ∷ []) a b c d e = absurd (ground arith)
octets_bound number_of (s ∷ t ∷ u ∷ []) a b c d e = absurd (ground arith)
octets_bound number_of (s ∷ t ∷ u ∷ v ∷ w ∷ ws) a b c d e = absurd (ground arith)
octets_bound number_of (s ∷ t ∷ u ∷ v ∷ []) a b c d e = ground arith

ipv4-IsPublicIpv4 :
    (host : Host) (address : Units)
    → is_private_ipv4 host.number_of address ≡ false
    → IsPublicIpv4 host address
unfolding is_private_ipv4 ipv4_to_int
ipv4-IsPublicIpv4 host address h =
    elim (Option-cases (octets host.number_of (split_at b'.' [] address))) [
      | inl e ↦ absurd (ground (arith, e, h))
      | inr ((a, b, c, d), e) ↦
          let (ha, hb, hc, hd) = octets_bound host.number_of (split_at b'.' [] address) a b c d e in
          record {
            a = a;
            b = b;
            c = c;
            d = d;
            parts = e;
            not_reserved = sym (in_blocks_exact a b c d ha hb hc hd) ∙ sym (rw e refl) ∙ h;
          }
    ]

Family-cases : (f : Family) → (f ≡ ipv4) ⊎ ((f ≡ ipv6) ⊎ (f ≡ no_address))
Family-cases ipv4 = inl refl
Family-cases ipv6 = inr (inl refl)
Family-cases no_address = inr (inr refl)

apart : false ≢ true
apart e = cc

not-eq-true : (b : Bool) → not b ≡ true → b ≡ false
not-eq-true true e = sym e
not-eq-true false e = refl

not-eq-false : (b : Bool) → not b ≡ false → b ≡ true
not-eq-false true e = refl
not-eq-false false e = sym e

neither : (p q : Bool) → (p || q) ≡ false → (p ≡ false) × (q ≡ false)
neither true q e = absurd (ground arith)
neither false q e = (refl, e)

is_public_ip-IsPublic :
    (host : Host) (address : Units) → is_public_ip host address ≡ true → IsPublic host address
unfolding is_public_ip
is_public_ip-IsPublic host address h = elim (Family-cases (host.is_ip address)) [
  | inl e ↦ inl (e, ipv4-IsPublicIpv4 host address (not-eq-true _ (sym (rw e refl) ∙ h)))
  | inr (inl e) ↦ inr (e, not-eq-true _ (sym (rw e refl) ∙ h))
  | inr (inr e) ↦ absurd (apart (sym (rw e refl) ∙ h))
]

any-All :
    (host : Host) (addresses : List Units)
    → any (λ a. not (is_public_ip host a)) addresses ≡ false
    → All (IsPublic host) addresses
unfolding any
any-All host [] h = tt
any-All host (a ∷ as_) h = elim (Bool-cases (is_public_ip host a)) [
  | inl p ↦ (is_public_ip-IsPublic host a p, any-All host as_ (ground (arith, p, h)))
  | inr p ↦ absurd (ground (arith, p, h))
]

-- The addresses of a url's host: itself, or what its name resolves to.
pub data Reaches (host : Host) (url : Url) (addresses : List Units) : Type 0 where
  literal : addresses ≡ unbracketed url.hostname ∷ [] → Reaches host url addresses
  resolved :
      host.is_ip (unbracketed url.hostname) ≡ no_address
      → host.resolve (unbracketed url.hostname) ≡ some addresses
      → 0 < length addresses
      → Reaches host url addresses

-- A url that the guard lets through.
pub record IsSafe (host : Host) (raw : Units) (url : Url) : Type 0 where
  pub parsed : host.parse_url raw ≡ some url
  pub https : url.protocol ≡ codes "https:"
  pub no_username : url.username ≡ []
  pub no_password : url.password ≡ []
  pub some_name : url.hostname ≢ []
  pub not_local : url.hostname ≢ codes "localhost"
  pub not_below_local : ends_with (codes ".localhost") url.hostname ≡ false
  pub addresses : List Units
  pub reaches : Reaches host url addresses
  pub public : All (IsPublic host) addresses

-- A guard that did not block.
unless_blocked {ℓ} :
    {A : Type ℓ} (test : Bool) (x : UrlError) (g : Guarded A) (url : A)
    → (if test then blocked x else g) ≡ allowed url
    → (test ≡ false) × (g ≡ allowed url)
unless_blocked true x g url e = absurd (ground arith)
unless_blocked false x g url e = (refl, e)

url_of : {u v : Url} → allowed u ≡ allowed v → u ≡ v
url_of e = cc

no_text : (s : Units) → elim s [ [] ↦ false | c ∷ cs ↦ true ] ≡ false → s ≡ []
no_text [] e = refl
no_text (c ∷ cs) e = absurd (ground arith)

named_text : (s : Units) → not (elim s [ [] ↦ false | c ∷ cs ↦ true ]) ≡ false → s ≢ []
named_text [] h e = absurd (ground arith)
named_text (c ∷ cs) h e = cc

record Checked (host : Host) (url url' : Url) : Type 0 where
  same : url ≡ url'
  https : url.protocol ≡ codes "https:"
  no_username : url.username ≡ []
  no_password : url.password ≡ []
  some_name : url.hostname ≢ []
  not_local : units_eq url.hostname (codes "localhost") ≡ false
  not_below_local : ends_with (codes ".localhost") url.hostname ≡ false
  address :
      is_address (host.is_ip (unbracketed url.hostname))
        && not (is_public_ip host (unbracketed url.hostname))
      ≡ false

check_url-Checked :
    (host : Host) (url url' : Url) → check_url host url ≡ allowed url' → Checked host url url'
unfolding check_url
check_url-Checked host url url' e =
    let (https, e1) = unless_blocked _ _ _ url' e in
    let (plain, e2) = unless_blocked _ _ _ url' e1 in
    let (named, e3) = unless_blocked _ _ _ url' e2 in
    let (address, e4) = unless_blocked _ _ _ url' e3 in
    let (no_username, no_password) = neither _ _ plain in
    let (has_name, no_local_name) = neither _ _ named in
    let (not_local, not_below_local) = neither _ _ no_local_name in
    record {
      same = url_of e4;
      https = units_eq_sound _ _ (not-eq-false _ https);
      no_username = no_text url.username no_username;
      no_password = no_text url.password no_password;
      some_name = named_text url.hostname has_name;
      not_local = not_local;
      not_below_local = not_below_local;
      address = address;
    }

never {ℓ} : {A : Type ℓ} {x : UrlError} {a : A} → blocked x ≢ allowed a
never e = cc

no_family : (f : Family) → is_address f ≡ false → f ≡ no_address
no_family ipv4 e = absurd (ground arith)
no_family ipv6 e = absurd (ground arith)
no_family no_address e = refl

-- The addresses that a checked url reaches.
check_resolved-IsPublic :
    (host : Host) (url url' : Url)
    → is_address (host.is_ip (unbracketed url.hostname))
        && not (is_public_ip host (unbracketed url.hostname))
      ≡ false
    → check_resolved host url ≡ allowed url'
    → (addresses : List Units) × Reaches host url addresses
      × All (IsPublic host) addresses
      × (url ≡ url')
unfolding check_resolved
check_resolved-IsPublic host url url' h e =
    let name = unbracketed url.hostname in
    elim (Bool-cases (is_address (host.is_ip name))) [
      | inl p ↦
          let shown : is_public_ip host name ≡ true = not-eq-false _ (sym (rw p refl) ∙ h) in
          (
            name ∷ [],
            literal refl,
            (is_public_ip-IsPublic host name shown, tt),
            url_of (sym (rw p refl) ∙ e),
          )
      | inr p ↦ elim (Option-cases (host.resolve name)) [
        | inl q ↦ absurd (never {x = not_resolved} {a = url'} (sym (rw (p, q) refl) ∙ e))
        | inr (addresses, q) ↦
            let (found, done) =
              unless_blocked
                ((length addresses == 0) || any (λ a. not (is_public_ip host a)) addresses)
                resolved_not_public (allowed url) url' (sym (rw (p, q) refl) ∙ e) in
            let (some_address, all_public) = neither (length addresses == 0) _ found in
            (
              addresses,
              resolved (no_family _ p) q (ground (arith, some_address)),
              any-All host addresses all_public,
              url_of done,
            )
      ]
    ]

local_name : (s : Units) → s ≡ codes "localhost" → units_eq s (codes "localhost") ≢ false
local_name s e h = apart (sym h ∙ ap (λ t. units_eq t (codes "localhost")) e ∙ units_eq_refl _)

no_redirect : (n : ℕ) → (leb 300 n && ltb n 400) ≡ false → (n < 300) ⊎ (400 ≤ n)
no_redirect n e = elim (Bool-cases (ltb n 300)) [
  | inl p ↦ inl (ground (arith, p))
  | inr p ↦ inr (ground (arith, p, e))
]

Guarded-cases {ℓ} :
    {A : Type ℓ} (g : Guarded A) → ((x : UrlError) × (g ≡ blocked x)) ⊎ ((a : A) × (g ≡ allowed a))
Guarded-cases (allowed a) = inr (a, refl)
Guarded-cases (blocked x) = inl (x, refl)

-- The url that the guard lets through for a url that was parsed.
checked_url :
    (host : Host) (raw : Units) (url allowed_url : Url)
    → host.parse_url raw ≡ some url
    → then_check host (check_url host url) ≡ allowed allowed_url
    → IsSafe host raw allowed_url
checked_url host raw url w p e = elim (Guarded-cases (check_url host url)) [
  | inl (x, q) ↦ absurd (never {x = x} {a = w} (sym (rw q refl) ∙ e))
  | inr (u, q) ↦
      let c = check_url-Checked host url u q in
      let e1 : check_resolved host url ≡ allowed w =
        ap (check_resolved host) c.same ∙ sym (rw q refl) ∙ e in
      let (addresses, reaches, public, same) = check_resolved-IsPublic host url w c.address e1 in
      rw (← same) (record {
        parsed = p;
        https = c.https;
        no_username = c.no_username;
        no_password = c.no_password;
        some_name = c.some_name;
        not_local = λ h. absurd (local_name url.hostname h c.not_local);
        not_below_local = c.not_below_local;
        addresses = addresses;
        reaches = reaches;
        public = public;
      })
]

assert_safe_webhook_url-IsSafe :
    (host : Host) (raw : Units) (url : Url)
    → assert_safe_webhook_url host raw ≡ allowed url
    → IsSafe host raw url
unfolding assert_safe_webhook_url parse_webhook_url
assert_safe_webhook_url-IsSafe host raw url e = elim (Option-cases (host.parse_url raw)) [
  | inl p ↦ absurd (never {x = not_valid} {a = url} (sym (rw p refl) ∙ e))
  | inr (u, p) ↦ checked_url host raw u url p (sym (rw p refl) ∙ e)
]

-- A status that stands for a redirect.
abbrev pub IsRedirect : ℕ → Type 0
IsRedirect status = (300 ≤ status) × (status < 400)

-- What a request for `url` gives.
pub data Answered (status : ℕ) (answer : Guarded ℕ) : Type 0 where
  redirect : IsRedirect status → answer ≡ blocked redirected → Answered status answer
  direct : (status < 300) ⊎ (400 ≤ status) → answer ≡ allowed status → Answered status answer

answer_of : (n : ℕ) → Answered n (if leb 300 n && ltb n 400 then blocked redirected else allowed n)
answer_of n = elim (Bool-cases (leb 300 n && ltb n 400)) [
  | inl p ↦ redirect (ground (arith, p)) (rw p refl)
  | inr p ↦ direct (no_redirect n p) (rw p refl)
]

-- Whatever the requests are answered with, either the guard blocks the url, no request is sent, and
-- its error is the result; or exactly one request is sent, its url is https, has no credentials, has
-- a hostname that is neither localhost nor ends in .localhost, and every address that the host is
-- or resolves to at the check is public: an IPv4 address lies in no reserved network, given by
-- octets, and an IPv6 address passes its own test. Then the result is the error for redirects if
-- the status of the answer is from 300 to 399, and the answer if not.
pub safe_webhook_fetch-IsSafe :
    (host : Host) (fetch_fn : Url → ℕ) (raw : Units)
    → let (sent, answer) = safe_webhook_fetch host fetch_fn raw in
      ((x : UrlError) × (assert_safe_webhook_url host raw ≡ blocked x)
        × (sent ≡ [])
        × (answer ≡ blocked x))
      ⊎ ((url : Url) × (sent ≡ url ∷ []) × IsSafe host raw url × Answered (fetch_fn url) answer)
unfolding safe_webhook_fetch
safe_webhook_fetch-IsSafe host fetch_fn raw =
    elim (Guarded-cases (assert_safe_webhook_url host raw)) [
      | inl (x, e) ↦ inl (x, e, rw e refl, rw e refl)
      | inr (url, e) ↦ inr (
        url,
        rw e refl,
        assert_safe_webhook_url-IsSafe host raw url e,
        rw e (answer_of (fetch_fn url)),
      )
    ]
