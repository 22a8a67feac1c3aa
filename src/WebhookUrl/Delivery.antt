-- ===== src/WebhookUrl/Delivery.antt =====
-- What `resolveAndValidateHost` of src/lib/url-validator.ts lets a webhook reach.
use a2a_comms.Common.{
  ℕ, ◌≡◌, sym, ap, ◌∙◌, Bool, true, false, not, ◌||◌, Option, none, some, List, [], ◌∷◌, ◌++◌,
  arith, Text, same_text,
}
use a2a_comms.WebhookUrl.{
  ipv4_match, private_ipv4, is_private_ip, first_refusal, ipv4_checks, is_localhost, bracket_checks,
  check_url, validate_webhook_url, Url, UrlRuntime, UrlError, not_https, localhost, metadata,
  UrlVerdict, valid, invalid, https_colon, metadata_v4, metadata_google,
}

-- The verdict is that the URL may be used.
abbrev pub is_valid : UrlVerdict → Bool
is_valid valid = true
is_valid (invalid e) = false

octets_public :
    (a b : ℕ) (o : Option (ℕ × ℕ)) (p q : Bool × UrlError) (rest : List (Bool × UrlError))
    → o ≡ some (a, b)
    → is_valid (first_refusal (p ∷ q ∷ (ipv4_checks o ++ rest))) ≡ true
    → private_ipv4 a b ≡ false
octets_public a b none p q rest e h = cc
octets_public a b (some (c, d)) p q rest e h = ground (arith, e, h)

parsed_valid :
    (m : UrlRuntime) (o : Option Url) (u : Url)
    → o ≡ some u
    → is_valid (check_url m o) ≡ true
    → is_valid (check_url m (some u)) ≡ true
parsed_valid m o u e h = ap (λ v. is_valid (check_url m v)) (sym e) ∙ h

-- A host that is an IPv4 address in dotted form passes the static check only if the check of the
-- addresses at delivery does not call it private.
pub static_agrees :
    (m : UrlRuntime) (url : Text) (u : Url) (a b : ℕ)
    → m.parse_url url ≡ some u
    → ipv4_match (m.to_lower_case u.hostname) ≡ some (a, b)
    → is_valid (validate_webhook_url m url) ≡ true
    → is_private_ip m (m.to_lower_case u.hostname) ≡ false
unfolding validate_webhook_url is_private_ip
static_agrees m url u a b parsed dotted h =
    let host = m.to_lower_case u.hostname in
    rw dotted (
      octets_public a b (ipv4_match host) (not (same_text https_colon u.protocol), not_https)
        (is_localhost host, localhost)
        (bracket_checks m host
          ++ ((same_text metadata_v4 host || same_text metadata_google host, metadata) ∷ []))
        dotted (parsed_valid m (m.parse_url url) u parsed h))
