-- ===== src/WebhookUrl.antt =====
-- Where a webhook may be delivered: src/lib/url-validator.ts. Texts are lists of UTF-16 code units;
-- the URL parser, `toLowerCase` and the DNS resolver are the runtime's.
pub mod Delivery
pub mod Examples
use a2a_comms.Common.{
  ℕ, zero, suc, ◌+◌, ◌-◌, ◌*◌, ◌/◌, ◌%◌, ◌≤◌, ◌<◌, String, ◌≡◌, refl, sym, ap, ◌∙◌, ◌≢◌, ◌↔◌, ◌⊎◌,
  inl, inr, Bool, true, false, not, ◌&&◌, ◌||◌, Option, none, some, List, [], ◌∷◌, ◌++◌, map, arith,
  ◌==◌, eq_iff, ltb, leb, eqb, if◌then◌else◌, get_or, is_some, truthy, is_text, Bool-cases,
  Option-cases, eq_self, leb→le, ltb→lt, length, filter, find?, every, any, All, update_where,
  includes, Text, same_text, starts_with, ends_with, is_space, trim_start, trim,
}

pub record Url : Type 0 where
  pub protocol : Text
  pub hostname : Text

pub record UrlRuntime : Type 0 where
  pub parse_url : Text → Option Url
  pub to_lower_case : Text → Text
  -- An answer of the resolver, empty where it fails.
  pub resolve4 : Text → List Text
  pub resolve6 : Text → List Text

abbrev is_digit : ℕ → Bool
is_digit c = leb 48 c && leb c 57

-- `\d{1,3}`, as a number
abbrev pub octet : Text → Option ℕ
octet (a ∷ []) = if is_digit a then some (a - 48) else none
octet (a ∷ b ∷ []) = if is_digit a && is_digit b then some ((a - 48) * 10 + (b - 48)) else none
octet (a ∷ b ∷ c ∷ []) =
    if is_digit a && is_digit b && is_digit c
    then some ((a - 48) * 100 + (b - 48) * 10 + (c - 48))
    else none
octet _ = none

-- The text in front of the first dot, and what follows the dot, if there is one.
abbrev pub cut_dot : Text → Text × Option Text
cut_dot [] = ([], none)
cut_dot (c ∷ s) =
    let (front, rest) = cut_dot s in if eqb c 46 then ([], some s) else (c ∷ front, rest)

abbrev octet_then : Text × Option Text → Option ℕ × Text
octet_then (front, none) = (none, [])
octet_then (front, some rest) = (octet front, rest)

abbrev pub all_octets : Option ℕ → Option ℕ → Option ℕ → Option ℕ → Option (ℕ × ℕ)
all_octets (some a) (some b) (some c) (some d) = some (a, b)
all_octets _ _ _ _ = none

-- `/^(\d{1,3})\.(\d{1,3})\.(\d{1,3})\.(\d{1,3})$/`: the first two numbers of a match. The last group
-- has no dot, as `\d` matches none.
unfoldable pub ipv4_match : Text → Option (ℕ × ℕ)
ipv4_match s =
    let (a, s1) = octet_then (cut_dot s) in
    let (b, s2) = octet_then (cut_dot s1) in
    let (c, s3) = octet_then (cut_dot s2) in all_octets a b c (octet s3)

abbrev pub private_ipv4 : ℕ → ℕ → Bool
private_ipv4 a b =
    eqb a 10
    || (eqb a 172 && leb 16 b && leb b 31)
    || (eqb a 192 && eqb b 168)
    || (eqb a 169 && eqb b 254)
    || eqb a 127
    || eqb a 0
    || leb 224 a

-- `::1`, `fc…`, `fd…` and `fe80…`, on a text in lower case
abbrev pub private_ipv6 : Text → Bool
private_ipv6 s =
    same_text (58 ∷ 58 ∷ 49 ∷ []) s
    || starts_with (102 ∷ 99 ∷ []) s
    || starts_with (102 ∷ 100 ∷ []) s
    || starts_with (102 ∷ 101 ∷ 56 ∷ 48 ∷ []) s

abbrev pub private_if : Text → Option (ℕ × ℕ) → Bool
private_if lower none = private_ipv6 lower
private_if lower (some (a, b)) = private_ipv4 a b

unfoldable pub is_private_ip : UrlRuntime → Text → Bool
is_private_ip m ip = private_if (m.to_lower_case ip) (ipv4_match ip)

pub data UrlError : Type 0 where
  invalid_url not_https localhost private_range link_local loopback reserved multicast : UrlError
  private_ipv6_range metadata unresolved private_address : UrlError

pub data UrlVerdict : Type 0 where
  valid : UrlVerdict
  invalid : UrlError → UrlVerdict

-- The first of the refusals, if any of the tests holds.
abbrev pub first_refusal : List (Bool × UrlError) → UrlVerdict
first_refusal [] = valid
first_refusal ((b, e) ∷ rest) = let later = first_refusal rest in if b then invalid e else later

abbrev pub ipv4_checks : Option (ℕ × ℕ) → List (Bool × UrlError)
ipv4_checks none = []
ipv4_checks (some (a, b)) =
    (eqb a 10, private_range)
    ∷ (eqb a 172 && leb 16 b && leb b 31, private_range)
    ∷ (eqb a 192 && eqb b 168, private_range)
    ∷ (eqb a 169 && eqb b 254, link_local)
    ∷ (eqb a 127, loopback)
    ∷ (eqb a 0, reserved)
    ∷ (leb 224 a && leb a 239, multicast)
    ∷ (leb 240 a, reserved)
    ∷ []

-- 'localhost'
abbrev localhost_name : Text
localhost_name = 108 ∷ 111 ∷ 99 ∷ 97 ∷ 108 ∷ 104 ∷ 111 ∷ 115 ∷ 116 ∷ []

-- '127.0.0.1'
abbrev loopback_v4 : Text
loopback_v4 = 49 ∷ 50 ∷ 55 ∷ 46 ∷ 48 ∷ 46 ∷ 48 ∷ 46 ∷ 49 ∷ []

-- '::1'
abbrev loopback_v6 : Text
loopback_v6 = 58 ∷ 58 ∷ 49 ∷ []

-- '0.0.0.0'
abbrev any_v4 : Text
any_v4 = 48 ∷ 46 ∷ 48 ∷ 46 ∷ 48 ∷ 46 ∷ 48 ∷ []

-- '.local'
abbrev local_suffix : Text
local_suffix = 46 ∷ 108 ∷ 111 ∷ 99 ∷ 97 ∷ 108 ∷ []

-- '.localhost'
abbrev localhost_suffix : Text
localhost_suffix = 46 ∷ 108 ∷ 111 ∷ 99 ∷ 97 ∷ 108 ∷ 104 ∷ 111 ∷ 115 ∷ 116 ∷ []

-- '169.254.169.254'
abbrev pub metadata_v4 : Text
metadata_v4 = 49 ∷ 54 ∷ 57 ∷ 46 ∷ 50 ∷ 53 ∷ 52 ∷ 46 ∷ 49 ∷ 54 ∷ 57 ∷ 46 ∷ 50 ∷ 53 ∷ 52 ∷ []

-- 'metadata.google.internal'
abbrev pub metadata_google : Text
metadata_google =
    109 ∷ 101 ∷ 116 ∷ 97 ∷ 100 ∷ 97 ∷ 116 ∷ 97 ∷ 46 ∷ 103 ∷ 111 ∷ 111 ∷ 103 ∷ 108 ∷ 101 ∷ 46 ∷ 105
    ∷ 110 ∷ 116 ∷ 101 ∷ 114 ∷ 110 ∷ 97 ∷ 108 ∷ []

-- '0:0:0:0:0:0:0:1'
abbrev loopback_long : Text
loopback_long = 48 ∷ 58 ∷ 48 ∷ 58 ∷ 48 ∷ 58 ∷ 48 ∷ 58 ∷ 48 ∷ 58 ∷ 48 ∷ 58 ∷ 48 ∷ 58 ∷ 49 ∷ []

-- '::'
abbrev any_v6 : Text
any_v6 = 58 ∷ 58 ∷ []

-- '0:0:0:0:0:0:0:0'
abbrev any_v6_long : Text
any_v6_long = 48 ∷ 58 ∷ 48 ∷ 58 ∷ 48 ∷ 58 ∷ 48 ∷ 58 ∷ 48 ∷ 58 ∷ 48 ∷ 58 ∷ 48 ∷ 58 ∷ 48 ∷ []

-- 'https:'
abbrev pub https_colon : Text
https_colon = 104 ∷ 116 ∷ 116 ∷ 112 ∷ 115 ∷ 58 ∷ []

abbrev pub is_localhost : Text → Bool
is_localhost host =
    same_text localhost_name host
    || same_text loopback_v4 host
    || same_text loopback_v6 host
    || same_text any_v4 host
    || ends_with local_suffix host
    || ends_with localhost_suffix host

-- `hostname.slice(1, -1)`
abbrev drop_last : Text → Text
drop_last [] = []
drop_last (c ∷ []) = []
drop_last (c ∷ d ∷ s) = c ∷ drop_last (d ∷ s)

abbrev inner : Text → Text
inner [] = []
inner (c ∷ s) = drop_last s

abbrev pub bracket_checks : UrlRuntime → Text → List (Bool × UrlError)
bracket_checks m host =
    let address = m.to_lower_case (inner host) in
    let bracketed = starts_with (91 ∷ []) host in
    (bracketed && (same_text loopback_v6 address || same_text loopback_long address), loopback)
    ∷ (bracketed && (same_text any_v6 address || same_text any_v6_long address), reserved)
    ∷ (
      bracketed
          && (starts_with (102 ∷ 99 ∷ []) address
              || starts_with (102 ∷ 100 ∷ []) address
              || starts_with (102 ∷ 101 ∷ 56 ∷ 48 ∷ []) address),
      private_ipv6_range,
    )
    ∷ []

abbrev pub host_checks : UrlRuntime → Text → List (Bool × UrlError)
host_checks m host =
    (is_localhost host, localhost)
    ∷ (ipv4_checks (ipv4_match host)
        ++ (bracket_checks m host
            ++ ((same_text metadata_v4 host || same_text metadata_google host, metadata) ∷ [])))

abbrev pub check_url : UrlRuntime → Option Url → UrlVerdict
check_url m none = invalid invalid_url
check_url m (some url) = first_refusal (
    (not (same_text https_colon url.protocol), not_https)
    ∷ host_checks m (m.to_lower_case url.hostname))

unfoldable pub validate_webhook_url : UrlRuntime → Text → UrlVerdict
validate_webhook_url m url = check_url m (m.parse_url url)

abbrev pub addresses_of : UrlRuntime → Option Url → List Text
addresses_of m none = []
addresses_of m (some url) = m.resolve4 url.hostname ++ m.resolve6 url.hostname

abbrev pub check_addresses : UrlRuntime → List Text → UrlVerdict
check_addresses m [] = valid
check_addresses m (a ∷ as') =
    let rest = check_addresses m as' in if is_private_ip m a then invalid private_address else rest

abbrev pub check_resolved : UrlRuntime → List Text → UrlVerdict
check_resolved m [] = invalid unresolved
check_resolved m (a ∷ as') = check_addresses m (a ∷ as')

abbrev pub and_then : UrlVerdict → UrlVerdict → UrlVerdict
and_then valid later = later
and_then (invalid e) later = invalid e

-- Every address that the name resolves to now is looked at, after the static check.
unfoldable pub resolve_and_validate_host : UrlRuntime → Text → UrlVerdict
resolve_and_validate_host m url =
    and_then (validate_webhook_url m url) (check_resolved m (addresses_of m (m.parse_url url)))
