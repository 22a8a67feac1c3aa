-- ===== src/WebhookUrl/Examples.antt =====
-- The checks of webhook URLs at concrete hosts. The runtime of these examples reads any text as an
-- https URL with that text for its host, and resolves every name to one address.
use a2a_comms.Common.{◌≡◌, refl, true, false, none, some, [], ◌∷◌, Text}
use a2a_comms.WebhookUrl.{ipv4_match, is_private_ip, validate_webhook_url, UrlRuntime}
use a2a_comms.WebhookUrl.Delivery.{is_valid}

-- `https:`
abbrev https_scheme : Text
https_scheme = 104 ∷ 116 ∷ 116 ∷ 112 ∷ 115 ∷ 58 ∷ []

-- `93.184.1.2`
abbrev public_v4 : Text
public_v4 = 57 ∷ 51 ∷ 46 ∷ 49 ∷ 56 ∷ 52 ∷ 46 ∷ 49 ∷ 46 ∷ 50 ∷ []

-- `::ffff:10.0.0.1`
abbrev mapped : Text
mapped = 58 ∷ 58 ∷ 102 ∷ 102 ∷ 102 ∷ 102 ∷ 58 ∷ 49 ∷ 48 ∷ 46 ∷ 48 ∷ 46 ∷ 48 ∷ 46 ∷ 49 ∷ []

abbrev sample : UrlRuntime
sample = record {
  parse_url = λ s. some (record { protocol = https_scheme; hostname = s });
  to_lower_case = λ s. s;
  resolve4 = λ s. public_v4 ∷ [];
  resolve6 = λ s. [];
}

static_run : is_valid (validate_webhook_url sample public_v4) ≡ true
unfolding validate_webhook_url ipv4_match
static_run = refl

is_dotted : ipv4_match public_v4 ≡ some (93, 184)
unfolding ipv4_match
is_dotted = refl

is_not_dotted : ipv4_match mapped ≡ none
unfolding ipv4_match
is_not_dotted = refl

-- An IPv4 address mapped into IPv6 is not called private, whatever it stands for.
mapped_passes : is_private_ip sample mapped ≡ false
unfolding is_private_ip ipv4_match
mapped_passes = refl
