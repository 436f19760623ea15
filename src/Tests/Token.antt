-- ===== src/Tests/Token.antt =====
-- Examples of the theorems about tokens.
use mqtt_rust_scion.Prelude.{◌≡◌, refl, ◌↔◌, Option, some, [], ◌∷◌, replicate}
use mqtt_rust_scion.Rust.{Bytes, done, v6, octets}
use mqtt_rust_scion.Extern.Quiche.{Header, initial}
use mqtt_rust_scion.Proxy.Token.{mint_token, validate_token}
use mqtt_rust_scion.Proxy.Token.Validity.{
  IsSigned, validate_token_total, validate_token_iff, validate_token-mint_token,
  validate_token_binds, validate_token_crosses_families,
}
use mqtt_rust_scion.Tests.Samples.{toy_hmac, toy_hmac-laws, ip_of}

abbrev pub client_id : Bytes
client_id = replicate 20 7

abbrev pub first_header : Header
first_header = record { ty = initial; version = 1; dcid = client_id; scid = []; token = some [] }

abbrev pub minted : Bytes
minted = mint_token toy_hmac 5 first_header (ip_of 3)

validate_token_total_example :
    (r : Option Bytes) × (validate_token toy_hmac 5 (ip_of 3) (1 ∷ []) ≡ done r)
validate_token_total_example = validate_token_total toy_hmac 5 (ip_of 3) (1 ∷ [])

validate_token_iff_example :
    (validate_token toy_hmac 5 (ip_of 3) minted ≡ done (some client_id))
    ↔ IsSigned toy_hmac 5 (octets (ip_of 3).ip) minted client_id
validate_token_iff_example = validate_token_iff toy_hmac 5 (ip_of 3) minted client_id

validate_token-mint_token_example :
    validate_token toy_hmac 5 (ip_of 3) minted ≡ done (some client_id)
validate_token-mint_token_example =
    validate_token-mint_token toy_hmac toy_hmac-laws 5 first_header (ip_of 3) (ip_of 3) refl

validate_token_binds_example : (octets (ip_of 3).ip ≡ octets (ip_of 3).ip) × (client_id ≡ client_id)
validate_token_binds_example =
    validate_token_binds toy_hmac toy_hmac-laws 5 first_header (ip_of 3) (ip_of 3) client_id refl
      validate_token-mint_token_example

validate_token_crosses_families_example :
    validate_token toy_hmac 5
      (record { ip = v6 (10 ∷ 0 ∷ 0 ∷ 3 ∷ replicate 12 7); port = 1 })
      minted
    ≡ done (some (replicate 8 7))
validate_token_crosses_families_example =
    validate_token_crosses_families toy_hmac toy_hmac-laws 5 first_header (10 ∷ 0 ∷ 0 ∷ 3 ∷ [])
      (replicate 12 7) (replicate 8 7) 4433 1 refl
