-- ===== src/Python/Config.antt =====
-- python.rs, `try_from`: which configurations are refused, and what the others become.
use Prim.Native.String.{String}
use mqtt_rust_scion.Prelude.{◌≡◌, Option, none, some}
use mqtt_rust_scion.Extern.ClientCrates.{ClientCrates}
use mqtt_rust_scion.Client.Setup.{ClientHost, ClientConfig}
use mqtt_rust_scion.Client.Api.{RequestRuntime}
use mqtt_rust_scion.Python.{PyClientConfig, Parsers, map_path}

module _ (x : ClientCrates) (h : ClientHost x) (r : RequestRuntime x)
    (p : Parsers h.Url h.FilePath x.ScionAddr) where
  -- The bind address is absent on both sides, or the text of the one is that of the other.
  abbrev pub Binds : Option String → Option x.ScionAddr → Type 0
  Binds none bind = bind ≡ none
  Binds (some text) none = ⊥
  Binds (some text) (some bind) = p.parse_addr text ≡ some bind

  abbrev pub IsUnparsable : Option String → Type 0
  IsUnparsable none = ⊥
  IsUnparsable (some text) = p.parse_addr text ≡ none

  -- The client is configured with what Python gave, and with no ACL policy.
  pub record Carries (config : PyClientConfig) (c : ClientConfig x h) : Type 0 where
    pub has_url : p.parse_url config.endhost_api_address ≡ some c.endhost_api_address
    pub binds : Binds config.bind_address c.bind
    pub same_host : c.host ≡ config.host
    pub token_path : c.snap_token_path ≡ map_path x h r p config.snap_token_path
    pub no_policy : c.acl_policy ≡ none
    pub ca_cert : c.ca_cert_path ≡ p.path_buf config.ca_cert_path
    pub cert : c.cert_path ≡ p.path_buf config.cert_path
    pub key : c.key_path ≡ p.path_buf config.key_path
    pub same_id : c.client_id ≡ config.client_id
