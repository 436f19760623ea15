-- ===== src/Proxy/Setup/Started.antt =====
-- proxy/mod.rs, `Proxy::new`: the state in which a proxy starts.
use Prim.Native.String.{String}
use mqtt_rust_scion.Prelude.{
  none, ◌⊎◌, inl, inr, Option-cases, refl, arith, ◌≡◌, sym, ap, ◌∙◌, Option, some, [],
}
use mqtt_rust_scion.Rust.{Error, ok, err, panicked}
use mqtt_rust_scion.Exec.{>>=-ok, pure-ok, Returns, Returns-cases}
use mqtt_rust_scion.Extern.QuicConfig.{QuicConfigLaws}
use mqtt_rust_scion.Extern.Crates.{Crates}
use mqtt_rust_scion.Net.Quic.{configure_quic}
use mqtt_rust_scion.Net.Quic.Configured.{mutual_tls, configure_quic-settings}
use mqtt_rust_scion.Proxy.System.{Proxy, System}
use mqtt_rust_scion.Proxy.Setup.{ProxyHost, StartConfig, generate_key, new}

module _ (x : Crates) (h : ProxyHost x) where
  -- The proxy `p`, before any task of it.
  abbrev pub initial : Proxy x → x.World → System x
  initial p w = record { proxy = p; quic_tasks = []; udp_tasks = []; world = w }

  -- What `new` makes: no connections, the configuration that it was given, and a configuration of
  -- QUIC that `configure_quic` made of the three files.
  pub record Fresh (config : StartConfig x h) (w : x.World) (p : Proxy x) : Type 0 where
    pub running : p.config ≡ config.running
    pub no_udp : p.udp_connections ≡ []
    pub no_quic : p.quic_connections ≡ []
    pub configured :
        (configure_quic h config.ca_cert_path config.cert_path config.key_path w).0
        ≡ ok p.quic_config

  pub new-Fresh :
      (generate : x.World → Option x.Key × x.World) (config : StartConfig x h) (w : x.World)
      (p : Proxy x)
      → (new x h generate config w).0 ≡ ok p
      → Fresh config w p
  unfolding new
  new-Fresh generate config w p e =
      let (c, configured, _, e1) =
        >>=-ok (configure_quic h config.ca_cert_path config.cert_path config.key_path) _ w e in
      let (k, _, _, e2) = >>=-ok (generate_key x h generate) _ _ e1 in
      let (k', _, _, e3) = >>=-ok (generate_key x h generate) _ _ e2 in
      let same = pure-ok _ w e3 in
      record {
        running = ap (λ q. q.config) (sym same);
        no_udp = ap (λ q. q.udp_connections) (sym same);
        no_quic = ap (λ q. q.quic_connections) (sym same);
        configured = configured ∙ ap (λ q. ok q.quic_config) same;
      }

  configure_quic-Returns :
      (ca_cert cert key : h.FilePath) (w : x.World)
      → Returns (configure_quic h ca_cert cert key w).0
  unfolding configure_quic
  configure_quic-Returns ca_cert cert key w = ground arith

  -- `new` returns a proxy, or the error of the configuration of QUIC, or panics where the random
  -- generator gives no key.
  pub new_outcome :
      (generate : x.World → Option x.Key × x.World) (config : StartConfig x h) (w : x.World)
      → let made = (new x h generate config w).0 in
        ((p : Proxy x) × (made ≡ ok p))
        ⊎ ((e : Error) × ((configure_quic h config.ca_cert_path config.cert_path config.key_path
                w).0
              ≡ err e)
            × (made ≡ err e))
        ⊎ ((v : x.World) × ((generate v).0 ≡ none) × (made ≡ panicked))
  unfolding new
  new_outcome generate config w =
      let quic = configure_quic h config.ca_cert_path config.cert_path config.key_path w in
      elim (Returns-cases quic.0 (configure_quic-Returns _ _ _ w)) [
        | inr (e, failed) ↦ inr (inl (e, failed, rw failed refl))
        | inl (c, configured) ↦ elim (Option-cases (generate quic.1).0) [
          | inl none_made ↦ inr (inr (quic.1, none_made, rw (configured, none_made) refl))
          | inr (key, made) ↦
              let w' = (generate quic.1).1 in
              elim (Option-cases (generate w').0) [
                | inl none_made ↦ inr (inr (w', none_made, rw (configured, made, none_made) refl))
                | inr (seed, made') ↦
                    let p : Proxy x = record {
                      config = config.running;
                      quic_config = c;
                      token_key = key;
                      conn_id_seed = seed;
                      udp_connections = [];
                      quic_connections = [];
                    } in
                    inl (p, rw (configured, made, made') refl)
              ]
        ]
      ]

  -- A proxy asks its clients for certificates and checks them against the configured authority: the
  -- QUIC configuration of a new proxy is `mutual_tls` of the three files of its configuration.
  pub new-settings :
      (laws : QuicConfigLaws x.World x.Config h.quic_config)
      (generate : x.World → Option x.Key × x.World) (config : StartConfig x h) (w : x.World)
      (p : Proxy x)
      → (new x h generate config w).0 ≡ ok p
      → (ca_cert : String) × (cert : String) × (key : String) × (h.to_str config.ca_cert_path
          ≡ some ca_cert)
        × (h.to_str config.cert_path ≡ some cert)
        × (h.to_str config.key_path ≡ some key)
        × (laws.settings p.quic_config ≡ mutual_tls h laws ca_cert cert key)
  new-settings laws generate config w p e =
      configure_quic-settings h laws config.ca_cert_path config.cert_path config.key_path w
        p.quic_config (new-Fresh generate config w p e).configured
