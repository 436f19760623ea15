-- ===== src/Cli/Serving.antt =====
-- main.rs, `run_proxy`: what the command `proxy` does with its options, and how it ends.
use Prim.Native.String.{String}
use mqtt_rust_scion.Prelude.{
  ◌≡◌, refl, ap, ◌∙◌, inl, inr, true, false, Bool-cases, Option, some, none, List,
}
use mqtt_rust_scion.Rust.{Error, ok, err, message, panicked, waiting}
use mqtt_rust_scion.Extern.Ring.{HmacLaws}
use mqtt_rust_scion.Extern.QuicConfig.{QuicConfigLaws}
use mqtt_rust_scion.Extern.Crates.{Crates}
use mqtt_rust_scion.Net.Quic.{configure_quic}
use mqtt_rust_scion.Net.Quic.Configured.{mutual_tls}
use mqtt_rust_scion.Proxy.System.{Proxy}
use mqtt_rust_scion.Proxy.Run.{Event, Bound}
use mqtt_rust_scion.Proxy.Run.Ends.{Stopped}
use mqtt_rust_scion.Proxy.Setup.{ProxyHost, StartConfig, set_up, run}
use mqtt_rust_scion.Proxy.Setup as Setup
use mqtt_rust_scion.Proxy.Setup.Listening.{Listens, run_outcome}
use mqtt_rust_scion.Proxy.Setup.Started.{initial, new-Fresh, new-settings, new_outcome}
use mqtt_rust_scion.Cli.{Tracing, ProxyOpt, proxy_config, loops, run_proxy}

module _ (x : Crates) (h : ProxyHost x) (tracing : Tracing x.World) where
  -- The configuration has each option in its place.
  pub record OfOptions (opt : ProxyOpt x h tracing) (config : StartConfig x h) : Type 0 where
    pub listen : config.listen ≡ opt.listen
    pub mode : config.mode ≡ opt.mode
    pub mqtt_broker_address : config.mqtt_broker_address ≡ opt.mqtt_broker_address
    pub endhost_api_address : config.endhost_api_address ≡ opt.endhost_api_address
    pub snap_token_path : config.snap_token_path ≡ opt.snap_token_path
    pub acl_policy : config.acl_policy ≡ opt.acl

  module _ (hmac : HmacLaws x.hmac) (quic : QuicConfigLaws x.World x.Config h.quic_config) where
    -- A proxy with the options: it uses mutual TLS with the three files of the options.
    pub record Made (opt : ProxyOpt x h tracing) (config : StartConfig x h) (p : Proxy x)
        : Type 0 where
      pub of_options : OfOptions opt config
      pub running : p.config ≡ config.running
      pub ca_cert : String
      pub cert : String
      pub key : String
      pub has_ca_cert : h.to_str opt.ca_cert_path ≡ some ca_cert
      pub has_cert : h.to_str opt.cert_path ≡ some cert
      pub has_key : h.to_str opt.key_path ≡ some key
      pub settings : quic.settings p.quic_config ≡ mutual_tls h quic ca_cert cert key

    -- How the command ends. It either waits for the next event, with a proxy of the options that
    -- listens as they say and has served the events; or returns an error, which is that of the logger,
    -- of the files of QUIC, of the set-up or of the event at which the main loop stopped; or panics,
    -- when there is no random key.
    pub data Ends (generate : x.World → Option x.Key × x.World) (opt : ProxyOpt x h tracing)
        (events : List (Event x.ScionAddr)) (w : x.World) : Type 0 where
      serves :
          (config : StartConfig x h) (p : Proxy x) (w1 : x.World) (b : Bound x.ScionAddr x.Channel)
          → Made opt config p
          → Listens x h config w1 b
          → (run x h config events (initial x h p w1)).0 ≡ ok tt
          → (run_proxy x h tracing generate opt events w).0 ≡ waiting
          → Ends generate opt events w
      unlogged :
          (e : Error)
          → (tracing.try_init opt.log_level w).0 ≡ false
          → (run_proxy x h tracing generate opt events w).0 ≡ err e
          → Ends generate opt events w
      unmade :
          (w1 : x.World) (e : Error)
          → (configure_quic h opt.ca_cert_path opt.cert_path opt.key_path w1).0 ≡ err e
          → (run_proxy x h tracing generate opt events w).0 ≡ err e
          → Ends generate opt events w
      keyless :
          (v : x.World)
          → (generate v).0 ≡ none
          → (run_proxy x h tracing generate opt events w).0 ≡ panicked
          → Ends generate opt events w
      unserved :
          (config : StartConfig x h) (p : Proxy x) (w1 : x.World) (e : Error)
          → Made opt config p
          → (set_up x h config w1).0 ≡ err e
          → (run_proxy x h tracing generate opt events w).0 ≡ err e
          → Ends generate opt events w
      stops :
          (config : StartConfig x h) (p : Proxy x) (w1 w2 : x.World)
          (b : Bound x.ScionAddr x.Channel)
          → Made opt config p
          → Listens x h config w1 b
          → (stop : Stopped x hmac b events (initial x h p w2))
          → (run_proxy x h tracing generate opt events w).0 ≡ err stop.fault
          → Ends generate opt events w

    new-Made :
        (generate : x.World → Option x.Key × x.World) (opt : ProxyOpt x h tracing) (w : x.World)
        (p : Proxy x)
        → (Setup.new x h generate (proxy_config x h tracing opt) w).0 ≡ ok p
        → Made opt (proxy_config x h tracing opt) p
    new-Made generate opt w p made =
        let config = proxy_config x h tracing opt in
        let (ca_cert, cert, key, has_ca_cert, has_cert, has_key, settings) =
          new-settings x h quic generate config w p made in
        record {
          of_options = record {
            listen = refl;
            mode = refl;
            mqtt_broker_address = refl;
            endhost_api_address = refl;
            snap_token_path = refl;
            acl_policy = refl;
          };
          running = (new-Fresh x h generate config w p made).running;
          ca_cert = ca_cert;
          cert = cert;
          key = key;
          has_ca_cert = has_ca_cert;
          has_cert = has_cert;
          has_key = has_key;
          settings = settings;
        }

    run_proxy-logged :
        (generate : x.World → Option x.Key × x.World) (opt : ProxyOpt x h tracing)
        (events : List (Event x.ScionAddr)) (w : x.World) (p : Proxy x)
        → (tracing.try_init opt.log_level w).0 ≡ true
        → let config = proxy_config x h tracing opt in
          let made = Setup.new x h generate config (tracing.try_init opt.log_level w).1 in
          made.0 ≡ ok p
          → (run_proxy x h tracing generate opt events w).0
            ≡ loops x h tracing (run x h config events (initial x h p made.1)).0
    unfolding run_proxy
    run_proxy-logged generate opt events w p logged made = rw (logged, made) refl

    run_proxy_unmade :
        (generate : x.World → Option x.Key × x.World) (opt : ProxyOpt x h tracing)
        (events : List (Event x.ScionAddr)) (w : x.World)
        → (tracing.try_init opt.log_level w).0 ≡ true
        → let made =
            Setup.new x h generate
              (proxy_config x h tracing opt)
              (tracing.try_init opt.log_level w).1 in
          ((e : Error) → made.0 ≡ err e → (run_proxy x h tracing generate opt events w).0 ≡ err e)
          × (made.0 ≡ panicked → (run_proxy x h tracing generate opt events w).0 ≡ panicked)
    unfolding run_proxy
    run_proxy_unmade generate opt events w logged =
        ((λ e failed. rw (logged, failed) refl), λ failed. rw (logged, failed) refl)

    run_proxy_unlogged :
        (generate : x.World → Option x.Key × x.World) (opt : ProxyOpt x h tracing)
        (events : List (Event x.ScionAddr)) (w : x.World)
        → (tracing.try_init opt.log_level w).0 ≡ false
        → (run_proxy x h tracing generate opt events w).0 ≡ err (message "failed to init tracing")
    unfolding run_proxy
    run_proxy_unlogged generate opt events w failed = rw failed refl

    -- The command `proxy` never ends well. It goes on waiting, with a proxy whose configuration has each
    -- option in its place, which uses mutual TLS with the three files of the options, listens as they
    -- say and has served the events; or it returns an error, of the logger, of the configuration of
    -- QUIC by those files, of the set-up, or of the event at which the main loop stopped; or it panics,
    -- for want of a random key.
    pub run_proxy-Ends :
        (generate : x.World → Option x.Key × x.World) (opt : ProxyOpt x h tracing)
        (events : List (Event x.ScionAddr)) (w : x.World)
        → Ends generate opt events w
    run_proxy-Ends generate opt events w = elim (Bool-cases (tracing.try_init opt.log_level w).0) [
      | inr failed ↦ unlogged _ failed (run_proxy_unlogged generate opt events w failed)
      | inl logged ↦
          let config = proxy_config x h tracing opt in
          let w0 = (tracing.try_init opt.log_level w).1 in
          let (errs, panics) = run_proxy_unmade generate opt events w logged in
          elim (new_outcome x h generate config w0) [
            | inr (inl (e, cause, failed)) ↦ unmade w0 e cause (errs e failed)
            | inr (inr (v, cause, failed)) ↦ keyless v cause (panics failed)
            | inl (p, made) ↦
                let w1 = (Setup.new x h generate config w0).1 in
                let whole = run_proxy-logged generate opt events w p logged made in
                let good = new-Made generate opt w0 p made in
                elim (run_outcome x h hmac config events (initial x h p w1)) [
                  | inl (b, listens, inl served) ↦
                      serves config p w1 b good listens served
                        (whole ∙ ap (loops x h tracing) served)
                  | inl (b, listens, inr (stop, failed)) ↦
                      stops config p w1 _ b good listens stop
                        (whole ∙ ap (loops x h tracing) failed)
                  | inr (e, cause, failed) ↦
                      unserved config p w1 e good cause (whole ∙ ap (loops x h tracing) failed)
                ]
          ]
    ]
