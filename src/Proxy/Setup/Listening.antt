-- ===== src/Proxy/Setup/Listening.antt =====
-- proxy/mod.rs, `run`: what has been done when the main loop begins.
use Prim.Native.String.{String}
use mqtt_rust_scion.Prelude.{
  ◌≡◌, refl, sym, ap, subst, ◌∙◌, ◌⊎◌, inl, inr, false, Option-cases, Option, none, some, List, ◌∷◌,
  ◌++◌, contains, contains-split, Eq, arith,
}
use mqtt_rust_scion.Rust.{Error, ok, err}
use mqtt_rust_scion.Rust.Text.{trim}
use mqtt_rust_scion.Rust.Text.Trim.{is_blank, is_empty-trim}
use mqtt_rust_scion.Exec.{
  Exec, ◌>>=◌, ok_or->>=, >>=-ok, check->>, pure-ok, Returns, Returns-cases, >>=-Returns,
}
use mqtt_rust_scion.Extern.Crates.{Crates}
use mqtt_rust_scion.Proxy.Setup.{
  main_channel_capacity, ProxyHost, StartConfig, authenticate, socket_config, set_up, run,
}
use mqtt_rust_scion.Proxy.System.{System}
use mqtt_rust_scion.Proxy.Run.{Bound, Event}
use mqtt_rust_scion.Proxy.Run.Ends.{Stopped, main_loop_ends}
use mqtt_rust_scion.Extern.Ring.{HmacLaws}

module _ (x : Crates) (h : ProxyHost x) where
  instance abbrev isd_asn_eq : Eq x.IsdAsn
  isd_asn_eq = x.isd_asn_eq

  -- `builder` is `start` with the configured token: that of a file that is not blank, trimmed.
  abbrev pub Authenticated : Option h.FilePath → x.World → h.Builder → h.Builder → Type 0
  Authenticated none w start builder = builder ≡ start
  Authenticated (some path) w start builder =
      (content : String) × (h.read_to_string path w ≡ some content)
      × (is_blank content ≡ false)
      × (builder ≡ h.with_auth_token (trim content) start)

  authenticate-Authenticated :
      (path : Option h.FilePath) (start builder : h.Builder) (w : x.World)
      → (authenticate x h path start w).0 ≡ ok builder
      → Authenticated path w start builder
  unfolding authenticate
  authenticate-Authenticated none start builder w e = ground arith
  authenticate-Authenticated (some path) start builder w e =
      let (content, read, e') = ok_or->>= (h.read_to_string path w) _ _ w e in
      (content, read, ground (arith, is_empty-trim content), ground (arith, is_empty-trim content))

  -- The world is that of the call, since files are only read.
  authenticate-world :
      (path : Option h.FilePath) (start : h.Builder) (w : x.World)
      → (authenticate x h path start w).1 ≡ w
  unfolding authenticate
  authenticate-world none start w = refl
  authenticate-world (some path) start w = ground arith

  authenticate->>= :
      {B : Type 0} {b : B} (path : Option h.FilePath) (start : h.Builder)
      (rest : h.Builder → Exec x.World B) (w : x.World)
      → ((authenticate x h path start >>= rest) w).0 ≡ ok b
      → (builder : h.Builder) × Authenticated path w start builder × ((rest builder w).0 ≡ ok b)
  authenticate->>= {B} {b} path start rest w e =
      let (builder, made, step, e') = >>=-ok (authenticate x h path start) rest w e in
      (
        builder,
        authenticate-Authenticated path start builder w made,
        subst (λ v. (rest builder v).0 ≡ ok b) (authenticate-world path start w) e',
      )

  -- The proxy listens on the addresses `b`: a SCION stack with the configured token was built, the
  -- ISD-AS to listen on is one of its local ASes, and the socket was bound to the configured address
  -- under the configured policy.
  pub record Listens (config : StartConfig x h) (w : x.World) (b : Bound x.ScionAddr x.Channel)
      : Type 0 where
    pub url : h.Url
    pub has_url : config.endhost_api_address ≡ some url
    pub builder : h.Builder
    pub authenticated :
        Authenticated config.snap_token_path
          (x.channel main_channel_capacity w).1
          (h.new_builder url)
          builder
    pub stack : h.Stack
    pub built : (h.build builder (x.channel main_channel_capacity w).1).0 ≡ some stack
    pub pre : List x.IsdAsn
    pub post : List x.IsdAsn
    pub is_local : h.local_ases stack ≡ pre ++ x.isd_asn config.listen ∷ post
    pub bound :
        (h.bind_with_config stack
          (some config.listen)
          (socket_config x h config.acl_policy)
          (h.build builder (x.channel main_channel_capacity w).1).1).0
        ≡ some b.local_scion_addr
    pub ip_address : x.local_address b.local_scion_addr ≡ some b.local_addr
    pub own_channel : b.tx_quic_to_udp ≡ (x.channel main_channel_capacity w).0

  -- When the set-up succeeds, a SCION stack was built with the token of the configured file, if one is
  -- configured, the ISD-AS of the configured address is one of its local ASes, and the socket is bound to
  -- that address under the configured policy, with an IP address.
  pub set_up-Listens :
      (config : StartConfig x h) (w : x.World) (b : Bound x.ScionAddr x.Channel)
      → (set_up x h config w).0 ≡ ok b
      → Listens config w b
  unfolding set_up
  set_up-Listens config w b e =
      let w1 = (x.channel main_channel_capacity w).1 in
      let (url, has_url, e1) = ok_or->>= config.endhost_api_address _ _ w1 e in
      let (builder, authenticated, e2) =
        authenticate->>= config.snap_token_path (h.new_builder url) _ w1 e1 in
      let w2 = (h.build builder w1).1 in
      let (stack, built, e3) = ok_or->>= (h.build builder w1).0 _ _ w2 e2 in
      let (listed, e4) =
        check->> (contains (h.local_ases stack) (x.isd_asn config.listen)) _ _ w2 e3 in
      let (pre, post, is_local) =
        contains-split (h.local_ases stack) (x.isd_asn config.listen) listed in
      let (bound, w3) =
        h.bind_with_config stack (some config.listen) (socket_config x h config.acl_policy) w2 in
      let (addr, bound_ok, e5) = ok_or->>= bound _ _ w3 e4 in
      let (ip, ip_ok, e6) = ok_or->>= (x.local_address addr) _ _ w3 e5 in
      let same = pure-ok _ w3 e6 in
      record {
        url = url;
        has_url = has_url;
        builder = builder;
        authenticated = authenticated;
        stack = stack;
        built = built;
        pre = pre;
        post = post;
        is_local = is_local;
        bound = bound_ok ∙ ap (λ r. some r.local_scion_addr) same;
        ip_address =
            ap (λ r. x.local_address r.local_scion_addr) (sym same)
            ∙ ip_ok
            ∙ ap (λ r. some r.local_addr) same;
        own_channel = ap (λ r. r.tx_quic_to_udp) (sym same);
      }

  authenticate-Returns :
      (path : Option h.FilePath) (start : h.Builder) (w : x.World)
      → Returns (authenticate x h path start w).0
  unfolding authenticate
  authenticate-Returns none start w = tt
  authenticate-Returns (some path) start w = ground arith

  set_up-Returns : (config : StartConfig x h) (w : x.World) → Returns (set_up x h config w).0
  unfolding set_up
  set_up-Returns config w = elim (Option-cases config.endhost_api_address) [
    | inl missing ↦ rw missing tt
    | inr (url, e) ↦ rw e (
        >>=-Returns (authenticate x h config.snap_token_path (h.new_builder url)) _ _
          (authenticate-Returns config.snap_token_path (h.new_builder url) _)
          (λ builder made. ground arith))
  ]

  -- The whole of `run`: it serves its events, on the addresses that were configured, or returns an
  -- error, of the set-up or of the event at which the main loop stopped. It never panics.
  pub run_outcome :
      (laws : HmacLaws x.hmac) (config : StartConfig x h) (events : List (Event x.ScionAddr))
      (s : System x)
      → let (up, w) = set_up x h config s.world in
        ((b : Bound x.ScionAddr x.Channel) × Listens config s.world b
          × (((run x h config events s).0 ≡ ok tt)
              ⊎ ((stop : Stopped x laws b events (record s { world = w })) × ((run x h config events
                      s).0
                    ≡ err stop.fault))))
        ⊎ ((e : Error) × (up ≡ err e) × ((run x h config events s).0 ≡ err e))
  unfolding run
  run_outcome laws config events s =
      elim (Returns-cases (set_up x h config s.world).0 (set_up-Returns config s.world)) [
        | inr (e, failed) ↦ inr (e, failed, ground arith)
        | inl (b, good) ↦ inl (
          b,
          set_up-Listens config s.world b good,
          elim (main_loop_ends x laws b events
              (record s { world = (set_up x h config s.world).1 })) [
                | inl served ↦ inl (ground arith)
                | inr stop ↦ inr (stop, let failed = ap (λ r. r.0) stop.failed in ground arith)
              ],
        )
      ]
