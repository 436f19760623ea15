-- ===== src/Proxy/UdpLifecycle.antt =====
-- The proxy in the mode `UdpEndpoint`: the steps of its main task and of the tasks that it has
-- spawned, in any order. Each step of a task is one round of its loop, or its start.
use mqtt_rust_scion.Prelude.{
  ◌≡◌, refl, sym, ap, subst, ◌∙◌, ◌⊎◌, inl, inr, none, some, List, [], ◌∷◌, ◌++◌, map, Option-cases,
  arith, Eq,
}
use mathlib.Core.List.{map-append}
use mqtt_rust_scion.Prelude.Maps.{
  get, insert, remove, Distinct, insert_absent, Distinct-insert, remove-middle, Distinct-without,
}
use mqtt_rust_scion.Extern.Crates.{Crates}
use mqtt_rust_scion.Proxy.UdpConnection
use mqtt_rust_scion.Proxy.UdpConnection.{bind_socket, to_broker, to_client}
use mqtt_rust_scion.Proxy.System.{ConnectionInfo, System}
use mqtt_rust_scion.Proxy.Dispatch.{
  Received, forward, incoming, spawn_udp, handle_udp_packet_mode_udp,
}

module _ (x : Crates) where
  instance abbrev scion_eq : Eq x.ScionAddr
  scion_eq = x.addr_eq

  abbrev pub Tasks : Type 0
  Tasks = List (x.ScionAddr × UdpConnection.Connection x)

  -- The task that was spawned has ended: `connections_clone.lock().await.remove(&src_scion_socket)`.
  unfoldable pub end_udp_task : x.ScionAddr → Tasks → System x → System x
  end_udp_task src others s = record s {
    proxy = record s.proxy { udp_connections = remove s.udp_connections src };
    udp_tasks = others;
  }

  abbrev pub enter : System x → UdpConnection.Connection x → UdpConnection.Task x
  enter s c = record { connection = c; world = s.world }

  -- The task of `src`, which stands between `pre` and `post`, leaves with the state `t`.
  abbrev pub leave : System x → Tasks → x.ScionAddr → Tasks → UdpConnection.Task x → System x
  leave s pre src post t = record s {
    udp_tasks = pre ++ (src, t.connection) ∷ post;
    world = t.world;
  }

  pub data Step : System x → System x → Type 0 where
    receives : (s : System x) (d : Received x) → Step s (handle_udp_packet_mode_udp x d s).1
    elsewhere : (s : System x) (w : x.World) → Step s (record s { world = w })
    starts :
        (s : System x) (pre post : Tasks) (src : x.ScionAddr) (c : UdpConnection.Connection x)
        → s.udp_tasks ≡ pre ++ (src, c) ∷ post
        → Step s (leave s pre src post (UdpConnection.handle_client_connection x [] (enter s c)).1)
    runs :
        (s : System x) (pre post : Tasks) (src : x.ScionAddr) (c : UdpConnection.Connection x)
        (e : UdpConnection.Event x.ScionAddr)
        → s.udp_tasks ≡ pre ++ (src, c) ∷ post
        → Step s (leave s pre src post (UdpConnection.main_loop x (e ∷ []) (enter s c)).1)
    ends :
        (s : System x) (pre post : Tasks) (src : x.ScionAddr) (c : UdpConnection.Connection x)
        → s.udp_tasks ≡ pre ++ (src, c) ∷ post
        → Step s (end_udp_task src (pre ++ post) s)

  pub data Reach (s : System x) : System x → Type 0 where
    here : Reach s s
    then : {t u : System x} → Reach s t → Step t u → Reach s u

  abbrev pub entry : x.ScionAddr × UdpConnection.Connection x → x.ScionAddr × ConnectionInfo x
  entry (src, c) = (src, record { sender = c.rx_udp_to_quic; cancel_token = c.cancel_token })

  -- Each entry of the table leads to one running task, and each task has one entry.
  pub record IsConsistent (s : System x) : Type 0 where
    pub matched : s.udp_connections ≡ map entry s.udp_tasks
    pub distinct : Distinct s.udp_connections

  -- What a task never changes.
  record Links (c : UdpConnection.Connection x) (t : UdpConnection.Task x) : Type 0 where
    pub same_rx : t.rx_udp_to_quic ≡ c.rx_udp_to_quic
    pub same_token : t.cancel_token ≡ c.cancel_token

  round-Links :
      (c : UdpConnection.Connection x) (e : UdpConnection.Event x.ScionAddr)
      (t : UdpConnection.Task x)
      → Links c t
      → Links c (UdpConnection.round x e t).1
  unfolding UdpConnection.round to_broker to_client
  round-Links c UdpConnection.timed_out t h = h
  round-Links c (UdpConnection.udp_packet none) t h = h
  round-Links c (UdpConnection.udp_packet (some p)) t h = ground arith
  round-Links c (UdpConnection.broker_packet none) t h = h
  round-Links c (UdpConnection.broker_packet (some (bytes, src))) t h = ground arith
  round-Links c UdpConnection.cancelled t h = h

  main_loop-Links :
      (c : UdpConnection.Connection x) (e : UdpConnection.Event x.ScionAddr)
      (t : UdpConnection.Task x)
      → Links c t
      → Links c (UdpConnection.main_loop x (e ∷ []) t).1
  unfolding UdpConnection.main_loop
  main_loop-Links c e t h = ground (arith, round-Links c e t h)

  start-Links :
      (c : UdpConnection.Connection x) (t : UdpConnection.Task x)
      → Links c t
      → Links c (UdpConnection.handle_client_connection x [] t).1
  unfolding UdpConnection.handle_client_connection UdpConnection.main_loop bind_socket
  start-Links c t h = ground arith

  record Kept (s t : System x) : Type 0 where
    pub connections : t.udp_connections ≡ s.udp_connections
    pub tasks : t.udp_tasks ≡ s.udp_tasks

  -- One connection was added under `src`: an entry and a task with its channel and its token.
  record Spawned (src : x.ScionAddr) (s t : System x) : Type 0 where
    pub task : UdpConnection.Connection x
    pub connections : t.udp_connections ≡ insert s.udp_connections src (entry (src, task)).1
    pub tasks : t.udp_tasks ≡ (src, task) ∷ s.udp_tasks

  spawn_udp-Spawned :
      (d : Received x) (s : System x) → Spawned d.src_scion_socket s (spawn_udp x d s).1
  unfolding spawn_udp UdpConnection.new
  spawn_udp-Spawned d s = record { task = _; connections = refl; tasks = refl }

  forward-Kept :
      (d : Received x) (info : ConnectionInfo x) (s : System x)
      → Kept s (forward x info (incoming x d) s).1
  unfolding forward
  forward-Kept d info s = ground arith

  handle_udp-known :
      (d : Received x) (s : System x) (info : ConnectionInfo x)
      → get s.udp_connections d.src_scion_socket ≡ some info
      → handle_udp_packet_mode_udp x d s ≡ forward x info (incoming x d) s
  unfolding handle_udp_packet_mode_udp
  handle_udp-known d s info known = ground arith

  handle_udp-unknown :
      (d : Received x) (s : System x)
      → get s.udp_connections d.src_scion_socket ≡ none
      → handle_udp_packet_mode_udp x d s ≡ spawn_udp x d s
  unfolding handle_udp_packet_mode_udp
  handle_udp-unknown d s unknown = ground arith

  handle_udp-Effect :
      (d : Received x) (s : System x)
      → let t = (handle_udp_packet_mode_udp x d s).1 in
        Kept s t
        ⊎ ((get s.udp_connections d.src_scion_socket ≡ none) × Spawned d.src_scion_socket s t)
  handle_udp-Effect d s = elim (Option-cases (get s.udp_connections d.src_scion_socket)) [
    | inr (info, known) ↦
        inl
          (subst (λ r. Kept s r.1) (sym (handle_udp-known d s info known)) (forward-Kept d info s))
    | inl unknown ↦ inr (
      unknown,
      subst (λ r. Spawned d.src_scion_socket s r.1) (sym (handle_udp-unknown d s unknown))
          (spawn_udp-Spawned d s),
    )
  ]

  Spawned-IsConsistent :
      {src : x.ScionAddr} {s t : System x}
      → get s.udp_connections src ≡ none
      → Spawned src s t
      → IsConsistent s
      → IsConsistent t
  Spawned-IsConsistent {src} {s} unknown new h = record {
    matched =
        new.connections
        ∙ insert_absent s.udp_connections src _ unknown
        ∙ ap (λ table. entry (src, new.task) ∷ table) h.matched
        ∙ ap (map entry) (sym new.tasks);
    distinct = rw new.connections (Distinct-insert s.udp_connections src _ unknown h.distinct);
  }

  map-middle :
      (pre post : Tasks) (src : x.ScionAddr) (c : UdpConnection.Connection x)
      → map entry (pre ++ (src, c) ∷ post) ≡ map entry pre ++ entry (src, c) ∷ map entry post
  map-middle pre post src c = map-append entry pre ((src, c) ∷ post)

  leave-IsConsistent :
      (s : System x) (pre post : Tasks) (src : x.ScionAddr) (c : UdpConnection.Connection x)
      (t : UdpConnection.Task x)
      → s.udp_tasks ≡ pre ++ (src, c) ∷ post
      → Links c t
      → IsConsistent s
      → IsConsistent (leave s pre src post t)
  leave-IsConsistent s pre post src c t stands links h = record {
    matched =
        h.matched
        ∙ ap (map entry) stands
        ∙ map-middle pre post src c
        ∙ ap (λ e. map entry pre ++ e ∷ map entry post) same_entry
        ∙ sym (map-middle pre post src t.connection);
    distinct = h.distinct;
  }
    where
      same_entry : entry (src, c) ≡ entry (src, t.connection)
      same_entry = ground (arith, links.same_rx, links.same_token)

  ends-IsConsistent :
      (s : System x) (pre post : Tasks) (src : x.ScionAddr) (c : UdpConnection.Connection x)
      → s.udp_tasks ≡ pre ++ (src, c) ∷ post
      → IsConsistent s
      → IsConsistent (end_udp_task src (pre ++ post) s)
  unfolding end_udp_task
  ends-IsConsistent s pre post src c stands h = record {
    matched = removed ∙ sym (map-append entry pre post);
    distinct =
        subst Distinct (sym removed)
          (Distinct-without (map entry pre) (map entry post) src _ distinct);
  }
    where
      table : s.udp_connections ≡ map entry pre ++ entry (src, c) ∷ map entry post
      table = h.matched ∙ ap (map entry) stands ∙ map-middle pre post src c

      distinct : Distinct (map entry pre ++ entry (src, c) ∷ map entry post)
      distinct = subst Distinct table h.distinct

      removed : remove s.udp_connections src ≡ map entry pre ++ map entry post
      removed =
          ap (λ table. remove table src) table
          ∙ remove-middle (map entry pre) (map entry post) src _ distinct

  Step-IsConsistent : {s t : System x} → Step s t → IsConsistent s → IsConsistent t
  Step-IsConsistent (receives s d) h = elim (handle_udp-Effect d s) [
    | inl same ↦ record {
      matched = same.connections ∙ h.matched ∙ ap (map entry) (sym same.tasks);
      distinct = rw same.connections h.distinct;
    }
    | inr (unknown, new) ↦ Spawned-IsConsistent unknown new h
  ]
  Step-IsConsistent (elsewhere s w) h = record { matched = h.matched; distinct = h.distinct }
  Step-IsConsistent (starts s pre post src c stands) h =
      leave-IsConsistent s pre post src c _ stands
        (start-Links c (enter s c) (record { same_rx = refl; same_token = refl })) h
  Step-IsConsistent (runs s pre post src c e stands) h =
      leave-IsConsistent s pre post src c _ stands
        (main_loop-Links c e (enter s c) (record { same_rx = refl; same_token = refl })) h
  Step-IsConsistent (ends s pre post src c stands) h = ends-IsConsistent s pre post src c stands h

  -- In every state that a consistent one leads to, whatever is received and however the tasks run:
  -- the table has one entry for each running task, no two with one source address, and the entry
  -- holds the channel that the task reads and its cancellation token.
  pub Reach-IsConsistent_udp : {s t : System x} → Reach s t → IsConsistent s → IsConsistent t
  Reach-IsConsistent_udp here h = h
  Reach-IsConsistent_udp (then r step) h = Step-IsConsistent step (Reach-IsConsistent_udp r h)
