-- ===== src/Proxy/Lifecycle.antt =====
-- The proxy as a whole: the steps of its main task and of the tasks that it has spawned, in the mode
-- `QuicEndpoint`, in any order. Each step is one round of one task; a task that waits lets the others run.
use mqtt_rust_scion.Prelude.{
  ℕ, ◌≡◌, refl, sym, ap, subst, ◌∙◌, inl, inr, none, List, [], ◌∷◌, ◌++◌, map, arith, nat_eq,
  list_eq,
}
use mathlib.Core.List.{map-append}
use mqtt_rust_scion.Prelude.Maps.{
  get, remove, Distinct, insert_absent, Distinct-insert, remove-middle, Distinct-without,
}
use mqtt_rust_scion.Rust.{Bytes}
use mqtt_rust_scion.Extern.Ring.{HmacLaws}
use mqtt_rust_scion.Extern.Crates.{Crates}
use mqtt_rust_scion.Proxy.QuicConnection
use mqtt_rust_scion.Proxy.QuicConnection.Links.{
  Links, main_loop-Links, handle_client_connection-Links,
}
use mqtt_rust_scion.Proxy.System.{ConnectionInfo, System}
use mqtt_rust_scion.Proxy.Dispatch.{Received, handle_udp_packet_mode_quic}
use mqtt_rust_scion.Proxy.Dispatch.Effect.{SameTables, Spawned}
use mqtt_rust_scion.Proxy.Dispatch.Admission.{handle_quic-Effect}

module _ (x : Crates) where
  -- The task that was spawned has ended: `connections_clone.lock().await.remove(&scid_owned)`.
  unfoldable pub end_quic_task :
      Bytes → List (Bytes × QuicConnection.Connection x) → System x → System x
  end_quic_task scid others s = record s {
    proxy = record s.proxy { quic_connections = remove s.quic_connections scid };
    quic_tasks = others;
  }

  abbrev pub Tasks : Type 0
  Tasks = List (Bytes × QuicConnection.Connection x)

  abbrev pub enter : System x → QuicConnection.Connection x → QuicConnection.Task x
  enter s c = record { connection = c; world = s.world }

  -- The task `id`, which stands between `pre` and `post`, leaves with the state `t`.
  abbrev pub leave : System x → Tasks → Bytes → Tasks → QuicConnection.Task x → System x
  leave s pre id post t = record s {
    quic_tasks = pre ++ (id, t.connection) ∷ post;
    world = t.world;
  }

  pub data Step : System x → System x → Type 0 where
    receives : (s : System x) (d : Received x) → Step s (handle_udp_packet_mode_quic x d s).1
    elsewhere : (s : System x) (w : x.World) → Step s (record s { world = w })
    starts :
        (s : System x) (pre post : Tasks) (id : Bytes) (c : QuicConnection.Connection x) (fuel : ℕ)
        → s.quic_tasks ≡ pre ++ (id, c) ∷ post
        → Step s
            (leave s pre id post (QuicConnection.handle_client_connection x fuel [] (enter s c)).1)
    runs :
        (s : System x) (pre post : Tasks) (id : Bytes) (c : QuicConnection.Connection x) (fuel : ℕ)
        (e : QuicConnection.Event x.ScionAddr)
        → s.quic_tasks ≡ pre ++ (id, c) ∷ post
        → Step s (leave s pre id post (QuicConnection.main_loop x fuel (e ∷ []) (enter s c)).1)
    ends :
        (s : System x) (pre post : Tasks) (id : Bytes) (c : QuicConnection.Connection x)
        → s.quic_tasks ≡ pre ++ (id, c) ∷ post
        → Step s (end_quic_task id (pre ++ post) s)

  pub data Reach (s : System x) : System x → Type 0 where
    here : Reach s s
    then : {t u : System x} → Reach s t → Step t u → Reach s u

  -- The table entry that leads to a task.
  abbrev pub entry : Bytes × QuicConnection.Connection x → Bytes × ConnectionInfo x
  entry (id, c) = (id, record { sender = c.rx_udp_to_quic; cancel_token = c.cancel_token })

  -- Each entry of the table leads to one running task, and each task has one entry.
  pub record IsConsistent (s : System x) : Type 0 where
    pub matched : s.quic_connections ≡ map entry s.quic_tasks
    pub distinct : Distinct s.quic_connections

  SameTables-IsConsistent : {s t : System x} → SameTables x s t → IsConsistent s → IsConsistent t
  SameTables-IsConsistent same h = record {
    matched = same.quic_connections ∙ h.matched ∙ ap (map entry) (sym same.quic_tasks);
    distinct = rw same.quic_connections h.distinct;
  }

  Spawned-IsConsistent :
      {id : Bytes} {s t : System x}
      → get s.quic_connections id ≡ none
      → Spawned x id s t
      → IsConsistent s
      → IsConsistent t
  Spawned-IsConsistent {id} {s} unknown new h = record {
    matched =
        new.quic_connections
        ∙ insert_absent s.quic_connections id _ unknown
        ∙ ap (λ table. entry (id, new.task) ∷ table) h.matched
        ∙ ap (map entry) (sym new.quic_tasks);
    distinct = rw new.quic_connections (Distinct-insert s.quic_connections id _ unknown h.distinct);
  }

  map-middle :
      (pre post : Tasks) (id : Bytes) (c : QuicConnection.Connection x)
      → map entry (pre ++ (id, c) ∷ post) ≡ map entry pre ++ entry (id, c) ∷ map entry post
  map-middle pre post id c = map-append entry pre ((id, c) ∷ post)

  -- A round of a task leaves its entry as it is.
  leave-IsConsistent :
      (s : System x) (pre post : Tasks) (id : Bytes) (c : QuicConnection.Connection x)
      (t : QuicConnection.Task x)
      → s.quic_tasks ≡ pre ++ (id, c) ∷ post
      → Links x c.config c.rx_udp_to_quic c.cancel_token t
      → IsConsistent s
      → IsConsistent (leave s pre id post t)
  leave-IsConsistent s pre post id c t stands links h = record {
    matched =
        h.matched
        ∙ ap (map entry) stands
        ∙ map-middle pre post id c
        ∙ ap (λ e. map entry pre ++ e ∷ map entry post) same_entry
        ∙ sym (map-middle pre post id t.connection);
    distinct = h.distinct;
  }
    where
      same_entry : entry (id, c) ≡ entry (id, t.connection)
      same_entry = ground (arith, links.same_rx, links.same_token)

  ends-IsConsistent :
      (s : System x) (pre post : Tasks) (id : Bytes) (c : QuicConnection.Connection x)
      → s.quic_tasks ≡ pre ++ (id, c) ∷ post
      → IsConsistent s
      → IsConsistent (end_quic_task id (pre ++ post) s)
  unfolding end_quic_task
  ends-IsConsistent s pre post id c stands h = record {
    matched =
        ap (λ table. remove table id) table
        ∙ remove-middle (map entry pre) (map entry post) id _ distinct
        ∙ sym (map-append entry pre post);
    distinct =
        subst Distinct
          (sym (
            ap (λ table. remove table id) table
            ∙ remove-middle (map entry pre) (map entry post) id _ distinct))
          (Distinct-without (map entry pre) (map entry post) id _ distinct);
  }
    where
      table : s.quic_connections ≡ map entry pre ++ entry (id, c) ∷ map entry post
      table = h.matched ∙ ap (map entry) stands ∙ map-middle pre post id c

      distinct : Distinct (map entry pre ++ entry (id, c) ∷ map entry post)
      distinct = subst Distinct table h.distinct

  module _ (laws : HmacLaws x.hmac) where
    Step-IsConsistent : {s t : System x} → Step s t → IsConsistent s → IsConsistent t
    Step-IsConsistent (receives s d) h = elim (handle_quic-Effect x laws d s) [
      | inl same ↦ SameTables-IsConsistent same h
      | inr (hdr, admitted, new) ↦ Spawned-IsConsistent admitted.unknown new h
    ]
    Step-IsConsistent (elsewhere s w) h = record { matched = h.matched; distinct = h.distinct }
    Step-IsConsistent (starts s pre post id c fuel stands) h =
        leave-IsConsistent s pre post id c _ stands
          (handle_client_connection-Links x _ _ _ fuel [] (enter s c)
            (record { same_config = refl; same_rx = refl; same_token = refl }))
          h
    Step-IsConsistent (runs s pre post id c fuel e stands) h =
        leave-IsConsistent s pre post id c _ stands
          (main_loop-Links x _ _ _ fuel (e ∷ []) (enter s c)
            (record { same_config = refl; same_rx = refl; same_token = refl }))
          h
    Step-IsConsistent (ends s pre post id c stands) h = ends-IsConsistent s pre post id c stands h

    -- In every state that a consistent one leads to, whatever is received and however the tasks run:
    -- the table has one entry for each running task, no two with one connection ID, and the entry
    -- holds the channel that the task reads and its cancellation token.
    pub Reach-IsConsistent : {s t : System x} → Reach s t → IsConsistent s → IsConsistent t
    Reach-IsConsistent here h = h
    Reach-IsConsistent (then r step) h = Step-IsConsistent step (Reach-IsConsistent r h)
