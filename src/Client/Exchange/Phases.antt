-- ===== src/Client/Exchange/Phases.antt =====
-- client/mod.rs: the phases of a request, and what the task keeps in each of them.
use mqtt_rust_scion.Prelude.{
  ℕ, ◌≡◌, ◌≢◌, refl, sym, subst, ◌∙◌, Bool, true, false, Option, none, some, Option-cases, inl, inr,
  arith,
}
use mqtt_rust_scion.Rust.{ok}
use mqtt_rust_scion.Exec.{Exec, ◌>>=◌, modify, >>=-ok}
use mqtt_rust_scion.Exec.Keeps.{Keeps}
use mqtt_rust_scion.Extern.Mqtt.{
  connack, puback, pubrec, pubcomp, suback, subscribe, publish, other, MqttEvent,
  notify_packet_received,
}
use mqtt_rust_scion.Extern.ClientCrates.{ClientCrates, NotifyLaws}
use mqtt_rust_scion.Client.Connection.{
  Request, subscribe_to, publish_message, Task, awaits_puback, awaits_pubrec, awaits_suback,
  complete, handle_event, start_subscribe, start_publish, start_request, with_request, request,
  select, after_select, round,
}
use mqtt_rust_scion.Client.Connection.Preserve.{
  IsStable, start_subscribe-Keeps, start_publish-Keeps, after_select-Keeps,
}

module _ (x : ClientCrates) (laws : NotifyLaws x.scion.ScionAddr x.runtime) where
  -- Before the task takes the request of the notification `n`.
  pub record Queued (n : x.Notify) (t : Task x) : Type 0 where
    pub connect_issued : laws.issued t.connect_notify t.world
    pub is_issued : laws.issued n t.world
    pub is_other : n ≢ t.connect_notify
    pub idle : t.current_request ≡ none
    pub no_permit : laws.permit n t.world ≡ false

  -- A pending request is of `n`, which has no permit; with none pending, `n` has its permit.
  abbrev pub Held : x.Notify → Option (Request × ℕ × x.Notify) → Bool → Type 0
  Held n none permit = permit ≡ true
  Held n (some (req, id, m)) permit = (m ≡ n) × (permit ≡ false)

  pub record Waits (n : x.Notify) (t : Task x) : Type 0 where
    pub connect_issued : laws.issued t.connect_notify t.world
    pub is_issued : laws.issued n t.world
    pub is_other : n ≢ t.connect_notify
    pub held : Held n t.current_request (laws.permit n t.world)

  complete-none :
      (awaits : Request → Bool) (i : ℕ) (t : Task x)
      → t.current_request ≡ none
      → complete x awaits i t ≡ t
  unfolding complete
  complete-none awaits i t h = ground arith

  complete-Queued :
      (n : x.Notify) (awaits : Request → Bool) (i : ℕ) (t : Task x)
      → Queued n t
      → Queued n (complete x awaits i t)
  complete-Queued n awaits i t h = rw (complete-none awaits i t h.idle) h

  handle_event-Queued :
      (n : x.Notify) (e : MqttEvent) (t : Task x) → Queued n t → Queued n (handle_event x e t)
  unfolding handle_event
  handle_event-Queued n (notify_packet_received (connack r)) t h = record {
    connect_issued =
        laws.issued-notify_one t.connect_notify t.connect_notify t.world h.connect_issued;
    is_issued = laws.issued-notify_one n t.connect_notify t.world h.is_issued;
    is_other = h.is_other;
    idle = h.idle;
    no_permit = laws.permit-notify_one n t.connect_notify t.world h.is_other ∙ h.no_permit;
  }
  handle_event-Queued n (notify_packet_received (puback i r)) t h =
      complete-Queued n awaits_puback i t h
  handle_event-Queued n (notify_packet_received (pubrec i r)) t h =
      complete-Queued n awaits_pubrec i t h
  handle_event-Queued n (notify_packet_received (suback i r)) t h =
      complete-Queued n awaits_suback i t h
  handle_event-Queued n (notify_packet_received (publish m)) t h = record {
    connect_issued =
        laws.issued-try_send t.connect_notify t.message_sender m t.world h.connect_issued;
    is_issued = laws.issued-try_send n t.message_sender m t.world h.is_issued;
    is_other = h.is_other;
    idle = h.idle;
    no_permit = laws.permit-try_send n t.message_sender m t.world ∙ h.no_permit;
  }
  handle_event-Queued n _ t h = ground arith

  pub Queued-IsStable : (n : x.Notify) → IsStable x (Queued n)
  Queued-IsStable n = record {
    on_event = handle_event-Queued n;
    on_quic = λ c t h. ground arith;
    on_protocol = λ m t h. ground arith;
    on_connect = λ t h. ground arith;
    on_send = λ bytes a t h. record {
      connect_issued = laws.issued-scion_send_to t.connect_notify bytes a t.world h.connect_issued;
      is_issued = laws.issued-scion_send_to n bytes a t.world h.is_issued;
      is_other = h.is_other;
      idle = h.idle;
      no_permit = laws.permit-scion_send_to n bytes a t.world ∙ h.no_permit;
    };
  }

  -- The event completes the request of `n` by its permit, or leaves it.
  complete-Held :
      (n : x.Notify) (awaits : Request → Bool) (i : ℕ) (t : Task x)
      → Held n t.current_request (laws.permit n t.world)
      → let t' = complete x awaits i t in Held n t'.current_request (laws.permit n t'.world)
  unfolding complete
  complete-Held n awaits i t h = elim (Option-cases t.current_request) [
    | inl e ↦ ground arith
    | inr ((req, id, m), e) ↦ grind (arith, laws.permit-notify_one_self)
  ]

  complete-Waits :
      (n : x.Notify) (awaits : Request → Bool) (i : ℕ) (t : Task x)
      → Waits n t
      → Waits n (complete x awaits i t)
  complete-Waits n awaits i t h = record {
    connect_issued = unfold complete in grind (arith, laws.issued-notify_one, h.connect_issued);
    is_issued = unfold complete in grind (arith, laws.issued-notify_one, h.is_issued);
    is_other = unfold complete in grind (arith, h.is_other);
    held = complete-Held n awaits i t h.held;
  }

  handle_event-Waits :
      (n : x.Notify) (e : MqttEvent) (t : Task x) → Waits n t → Waits n (handle_event x e t)
  unfolding handle_event
  handle_event-Waits n (notify_packet_received (connack r)) t h = record {
    connect_issued =
        laws.issued-notify_one t.connect_notify t.connect_notify t.world h.connect_issued;
    is_issued = laws.issued-notify_one n t.connect_notify t.world h.is_issued;
    is_other = h.is_other;
    held = rw (laws.permit-notify_one n t.connect_notify t.world h.is_other) h.held;
  }
  handle_event-Waits n (notify_packet_received (puback i r)) t h =
      complete-Waits n awaits_puback i t h
  handle_event-Waits n (notify_packet_received (pubrec i r)) t h =
      complete-Waits n awaits_pubrec i t h
  handle_event-Waits n (notify_packet_received (suback i r)) t h =
      complete-Waits n awaits_suback i t h
  handle_event-Waits n (notify_packet_received (publish m)) t h = record {
    connect_issued =
        laws.issued-try_send t.connect_notify t.message_sender m t.world h.connect_issued;
    is_issued = laws.issued-try_send n t.message_sender m t.world h.is_issued;
    is_other = h.is_other;
    held = rw (laws.permit-try_send n t.message_sender m t.world) h.held;
  }
  handle_event-Waits n (notify_packet_received (pubcomp i r)) t h = h
  handle_event-Waits n (notify_packet_received (subscribe i)) t h = h
  handle_event-Waits n (notify_packet_received other) t h = h
  handle_event-Waits n _ t h = record {
    connect_issued = h.connect_issued;
    is_issued = h.is_issued;
    is_other = h.is_other;
    held = h.held;
  }

  pub Waits-IsStable : (n : x.Notify) → IsStable x (Waits n)
  Waits-IsStable n = record {
    on_event = handle_event-Waits n;
    on_quic = λ c t h. record {
      connect_issued = h.connect_issued;
      is_issued = h.is_issued;
      is_other = h.is_other;
      held = h.held;
    };
    on_protocol = λ m t h. record {
      connect_issued = h.connect_issued;
      is_issued = h.is_issued;
      is_other = h.is_other;
      held = h.held;
    };
    on_connect = λ t h. record {
      connect_issued = h.connect_issued;
      is_issued = h.is_issued;
      is_other = h.is_other;
      held = h.held;
    };
    on_send = λ bytes a t h. record {
      connect_issued = laws.issued-scion_send_to t.connect_notify bytes a t.world h.connect_issued;
      is_issued = laws.issued-scion_send_to n bytes a t.world h.is_issued;
      is_other = h.is_other;
      held = rw (laws.permit-scion_send_to n bytes a t.world) h.held;
    };
  }

  begun :
      (start : Exec (Task x) ℕ) (req : Request) (n : x.Notify) (t : Task x)
      → Keeps (Queued n) start
      → Queued n t
      → let (outcome, t') = (start >>= λ id. modify (with_request x (some (req, id, n)))) t in
        outcome ≡ ok tt → Waits n t'
  begun start req n t keeps h good =
      let (id, _, step, _) =
        >>=-ok start (λ id. modify (with_request x (some (req, id, n)))) t good in
      let q = keeps.at t h in
      subst (λ r. Waits n r.1) (sym step)
        (record {
          connect_issued = q.connect_issued;
          is_issued = q.is_issued;
          is_other = q.is_other;
          held = (refl, q.no_permit);
        })

  -- A request that starts well goes from one phase to the next.
  start_request-Waits :
      (req : Request) (n : x.Notify) (t : Task x)
      → Queued n t
      → (start_request x req n t).0 ≡ ok tt
      → Waits n (start_request x req n t).1
  unfolding start_request
  start_request-Waits (subscribe_to topic) n t h good =
      begun (start_subscribe x topic) (subscribe_to topic) n t
        (start_subscribe-Keeps x (Queued n) (Queued-IsStable n) topic) h good
  start_request-Waits (publish_message m) n t h good =
      begun (start_publish x m) (publish_message m) n t
        (start_publish-Keeps x (Queued n) (Queued-IsStable n) m) h good

  pub round-Waits :
      (fuel : ℕ) (local_addr : x.ScionAddr) (req : Request) (n : x.Notify) (t : Task x)
      → Queued n t
      → (round x fuel local_addr (request req n) t).0 ≡ ok true
      → Waits n (round x fuel local_addr (request req n) t).1
  unfolding round select
  round-Waits fuel local_addr req n t h good =
      let (_, begun, step, rest) =
        >>=-ok (start_request x req n) (λ _. after_select x fuel) t good in
      subst (λ r. Waits n r.1) (sym step)
        ((after_select-Keeps x (Waits n) (Waits-IsStable n) fuel).at _
          (start_request-Waits req n t h begun))
