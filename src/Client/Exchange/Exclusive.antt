-- ===== src/Client/Exchange/Exclusive.antt =====
-- client/mod.rs: the requests of a client beside the rounds of its task.
use mqtt_rust_scion.Prelude.{
  ℕ, ◌≡◌, refl, sym, ap, subst, inl, inr, Bool, true, false, Option, none, some, List, [], ◌∷◌,
}
use mqtt_rust_scion.Rust.{Outcome, ok, err, panicked, waiting, no_fuel}
use mqtt_rust_scion.Extern.Mqtt.{MqttEvent}
use mqtt_rust_scion.Extern.ClientCrates.{ClientCrates, NotifyLaws}
use mqtt_rust_scion.Client.Connection.{Request, request, Task, round, handle_events}
use mqtt_rust_scion.Client.Connection.Events.{Acked, handle_events-request}
use mqtt_rust_scion.Client.Connection.Preserve.{handle_events-Keeps}
use mqtt_rust_scion.Client.Exchange.{
  Exchange, goes_on, submitted, Step, submits, takes, acts, receives, returns, Reach, here, then,
}
use mqtt_rust_scion.Client.Exchange.Phases.{Waits, Held, Waits-IsStable}
use mqtt_rust_scion.Client.Exchange.Steps.{
  Phase, submits-Phase, acts-Phase, Phase-Queued, Phase-Waits, takes-Phase, receives-Phase,
  returns-Phase,
}

module _ (x : ClientCrates) (laws : NotifyLaws x.scion.ScionAddr x.runtime) where
  -- Nothing is claimed of a task that has ended.
  abbrev PhaseIf : Bool → Option x.Notify → List (Request × x.Notify) → Task x → Type 0
  PhaseIf true awaiting queue t = Phase x laws awaiting queue t
  PhaseIf false awaiting queue t = Unit

  pub record IsExclusive (s : Exchange x laws) : Type 0 where
    pub phase : PhaseIf s.running s.awaiting s.queue s.task

  goes_on-true : (o : Outcome Bool) → goes_on o ≡ true → o ≡ ok true
  goes_on-true (ok b) h = ap ok h
  goes_on-true (err e) h = cc
  goes_on-true panicked h = cc
  goes_on-true waiting h = cc
  goes_on-true no_fuel h = cc

  -- The phase after a step, if the task still runs.
  after_step :
      (running : Bool) (awaiting : Option x.Notify) (queue : List (Request × x.Notify)) (t : Task x)
      → (running ≡ true → Phase x laws awaiting queue t)
      → PhaseIf running awaiting queue t
  after_step true awaiting queue t h = h refl
  after_step false awaiting queue t h = tt

  IsExclusive-Phase :
      (s : Exchange x laws)
      → s.running ≡ true
      → IsExclusive s
      → Phase x laws s.awaiting s.queue s.task
  IsExclusive-Phase s runs h = subst (λ b. PhaseIf b s.awaiting s.queue s.task) runs h.phase

  Step-IsExclusive : {s u : Exchange x laws} → Step x laws s u → IsExclusive s → IsExclusive u
  Step-IsExclusive (submits s req runs idle room) h = record {
    phase =
        subst (λ b. let t = submitted x laws req s in PhaseIf b t.awaiting t.queue t.task)
          (sym runs) (submits-Phase x laws s req s.awaiting refl idle (IsExclusive-Phase s runs h));
  }
  Step-IsExclusive (takes s req n rest fuel local_addr runs head) h =
      let r = round x fuel local_addr (request req n) s.task in
      record {
        phase = after_step (goes_on r.0) s.awaiting rest r.1 λ on.
            takes-Phase x laws fuel local_addr req n rest s.awaiting s.queue s.task head
              (IsExclusive-Phase s runs h) (goes_on-true r.0 on);
      }
  Step-IsExclusive (acts s fuel local_addr e runs other) h =
      let r = round x fuel local_addr e s.task in
      record {
        phase = after_step (goes_on r.0) s.awaiting s.queue r.1 λ on.
            acts-Phase x laws fuel local_addr e s.awaiting s.queue s.task other
              (IsExclusive-Phase s runs h);
      }
  Step-IsExclusive (receives s c idle) h = record {
    phase =
        after_step s.running s.awaiting s.queue
          (record s.task { world = (x.recv_message c s.world).1 })
          λ on. receives-Phase x laws c s.awaiting s.queue s.task idle (IsExclusive-Phase s on h);
  }
  Step-IsExclusive (returns s n awaited permit) h = record {
    phase =
        after_step s.running none s.queue (record s.task { world = (x.notified n s.world).1 })
          λ on.
            returns-Phase x laws n s.awaiting s.queue s.task awaited permit
              (IsExclusive-Phase s on h);
  }

  -- The task is new, no method runs, and the channel is empty.
  pub record IsFresh (s : Exchange x laws) : Type 0 where
    pub awaits : s.awaiting ≡ none
    pub empty : s.queue ≡ []
    pub idle : s.current_request ≡ none
    pub connect_issued : laws.issued s.connect_notify s.world

  IsFresh-IsExclusive : (s : Exchange x laws) → IsFresh s → IsExclusive s
  IsFresh-IsExclusive s h = record {
    phase = after_step s.running s.awaiting s.queue s.task λ on.
        subst (λ a. Phase x laws a s.queue s.task) (sym h.awaits)
          (h.empty, record { connect_issued = h.connect_issued; idle = h.idle });
  }

  Reach-IsExclusive : {s u : Exchange x laws} → Reach x laws s u → IsFresh s → IsExclusive u
  Reach-IsExclusive here fresh = IsFresh-IsExclusive _ fresh
  Reach-IsExclusive (then path step) fresh = Step-IsExclusive step (Reach-IsExclusive path fresh)

  -- A client and its task go on from a new task by calls of `subscribe`, `publish` and `rcv`, by rounds of
  -- the task's loop and by returns of the methods, in any order. While the task runs and a request is in the
  -- channel, the task has no pending request, which taking this one could overwrite, no other request
  -- is in the channel, and the notification of the request is the one that the running method awaits.
  pub Reach-queue :
      {s u : Exchange x laws} (req : Request) (n : x.Notify) (rest : List (Request × x.Notify))
      → Reach x laws s u
      → IsFresh s
      → u.running ≡ true
      → u.queue ≡ (req, n) ∷ rest
      → (u.current_request ≡ none) × (rest ≡ []) × (u.awaiting ≡ some n)
  Reach-queue {u = u} req n rest path fresh runs e =
      let (of_n, one, q) =
        Phase-Queued x laws u.awaiting u.queue u.task req n rest e
          (IsExclusive-Phase u runs (Reach-IsExclusive path fresh)) in
      (q.idle, one, of_n)

  -- A client and its task go on as above. While the task runs and has a pending request, the
  -- notification of that request is the one that the running method awaits, so that its completion
  -- wakes that method and no other, and no request is in the channel.
  pub Reach-pending :
      {s u : Exchange x laws} (req : Request) (id : ℕ) (n : x.Notify)
      → Reach x laws s u
      → IsFresh s
      → u.running ≡ true
      → u.current_request ≡ some (req, id, n)
      → (u.awaiting ≡ some n) × (u.queue ≡ []) × (laws.permit n u.world ≡ false)
  Reach-pending {u = u} req id n path fresh runs e =
      let (of_n, empty, h) =
        Phase-Waits x laws u.awaiting u.queue u.task req id n e
          (IsExclusive-Phase u runs (Reach-IsExclusive path fresh)) in
      (of_n, empty, (subst (λ r. Held x laws n r (laws.permit n u.world)) e h.held).1)

  -- The events of a batch complete the request of `n`: by its permit, which the rest of the batch keeps.
  handle_events-Acked :
      (events : List MqttEvent) (req : Request) (id : ℕ) (n : x.Notify) (t : Task x)
      → Waits x laws n t
      → t.current_request ≡ some (req, id, n)
      → Acked events req id
      → let t' = (handle_events x events t).1 in
        (t'.current_request ≡ none) × (laws.permit n t'.world ≡ true)
  handle_events-Acked events req id n t h e acked =
      let w = (handle_events-Keeps x (Waits x laws n) (Waits-IsStable x laws n) events).at t h in
      let t' = (handle_events x events t).1 in
      elim (handle_events-request x events t req id n e) [
        | inl (_, cleared) ↦
            (cleared, subst (λ r. Held x laws n r (laws.permit n t'.world)) cleared w.held)
        | inr (unacked, _) ↦ elim (unacked acked) [ ]
      ]

  -- A client and its task go on as above, and the task has a pending request. A batch of MQTT events
  -- with an acknowledgement of it, before any close request, clears the request and gives its permit
  -- to the notification that the running method awaits: the method can return.
  pub Reach-Acked :
      {s u : Exchange x laws} (req : Request) (id : ℕ) (n : x.Notify) (events : List MqttEvent)
      → Reach x laws s u
      → IsFresh s
      → u.running ≡ true
      → u.current_request ≡ some (req, id, n)
      → Acked events req id
      → let t = (handle_events x events u.task).1 in
        (u.awaiting ≡ some n) × (t.current_request ≡ none) × (laws.permit n t.world ≡ true)
  Reach-Acked {u = u} req id n events path fresh runs e acked =
      let (of_n, _, h) =
        Phase-Waits x laws u.awaiting u.queue u.task req id n e
          (IsExclusive-Phase u runs (Reach-IsExclusive path fresh)) in
      let (cleared, permit) = handle_events-Acked events req id n u.task h e acked in
      (of_n, cleared, permit)
