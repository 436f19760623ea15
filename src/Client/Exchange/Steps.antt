-- ===== src/Client/Exchange/Steps.antt =====
-- client/mod.rs: what the steps of a client and of its task make of the phases of a request.
use mqtt_rust_scion.Prelude.{
  ℕ, ◌≡◌, refl, sym, ap, subst, ◌∙◌, ◌⊎◌, inl, inr, Bool, true, Option, none, some, List, [], ◌∷◌,
  ◌++◌,
}
use mqtt_rust_scion.Rust.{ok}
use mqtt_rust_scion.Extern.ClientCrates.{ClientCrates, NotifyLaws}
use mqtt_rust_scion.Client.Connection.{
  Request, Event, timed_out, keepalive_tick, datagram, request, Task, round,
}
use mqtt_rust_scion.Client.Connection.Preserve.{IsStable, Starts, round-Keeps}
use mqtt_rust_scion.Client.Exchange.{Exchange, IsRequest, submitted}
use mqtt_rust_scion.Client.Exchange.Phases.{
  Queued, Waits, Held, Queued-IsStable, Waits-IsStable, round-Waits,
}
use mqtt_rust_scion.Client.Exchange.Between.{Idle, Idle-IsStable}

module _ (x : ClientCrates) (laws : NotifyLaws x.scion.ScionAddr x.runtime) where
  -- With no running method: no request anywhere. Otherwise one request, that of the method: in the
  -- channel, or with the task, or done.
  abbrev pub Phase : Option x.Notify → List (Request × x.Notify) → Task x → Type 0
  Phase none queue t = (queue ≡ []) × Idle x laws t
  Phase (some n) queue t =
      ((req : Request) × (queue ≡ (req, n) ∷ []) × Queued x laws n t)
      ⊎ ((queue ≡ []) × Waits x laws n t)

  pub submits-Phase :
      (s : Exchange x laws) (req : Request) (o : Option x.Notify)
      → s.awaiting ≡ o
      → o ≡ none
      → Phase s.awaiting s.queue s.task
      → let t = submitted x laws req s in Phase t.awaiting t.queue t.task
  submits-Phase s req o e idle h =
      let (empty, t) = subst (λ a. Phase a s.queue s.task) (e ∙ idle) h in
      inl (
        req,
        ap (λ q. q ++ (req, (x.new_notify s.world).0) ∷ []) empty,
        record {
          connect_issued = laws.issued-new_notify s.connect_notify s.world t.connect_issued;
          is_issued = laws.new-issued s.world;
          is_other = laws.new-fresh s.connect_notify s.world t.connect_issued;
          idle = t.idle;
          no_permit = laws.new-permit s.world;
        },
      )

  Starts-other :
      (P : Task x → Type 0) (stable : IsStable x P) (e : Event x.ScionAddr x.Notify)
      → (IsRequest x laws e → ⊥)
      → Starts x P stable e
  Starts-other P stable timed_out h = tt
  Starts-other P stable keepalive_tick h = tt
  Starts-other P stable (datagram bytes src) h = tt
  Starts-other P stable (request req n) h = elim (h tt) [ ]

  -- An event that is no request is handled by what the phases keep.
  pub acts-Phase :
      (fuel : ℕ) (local_addr : x.ScionAddr) (e : Event x.ScionAddr x.Notify)
      (awaiting : Option x.Notify) (queue : List (Request × x.Notify)) (t : Task x)
      → (IsRequest x laws e → ⊥)
      → Phase awaiting queue t
      → Phase awaiting queue (round x fuel local_addr e t).1
  acts-Phase fuel local_addr e none queue t other (empty, h) =
      let stable = Idle-IsStable x laws in
      (
        empty,
        (round-Keeps x (Idle x laws) stable fuel local_addr e
              (Starts-other (Idle x laws) stable e other)).at
            t h,
      )
  acts-Phase fuel local_addr e (some n) queue t other (inl (req, one, h)) =
      let stable = Queued-IsStable x laws n in
      inl (
        req,
        one,
        (round-Keeps x (Queued x laws n) stable fuel local_addr e
              (Starts-other (Queued x laws n) stable e other)).at
            t h,
      )
  acts-Phase fuel local_addr e (some n) queue t other (inr (empty, h)) =
      let stable = Waits-IsStable x laws n in
      inr (
        empty,
        (round-Keeps x (Waits x laws n) stable fuel local_addr e
              (Starts-other (Waits x laws n) stable e other)).at
            t h,
      )

  -- A request in the channel is that of the running method, alone, and not begun.
  pub Phase-Queued :
      (awaiting : Option x.Notify) (queue : List (Request × x.Notify)) (t : Task x) (req : Request)
      (n : x.Notify) (rest : List (Request × x.Notify))
      → queue ≡ (req, n) ∷ rest
      → Phase awaiting queue t
      → (awaiting ≡ some n) × (rest ≡ []) × Queued x laws n t
  Phase-Queued none queue t req n rest e (empty, h) = cc
  Phase-Queued (some m) queue t req n rest e (inl (req', one, h)) =
      let same : m ≡ n = cc in
      let alone : rest ≡ [] = cc in (ap some same, alone, subst (λ k. Queued x laws k t) same h)
  Phase-Queued (some m) queue t req n rest e (inr (empty, h)) = cc

  -- A pending request is that of the running method, which waits for it.
  pub Phase-Waits :
      (awaiting : Option x.Notify) (queue : List (Request × x.Notify)) (t : Task x) (req : Request)
      (id : ℕ) (n : x.Notify)
      → t.current_request ≡ some (req, id, n)
      → Phase awaiting queue t
      → (awaiting ≡ some n) × (queue ≡ []) × Waits x laws n t
  Phase-Waits none queue t req id n e (empty, h) = cc
  Phase-Waits (some m) queue t req id n e (inl (sent, one, h)) = cc
  Phase-Waits (some m) queue t req id n e (inr (empty, h)) =
      let same = (subst (λ r. Held x laws m r (laws.permit m t.world)) e h.held).0 in
      (ap some (sym same), empty, subst (λ k. Waits x laws k t) (sym same) h)

  pub takes-Phase :
      (fuel : ℕ) (local_addr : x.ScionAddr) (req : Request) (n : x.Notify)
      (rest : List (Request × x.Notify)) (awaiting : Option x.Notify)
      (queue : List (Request × x.Notify)) (t : Task x)
      → queue ≡ (req, n) ∷ rest
      → Phase awaiting queue t
      → (round x fuel local_addr (request req n) t).0 ≡ ok true
      → Phase awaiting rest (round x fuel local_addr (request req n) t).1
  takes-Phase fuel local_addr req n rest awaiting queue t e h good =
      let (of_n, one, q) = Phase-Queued awaiting queue t req n rest e h in
      subst (λ a. Phase a rest (round x fuel local_addr (request req n) t).1) (sym of_n)
        (inr (one, round-Waits x laws fuel local_addr req n t q good))

  Held-none :
      (n : x.Notify) (current : Option (Request × ℕ × x.Notify)) (permit : Bool)
      → permit ≡ true
      → Held x laws n current permit
      → current ≡ none
  Held-none n none permit done held = refl
  Held-none n (some (req, id, m)) permit done (same, denied) = cc

  pub receives-Phase :
      (c : x.MessageChannel) (awaiting : Option x.Notify) (queue : List (Request × x.Notify))
      (t : Task x)
      → awaiting ≡ none
      → Phase awaiting queue t
      → Phase awaiting queue (record t { world = (x.recv_message c t.world).1 })
  receives-Phase c none queue t idle (empty, h) = (
    empty,
    record {
      connect_issued = laws.issued-recv_message t.connect_notify c t.world h.connect_issued;
      idle = h.idle;
    },
  )
  receives-Phase c (some n) queue t idle h = cc

  pub returns-Phase :
      (n : x.Notify) (awaiting : Option x.Notify) (queue : List (Request × x.Notify)) (t : Task x)
      → awaiting ≡ some n
      → laws.permit n t.world ≡ true
      → Phase awaiting queue t
      → Phase none queue (record t { world = (x.notified n t.world).1 })
  returns-Phase n none queue t e permit h = cc
  returns-Phase n (some m) queue t e permit (inl (req, one, q)) = let same : m ≡ n = cc in cc
  returns-Phase n (some m) queue t e permit (inr (empty, w)) =
      let same : m ≡ n = cc in
      let done : laws.permit m t.world ≡ true = rw same permit in
      (
        empty,
        record {
          connect_issued = laws.issued-notified t.connect_notify n t.world w.connect_issued;
          idle = Held-none m t.current_request (laws.permit m t.world) done w.held;
        },
      )
