-- ===== src/Client/Exchange.antt =====
-- client/mod.rs: a client that calls `subscribe` and `publish`, together with the task that serves it.
pub mod Phases
pub mod Between
pub mod Steps
pub mod Exclusive
use mqtt_rust_scion.Prelude.{
  ℕ, ◌<◌, ◌≡◌, Bool, true, false, Option, none, some, List, [], ◌∷◌, ◌++◌, length,
}
use mqtt_rust_scion.Rust.{Outcome, ok}
use mqtt_rust_scion.Extern.ClientCrates.{ClientCrates, NotifyLaws}
use mqtt_rust_scion.Client.Connection.{Request, Event, request, Task, round}

-- The rounds of the loop go on.
abbrev pub goes_on : Outcome Bool → Bool
goes_on (ok b) = b
goes_on _ = false

module _ (x : ClientCrates) (laws : NotifyLaws x.scion.ScionAddr x.runtime) where
  -- The notification that the running method awaits, the channel of requests, and the task. A method
  -- borrows its client mutably, so that one method runs at a time.
  pub record Exchange : Type 0 where
    pub awaiting : Option x.Notify
    pub queue : List (Request × x.Notify)
    pub task : Task x
    pub open task use *
    pub running : Bool

  abbrev pub IsRequest : Event x.ScionAddr x.Notify → Type 0
  IsRequest (request req n) = Unit
  IsRequest _ = ⊥

  abbrev pub in_world : x.World → Exchange → Exchange
  in_world w s = record s { task = record s.task { world = w } }

  -- One round of the task on the event `e`.
  abbrev pub served : ℕ → x.ScionAddr → Event x.ScionAddr x.Notify → Exchange → Exchange
  served fuel local_addr e s =
      let (outcome, t) = round x fuel local_addr e s.task in
      record s { task = t; running = goes_on outcome }

  abbrev pub submitted : Request → Exchange → Exchange
  submitted req s =
      let (n, w) = x.new_notify s.world in
      record (in_world w s) { awaiting = some n; queue = s.queue ++ (req, n) ∷ [] }

  pub data Step : Exchange → Exchange → Type 0 where
    -- `subscribe` or `publish` makes a notification and sends the request, where the channel of
    -- capacity 1 has room.
    submits :
        (s : Exchange) (req : Request)
        → s.running ≡ true
        → s.awaiting ≡ none
        → length s.queue < 1
        → Step s (submitted req s)
    takes :
        (s : Exchange) (req : Request) (n : x.Notify) (rest : List (Request × x.Notify)) (fuel : ℕ)
        (local_addr : x.ScionAddr)
        → s.running ≡ true
        → s.queue ≡ (req, n) ∷ rest
        → Step s (record (served fuel local_addr (request req n) s) { queue = rest })
    acts :
        (s : Exchange) (fuel : ℕ) (local_addr : x.ScionAddr) (e : Event x.ScionAddr x.Notify)
        → s.running ≡ true
        → (IsRequest e → ⊥)
        → Step s (served fuel local_addr e s)
    -- `rcv` takes a message, while no other method runs.
    receives :
        (s : Exchange) (c : x.MessageChannel)
        → s.awaiting ≡ none
        → Step s (in_world (x.recv_message c s.world).1 s)
    -- The method has its permit and returns.
    returns :
        (s : Exchange) (n : x.Notify)
        → s.awaiting ≡ some n
        → laws.permit n s.world ≡ true
        → Step s (record (in_world (x.notified n s.world).1 s) { awaiting = none })

  pub data Reach (s : Exchange) : Exchange → Type 0 where
    here : Reach s s
    then : {t u : Exchange} → Reach s t → Step t u → Reach s u
