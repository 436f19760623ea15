-- ===== src/Python/Lock.antt =====
-- python.rs: the lock around the client, and the exceptions of `connect`.
use Prim.Native.String.{String}
use mqtt_rust_scion.Prelude.{
  ℕ, ◌≡◌, refl, ◌⊎◌, inl, inr, true, Bool-cases, Option-cases, Option, none, some, arith,
}
use mqtt_rust_scion.Rust.{Bytes, Error, Outcome, ok, err, panicked, waiting, no_fuel, message}
use mqtt_rust_scion.Extern.ClientCrates.{ClientCrates}
use mqtt_rust_scion.Client.Setup.{ClientHost}
use mqtt_rust_scion.Client.Api.{RequestRuntime, Session, rcv}
use mqtt_rust_scion.Client.Api as Client
use mqtt_rust_scion.Python.{
  PyErr, value_error, connection_error, raised, Parsers, map_err, Locks, at_world, PyMqttClient,
  with_lock, connect,
}

map_err-raised :
    {A : Type 0} (f : Error → PyErr) (o : Outcome A) (e : PyErr)
    → map_err f o ≡ ok (raised e)
    → (e' : Error) × (o ≡ err e') × (e ≡ f e')
map_err-raised f (ok a) e h = cc
map_err-raised f (err e') e h = (e', refl, cc)
map_err-raised f panicked e h = cc
map_err-raised f waiting e h = cc
map_err-raised f no_fuel e h = cc

module _ (x : ClientCrates) (h : ClientHost x) (r : RequestRuntime x)
    (p : Parsers h.Url h.FilePath x.ScionAddr) (locks : Locks x.World) where
  -- An exception that `connect` raises is a `ValueError`, for an address that does not parse, and then
  -- the client is as before; or it is a `ConnectionError` with the error by which `Client::connect` ends
  -- once the lock is taken, and then the lock is released.
  pub connect-raised :
      (fill : ℕ → x.World → Option Bytes × x.World) (remote : String)
      (self : PyMqttClient x h r p locks) (e : PyErr)
      → (connect x h r p locks fill remote self).0 ≡ ok (raised e)
      → let (locked, w) = locks.lock self.mutex self.world in
        ((p.parse_addr remote ≡ none)
          × (e ≡ value_error (message "Invalid SCION address"))
          × ((connect x h r p locks fill remote self).1 ≡ self))
        ⊎ ((addr : x.ScionAddr) × (cause : Error) × (p.parse_addr remote ≡ some addr)
            × (locked ≡ true)
            × ((Client.connect x h r fill addr (at_world x h r p locks self.inner w)).0 ≡ err cause)
            × (e ≡ connection_error "Connection failed" cause)
            × ((connect x h r p locks fill remote self).1.world
                ≡ locks.unlock self.mutex
                    (Client.connect x h r fill addr (at_world x h r p locks self.inner w)).1.world))
  unfolding connect with_lock
  connect-raised fill remote self e raise = elim (Option-cases (p.parse_addr remote)) [
    | inl missing ↦ inl (ground arith)
    | inr (addr, parsed) ↦ elim (Bool-cases (locks.lock self.mutex self.world).0) [
      | inr blocked ↦ absurd (ground arith)
      | inl taken ↦
          let w = (locks.lock self.mutex self.world).1 in
          let ended = (Client.connect x h r fill addr (at_world x h r p locks self.inner w)).0 in
          let raises : map_err (connection_error "Connection failed") ended ≡ ok (raised e) =
            ground arith in
          let (cause, failed, same) =
            map_err-raised (connection_error "Connection failed") ended e raises in
          inr (addr, cause, parsed, taken, failed, same, ground arith)
    ]
  ]
