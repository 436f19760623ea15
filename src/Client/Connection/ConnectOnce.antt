-- ===== src/Client/Connection/ConnectOnce.antt =====
-- client/mod.rs: the mark that CONNECT was sent.
use mqtt_rust_scion.Prelude.{◌≡◌, true}
use mqtt_rust_scion.Extern.ClientCrates.{ClientCrates}
use mqtt_rust_scion.Exec.Keeps.{Keeps}
use mqtt_rust_scion.Client.Connection.{Task}

module _ (x : ClientCrates) where
  pub record HasConnected (t : Task x) : Type 0 where
    pub sent : t.mqtt_init_sent ≡ true
