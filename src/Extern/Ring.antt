-- ===== src/Extern/Ring.antt =====
-- `ring::hmac` with HMAC-SHA-256: what the proxy calls of it, and what it relies on.
use mqtt_rust_scion.Prelude.{◌≡◌, Bool, true, length}
use mqtt_rust_scion.Rust.{Bytes}

pub record Hmac : Type 1 where
  pub Key : Type 0
  pub sign : Key → Bytes → Bytes
  pub verify : Key → Bytes → Bytes → Bool

-- Documented: a tag of `sign` has the length of a SHA-256 digest, and `verify` accepts it.
pub record HmacLaws (h : Hmac) : Type 0 where
  pub length-sign : (key : h.Key) (msg : Bytes) → length (h.sign key msg) ≡ 32
  pub verify-sign : (key : h.Key) (msg : Bytes) → h.verify key msg (h.sign key msg) ≡ true
