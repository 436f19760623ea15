-- ===== src/Proxy/Token.antt =====
-- The address validation tokens of the proxy, `mint_token` and `validate_token` of proxy/mod.rs.
mod Laws
pub mod Validity
use mqtt_rust_scion.Prelude.{
  ℕ, ◌+◌, Bool, true, false, not, Option, none, some, List, [], ◌∷◌, ◌++◌, length, ltb,
  if◌then◌else◌, ◌==◌, list_eq, nat_eq,
}
use mqtt_rust_scion.Rust.{
  Bytes, Run, done, ◌>>=◌, sub_usize, slice_to, slice_from, slice, split_at, SocketAddr, octets,
}
use mqtt_rust_scion.Extern.Ring.{Hmac}
use mqtt_rust_scion.Extern.Quiche.{Header}

-- b"mqtt-rust-scion"
unfoldable pub token_prefix : Bytes
token_prefix =
    b'm' ∷ b'q' ∷ b't' ∷ b't' ∷ b'-' ∷ b'r' ∷ b'u' ∷ b's' ∷ b't' ∷ b'-' ∷ b's' ∷ b'c' ∷ b'i' ∷ b'o'
    ∷ b'n' ∷ []

abbrev pub hmac_tag_len : ℕ
hmac_tag_len = 32

-- The test `token[P..].len() < addr.len() || &token[P..P + addr.len()] != addr`.
unfoldable pub address_differs : Bytes → Bytes → Run Bool
address_differs token addr = do
  rest ← slice_from token (length token_prefix)
  if ltb (length rest) (length addr) then done true else do
    found ← slice token (length token_prefix) (length token_prefix + length addr)
    done (not (found == addr))

module _ (h : Hmac) where
  open h use {Key, sign, verify}

  unfoldable pub mint_token : Key → Header → SocketAddr → Bytes
  mint_token token_key hdr src =
      let token = token_prefix ++ (octets src.ip ++ hdr.dcid) in token ++ sign token_key token

  unfoldable pub validate_token : Key → SocketAddr → Bytes → Run (Option Bytes)
  validate_token token_key src token =
      if ltb (length token) (length token_prefix) then done none else do
        start ← slice_to token (length token_prefix)
        if not (start == token_prefix) then done none else do
          let addr = octets src.ip
          differs ← address_differs token addr
          let min_len = length token_prefix + length addr + hmac_tag_len
          if differs then done none else if ltb (length token) min_len then done none else do
            tag_start ← sub_usize (length token) hmac_tag_len
            (signed, tag) ← split_at token tag_start
            if not (verify token_key signed tag) then done none else do
              let dcid_start = length token_prefix + length addr
              dcid_end ← sub_usize (length token) hmac_tag_len
              dcid ← slice token dcid_start dcid_end
              done (some dcid)
