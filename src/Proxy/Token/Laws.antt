-- ===== src/Proxy/Token/Laws.antt =====
-- What `validate_token` accepts, and that it accepts what `mint_token` mints.
use mqtt_rust_scion.Prelude.{
  ◌+◌, ◌-◌, ◌≤◌, ◌≡◌, refl, sym, ap, ◌∙◌, ◌⊎◌, inl, inr, true, false, none, some, ◌++◌, length,
  length-append, ltb_of_le, append_assoc, ltb, if◌then◌else◌, ◌==◌, list_eq, nat_eq, list_beq_iff,
  Bool-cases, split_front, beq_refl, arith,
}
use mqtt_rust_scion.Rust.{
  Bytes, slice_from, done, slice_to-append, slice_from-append, slice-append, split_at-append,
  sub_usize_lem, SocketAddr, octets,
}
use mqtt_rust_scion.Extern.Ring.{Hmac}
use mqtt_rust_scion.Proxy.Token.{token_prefix, hmac_tag_len, address_differs, validate_token}

-- The four parts of a token.
abbrev pub token_of : Bytes → Bytes → Bytes → Bytes
token_of addr dcid tag = (token_prefix ++ (addr ++ dcid)) ++ tag

length-token_prefix : length token_prefix ≡ 15
unfolding token_prefix
length-token_prefix = refl

pub token_of-split :
    (addr dcid tag : Bytes) → token_of addr dcid tag ≡ token_prefix ++ (addr ++ (dcid ++ tag))
token_of-split addr dcid tag = simp append_assoc

token_of-middle :
    (addr dcid tag : Bytes) → token_of addr dcid tag ≡ (token_prefix ++ addr) ++ (dcid ++ tag)
token_of-middle addr dcid tag = simp append_assoc

length-token_of :
    (addr dcid tag : Bytes)
    → length (token_of addr dcid tag) ≡ length token_prefix + length addr + length dcid + length tag
length-token_of addr dcid tag = omega (
  arith,
  length-append (token_prefix ++ (addr ++ dcid)) tag,
  length-append token_prefix (addr ++ dcid),
  length-append addr dcid,
)

address_differs-token_of :
    (addr dcid tag : Bytes) → address_differs (token_of addr dcid tag) addr ≡ done false
unfolding address_differs
address_differs-token_of addr dcid tag = rw (
  slice_from-append (length token_prefix) token_prefix (addr ++ (dcid ++ tag))
      (token_of-split addr dcid tag) refl,
  ltb_of_le (length (addr ++ (dcid ++ tag))) (length addr)
      (omega (arith, length-append addr (dcid ++ tag))),
  slice-append (length token_prefix) (length token_prefix + length addr) token_prefix addr
      (dcid ++ tag) (token_of-split addr dcid tag) refl refl,
  beq_refl addr,
)

module _ (h : Hmac) (key : h.Key) (src : SocketAddr) where
  pub validate_token-token_of :
      (dcid tag : Bytes)
      → length tag ≡ hmac_tag_len
      → validate_token h key src (token_of (octets src.ip) dcid tag)
        ≡ done
            (if h.verify key (token_prefix ++ (octets src.ip ++ dcid)) tag then some dcid else none)
  unfolding validate_token
  validate_token-token_of dcid tag e =
      let addr = octets src.ip in
      let size = length-token_of addr dcid tag in
      let signed_size : length (token_prefix ++ (addr ++ dcid))
          ≡ length token_prefix + length addr + length dcid =
        omega (arith, length-append token_prefix (addr ++ dcid), length-append addr dcid) in
      rw
        (
          ltb_of_le (length (token_of addr dcid tag)) (length token_prefix) (omega arith),
          slice_to-append (length token_prefix) token_prefix (addr ++ (dcid ++ tag))
              (token_of-split addr dcid tag) refl,
          beq_refl token_prefix,
          address_differs-token_of addr dcid tag,
          ltb_of_le (length (token_of addr dcid tag))
              (length token_prefix + length addr + hmac_tag_len) (omega arith),
          sub_usize_lem (length (token_of addr dcid tag)) hmac_tag_len (omega arith),
          split_at-append (length (token_of addr dcid tag) - hmac_tag_len)
              (token_prefix ++ (addr ++ dcid)) tag refl (omega (arith, signed_size)),
          slice-append (length token_prefix + length addr)
              (length (token_of addr dcid tag) - hmac_tag_len) (token_prefix ++ addr) dcid tag
              (token_of-middle addr dcid tag) (length-append token_prefix addr) (omega arith),
        )
        (ground arith)

-- The address test on a token that begins with the prefix.
address_differs-cases :
    {token : Bytes} (rest addr : Bytes)
    → token ≡ token_prefix ++ rest
    → (address_differs token addr ≡ done true)
      ⊎ ((more : Bytes) × (rest ≡ addr ++ more) × (address_differs token addr ≡ done false))
unfolding address_differs
address_differs-cases {token} rest addr e = elim (Bool-cases (ltb (length rest) (length addr))) [
  | inl short ↦ inl (rw (front, short))
  | inr enough ↦
      let (found, more, cut, l) = split_front (length addr) rest (ground arith) in
      let middle : token ≡ token_prefix ++ (found ++ more) = e ∙ ap (◌++◌ token_prefix) cut in
      let found_at =
        slice-append (length token_prefix) (length token_prefix + length addr) token_prefix found
          more middle refl (omega arith) in
      elim (Bool-cases (found == addr)) [
        | inl same ↦
            inr (
              more,
              rw (← (list_beq_iff found addr).0 same) cut,
              rw (front, enough, found_at, same),
            )
        | inr other ↦ inl (rw (front, enough, found_at, other))
      ]
]
  where
    front : slice_from token (length token_prefix) ≡ done rest
    front = slice_from-append (length token_prefix) token_prefix rest e refl

-- After the address: a token that is long enough ends in a connection ID and a tag.
abbrev pub IsToken : Bytes → Bytes → Type 0
IsToken addr token =
    (dcid : Bytes) × (tag : Bytes) × (token ≡ token_of addr dcid tag) × (length tag ≡ hmac_tag_len)

tail-IsToken :
    (addr more : Bytes) {token : Bytes}
    → token ≡ token_prefix ++ (addr ++ more)
    → length token_prefix + length addr + hmac_tag_len ≤ length token
    → IsToken addr token
tail-IsToken addr more {token} e enough =
    let size : length (token_prefix ++ (addr ++ more))
        ≡ length token_prefix + length addr + length more =
      omega (arith, length-append token_prefix (addr ++ more), length-append addr more) in
    let (dcid, tag, cut, l) = split_front (length more - hmac_tag_len) more (omega arith) in
    (
      dcid,
      tag,
      e ∙ ap (λ (t : Bytes). token_prefix ++ (addr ++ t)) cut ∙ sym (token_of-split addr dcid tag),
      omega (arith, ap length e, ap length cut, length-append dcid tag),
    )

module _ (h : Hmac) (key : h.Key) (src : SocketAddr) where
  -- Whatever the bytes, a token that has not the four parts of a token of this address is refused.
  pub validate_token-cases :
      (token : Bytes) → IsToken (octets src.ip) token ⊎ (validate_token h key src token ≡ done none)
  unfolding validate_token
  validate_token-cases token = elim (Bool-cases (ltb (length token) (length token_prefix))) [
    | inl short ↦ inr (rw short)
    | inr long ↦
        let (start, rest, cut, l) = split_front (length token_prefix) token (ground arith) in
        let start_at = slice_to-append (length token_prefix) start rest cut l in
        elim (Bool-cases (start == token_prefix)) [
          | inr other ↦ inr (rw (long, start_at, other))
          | inl same ↦
              elim (address_differs-cases rest (octets src.ip)
                (cut ∙ ap (λ (t : Bytes). t ++ rest) ((list_beq_iff start token_prefix).0 same))) [
                  | inl differs ↦ inr (rw (long, start_at, same, differs))
                  | inr (more, rest_is, agrees) ↦
                      elim (Bool-cases (
                        ltb (length token)
                          (length token_prefix + length (octets src.ip) + hmac_tag_len))) [
                            | inl few ↦ inr (rw (long, start_at, same, agrees, few))
                            | inr enough ↦ inl (
                                tail-IsToken (octets src.ip) more
                                  (cut
                                    ∙ ap (λ (t : Bytes). t ++ rest)
                                        ((list_beq_iff start token_prefix).0 same)
                                    ∙ ap (◌++◌ token_prefix) rest_is)
                                  (ground arith))
                          ]
                ]
        ]
  ]
