-- ===== src/Proxy/Token/Validity.antt =====
-- Which tokens the proxy accepts, for which address, and what it reads from them.
use mathlib.Core.List.{append_cancel_left}
use mqtt_rust_scion.Prelude.{
  ℕ, ◌≡◌, refl, sym, ap, ◌∙◌, ◌↔◌, inl, inr, true, Option, none, some, ◌++◌, length, length-append,
  take, take-append, append_assoc, Bool-cases, arith, if◌then◌else◌,
}
use mqtt_rust_scion.Rust.{Bytes, done, v4, v6, SocketAddr, octets}
use mqtt_rust_scion.Extern.Ring.{Hmac, HmacLaws}
use mqtt_rust_scion.Extern.Quiche.{Header}
use mqtt_rust_scion.Proxy.Token.{token_prefix, hmac_tag_len, mint_token, validate_token}
use mqtt_rust_scion.Proxy.Token.Laws.{
  token_of, token_of-split, validate_token-token_of, validate_token-cases,
}

-- `validate_token` returns on every input: no slice is out of bounds, no subtraction underflows.
pub validate_token_total :
    (h : Hmac) (key : h.Key) (src : SocketAddr) (token : Bytes)
    → (r : Option Bytes) × (validate_token h key src token ≡ done r)
validate_token_total h key src token = elim (validate_token-cases h key src token) [
  | inl (dcid, tag, e, l) ↦ (
    (if h.verify key (token_prefix ++ (octets src.ip ++ dcid)) tag then some dcid else none),
    ap (validate_token h key src) e ∙ validate_token-token_of h key src dcid tag l,
  )
  | inr refused ↦ (none, refused)
]

-- A token that holds an address, a connection ID and a tag that verifies.
abbrev pub IsSigned : (h : Hmac) → h.Key → Bytes → Bytes → Bytes → Type 0
IsSigned h key addr token dcid =
    (tag : Bytes) × (token ≡ token_of addr dcid tag)
    × (length tag ≡ hmac_tag_len)
    × (h.verify key (token_prefix ++ (addr ++ dcid)) tag ≡ true)

-- The token is accepted, with connection ID `dcid`, exactly when it is the prefix, the octets of the
-- source address, `dcid` and a 32-byte tag that verifies over the three.
pub validate_token_iff :
    (h : Hmac) (key : h.Key) (src : SocketAddr) (token dcid : Bytes)
    → (validate_token h key src token ≡ done (some dcid))
      ↔ IsSigned h key (octets src.ip) token dcid
validate_token_iff h key src token dcid = (accepted, λ signed. accepts signed)
  where
    accepted :
        validate_token h key src token ≡ done (some dcid)
        → IsSigned h key (octets src.ip) token dcid
    accepted ok = elim (validate_token-cases h key src token) [
      | inr refused ↦ cc
      | inl (d, tag, e, l) ↦
          let known =
            sym ok ∙ ap (validate_token h key src) e ∙ validate_token-token_of h key src d tag l in
          elim (Bool-cases (h.verify key (token_prefix ++ (octets src.ip ++ d)) tag)) [
            | inr bad ↦ cc
            | inl good ↦
                let same : d ≡ dcid = ground arith in
                (
                  tag,
                  e ∙ ap (λ (t : Bytes). token_of (octets src.ip) t tag) same,
                  l,
                  ap (λ (t : Bytes). h.verify key (token_prefix ++ (octets src.ip ++ t)) tag)
                        (sym same)
                      ∙ good,
                )
          ]
    ]

    accepts :
        IsSigned h key (octets src.ip) token dcid
        → validate_token h key src token ≡ done (some dcid)
    accepts (tag, e, l, good) =
        ap (validate_token h key src) e
        ∙ validate_token-token_of h key src dcid tag l
        ∙ rw good refl

-- The two parts of a token before and after a cut are known if their lengths are.
append-inj :
    (xs ys us vs : Bytes) → xs ++ us ≡ ys ++ vs → length xs ≡ length ys → (xs ≡ ys) × (us ≡ vs)
append-inj xs ys us vs e l =
    (front, append_cancel_left ys us vs (ap (λ (t : Bytes). t ++ us) (sym front) ∙ e))
  where
    front : xs ≡ ys
    front =
        sym (take-append (length xs) xs us refl)
        ∙ ap (take (length xs)) e
        ∙ take-append (length xs) ys vs (sym l)

token_of-inj :
    (a b c d s t : Bytes)
    → token_of a c s ≡ token_of b d t
    → length a ≡ length b
    → length s ≡ length t
    → (a ≡ b) × (c ≡ d)
token_of-inj a b c d s t e la ls =
    let tails =
      append-inj a b (c ++ s) (d ++ t)
        (append_cancel_left token_prefix _ _
          (sym (token_of-split a c s) ∙ e ∙ token_of-split b d t))
        la in
    (
      tails.0,
      (append-inj c d s t tails.1
          (omega (arith, ap length tails.1, length-append c s, length-append d t))).0,
    )

module _ (h : Hmac) (laws : HmacLaws h) (key : h.Key) where
  -- Round trip: the proxy accepts its own token from the same address, on any port, and reads the
  -- connection ID of the packet that the token was minted for.
  pub validate_token-mint_token :
      (hdr : Header) (src again : SocketAddr)
      → again.ip ≡ src.ip
      → validate_token h key again (mint_token h key hdr src) ≡ done (some hdr.dcid)
  unfolding mint_token
  validate_token-mint_token hdr src again same = (validate_token_iff h key again _ hdr.dcid).1 (
    h.sign key (token_prefix ++ (octets src.ip ++ hdr.dcid)),
    rw same refl,
    laws.length-sign key _,
    rw same (laws.verify-sign key _),
  )

  -- A token is bound to the address, and to the connection ID, that it was minted for: from an
  -- address with as many octets it is accepted only for both of these.
  pub validate_token_binds :
      (hdr : Header) (src other : SocketAddr) (dcid : Bytes)
      → length (octets src.ip) ≡ length (octets other.ip)
      → validate_token h key other (mint_token h key hdr src) ≡ done (some dcid)
      → (octets src.ip ≡ octets other.ip) × (hdr.dcid ≡ dcid)
  unfolding mint_token
  validate_token_binds hdr src other dcid family ok =
      let (tag, e, l, good) = (validate_token_iff h key other _ dcid).0 ok in
      token_of-inj (octets src.ip) (octets other.ip) hdr.dcid dcid _ tag e family
        (omega (arith, laws.length-sign key (token_prefix ++ (octets src.ip ++ hdr.dcid))))

  -- Nothing in a token separates the address from the connection ID. The token minted for the IPv4
  -- address with the octets `a`, and a connection ID that begins with `chosen`, is accepted from the
  -- IPv6 address with the octets `a ++ chosen`, and the rest is read as the connection ID.
  pub validate_token_crosses_families :
      (hdr : Header) (a chosen rest : Bytes) (port other_port : ℕ)
      → hdr.dcid ≡ chosen ++ rest
      → validate_token h key
          (record { ip = v6 (a ++ chosen); port = other_port })
          (mint_token h key hdr (record { ip = v4 a; port = port }))
        ≡ done (some rest)
  unfolding mint_token
  validate_token_crosses_families hdr a chosen rest port other_port e =
      (validate_token_iff h key (record { ip = v6 (a ++ chosen); port = other_port }) _ rest).1 (
        h.sign key (token_prefix ++ (a ++ hdr.dcid)),
        rw regroup refl,
        laws.length-sign key _,
        rw regroup (laws.verify-sign key _),
      )
    where
      regroup : (a ++ chosen) ++ rest ≡ a ++ hdr.dcid
      regroup = append_assoc a chosen rest ∙ ap (◌++◌ a) (sym e)
