-- ===== src/Rust.antt =====
-- What the program uses of Rust and its standard library: results of code that may panic, slices
-- of bytes with their bounds checks, and socket addresses.
pub mod Text
use Prim.Native.Char.{code}
use Prim.Native.String.{String}
use mqtt_rust_scion.Prelude.{
  ℕ, ◌+◌, ◌-◌, ◌≤◌, ◌≡◌, List, [], ◌∷◌, ◌++◌, ltb, ltb_of_le, if◌then◌else◌, take, drop, length,
  length-append, take-append, drop-append, arith,
}

abbrev pub Bytes : Type 0
Bytes = List ℕ

-- The bytes of an ASCII literal, `b"..."`.
abbrev pub ascii : String → Bytes
ascii String.[] = []
ascii (String.◌∷◌ c s) = code c ∷ ascii s

-- A pure function that may panic.
pub data Run {ℓ} (A : Type ℓ) : Type ℓ where
  done : A → Run A
  panic : Run A

infixl 5 ◌>>=◌
abbrev pub ◌>>=◌ {ℓ κ} : {A : Type ℓ} {B : Type κ} → Run A → (A → Run B) → Run B
done a >>= f = f a
panic >>= f = panic

-- `a - b` on `usize`, which panics below 0 under overflow checks.
unfoldable pub sub_usize : ℕ → ℕ → Run ℕ
sub_usize a b = if ltb a b then panic else done (a - b)

module _ {ℓ} {A : Type ℓ} where
  -- `&xs[..end]`
  unfoldable pub slice_to : List A → ℕ → Run (List A)
  slice_to xs end = if ltb (length xs) end then panic else done (take end xs)

  -- `&xs[start..]`
  unfoldable pub slice_from : List A → ℕ → Run (List A)
  slice_from xs start = if ltb (length xs) start then panic else done (drop start xs)

  -- `&xs[start..end]`
  unfoldable pub slice : List A → ℕ → ℕ → Run (List A)
  slice xs start end =
      if ltb end start
      then panic
      else if ltb (length xs) end
      then panic
      else done (take (end - start) (drop start xs))

  -- `xs.split_at(mid)`
  unfoldable pub split_at : List A → ℕ → Run (List A × List A)
  split_at xs mid = if ltb (length xs) mid then panic else done (take mid xs, drop mid xs)

-- The cuts of a list that is known in parts.
module _ {ℓ} {A : Type ℓ} where
  pub slice_to-append :
      {zs : List A} (n : ℕ) (xs ys : List A)
      → zs ≡ xs ++ ys
      → length xs ≡ n
      → slice_to zs n ≡ done xs
  unfolding slice_to
  slice_to-append n xs ys e l = rw e (ground (arith, length-append xs ys, take-append n xs ys l))

  pub slice_from-append :
      {zs : List A} (n : ℕ) (xs ys : List A)
      → zs ≡ xs ++ ys
      → length xs ≡ n
      → slice_from zs n ≡ done ys
  unfolding slice_from
  slice_from-append n xs ys e l = rw e (ground (arith, length-append xs ys, drop-append n xs ys l))

  pub split_at-append :
      {zs : List A} (n : ℕ) (xs ys : List A)
      → zs ≡ xs ++ ys
      → length xs ≡ n
      → split_at zs n ≡ done (xs, ys)
  unfolding split_at
  split_at-append n xs ys e l =
      rw e (ground (arith, length-append xs ys, take-append n xs ys l, drop-append n xs ys l))

  pub slice-append :
      {ws : List A} (n m : ℕ) (xs ys zs : List A)
      → ws ≡ xs ++ (ys ++ zs)
      → length xs ≡ n
      → n + length ys ≡ m
      → slice ws n m ≡ done ys
  unfolding slice
  slice-append n m xs ys zs e l k = rw (
    e,
    ltb_of_le m n (omega arith),
    ltb_of_le (length (xs ++ (ys ++ zs))) m
        (omega (arith, length-append xs (ys ++ zs), length-append ys zs)),
    drop-append n xs (ys ++ zs) l,
    take-append (m - n) ys zs (omega arith),
  )

pub sub_usize_lem : (a b : ℕ) → b ≤ a → sub_usize a b ≡ done (a - b)
unfolding sub_usize
sub_usize_lem a b h = ground arith

-- `std::net::IpAddr`, by its octets.
pub data IpAddr : Type 0 where
  v4 : Bytes → IpAddr
  v6 : Bytes → IpAddr

-- `a.octets().to_vec()`
abbrev pub octets : IpAddr → Bytes
octets (v4 a) = a
octets (v6 a) = a

-- `std::net::SocketAddr`
pub record SocketAddr : Type 0 where
  pub ip : IpAddr
  pub port : ℕ

-- An error: of `anyhow!` with its text, or one that a crate returned.
pub data Error : Type 0 where
  message : String → Error
  foreign : Error

-- How an async body ends: with a value, by `return Err`, by a panic, or not at all, since what it
-- awaits never comes (`waiting`). `no_fuel` marks a loop of the model that was given fewer rounds
-- than the loop of the program makes.
pub data Outcome {ℓ} (A : Type ℓ) : Type ℓ where
  ok : A → Outcome A
  err : Error → Outcome A
  panicked : Outcome A
  waiting : Outcome A
  no_fuel : Outcome A
