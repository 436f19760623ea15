-- ===== src/Rust/Text.antt =====
-- `str::trim` of the standard library.
pub mod Trim
use Prim.Native.String
use Prim.Native.String.{String}
use Prim.Native.Char.{code}
use mqtt_rust_scion.Prelude.{
  ℕ, ◌≡◌, Bool, true, false, ◌&&◌, ◌||◌, if◌then◌else◌, ltb, ◌==◌, nat_eq, arith,
}

-- `char::is_whitespace`: the code points with the Unicode property White_Space.
unfoldable pub is_whitespace : ℕ → Bool
is_whitespace c =
    (ltb 8 c && ltb c 14)
    || c == 0x20
    || c == 0x85
    || c == 0xA0
    || c == 0x1680
    || (ltb 0x1FFF c && ltb c 0x200B)
    || c == 0x2028
    || c == 0x2029
    || c == 0x202F
    || c == 0x205F
    || c == 0x3000

abbrev pub is_empty : String → Bool
is_empty String.[] = true
is_empty (String.◌∷◌ c s) = false

unfoldable pub trim_start : String → String
trim_start String.[] = String.[]
trim_start (String.◌∷◌ c s) = if is_whitespace (code c) then trim_start s else String.◌∷◌ c s

-- A character stays if it is no white space, or if one after it stays.
unfoldable pub trim_end : String → String
trim_end String.[] = String.[]
trim_end (String.◌∷◌ c s) =
    let rest = trim_end s in
    if is_empty rest && is_whitespace (code c) then String.[] else String.◌∷◌ c rest

unfoldable pub trim : String → String
trim s = trim_end (trim_start s)
