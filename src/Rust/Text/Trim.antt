-- ===== src/Rust/Text/Trim.antt =====
-- What `trim` leaves of a text.
use Prim.Native.String.{String}
use Prim.Native.Char.{code}
use mqtt_rust_scion.Prelude.{◌≡◌, refl, ◌∙◌, Bool, true, ◌&&◌, arith}
use mqtt_rust_scion.Rust.Text.{is_whitespace, is_empty, trim_start, trim_end, trim}

-- The text is all white space.
abbrev pub is_blank : String → Bool
is_blank String.[] = true
is_blank (String.◌∷◌ c s) = is_whitespace (code c) && is_blank s

is_empty-trim_end : (s : String) → is_empty (trim_end s) ≡ is_blank s
unfolding trim_end
is_empty-trim_end String.[] = refl
is_empty-trim_end (String.◌∷◌ c s) = ground (arith, is_empty-trim_end s)

is_blank-trim_start : (s : String) → is_blank (trim_start s) ≡ is_blank s
unfolding trim_start
is_blank-trim_start String.[] = refl
is_blank-trim_start (String.◌∷◌ c s) = ground (arith, is_blank-trim_start s)

-- Nothing is left exactly of a text that is all white space.
pub is_empty-trim : (s : String) → is_empty (trim s) ≡ is_blank s
unfolding trim
is_empty-trim s = is_empty-trim_end (trim_start s) ∙ is_blank-trim_start s
