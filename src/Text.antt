-- ===== src/Text.antt =====
-- What the program takes from Rust's standard library for texts. A text is the list of its UTF-8
-- bytes.
pub mod Decimal
pub mod Words
pub mod Utf8
pub mod Fields
pub mod Sizes
pub mod Lines
pub mod LineTrip
use Prim.Native.Char.{code}
use Prim.Native.String.{String}
use meshlet.Common.{List, [], ◌∷◌, Bytes}

-- The bytes of an ASCII literal.
abbrev pub codes : String → Bytes
codes String.[] = []
codes (String.◌∷◌ c s) = code c ∷ codes s
