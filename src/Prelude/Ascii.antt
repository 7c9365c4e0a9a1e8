-- ===== src/Prelude/Ascii.antt =====
-- String literals as byte strings.
use Prim.Native.Char.{code}
use Prim.Native.String.{String}
use uco.Prelude.Bytes.{Bytes}
use mathlib.Core.List.{[], ◌∷◌}

abbrev pub ascii : String → Bytes
ascii String.[] = []
ascii (String.◌∷◌ c s) = code c ∷ ascii s
