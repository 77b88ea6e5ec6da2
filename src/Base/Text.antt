-- ===== src/Base/Text.antt =====
-- C strings: the bytes before the terminating NUL.
use Prim.Native.Nat.{ℕ, ◌<◌}
use Prim.Native.Char.{code}
use Prim.Native.String.{String}
use mathlib.Core.List.{List, [], ◌∷◌}
use code_samples.Base.Lists.{All}

abbrev pub Bytes : Type 0
Bytes = List ℕ

abbrev pub codes : String → Bytes
codes String.[] = []
codes (String.◌∷◌ c s) = code c ∷ codes s

-- What a C string can hold: bytes other than NUL.
abbrev pub IsCharacter : ℕ → Type 0
IsCharacter c = (0 < c) × (c < 256)

abbrev pub IsCString : Bytes → Type 0
IsCString = All IsCharacter
