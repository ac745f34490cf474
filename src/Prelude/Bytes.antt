-- ===== src/Prelude/Bytes.antt =====
-- Byte strings.
use Prim.Native.Nat.{ℕ}
use mathlib.Core.List.{List}

-- `Vec<u8>`, `Bytes`, `RawBytes`: the numbers stand for bytes.
abbrev pub Bytes : Type 0
Bytes = List ℕ
