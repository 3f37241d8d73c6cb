-- ===== src/Prelude/Bytes.antt =====
-- Byte buffers. A pointer into a buffer is the list of the bytes from it to the buffer's end; a read
-- past the end is `none`. The accessors of 3rd/librtmp/include/rtmp-util.h; `a | b` on operands with
-- no common bit is written as a sum, and `x >> k`, `x & (2^k - 1)` as `/` and `%`.
use Prim.Native.Nat.{ℕ, ◌+◌, ◌*◌, ◌/◌, ◌%◌, ◌^◌, ◌<◌}
use mathlib.Core.Path.{◌≡◌}
use mathlib.Core.List.{List, [], ◌∷◌, ◌++◌}
use mathlib.Core.Option.{Option, none, some}
use native.Mathlib.Omega.{arith}

infixl 5 ◌>>=◌
abbrev pub ◌>>=◌ {ℓ κ} : {A : Type ℓ} {B : Type κ} → Option A → (A → Option B) → Option B
none >>= f = none
some a >>= f = f a

abbrev pub IsU24 : ℕ → Type 0
IsU24 v = v < 2 ^ 24

abbrev pub IsU32 : ℕ → Type 0
IsU32 v = v < 2 ^ 32

unfoldable pub be_write_uint16 : ℕ → List ℕ
be_write_uint16 val = (val / 2 ^ 8 % 256) ∷ (val % 256) ∷ []

unfoldable pub be_write_uint24 : ℕ → List ℕ
be_write_uint24 val = (val / 2 ^ 16 % 256) ∷ (val / 2 ^ 8 % 256) ∷ (val % 256) ∷ []

unfoldable pub be_write_uint32 : ℕ → List ℕ
be_write_uint32 val =
    (val / 2 ^ 24 % 256) ∷ (val / 2 ^ 16 % 256) ∷ (val / 2 ^ 8 % 256) ∷ (val % 256) ∷ []

unfoldable pub le_write_uint32 : ℕ → List ℕ
le_write_uint32 val =
    (val % 256) ∷ (val / 2 ^ 8 % 256) ∷ (val / 2 ^ 16 % 256) ∷ (val / 2 ^ 24 % 256) ∷ []

unfoldable pub be_read_uint16 : List ℕ → Option ℕ
be_read_uint16 (a ∷ b ∷ _) = some (a * 2 ^ 8 + b)
be_read_uint16 _ = none

unfoldable pub be_read_uint24 : List ℕ → Option ℕ
be_read_uint24 (a ∷ b ∷ c ∷ _) = some (a * 2 ^ 16 + b * 2 ^ 8 + c)
be_read_uint24 _ = none

unfoldable pub be_read_uint32 : List ℕ → Option ℕ
be_read_uint32 (a ∷ b ∷ c ∷ d ∷ _) = some (a * 2 ^ 24 + b * 2 ^ 16 + c * 2 ^ 8 + d)
be_read_uint32 _ = none

unfoldable pub le_read_uint32 : List ℕ → Option ℕ
le_read_uint32 (a ∷ b ∷ c ∷ d ∷ _) = some (a + b * 2 ^ 8 + c * 2 ^ 16 + d * 2 ^ 24)
le_read_uint32 _ = none

pub be_read_uint16-be_write_uint16 :
    (v : ℕ) (rest : List ℕ) → v < 2 ^ 16 → be_read_uint16 (be_write_uint16 v ++ rest) ≡ some v
unfolding be_read_uint16 be_write_uint16
be_read_uint16-be_write_uint16 v rest h = ground arith

pub be_read_uint24-be_write_uint24 :
    (v : ℕ) (rest : List ℕ) → IsU24 v → be_read_uint24 (be_write_uint24 v ++ rest) ≡ some v
unfolding be_read_uint24 be_write_uint24
be_read_uint24-be_write_uint24 v rest h = ground arith

pub be_read_uint32-be_write_uint32 :
    (v : ℕ) (rest : List ℕ) → IsU32 v → be_read_uint32 (be_write_uint32 v ++ rest) ≡ some v
unfolding be_read_uint32 be_write_uint32
be_read_uint32-be_write_uint32 v rest h = ground arith

pub le_read_uint32-le_write_uint32 :
    (v : ℕ) (rest : List ℕ) → IsU32 v → le_read_uint32 (le_write_uint32 v ++ rest) ≡ some v
unfolding le_read_uint32 le_write_uint32
le_read_uint32-le_write_uint32 v rest h = ground arith
