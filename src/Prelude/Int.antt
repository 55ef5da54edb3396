-- ===== src/Prelude/Int.antt =====
-- Signed integers over the native numbers, and the C type `s16`.
use Prim.Native.Nat.{ℕ, suc, ◌-◌, ◌%◌, ◌^◌}
use cs444_operating_systems.Prelude.Tests.{ltb, leb, if◌then◌else◌}

-- `negsuc n` is -(n + 1).
pub data ℤ : Type 0 where
  pos : ℕ → ℤ
  negsuc : ℕ → ℤ

abbrev pub pos_part : ℤ → ℕ
pos_part (pos n) = n
pos_part (negsuc n) = 0

abbrev pub neg_part : ℤ → ℕ
neg_part (pos n) = 0
neg_part (negsuc n) = suc n

-- a - b, as an integer.
abbrev pub sub_ℕ : ℕ → ℕ → ℤ
sub_ℕ a b = if leb b a then pos (a - b) else negsuc (b - a - 1)

-- - z
abbrev pub neg : ℤ → ℤ
neg z = sub_ℕ (neg_part z) (pos_part z)

-- The conversion to a signed 16-bit integer: it wraps.
abbrev pub to_s16 : ℤ → ℤ
to_s16 (pos n) =
    if ltb (n % 0x10000) 0x8000 then pos (n % 0x10000) else negsuc (0xffff - n % 0x10000)
to_s16 (negsuc n) =
    if ltb (n % 0x10000) 0x8000 then negsuc (n % 0x10000) else pos (0xffff - n % 0x10000)

-- The conversion to an unsigned 16-bit integer: it wraps.
abbrev pub to_u16 : ℤ → ℕ
to_u16 (pos n) = n % 2 ^ 16
to_u16 (negsuc n) = 2 ^ 16 - 1 - n % 2 ^ 16
