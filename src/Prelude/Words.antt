-- ===== src/Prelude/Words.antt =====
-- Shifts and masks of machine words.
use Prim.Native.Nat.{ℕ, ◌+◌, ◌*◌, ◌/◌, ◌%◌, ◌^◌}
use mathlib.Core.Option.{Option, none, some}
use structio.Prelude.Tests.{ltb, if◌then◌else◌}

-- x >> k
abbrev pub shr : ℕ → ℕ → ℕ
shr x k = x / 2 ^ k

-- x & (2^k - 1)
abbrev pub low_bits : ℕ → ℕ → ℕ
low_bits x k = x % 2 ^ k

-- x << k at eight bits, where what is shifted out is lost
abbrev pub shl8 : ℕ → ℕ → ℕ
shl8 x k = x * 2 ^ k % 256

-- x << k at 64 bits
abbrev pub shl64 : ℕ → ℕ → ℕ
shl64 x k = x * 2 ^ k % 2 ^ 64

-- x as u8
abbrev pub to_u8 : ℕ → ℕ
to_u8 x = x % 256

-- `usize::try_from` of a `u64`, on a 64-bit target
abbrev pub to_usize : ℕ → Option ℕ
to_usize n = if ltb n (2 ^ 64) then some n else none

abbrev pub checked_add : ℕ → ℕ → Option ℕ
checked_add a b = to_usize (a + b)

abbrev pub checked_mul : ℕ → ℕ → Option ℕ
checked_mul a b = to_usize (a * b)

-- n.div_ceil(8)
abbrev pub div_ceil8 : ℕ → ℕ
div_ceil8 n = (n + 7) / 8
