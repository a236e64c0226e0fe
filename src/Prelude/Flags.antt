-- ===== src/Prelude/Flags.antt =====
-- Flag words: the bits of RTP_CTX_ENABLE_FLAGS and RTP_FLAGS (include/uvgrtp/util.hh), and the
-- bytes, 16-bit and 32-bit ranges that the statements name.
use Prim.Native.Nat.{ℕ, ◌<◌, bit_and}
use mathlib.Core.Bool.{Bool, not}
use uvg_rtp.Prelude.Tests.{◌==◌}

-- `flags & flag`, as a condition.
unfoldable pub flag_set : ℕ → ℕ → Bool
flag_set flags flag = not (bit_and flags flag == 0)

abbrev pub IsByte : ℕ → Type 0
IsByte b = b < 256

abbrev pub IsU16 : ℕ → Type 0
IsU16 v = v < 65536

abbrev pub IsU32 : ℕ → Type 0
IsU32 v = v < 4294967296
