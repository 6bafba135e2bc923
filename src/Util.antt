-- ===== src/Util.antt =====
-- The bit macros of util.h and the functions of util.c, on 32-bit words.
-- A word is a native number below 2 ^ 32; every wrap is written `% 2 ^ w`.
-- A shift whose count is computed at run time takes the count modulo 32, as the shift
-- instructions of the x86 hosts do that the simulator is built for; C leaves such a shift by 32 or
-- more undefined, and `asr` and `ror` make one at count 0.
pub mod Laws
pub mod Bounds
pub mod Shifts
use l3_info_simulateur_arm.Base.{ℕ, ◌+◌, ◌-◌, ◌*◌, ◌/◌, ◌%◌, ◌^◌, bit_and, bit_or}
use l3_info_simulateur_arm.Base.{◌==◌, if◌then◌else◌, Bool}

abbrev pub u8 : ℕ → ℕ
u8 n = n % 2 ^ 8

abbrev pub u16 : ℕ → ℕ
u16 n = n % 2 ^ 16

abbrev pub u32 : ℕ → ℕ
u32 n = n % 2 ^ 32

-- `(uint32_t) -1`, and the `int` -1 as its 32-bit pattern.
abbrev pub minus_one : ℕ
minus_one = 2 ^ 32 - 1

-- `~x`, `x + y` and `x - y` on `uint32_t`.
abbrev pub bit_not : ℕ → ℕ
bit_not x = 2 ^ 32 - 1 - x

abbrev pub add32 : ℕ → ℕ → ℕ
add32 a b = (a + b) % 2 ^ 32

abbrev pub sub32 : ℕ → ℕ → ℕ
sub32 a b = (a + 2 ^ 32 - b) % 2 ^ 32

-- `x << k` and `x >> k` where `k` is a variable.
unfoldable pub shl : ℕ → ℕ → ℕ
shl x k = u32 (x * 2 ^ (k % 32))

unfoldable pub shr : ℕ → ℕ → ℕ
shr x k = x / 2 ^ (k % 32)

unfoldable pub get_bit : ℕ → ℕ → ℕ
get_bit x i = x / 2 ^ i % 2

-- The test of a bit in a condition.
abbrev pub bit_set : ℕ → ℕ → Bool
bit_set x i = get_bit x i == 1

unfoldable pub set_bit : ℕ → ℕ → ℕ
set_bit x i = bit_or x (2 ^ i)

unfoldable pub clr_bit : ℕ → ℕ → ℕ
clr_bit x i = bit_and x (2 ^ 32 - 1 - 2 ^ i)

-- The mask `~((~0 >> w) << w)` has `w` ones, since `>>` of the `int` -1 gives -1.
unfoldable pub get_bits : ℕ → ℕ → ℕ → ℕ
get_bits x h l = x / 2 ^ l % 2 ^ (h + 1 - l)

-- The bits below `l`, the bits above `h`, and `bits << l`.
unfoldable pub set_bits : ℕ → ℕ → ℕ → ℕ → ℕ
set_bits x h l bits =
    bit_or (bit_or (x % 2 ^ l) (x / 2 ^ (h + 1) * 2 ^ (h + 1))) (u32 (bits * 2 ^ l))

unfoldable pub reverse_2 : ℕ → ℕ
reverse_2 x = bit_or (x % 2 ^ 8 * 2 ^ 8) (x / 2 ^ 8 % 2 ^ 8)

unfoldable pub reverse_4 : ℕ → ℕ
reverse_4 x =
    bit_or
      (bit_or (bit_or (x % 2 ^ 8 * 2 ^ 24) (x / 2 ^ 8 % 2 ^ 8 * 2 ^ 16))
        (x / 2 ^ 16 % 2 ^ 8 * 2 ^ 8))
      (x / 2 ^ 24 % 2 ^ 8)

-- `32 - shift` is an `int`, which the machine takes modulo 32.
unfoldable pub asr : ℕ → ℕ → ℕ
asr value shift =
    bit_or (shr value shift) (if bit_set value 31 then shl minus_one (sub32 32 shift) else 0)

unfoldable pub ror : ℕ → ℕ → ℕ
ror value rotation = bit_or (shr value rotation) (shl value (sub32 32 rotation))
