-- ===== src/IpUtils.antt =====
-- pkg/network/iputils/iputils.go, with the big-endian numbers of encoding/binary.
pub mod Numbers
pub mod Examples
use rootlesskit.Base.{
  ltb, if◌then◌else◌, ℤ, pos, negsuc, ltb_ℤ, ◌+ℤ◌, ℕ, ◌+◌, ◌-◌, ◌*◌, ◌/◌, ◌%◌, ◌^◌, Option, none,
  some, [], ◌∷◌, Result, ok, err,
}
use rootlesskit.Text.{Bytes}
use rootlesskit.Net.{to4}

-- `binary.BigEndian.Uint32(b)`; it panics on a slice that is too short.
unfoldable pub uint32 : Bytes → Option ℕ
uint32 (a ∷ b ∷ c ∷ d ∷ rest) = some (a * 16777216 + b * 65536 + c * 256 + d)
uint32 _ = none

-- `binary.BigEndian.PutUint32(b, n)` on a slice of four bytes.
unfoldable pub put_uint32 : ℕ → Bytes
put_uint32 n = n / 16777216 % 256 ∷ n / 65536 % 256 ∷ n / 256 % 256 ∷ n % 256 ∷ []

pub data Error : Type 0 where
  not_v4 overflow panic : Error

-- `uint32(i)` of an int64 that is not above the largest uint32.
unfoldable pub to_uint32 : ℤ → ℕ
to_uint32 (pos n) = n % 2 ^ 32
to_uint32 (negsuc n) = 2 ^ 32 - 1 - n % 2 ^ 32

-- A sum of two numbers of type int64.
wrap_int64 : ℤ → ℤ
wrap_int64 (pos n) = if ltb n (2 ^ 63) then pos n else pos n +ℤ negsuc (2 ^ 64 - 1)
wrap_int64 (negsuc n) = if ltb n (2 ^ 63) then negsuc n else negsuc n +ℤ pos (2 ^ 64)

unfoldable pub add_int64 : ℤ → ℤ → ℤ
unfolding wrap_int64
add_int64 a b = wrap_int64 (a +ℤ b)

add_number : ℤ → Option ℕ → Result Error Bytes
unfolding add_int64
add_number i none = err panic
add_number i (some n) =
    let sum = add_int64 (pos n) i in
    if ltb_ℤ (pos (2 ^ 32 - 1)) sum then err overflow else ok (put_uint32 (to_uint32 sum))

add_v4 : ℤ → Option Bytes → Result Error Bytes
unfolding add_number
add_v4 i none = err not_v4
add_v4 i (some ip) = add_number i (uint32 ip)

-- `AddIPInt`; `i` is an int64, as `int` is.
unfoldable pub add_ip_int : Bytes → ℤ → Result Error Bytes
unfolding add_v4
add_ip_int ip i = add_v4 i (to4 ip)
