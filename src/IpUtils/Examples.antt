-- ===== src/IpUtils/Examples.antt =====
-- Tests of AddIPInt. A sum below the first address is no error: it wraps around.
use rootlesskit.Base.{pos, negsuc, ◌+ℤ◌, ◌≡◌, refl, some, [], ◌∷◌, arith, ok}
use rootlesskit.Net.{to4}
use rootlesskit.Text.{Bytes}
use rootlesskit.IpUtils.{add_ip_int, uint32, put_uint32, to_uint32, add_int64}
use rootlesskit.IpUtils.Numbers.{add_ip_int-bounds}

abbrev gateway : Bytes
gateway = 10 ∷ 0 ∷ 2 ∷ 0 ∷ []

add_ip_int-bounds_example :
    (add_ip_int gateway (pos 100) ≡ ok (10 ∷ 0 ∷ 2 ∷ 100 ∷ []))
    × (uint32 (put_uint32 167772772) ≡ some 167772772)
unfolding uint32 put_uint32 ◌+ℤ◌
add_ip_int-bounds_example =
    add_ip_int-bounds gateway 167772672 167772772 (pos 100) refl refl refl (omega arith)

underflow_wraps : add_ip_int (0 ∷ 0 ∷ 0 ∷ 1 ∷ []) (negsuc 1) ≡ ok (255 ∷ 255 ∷ 255 ∷ 255 ∷ [])
unfolding add_ip_int to4 uint32 put_uint32 to_uint32 add_int64 ◌+ℤ◌
underflow_wraps = refl

-- So does a sum beyond the largest int64, which is below the first address then.
overflow_wraps : add_ip_int (0 ∷ 0 ∷ 0 ∷ 1 ∷ []) (pos 9223372036854775807) ≡ ok (0 ∷ 0 ∷ 0 ∷ 0 ∷ [])
unfolding add_ip_int to4 uint32 put_uint32 to_uint32 add_int64 ◌+ℤ◌
overflow_wraps = refl
