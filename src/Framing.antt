-- ===== src/Framing.antt =====
-- pkg/lowlevelmsgutil: JSON messages with a 32-bit little-endian length in front.
pub mod RoundTrip
pub mod Examples
use rootlesskit.Base.{
  length, take, drop, ltb, ◌==◌, if◌then◌else◌, ℕ, ◌+◌, ◌*◌, ◌/◌, ◌%◌, not, ◌||◌, Option, none,
  some, List, [], ◌∷◌, ◌++◌, Result, ok, err, ◌>>=◌, ◌>>◌, reject_if, or_fail,
}
use rootlesskit.Text.{Bytes}
use rootlesskit.Api.{Codec}

abbrev pub max_length : ℕ
max_length = 65536

pub data Error : Type 0 where
  marshal_failed unmarshal_failed end_of_file : Error
  -- The length that is refused.
  bad_length : ℕ → Error
  -- The bytes that were read, and those expected.
  short_read : ℕ → ℕ → Error

-- `binary.LittleEndian.PutUint32(h, uint32(n))`.
unfoldable pub put_uint32 : ℕ → Bytes
put_uint32 n = n % 256 ∷ n / 256 % 256 ∷ n / 65536 % 256 ∷ n / 16777216 % 256 ∷ []

-- `binary.LittleEndian.Uint32(h)`.
unfoldable pub uint32 : Bytes → ℕ
uint32 (a ∷ b ∷ c ∷ d ∷ rest) = a + b * 256 + c * 65536 + d * 16777216
uint32 _ = 0

module _ {A : Type 0} (json : Codec A) where
  frame : Option Bytes → Result Error Bytes
  frame none = err marshal_failed
  frame (some b) =
      if ltb max_length (length b)
      then err (bad_length (length b))
      else ok (put_uint32 (length b) ++ b)

  -- `MarshalToWriter`, as the bytes of its one call of `Write`.
  unfoldable pub marshal_to_writer : A → Result Error Bytes
  unfolding frame
  marshal_to_writer x = frame (json.marshal x)

-- A stream, as the pieces in which it arrives: one `Read` returns bytes of one piece.
abbrev pub Stream : Type 0
Stream = List Bytes

pub put_back : Bytes → Stream → Stream
put_back [] r = r
put_back (c ∷ b) r = (c ∷ b) ∷ r

-- `r.Read(b)` with `len(b)` at most `n`; at the end of the stream it is an error.
unfoldable pub read : ℕ → Stream → Result Error (Bytes × Stream)
unfolding put_back
read n [] = err end_of_file
read n (p ∷ r) = ok (take n p, put_back (drop n p) r)

-- A `Read` that has to fill its buffer.
unfoldable pub read_exactly : ℕ → Stream → Result Error (Bytes × Stream)
read_exactly n r = do
  (b, rest) ← read n r
  reject_if (not (length b == n)) (short_read (length b) n)
  ok (b, rest)

module _ {A : Type 0} (json : Codec A) where
  -- `UnmarshalFromReader`, with what it leaves of the stream.
  unfoldable pub unmarshal_from_reader : Stream → Result Error (A × Stream)
  unmarshal_from_reader r = do
    (hdr, r') ← read_exactly 4 r
    let b_len = uint32 hdr
    reject_if (ltb max_length b_len || ltb b_len 1) (bad_length b_len)
    (b, r'') ← read_exactly b_len r'
    x ← or_fail (json.unmarshal b) unmarshal_failed
    ok (x, r'')
