-- ===== src/Framing/RoundTrip.antt =====
-- What is written by `MarshalToWriter` and what `UnmarshalFromReader` makes of it.
use mathlib.Core.List.{append_assoc, append-nil}
use rootlesskit.Base.{
  length, length-append, take-length_append, drop-length_append, ltb, ℕ, ◌^◌, ◌≤◌, ◌<◌, ◌≡◌, refl,
  ◌≢◌, false, ◌||◌, some, [], ◌∷◌, ◌++◌, arith, ok, err, take-all,
}
use rootlesskit.Text.{Bytes}
use rootlesskit.Api.{Codec}
use rootlesskit.Framing.{
  short_read, max_length, put_uint32, uint32, marshal_to_writer, Stream, read, read_exactly,
  unmarshal_from_reader, put_back,
}

pub uint32-put_uint32 : (n : ℕ) → n < 2 ^ 32 → uint32 (put_uint32 n) ≡ n
unfolding uint32 put_uint32
uint32-put_uint32 n h = omega arith

-- The text that JSON gives for a value: not empty, short enough, and read back as the value.
pub record IsText {A : Type 0} (json : Codec A) (x : A) (t : Bytes) : Type 0 where
  pub written : json.marshal x ≡ some t
  pub read_back : json.unmarshal t ≡ some x
  pub not_empty : 1 ≤ length t
  pub fits : length t ≤ max_length

read_exactly-piece :
    (b more : Bytes) (r : Stream)
    → read_exactly (length b) ((b ++ more) ∷ r) ≡ ok (b, put_back more r)
unfolding read_exactly read
read_exactly-piece b more r =
    rw (take-length_append b more, drop-length_append b more) (ground arith)

put_back-ne_nil :
    (t more : Bytes) (r : Stream) → 1 ≤ length t → put_back (t ++ more) r ≡ (t ++ more) ∷ r
unfolding put_back
put_back-ne_nil [] more r h = absurd (omega arith)
put_back-ne_nil (c ∷ t) more r h = refl

longer : (a b : Bytes) → b ≢ [] → length a < length (a ++ b)
longer a [] h = absurd (h refl)
longer a (c ∷ b) h = omega (arith, length-append a (c ∷ b))

-- A piece shorter than the buffer ends the read early.
read_exactly-short :
    (b : Bytes) (n : ℕ) (r : Stream)
    → length b < n
    → read_exactly n (b ∷ r) ≡ err (short_read (length b) n)
unfolding read_exactly read
read_exactly-short b n r h = rw (take-all b n (omega arith)) (ground arith)

abbrev pub frame_of : Bytes → Bytes
frame_of t = put_uint32 (length t) ++ t

module _ (t : Bytes) (not_empty : 1 ≤ length t) (fits : length t ≤ max_length) where
  read_header :
      (s : Bytes) (r : Stream)
      → read_exactly 4 ((put_uint32 (length t) ++ s) ∷ r) ≡ ok (put_uint32 (length t), put_back s r)
  read_header s r = unfold put_uint32 in read_exactly-piece (put_uint32 (length t)) s r

  length_ok :
      (ltb max_length (uint32 (put_uint32 (length t))) || ltb (uint32 (put_uint32 (length t))) 1)
      ≡ false
  length_ok =
      rw (uint32-put_uint32 (length t) (omega (arith, fits))) (ground (arith, fits, not_empty))

  -- A frame gives what its text reads back as.
  pub unmarshal-frame :
      {A : Type 0} (json : Codec A) (y : A) (more : Bytes) (r : Stream)
      → json.unmarshal t ≡ some y
      → unmarshal_from_reader json ((frame_of t ++ more) ∷ r) ≡ ok (y, put_back more r)
  unfolding unmarshal_from_reader
  unmarshal-frame json y more r read = rw (
    append_assoc (put_uint32 (length t)) t more,
    read_header (t ++ more) r,
    length_ok,
    uint32-put_uint32 (length t) (omega (arith, fits)),
    put_back-ne_nil t more r not_empty,
    read_exactly-piece t more r,
    read,
  )

  -- A message whose text has 1 to 65536 bytes is refused if the text arrives in two pieces, the
  -- second not empty.
  pub split_body_refused :
      {A : Type 0} (json : Codec A) (b1 b2 : Bytes) (r : Stream)
      → t ≡ b1 ++ b2
      → b2 ≢ []
      → unmarshal_from_reader json (put_uint32 (length t) ∷ b1 ∷ b2 ∷ r)
        ≡ err (short_read (length b1) (length t))
  unfolding unmarshal_from_reader
  split_body_refused json b1 b2 r parts ne =
      rw
        (
          ← append-nil (put_uint32 (length t)),
          read_header [] (b1 ∷ b2 ∷ r),
          length_ok,
          uint32-put_uint32 (length t) (omega (arith, fits)),
        )
        (unfold put_back in
          rw (read_exactly-short b1 (length t) (b2 ∷ r) (rw parts (longer b1 b2 ne))))

-- The value is sent as its text behind the length of the text.
pub marshal-frame :
    {A : Type 0} (json : Codec A) (x : A) (t : Bytes)
    → json.marshal x ≡ some t
    → length t ≤ max_length
    → marshal_to_writer json x ≡ ok (frame_of t)
unfolding marshal_to_writer
marshal-frame json x t written fits = rw written (ground (arith, fits))

module _ {A : Type 0} (json : Codec A) (x : A) (t : Bytes) (text : IsText json x t) where
  -- A value that was sent, whose JSON text has 1 to 65536 bytes and reads back as the value, is
  -- received from the piece of the stream that holds its whole frame, and what follows the frame
  -- is left to be read.
  pub unmarshal-marshal :
      (frame more : Bytes) (r : Stream)
      → marshal_to_writer json x ≡ ok frame
      → unmarshal_from_reader json ((frame ++ more) ∷ r) ≡ ok (x, put_back more r)
  unmarshal-marshal frame more r sent =
      let same : frame ≡ frame_of t =
        ground (arith, marshal-frame json x t text.written text.fits) in
      rw same (unmarshal-frame t text.not_empty text.fits json x more r text.read_back)
