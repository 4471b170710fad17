-- ===== src/Messages/Exchange.antt =====
-- What `Send` writes, and what `WaitFor` makes of it.
use rootlesskit.Base.{
  all, All, length, if◌then◌else◌, ◌≤◌, ◌≡◌, refl, inl, inr, Bool, true, false, Option, none, some,
  List, [], ◌∷◌, ◌++◌, arith, ok, err, Result-cases,
}
use rootlesskit.Text.{Bytes, str_eq, is_empty}
use rootlesskit.Api.{Codec}
use rootlesskit.Framing.{marshal_to_writer, Stream, put_back, max_length}
use rootlesskit.Framing.RoundTrip.{frame_of, marshal-frame, unmarshal-frame}
use rootlesskit.Messages.{
  Message, named, fulfill_name, send, recv, wait_for, unexpected, fields, first_set, with_name,
}

first_set-ne_nil :
    (fs : List (Bytes × Bool)) (n : Bytes)
    → All (λ (f : Bytes × Bool). is_empty f.0 ≡ false) fs
    → first_set fs ≡ some n
    → is_empty n ≡ false
unfolding first_set
first_set-ne_nil [] n all h = absurd (ground arith)
first_set-ne_nil ((name, true) ∷ fs) n all h = ground (arith, all.0)
first_set-ne_nil ((name, false) ∷ fs) n all h = first_set-ne_nil fs n all.1 h

with_name-ne_nil :
    {V : Type 0} (m m' : Message V) (o : Option Bytes)
    → ((n : Bytes) → o ≡ some n → is_empty n ≡ false)
    → with_name m o ≡ ok m'
    → is_empty m'.name ≡ false
unfolding with_name
with_name-ne_nil m m' none named h = absurd (ground arith)
with_name-ne_nil m m' (some n) named h = ground (arith, named n refl)

-- The names of the fields are not empty.
fulfill_name-ne_nil :
    {V : Type 0} (m m' : Message V) → fulfill_name m ≡ ok m' → is_empty m'.name ≡ false
unfolding fulfill_name fields
fulfill_name-ne_nil m m' h =
    with_name-ne_nil m m' (first_set (fields m.u))
      (λ n. first_set-ne_nil (fields m.u) n (refl, (refl, (refl, (refl, (refl, (refl, tt))))))) h

named-ne_nil : {V : Type 0} (m m' : Message V) → named m ≡ ok m' → is_empty m'.name ≡ false
unfolding named
named-ne_nil m m' h = ground (arith, fulfill_name-ne_nil m m')

-- The JSON text of a message, and what it reads back as: a message of the same name, of which members
-- can be lost. An embedded pointer to an empty struct has no text, and is nil when it is read.
pub record IsMessageText {V : Type 0} (json : Codec (Message V)) (m back : Message V) (t : Bytes)
    : Type 0 where
  pub written : json.marshal m ≡ some t
  pub read_back : json.unmarshal t ≡ some back
  pub same_name : back.name ≡ m.name
  pub not_empty : 1 ≤ length t
  pub fits : length t ≤ max_length

module _ {V : Type 0} (json : Codec (Message V)) (m m' back : Message V) (t : Bytes) where
  written :
      (sent : Bytes) → named m ≡ ok m' → send json m ≡ ok sent → marshal_to_writer json m' ≡ ok sent
  unfolding send
  written sent full done = elim (Result-cases (marshal_to_writer json m')) [
    | inl (b, e) ↦ ground (arith, full, e)
    | inr (x, e) ↦ absurd (ground (arith, full, e))
  ]

  received :
      (sent more : Bytes) (r : Stream)
      → named m ≡ ok m'
      → IsMessageText json m' back t
      → send json m ≡ ok sent
      → recv json ((sent ++ more) ∷ r) ≡ ok (back, put_back more r)
  unfolding recv
  received sent more r full text done =
      let frame = marshal-frame json m' t text.written text.fits in
      let same : sent ≡ frame_of t = ground (arith, written sent full done, frame) in
      let read = unmarshal-frame t text.not_empty text.fits json back more r text.read_back in
      rw (same, read, text.same_name, named-ne_nil m m' full) refl

  -- A message whose name is there or can be filled in, and whose JSON text has 1 to 65536 bytes and
  -- reads back as a message of that name, is answered by `WaitFor` on the piece of the stream that
  -- holds its frame: where it waits for that name, with the message that was read back, whose
  -- members can differ from those sent; under every other name with an error.
  pub wait_for-send :
      (sent more : Bytes) (r : Stream) (name : Bytes)
      → named m ≡ ok m'
      → IsMessageText json m' back t
      → send json m ≡ ok sent
      → wait_for json name ((sent ++ more) ∷ r) ≡ (
          if str_eq m'.name name then ok (back, put_back more r) else err (unexpected name m'.name))
  unfolding wait_for
  wait_for-send sent more r name full text done =
      rw (received sent more r full text done, text.same_name) (ground arith)
