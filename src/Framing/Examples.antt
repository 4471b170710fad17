-- ===== src/Framing/Examples.antt =====
-- Tests of the framing, with messages that are their own JSON text.
use rootlesskit.Base.{◌≡◌, refl, some, [], ◌∷◌, ◌++◌, arith, ok}
use rootlesskit.Text.{Bytes, codes}
use rootlesskit.Api.{Codec}
use rootlesskit.Framing.{unmarshal_from_reader, put_back}
use rootlesskit.Framing.RoundTrip.{IsText, frame_of, unmarshal-marshal, marshal-frame}

abbrev plain : Codec Bytes
plain = record { marshal = some; unmarshal = some }

abbrev hello : Bytes
hello = codes "{\"Name\":\"ParentHello\"}"

hello-IsText : IsText plain hello hello
hello-IsText = record {
  written = refl;
  read_back = refl;
  not_empty = ground arith;
  fits = ground arith;
}

unmarshal-marshal_example :
    unmarshal_from_reader plain ((frame_of hello ++ hello) ∷ []) ≡ ok (hello, put_back hello [])
unmarshal-marshal_example =
    unmarshal-marshal plain hello hello hello-IsText (frame_of hello) hello []
      (marshal-frame plain hello hello hello-IsText.written hello-IsText.fits)
