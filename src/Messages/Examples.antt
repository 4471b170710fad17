-- ===== src/Messages/Examples.antt =====
-- Tests of the messages, with a codec of the one message that is sent.
use rootlesskit.Base.{◌≡◌, refl, none, some, [], ◌∷◌, ◌++◌, arith, ok}
use rootlesskit.Text.{Bytes, codes, str_eq}
use rootlesskit.Api.{Codec}
use rootlesskit.Framing.{marshal_to_writer, put_back}
use rootlesskit.Framing.RoundTrip.{frame_of}
use rootlesskit.Messages.{Union, Message, fulfill_name, named, send, wait_for}
use rootlesskit.Messages.Exchange.{IsMessageText, wait_for-send}

abbrev no_fields : Union Bytes
no_fields = record {
  parent_hello = none;
  child_hello = none;
  idmap_completed = none;
  userns_completed = none;
  network_completed = none;
  port_completed = none;
}

abbrev unnamed : Message Bytes
unnamed = record { name = []; u = record no_fields { child_hello = some tt } }

abbrev child_hello : Message Bytes
child_hello = record unnamed { name = codes "ChildHello" }

abbrev text : Bytes
text = codes "{\"Name\":\"ChildHello\"}"

-- What the text reads back as: the member, a pointer to an empty struct, is lost.
abbrev read_back : Message Bytes
read_back = record { name = codes "ChildHello"; u = no_fields }

abbrev json : Codec (Message Bytes)
json = record { marshal = λ m. some text; unmarshal = λ b. some read_back }

text-IsMessageText : IsMessageText json child_hello read_back text
text-IsMessageText = record {
  written = refl;
  read_back = refl;
  same_name = refl;
  not_empty = ground arith;
  fits = ground arith;
}

is_named : named unnamed ≡ ok child_hello
unfolding named fulfill_name
is_named = refl

wait_for-send_example :
    wait_for json (codes "ChildHello") ((frame_of text ++ codes "next") ∷ [])
    ≡ ok (read_back, put_back (codes "next") [])
unfolding send named fulfill_name marshal_to_writer str_eq
wait_for-send_example =
    wait_for-send json unnamed child_hello read_back text (frame_of text) (codes "next") []
      (codes "ChildHello") is_named text-IsMessageText refl
