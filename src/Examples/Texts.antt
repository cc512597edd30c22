-- ===== src/Examples/Texts.antt =====
-- The stand-in for JSON, which also reads some of the texts that the code writes by hand.
use minedive.Common.{
  zero, suc, ◌≡◌, refl, true, [], ◌∷◌, Option, none, some, Bytes, bytes, Dict, ◌is◌, lookup,
}
use minedive.Codec.{Codec, Value, text, IsCodec}
use minedive.Client.Circuits.Building.{connect_text}
use minedive.Client.Relay.Connects.{connect_members}
use minedive.Client.Relay.Tests.{ReadsTests, test_text, test2_text}
use minedive.Minecli.Loop.{search_line}
use minedive.Minecli.Loop.Language.{searchv2_members}
use minedive.Examples.Packages.{plain_codec, plain_codec_parse}

typed : Bytes → Dict Value
typed t = (bytes "type", text t) ∷ []

-- The texts that are read, with what they mean.
by_hand : Dict (Dict Value)
unfolding typed connect_text search_line
by_hand =
    (test_text, typed (bytes "test"))
    ∷ (test2_text, typed (bytes "test2"))
    ∷ (
      connect_text (bytes "b"),
      (bytes "type", text (bytes "connect")) ∷ (bytes "to", text (bytes "b")) ∷ [],
    )
    ∷ (
      connect_text (bytes "e"),
      (bytes "type", text (bytes "connect")) ∷ (bytes "to", text (bytes "e")) ∷ [],
    )
    ∷ (search_line (bytes "rain"), searchv2_members (bytes "rain"))
    ∷ []

parse : Bytes → Option (Dict Value)
unfolding by_hand
parse [] = none
parse (zero ∷ s) = plain_codec.parse s
parse (suc n ∷ s) = lookup (suc n ∷ s) by_hand

-- A printed object begins with a zero, and no text written by hand does.
abbrev pub text_codec : Codec
unfolding parse
text_codec = record {
  encode = λ s. s;
  decode = λ s. record { slice = s; spare = []; good = true };
  print = λ d. 0 ∷ plain_codec.print d;
  parse = parse;
  valid = λ s. true;
}

pub text_codec-IsCodec : IsCodec text_codec
unfolding text_codec
text_codec-IsCodec = record {
  decode-encode = λ s. (refl, refl);
  valid-encode = λ s. refl;
  valid_ascii = λ s h. refl;
  parse-print = λ d h. plain_codec_parse d;
}

pub text_codec_valid : (s : Bytes) → text_codec.valid s ≡ true
unfolding text_codec
text_codec_valid s = refl

pub text_codec-ReadsTests : ReadsTests text_codec
unfolding text_codec bytes lookup ◌is◌
text_codec-ReadsTests = record { parse_test = refl; parse_test2 = refl }

pub text_codec_bridge :
    text_codec.parse (connect_text (bytes "b")) ≡ some (connect_members (bytes "b"))
unfolding text_codec bytes lookup ◌is◌ connect_text
text_codec_bridge = refl

pub text_codec_exit :
    text_codec.parse (connect_text (bytes "e")) ≡ some (connect_members (bytes "e"))
unfolding text_codec bytes lookup ◌is◌ connect_text
text_codec_exit = refl

pub text_codec_searchv2 :
    text_codec.parse (search_line (bytes "rain")) ≡ some (searchv2_members (bytes "rain"))
unfolding text_codec bytes lookup ◌is◌ search_line
text_codec_searchv2 = refl
