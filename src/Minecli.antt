-- ===== src/Minecli.antt =====
-- cmd/minecli/main.go: the two functions that minecli gives to its client, `s` and `r`.
pub mod Line
pub mod State
pub mod Loop
use minedive.Common.{[], ◌∷◌, List, Bytes, bytes, Outcome}
use minedive.Codec.{Codec, Nacl}
use minedive.Wire.{L2Msg, zero_l2, l2_members, read_l2, members}
use minedive.Client.State.{Client, Effect}
use minedive.Client.Circuits.{reply_circuit}

-- What `s` answers to a search.
unfoldable pub canned_answer : Bytes → L2Msg
canned_answer q = record zero_l2 {
  type = bytes "respv2";
  query = q;
  text =
      bytes "I AM NOT A BROWSER"
      ∷ bytes "https://example.com"
      ∷ bytes "http://example.com/"
      ∷ bytes "https://example.com/"
      ∷ bytes "https://nlnet.nl/"
      ∷ bytes
          "https://quitelongexampleurlusefulfortesting.com/sdjioasjg/asjpdaihj90arfau0094/shdga9ohfgaufhahoigdfa/"
      ∷ [];
}

-- `s`. The peer and the language are not read.
unfoldable pub searcher : Codec → Nacl → Client → Bytes → Bytes → Bytes → Outcome (List Effect)
searcher codec nacl m q key nonce =
    reply_circuit codec nacl m (codec.print (l2_members (canned_answer q))) key nonce

-- `r`: the texts that it prints.
unfoldable pub responder : Codec → Bytes → List Bytes
responder codec a = (read_l2 (members codec a)).text
