-- ===== src/Wire.antt =====
-- l1proto.go: the messages that peers exchange, and how encoding/json writes and reads them by
-- their tags. Reading starts from the zero message; a member of another type leaves its field.
pub mod RoundTrip
pub mod Searches
use minedive.Common.{
  ℕ, List, [], ◌∷◌, ◌++◌, Option, none, some, Bytes, bytes, ◌is◌, if◌then◌else◌, Dict,
}
use minedive.Codec.{Codec, Value, text, number, texts, other}

pub record MinL1Msg : Type 0 where
  pub from : Bytes
  pub type : Bytes

pub record EncL1Msg : Type 0 where
  pub from : Bytes
  pub type : Bytes
  pub key : Bytes
  pub tpk : Bytes
  pub nonce : Bytes
  pub ct : Bytes

pub record PingL1Msg : Type 0 where
  pub from : Bytes
  pub text : Bytes
  pub type : Bytes

pub record L2L1Msg : Type 0 where
  pub from : Bytes
  pub type : Bytes
  pub i : ℕ
  pub l2 : List Bytes

pub record FwdMsg : Type 0 where
  pub from : Bytes
  pub type : Bytes
  pub to : Bytes
  pub msg : Bytes
  pub ori : Bytes

pub record L2Msg : Type 0 where
  pub type : Bytes
  pub lang : Bytes
  pub query : Bytes
  pub text : List Bytes

abbrev pub zero_enc : EncL1Msg
zero_enc = record { from = []; type = []; key = []; tpk = []; nonce = []; ct = [] }

abbrev pub zero_fwd : FwdMsg
zero_fwd = record { from = []; type = []; to = []; msg = []; ori = [] }

abbrev pub zero_l2 : L2Msg
zero_l2 = record { type = []; lang = []; query = []; text = [] }

-- A string field with the tag `omitempty`.
unfoldable pub unless_empty : Bytes → Bytes → Dict Value → Dict Value
unless_empty key [] rest = rest
unless_empty key (b ∷ s) rest = (key, text (b ∷ s)) ∷ rest

-- A field of strings with that tag.
texts_unless_empty : Bytes → List Bytes → Dict Value
texts_unless_empty key [] = []
texts_unless_empty key (s ∷ l) = (key, texts (s ∷ l)) ∷ []

unfoldable pub min_members : MinL1Msg → Dict Value
unfolding unless_empty
min_members m = unless_empty (bytes "from") m.from ((bytes "type", text m.type) ∷ [])

unfoldable pub enc_members : EncL1Msg → Dict Value
enc_members m =
    (bytes "from", text m.from)
    ∷ (bytes "type", text m.type)
    ∷ (bytes "key", text m.key)
    ∷ (bytes "tpk", text m.tpk)
    ∷ (bytes "nonce", text m.nonce)
    ∷ (bytes "ct", text m.ct)
    ∷ []

unfoldable pub ping_members : PingL1Msg → Dict Value
ping_members m =
    (bytes "from", text m.from) ∷ (bytes "text", text m.text) ∷ (bytes "type", text m.type) ∷ []

unfoldable pub l2l1_members : L2L1Msg → Dict Value
l2l1_members m =
    (bytes "from", text m.from)
    ∷ (bytes "type", text m.type)
    ∷ (bytes "i", number m.i)
    ∷ (bytes "l2", texts m.l2)
    ∷ []

unfoldable pub fwd_members : FwdMsg → Dict Value
unfolding unless_empty
fwd_members m =
    (bytes "from", text m.from)
    ∷ (bytes "type", text m.type)
    ∷ (bytes "to", text m.to)
    ∷ (bytes "msg", text m.msg)
    ∷ unless_empty (bytes "ori") m.ori []

unfoldable pub l2_members : L2Msg → Dict Value
unfolding unless_empty texts_unless_empty
l2_members m =
    (bytes "type", text m.type)
    ∷ unless_empty (bytes "l") m.lang
        (unless_empty (bytes "q") m.query (texts_unless_empty (bytes "text") m.text))

-- The string field of that tag, from the value it had; the last member of the key counts.
read_text : Bytes → Bytes → Dict Value → Bytes
read_text key old [] = old
read_text key old ((k, text s) ∷ d) = read_text key (if k is key then s else old) d
read_text key old ((k, number n) ∷ d) = read_text key old d
read_text key old ((k, texts l) ∷ d) = read_text key old d
read_text key old ((k, other) ∷ d) = read_text key old d

read_number : Bytes → ℕ → Dict Value → ℕ
read_number key old [] = old
read_number key old ((k, number n) ∷ d) = read_number key (if k is key then n else old) d
read_number key old ((k, text s) ∷ d) = read_number key old d
read_number key old ((k, texts l) ∷ d) = read_number key old d
read_number key old ((k, other) ∷ d) = read_number key old d

read_texts : Bytes → List Bytes → Dict Value → List Bytes
read_texts key old [] = old
read_texts key old ((k, texts l) ∷ d) = read_texts key (if k is key then l else old) d
read_texts key old ((k, number n) ∷ d) = read_texts key old d
read_texts key old ((k, text s) ∷ d) = read_texts key old d
read_texts key old ((k, other) ∷ d) = read_texts key old d

-- On a syntax error `json.Unmarshal` changes nothing.
abbrev pub members_of : Option (Dict Value) → Dict Value
members_of none = []
members_of (some d) = d

-- The members that `json.Unmarshal(data, &m)` assigns.
abbrev pub members : Codec → Bytes → Dict Value
members c s = members_of (c.parse s)

unfoldable pub read_min : Dict Value → MinL1Msg
unfolding read_text
read_min d = record { from = read_text (bytes "from") [] d; type = read_text (bytes "type") [] d }

unfoldable pub read_enc : Dict Value → EncL1Msg
unfolding read_text
read_enc d = record {
  from = read_text (bytes "from") [] d;
  type = read_text (bytes "type") [] d;
  key = read_text (bytes "key") [] d;
  tpk = read_text (bytes "tpk") [] d;
  nonce = read_text (bytes "nonce") [] d;
  ct = read_text (bytes "ct") [] d;
}

unfoldable pub read_ping : Dict Value → PingL1Msg
unfolding read_text
read_ping d = record {
  from = read_text (bytes "from") [] d;
  text = read_text (bytes "text") [] d;
  type = read_text (bytes "type") [] d;
}

unfoldable pub read_l2l1 : Dict Value → L2L1Msg
unfolding read_text read_number read_texts
read_l2l1 d = record {
  from = read_text (bytes "from") [] d;
  type = read_text (bytes "type") [] d;
  i = read_number (bytes "i") 0 d;
  l2 = read_texts (bytes "l2") [] d;
}

unfoldable pub read_fwd : Dict Value → FwdMsg
unfolding read_text
read_fwd d = record {
  from = read_text (bytes "from") [] d;
  type = read_text (bytes "type") [] d;
  to = read_text (bytes "to") [] d;
  msg = read_text (bytes "msg") [] d;
  ori = read_text (bytes "ori") [] d;
}

unfoldable pub read_l2 : Dict Value → L2Msg
unfolding read_text read_texts
read_l2 d = record {
  type = read_text (bytes "type") [] d;
  lang = read_text (bytes "l") [] d;
  query = read_text (bytes "q") [] d;
  text = read_texts (bytes "text") [] d;
}
