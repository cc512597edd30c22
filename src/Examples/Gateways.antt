-- ===== src/Examples/Gateways.antt =====
-- A node of middlemine, its gateway and the node that searches.
use minedive.Common.{
  ℕ, ap, panic, arith, ◌≡◌, refl, true, [], ◌∷◌, some, Bytes, bytes, ◌is◌, ◌==◌, if◌then◌else◌,
  lookup, replicate, done,
}
use minedive.Wire.{FwdMsg, zero_fwd, fwd_members, l2_members}
use minedive.Client.State.{Client, L1Peer, L2Peer, send_text, respond}
use minedive.Client.Peers.{get_peer_by_alias}
use minedive.Client.L2.{get_l2_peer_if_exists}
use minedive.Client.Relay.{Env}
use minedive.Client.Decrypt.{dec_l1_msg}
use minedive.Client.Decrypt.Direct.{short_fwd_panics}
use minedive.Middlemine.{fake_answer, fake_search}
use minedive.Middlemine.Answers.{L2Path, fake_search-Answers}
use minedive.Examples.Packages.{
  plain_codec, plain_codec_decode, plain_codec_valid, plain_codec-IsCodec, plain_nacl,
  plain_nacl-IsNacl,
}
use minedive.Examples.Nodes.{node_of, env as nodes_env}

abbrev l2_peer : Bytes → L2Peer
l2_peer name = record {
  name = name;
  gw = some 0;
  ononce = replicate 24 3;
  msg_ignored = 0;
  state = [];
  k = replicate 32 5;
  pk = replicate 32 0;
}

abbrev middle : Client
middle = record (node_of 1) {
  tid = bytes "m";
  l2_peers = (bytes "alias of a", 0) ∷ [];
  l2 = λ q. l2_peer (bytes "alias of a");
}

abbrev asker : Client
asker = record (node_of 2) {
  tid = bytes "a";
  has_responder = true;
  l2_peers = (bytes "alias of m", 0) ∷ [];
  l2 = λ q. l2_peer (bytes "alias of m");
}

abbrev peer_of : ℕ → L1Peer
peer_of p =
    if p == 0
    then record { name = bytes "a"; alias = bytes "alias of a"; dc = 8; exit = true; sdp = [] }
    else record { name = bytes "m"; alias = bytes "alias of m"; dc = 9; exit = true; sdp = [] }

abbrev gateway : Client
gateway = record (node_of 3) {
  tid = bytes "g";
  l1_peers = (bytes "m", 1) ∷ (bytes "a", 0) ∷ [];
  peer = peer_of;
}

abbrev env : Env
env = record nodes_env { alias_order = bytes "m" ∷ bytes "a" ∷ [] }

path : L2Path env middle gateway asker (bytes "alias of a")
unfolding get_l2_peer_if_exists get_peer_by_alias lookup ◌is◌ bytes
path = record {
  l2 = 0;
  g = 0;
  p = 1;
  next = 0;
  back = 0;
  known = refl;
  reached = refl;
  size = refl;
  other = refl;
  aliased = refl;
  asks = refl;
  knows_back = refl;
  key = refl;
  utf_tid = plain_codec_valid _;
  utf_name = plain_codec_valid _;
  utf_gateway = plain_codec_valid _;
  utf_alias = plain_codec_valid _;
  utf_asker = plain_codec_valid _;
}

fake_search-Answers_example :
    (m' asker' : Client) × (b b' : Bytes) × (fake_search plain_codec plain_nacl middle
        (bytes "alias of a")
        (bytes "rain")
      ≡ done (m', send_text (middle.peer 0).dc b ∷ []))
    × (dec_l1_msg env 1 gateway b ≡ done (gateway, send_text 8 b' ∷ []))
    × (dec_l1_msg env 2 asker b'
        ≡ done (asker', respond (plain_codec.print (l2_members (fake_answer (bytes "rain")))) ∷ []))
unfolding path
fake_search-Answers_example =
    fake_search-Answers env plain_codec-IsCodec plain_nacl-IsNacl middle gateway asker
      (bytes "alias of a") (bytes "rain") 2 path (plain_codec_valid _) refl

-- A "fwd" to the node that searches, whose message decodes to two bytes.
abbrev short_fwd : FwdMsg
short_fwd = record zero_fwd { type = bytes "fwd"; to = bytes "a"; msg = 1 ∷ 2 ∷ [] }

short_fwd_panics_example :
    dec_l1_msg env 2 asker (plain_codec.print (fwd_members short_fwd)) ≡ panic
short_fwd_panics_example =
    short_fwd_panics env plain_codec-IsCodec 2 asker short_fwd
      (record {
        from = plain_codec_valid _;
        type = plain_codec_valid _;
        to = plain_codec_valid _;
        msg = plain_codec_valid _;
        ori = plain_codec_valid _;
      })
      refl refl (ap (λ d. d.good) (plain_codec_decode short_fwd.msg))
      (rw (plain_codec_decode short_fwd.msg) (omega arith))
