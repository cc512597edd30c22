-- ===== src/Middlemine/Answers.antt =====
-- An answer of middlemine, on its way to the node that searched.
use minedive.Common.{
  ℕ, ◌≡◌, refl, sym, ap, ◌∙◌, true, false, [], ◌∷◌, ◌++◌, some, arith, Bytes, bytes, ◌is◌, length,
  done,
}
use minedive.Codec.{IsCodec, IsNacl}
use minedive.Nonce.{inc_nonce}
use minedive.Wire.{FwdMsg, zero_fwd, fwd_members, l2_members}
use minedive.Wire.RoundTrip.{IsFwd}
use minedive.Wire.Searches.{IsL2}
use minedive.Client.State.{Client, L2Peer, send_text, respond, put_l2}
use minedive.Client.Peers.{get_peer_by_alias}
use minedive.Client.L2.{get_l2_peer_if_exists, send_l2}
use minedive.Client.L2Search.Answers.{handle_l2_msg-resp}
use minedive.Client.Relay.{Env}
use minedive.Client.Relay.Gateway.{handle_l1_msg-gateway, handle_l1_msg-own}
use minedive.Client.Decrypt.{dec_l1_msg}
use minedive.Client.Decrypt.Direct.{dec_l1_msg-fwd}
use minedive.Middlemine.{fake_answer, fake_search}

-- A node of middlemine, a gateway and the node that searched. The first knows the last as the
-- second-level peer `peer`, by its alias at the gateway; the gateway has both as peers; the last
-- knows the first by its alias; and both have the same key for one another.
pub record L2Path (env : Env) (m gateway asker : Client) (peer : Bytes) : Type 0 where
  pub l2 : ℕ
  pub g : ℕ
  pub p : ℕ
  pub next : ℕ
  pub back : ℕ
  pub known : get_l2_peer_if_exists m peer ≡ some l2
  pub reached : (m.l2 l2).gw ≡ some g
  pub size : length (m.l2 l2).ononce ≡ 24
  pub other : ((m.l2 l2).name is gateway.tid) ≡ false
  pub aliased : get_peer_by_alias gateway (m.l2 l2).name env.alias_order ≡ some next
  pub asks : (gateway.peer next).name ≡ asker.tid
  pub knows_back : get_l2_peer_if_exists asker (gateway.peer p).alias ≡ some back
  pub key : (asker.l2 back).k ≡ (m.l2 l2).k
  pub utf_tid : env.codec.valid m.tid ≡ true
  pub utf_name : env.codec.valid (m.l2 l2).name ≡ true
  pub utf_gateway : env.codec.valid gateway.tid ≡ true
  pub utf_alias : env.codec.valid (gateway.peer p).alias ≡ true
  pub utf_asker : env.codec.valid (gateway.peer next).name ≡ true

-- The message of `SendL2` with a text.
abbrev sent_fwd : Env → Client → L2Peer → Bytes → FwdMsg
sent_fwd env m peer b = record zero_fwd {
  from = m.tid;
  type = bytes "fwd";
  to = peer.name;
  msg = env.codec.encode (peer.ononce ++ env.nacl.seal b peer.ononce peer.k);
}

module _ (env : Env) (codec_laws : IsCodec env.codec) (nacl_laws : IsNacl env.nacl) where
  fake_answer-IsL2 : (q : Bytes) → env.codec.valid q ≡ true → IsL2 env.codec (fake_answer q)
  unfolding fake_answer bytes
  fake_answer-IsL2 q hq = record {
    type = codec_laws.valid_ascii (bytes "resp") (omega arith);
    lang = codec_laws.valid_ascii [] tt;
    query = hq;
    text = (
      codec_laws.valid_ascii (bytes "https://example.com") (omega arith),
      (
        codec_laws.valid_ascii (bytes "http://example.com/") (omega arith),
        (
          codec_laws.valid_ascii (bytes "https://example.com/") (omega arith),
          (
            codec_laws.valid_ascii (bytes "https://nlnet.nl/") (omega arith),
            (codec_laws.valid_ascii _ (omega arith), tt),
          ),
        ),
      ),
    );
  }

  -- middlemine answers a search of a second-level peer. `fakeSearch`, called with the name of the
  -- peer, writes one text to the gateway; the gateway sends one text on to the node that searched;
  -- and the step of that node on it calls its `Responder` with the answer. The three nodes know one
  -- another as `L2Path` says, the node that searched has a function, and the query is UTF-8;
  -- base64, JSON and nacl obey their laws.
  pub fake_search-Answers :
      (m gateway asker : Client) (peer q : Bytes) (r : ℕ)
      → (path : L2Path env m gateway asker peer) → env.codec.valid q ≡ true
      → asker.has_responder ≡ true
      → (m' asker' : Client) × (b b' : Bytes) × (fake_search env.codec env.nacl m peer q
          ≡ done (m', send_text (m.peer path.g).dc b ∷ []))
        × (dec_l1_msg env path.p gateway b
            ≡ done (gateway, send_text (gateway.peer path.next).dc b' ∷ []))
        × (dec_l1_msg env r asker b'
            ≡ done (asker', respond (env.codec.print (l2_members (fake_answer q))) ∷ []))
  unfolding fake_search send_l2 fake_answer bytes
  fake_search-Answers m gateway asker peer q r path utf_q responds =
      let answer = env.codec.print (l2_members (fake_answer q)) in
      let l2 = m.l2 path.l2 in
      let m1 = sent_fwd env m l2 answer in
      let v1 : IsFwd env.codec m1 = record {
        from = path.utf_tid;
        type = codec_laws.valid_ascii (bytes "fwd") (omega arith);
        to = path.utf_name;
        msg = codec_laws.valid-encode _;
        ori = codec_laws.valid_ascii [] tt;
      } in
      let m2 : FwdMsg = record m1 {
        from = gateway.tid;
        ori = (gateway.peer path.p).alias;
        to = (gateway.peer path.next).name;
      } in
      let v2 : IsFwd env.codec m2 = record {
        from = path.utf_gateway;
        type = codec_laws.valid_ascii (bytes "fwd") (omega arith);
        to = path.utf_asker;
        msg = codec_laws.valid-encode _;
        ori = path.utf_alias;
      } in
      let under : m2.msg
          ≡ env.codec.encode (l2.ononce ++ env.nacl.seal answer l2.ononce (asker.l2 path.back).k) =
        ap (λ (k : Bytes). env.codec.encode (l2.ononce ++ env.nacl.seal answer l2.ononce k))
          (sym path.key) in
      let (asker', handled) =
        handle_l2_msg-resp env.codec env.nacl codec_laws nacl_laws asker r path.back m2 env.k2
          env.k3 l2.ononce (fake_answer q) v2 path.knows_back path.size (fake_answer-IsL2 q utf_q)
          under refl responds in
      let moved : L2Peer = record l2 { ononce = (inc_nonce l2.ononce (length l2.ononce)).0 } in
      (
        put_l2 path.l2 moved m,
        asker',
        env.codec.print (fwd_members m1),
        env.codec.print (fwd_members m2),
        rw (path.known, fake_search, path.reached, send_l2) refl,
        dec_l1_msg-fwd env codec_laws path.p gateway m1 v1 refl
            ∙ handle_l1_msg-gateway env codec_laws gateway path.p m1 v1 refl path.next path.other
                path.aliased,
        dec_l1_msg-fwd env codec_laws r asker m2 v2 refl
            ∙ (handle_l1_msg-own env codec_laws asker r m2 v2 refl path.asks ∙ handled),
      )
