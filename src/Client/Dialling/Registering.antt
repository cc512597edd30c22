-- ===== src/Client/Dialling/Registering.antt =====
-- A node that dials mined.
use minedive.Common.{
  ℕ, ◌≤◌, ◌≡◌, refl, sym, ap, subst, ◌∙◌, true, [], ◌∷◌, Option, none, some, Bytes, bytes, length,
  replicate, Outcome, done,
}
use minedive.Codec.{IsCodec, copy}
use minedive.Codec.Slices.{copy_full}
use minedive.Protocol.{Cell}
use minedive.Server.State.{MinediveServer, Writes}
use minedive.Client.Rendezvous.{gettid_cell}
use minedive.Client.Dialling.{
  Net, Dialled, DialOptions, dial, dial_as, new_client, or_fatal, keyed_client, fresh_client,
  registered, json_success_exchange,
}
use minedive.Mined.{Env, minedive_dispatch}
use minedive.Mined.Registering.{IsRegistered, minedive_dispatch-gettid}

-- The first cell of an answer.
abbrev pub answer_of : Outcome (MinediveServer × Writes) → Option Cell
answer_of (done (s, (w, r) ∷ out)) = some r
answer_of _ = none

-- The websocket of client `cli` of mined, for one call.
abbrev pub net_of : Env → MinediveServer → ℕ → Bytes → Bytes → Net
net_of env s cli public secret = record {
  codec = env.codec;
  generate_key = some (public, secret);
  connects = true;
  exchange = λ m. answer_of (minedive_dispatch env s cli m);
}

-- A node that dials mined has, once it is done, the name under which the server has it as an exit
-- and as a guard, and the server has its public key. For keys of 32 bytes and tokens that are long
-- enough, where base64 obeys its law.
pub dial_registers :
    (env : Env) (s : MinediveServer) (cli : ℕ) (public secret : Bytes)
    → IsCodec env.codec
    → length public ≡ 32
    → length secret ≡ 32
    → length (s.heap cli).public_key ≡ 32
    → length (bytes "stan") ≤ length env.token
    → length (bytes "ken") ≤ length env.token2
    → (d : Dialled) × (s' : MinediveServer) × (reply : Cell) × (dial
          (net_of env s cli public secret)
        ≡ done d)
      × (minedive_dispatch env s cli d.sent ≡ done (s', ((s.heap cli).ws, reply) ∷ []))
      × (d.client.pk ≡ public)
      × (d.client.priv_k ≡ secret)
      × IsRegistered s' cli d.client.tid d.client.pk
unfolding dial dial_as new_client or_fatal keyed_client registered json_success_exchange
    fresh_client gettid_cell
dial_registers env s cli public secret laws size secret_size old stan ken =
    let pk : Bytes = copy (replicate 32 0) public in
    let whole : pk ≡ public = copy_full 32 public size in
    let cell : Cell = gettid_cell env.codec pk (bytes "e,g") in
    let (s', reply, e, h) =
      minedive_dispatch-gettid env laws s cli cell pk refl refl refl (ap length whole ∙ size) old
        stan ken in
    let net : Net = net_of env s cli public secret in
    let opts : DialOptions = record {
      d0 = env.codec.encode pk;
      d1 = bytes "e,g";
      public_key = none;
      private_key = none;
    } in
    let named : (json_success_exchange net cell).d0 ≡ reply.d0 =
      rw (e, json_success_exchange) refl in
    (
      registered net (keyed_client public secret fresh_client) cell opts true,
      s',
      reply,
      refl,
      e,
      whole,
      copy_full 32 secret secret_size,
      subst (λ (name : Bytes). IsRegistered s' cli name pk) (sym named) h,
    )
