-- ===== src/Examples/Dials.antt =====
-- A node dials the server of Servers over the websocket of client 1.
use minedive.Common.{◌≡◌, refl, [], ◌∷◌, arith, Bytes, bytes, replicate, done}
use minedive.Protocol.{Cell}
use minedive.Server.State.{MinediveServer}
use minedive.Client.Dialling.{Dialled, dial}
use minedive.Client.Dialling.Registering.{net_of, dial_registers}
use minedive.Mined.{minedive_dispatch}
use minedive.Mined.Registering.{IsRegistered}
use minedive.Examples.Packages.{plain_codec-IsCodec}
use minedive.Examples.Servers.{env, server}

abbrev public_key : Bytes
public_key = replicate 32 7

abbrev secret_key : Bytes
secret_key = replicate 32 9

dial_registers_example :
    (d : Dialled) × (s' : MinediveServer) × (reply : Cell) × (dial
        (net_of env server 1 public_key secret_key)
      ≡ done d)
    × (minedive_dispatch env server 1 d.sent ≡ done (s', (1, reply) ∷ []))
    × (d.client.pk ≡ public_key)
    × (d.client.priv_k ≡ secret_key)
    × IsRegistered s' 1 d.client.tid d.client.pk
unfolding bytes
dial_registers_example =
    dial_registers env server 1 public_key secret_key plain_codec-IsCodec refl refl refl
      (omega arith) (omega arith)
