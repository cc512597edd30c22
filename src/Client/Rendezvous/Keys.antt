-- ===== src/Client/Rendezvous/Keys.antt =====
-- What a node does with the key of another.
use minedive.Common.{◌≡◌, refl, ap, ◌∙◌, true, [], Bytes, bytes, ◌is◌, insert, length, done}
use minedive.Codec.Slices.{copy_full}
use minedive.Protocol.{Cell, zero_cell}
use minedive.Client.State.{Client}
use minedive.Client.Rendezvous.{Env, k, reply_of, learn_key, handle, ws_step}

reply_of_k : reply_of (bytes "k") ≡ k
unfolding reply_of ◌is◌ bytes
reply_of_k = refl

-- A cell with a key of 32 bytes in base64.
pub ws_step-key :
    (env : Env) (node : Client) (name text key : Bytes)
    → (env.codec.decode text).slice ≡ key
    → (env.codec.decode text).good ≡ true
    → length key ≡ 32
    → ws_step env node (record zero_cell { type = bytes "k"; d0 = name; d1 = text })
      ≡ done (record node { keys = insert name key node.keys }, [])
unfolding ws_step handle learn_key
ws_step-key env node name text key slice good size =
    let cell : Cell = record zero_cell { type = bytes "k"; d0 = name; d1 = text } in
    ap (handle env node cell) reply_of_k ∙ rw (good, learn_key, slice, copy_full 32 key size) refl
