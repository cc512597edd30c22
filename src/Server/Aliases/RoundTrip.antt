-- ===== src/Server/Aliases/RoundTrip.antt =====
-- An alias leads back to the client that it stands for.
use minedive.Common.{ℕ, ◌≡◌, refl, ap, ◌∙◌, false, ◌++◌, some, Bytes, bytes, ◌is◌, length, done}
use minedive.Codec.{Codec, Nacl, IsCodec, IsNacl}
use minedive.Codec.Slices.{slice_to_prefix, slice_from_prefix, copy_full}
use minedive.Protocol.{Cell, zero_cell}
use minedive.Server.State.{MinediveServer, write}
use minedive.Server.Clients.{get_client_by_name}
use minedive.Server.Aliases.{get_alias, key_of_name, decrypt_alias, send_alias_key, send_key}

module _ (codec : Codec) (nacl : Nacl) (codec_laws : IsCodec codec) (nacl_laws : IsNacl nacl)
    (s : MinediveServer) where
  decrypt_alias-get_alias :
      (gw_name username : Bytes) (gw owner : ℕ)
      → get_client_by_name s gw_name ≡ some gw
      → get_client_by_name s username ≡ some owner
      → length (s.heap gw).nonce ≡ 24
      → decrypt_alias codec nacl s (get_alias codec nacl (s.heap gw) username) gw_name
        ≡ done (some (codec.encode (s.heap owner).public_key))
  unfolding decrypt_alias get_alias key_of_name
  decrypt_alias-get_alias gw_name username gw owner found known size =
      let nonce = (s.heap gw).nonce in
      let key = (s.heap gw).secret_key in
      let box = nacl.seal username nonce key in
      let d = codec.decode (codec.encode (nonce ++ box)) in
      let slice = (codec_laws.decode-encode (nonce ++ box)).0 in
      rw
        (
          found,
          decrypt_alias,
          slice_to_prefix 24 d nonce box slice size,
          slice_from_prefix 24 d nonce box slice size,
          copy_full 24 nonce size,
          nacl_laws.unseal-seal username nonce key,
          known,
          key_of_name,
        )
        refl

  -- The server resolves the aliases that it makes. It made an alias of a client for a gateway; a
  -- client that asks for its key, and names the gateway, gets one cell with the public key of the
  -- client that the alias stands for. The two are known to the server, the one that asks is not
  -- called as the gateway is, and the nonce of the gateway has 24 bytes.
  pub send_key-get_alias :
      (c gw owner : ℕ) (username : Bytes) (req : Cell)
      → req.d0 ≡ get_alias codec nacl (s.heap gw) username
      → get_client_by_name s req.d1 ≡ some gw
      → get_client_by_name s username ≡ some owner
      → length (s.heap gw).nonce ≡ 24
      → ((s.heap c).name is req.d1) ≡ false
      → send_key codec nacl s c req
        ≡ done (
            write s c (record zero_cell {
              type = bytes "key";
              d0 = req.d0;
              d1 = codec.encode (s.heap owner).public_key;
            }))
  unfolding send_key send_alias_key
  send_key-get_alias c gw owner username req alias found known size differs =
      rw
        (
          differs,
          send_key,
          ap (λ (a : Bytes). decrypt_alias codec nacl s a req.d1) alias
              ∙ decrypt_alias-get_alias req.d1 username gw owner found known size,
        )
        refl
