-- ===== src/Server/Aliases.antt =====
-- server.go: aliases of peers, and the cells that introduce two peers to one another.
pub mod RoundTrip
use minedive.Common.{
  ℕ, true, false, List, [], ◌∷◌, ◌++◌, Option, none, some, Bytes, bytes, ◌is◌, if◌then◌else◌,
  replicate, Dict, Outcome, done, panic, ◌>>=◌,
}
use minedive.Codec.{Codec, Nacl, Value, text, slice_to, slice_from, copy}
use minedive.Protocol.{Cell, zero_cell}
use minedive.Server.State.{MinediveServer, MinediveClient, Writes, write}
use minedive.Server.Clients.{get_client_by_name, get_other_peer}

-- `n` or the panic.
abbrev pub or_panic {ℓ} : {A : Type ℓ} → Option A → Outcome A
or_panic none = panic
or_panic (some a) = done a

-- The members that `json.Marshal` gives a cell, by the tags of protocol.go.
unfoldable pub cell_members : Cell → Dict Value
cell_members m =
    (bytes "type", text m.type)
    ∷ (bytes "d0", text m.d0)
    ∷ (bytes "d1", text m.d1)
    ∷ (bytes "d2", text m.d2)
    ∷ (bytes "d3", text m.d3)
    ∷ []

unfoldable pub flag_of : MinediveClient → Bytes
flag_of c = if c.exit then bytes "e" else []

module _ (codec : Codec) (nacl : Nacl) where
  -- `secretbox.Seal` appends the box to its first argument, which is the nonce.
  unfoldable pub get_alias : MinediveClient → Bytes → Bytes
  get_alias gw username = codec.encode (gw.nonce ++ nacl.seal username gw.nonce gw.secret_key)

  -- `json.Marshal` of a cell does not fail.
  unfoldable pub jb64 : Cell → Bytes
  jb64 j = codec.encode (codec.print (cell_members j))

  unfoldable pub send_peer : MinediveServer → ℕ → ℕ → Writes
  unfolding flag_of
  send_peer s cli i = elim (get_other_peer s cli i) [
    | none ↦ write s cli (record zero_cell { type = bytes "userlist" })
    | some c2 ↦
        let a = s.heap cli in
        let b = s.heap c2 in
        let p1 : Cell = record zero_cell {
          type = bytes "user";
          d0 = a.name;
          d1 = get_alias b a.name;
          d2 = flag_of a;
        } in
        let p2 : Cell = record zero_cell { d0 = b.name; d1 = get_alias a b.name; d2 = flag_of b } in
        write s cli (record zero_cell { type = bytes "userlist"; d0 = bytes "0"; d1 = jb64 p2 })
        ++ write s c2 (record zero_cell { type = bytes "userlist"; d0 = bytes "1"; d1 = jb64 p1 })
  ]

  -- The end of `DecryptAlias`, on the result of `secretbox.Open`.
  key_of_name : MinediveServer → Option Bytes → Option Bytes
  key_of_name s none = none
  key_of_name s (some decrypted) = elim (get_client_by_name s decrypted) [
    | none ↦ none
    | some a ↦ some (codec.encode (s.heap a).public_key)
  ]

  -- `none` in the result is an error, for which no caller uses the text. The error of
  -- `DecodeString` is overwritten before it is read.
  unfoldable pub decrypt_alias : MinediveServer → Bytes → Bytes → Outcome (Option Bytes)
  unfolding key_of_name
  decrypt_alias s alias gw_name = elim (get_client_by_name s gw_name) [
    | none ↦ done none
    | some gw ↦ do
      let encrypted = codec.decode alias
      nonce ← or_panic (slice_to 24 encrypted)
      box ← or_panic (slice_from 24 encrypted)
      done (key_of_name s (nacl.unseal box (copy (replicate 24 0) nonce) (s.heap gw).secret_key))
  ]

  -- The end of `SendKey`.
  send_alias_key : MinediveServer → ℕ → Cell → Option Bytes → Writes
  send_alias_key s c req none = []
  send_alias_key s c req (some alias_key) =
      write s c (record zero_cell { type = bytes "key"; d0 = req.d0; d1 = alias_key })

  unfoldable pub send_key : MinediveServer → ℕ → Cell → Outcome Writes
  unfolding send_alias_key
  send_key s c req = elim ((s.heap c).name is req.d1) [
    | true ↦ done []
    | false ↦ do alias_key ← decrypt_alias s req.d0 req.d1; done (send_alias_key s c req alias_key)
  ]
