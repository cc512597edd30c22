-- ===== src/Client/Peers.antt =====
-- client.go: the map of first-level peers, and the messages to all of them.
use minedive.Common.{
  ℕ, Bool, true, false, List, [], ◌∷◌, ◌++◌, Option, none, some, Bytes, bytes, ◌is◌, if◌then◌else◌,
  lookup, insert, erase, length,
}
use minedive.Codec.{Codec}
use minedive.Wire.{min_members}
use minedive.Client.State.{Client, Effect, send_text}

unfoldable pub delete_peer : Bytes → Client → Client
delete_peer name c = elim (lookup name c.l1_peers) [
  | none ↦ c
  | some p ↦ record c { l1_peers = erase name c.l1_peers }
]

unfoldable pub get_n_peers : Client → ℕ
get_n_peers c = length c.l1_peers

unfoldable pub peer_is_present : Client → Bytes → Bool
peer_is_present c name = elim (lookup name c.l1_peers) [ none ↦ false | some p ↦ true ]

unfoldable pub get_peer : Client → Bytes → Option ℕ
get_peer c name = lookup name c.l1_peers

-- A peer that is there stays, and the result is false.
unfoldable pub add_peer : ℕ → Client → Client × Bool
add_peer p c = elim (lookup (c.peer p).name c.l1_peers) [
  | none ↦ (record c { l1_peers = insert (c.peer p).name p c.l1_peers }, true)
  | some q ↦ (c, false)
]

-- The loop of `GetOtherPeers` over the names in the order of its `range`.
other_aliases : Client → Bytes → List Bytes → List Bytes
other_aliases c name [] = []
other_aliases c name (k ∷ order) =
    let rest = other_aliases c name order in
    let here : List Bytes = elim (lookup k c.l1_peers) [
      | none ↦ []
      | some v ↦ (c.peer v).alias ∷ []
    ] in
    if k is name then rest else here ++ rest

unfoldable pub get_other_peers : Client → Bytes → List Bytes → List Bytes
unfolding other_aliases
get_other_peers c name order = other_aliases c name order

-- The first peer of the alias, in the order of the `range`.
unfoldable pub get_peer_by_alias : Client → Bytes → List Bytes → Option ℕ
get_peer_by_alias c alias [] = none
get_peer_by_alias c alias (k ∷ order) =
    let rest = get_peer_by_alias c alias order in
    elim (lookup k c.l1_peers) [
      | none ↦ rest
      | some v ↦ if (c.peer v).alias is alias then some v else rest
    ]

-- The loop of `AskL2`.
ask_each : Client → Bytes → List Bytes → List Effect
ask_each c b [] = []
ask_each c b (k ∷ order) =
    let rest = ask_each c b order in
    elim (lookup k c.l1_peers) [ none ↦ rest | some l1 ↦ send_text (c.peer l1).dc b ∷ rest ]

unfoldable pub ask_l2 : Codec → Client → List Bytes → List Effect
unfolding ask_each
ask_l2 codec c order =
    ask_each c (codec.print (min_members (record { from = c.tid; type = bytes "getl2" }))) order

-- `ListL1Peers`: the names that it prints. A nil client has none.
unfoldable pub list_l1_peers : Option Client → List Bytes → List Bytes
list_l1_peers none order = []
list_l1_peers (some c) [] = []
list_l1_peers (some c) (k ∷ order) =
    let rest = list_l1_peers (some c) order in
    elim (lookup k c.l1_peers) [ none ↦ rest | some p ↦ k ∷ rest ]

-- `(*L1Peer).Msg`
unfoldable pub peer_msg : Client → ℕ → Bytes → Effect
peer_msg c p msg = send_text (c.peer p).dc msg
