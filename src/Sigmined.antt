-- ===== src/Sigmined.antt =====
-- cmd/sigmined/main.go: the server that only passes offers and answers on.
use minedive.Common.{[], bytes, ◌is◌, ℕ, if◌then◌else◌}
use minedive.Protocol.{Cell}
use minedive.Server.State.{MinediveServer, Writes, put}
use minedive.Server.Clients.{fwd_to_target}

-- `cli.Name = m.D0`
unfoldable pub subscribe : MinediveServer → ℕ → Cell → MinediveServer
subscribe s cli m = put cli (record (s.heap cli) { name = m.d0 }) s

unfoldable pub minedive_dispatch : MinediveServer → ℕ → Cell → MinediveServer × Writes
minedive_dispatch s cli m =
    if m.type is bytes "sub"
    then (subscribe s cli m, [])
    else if m.type is bytes "offer"
    then (s, fwd_to_target s m)
    else if m.type is bytes "answer"
    then (s, fwd_to_target s m)
    else (s, [])
