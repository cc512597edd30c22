-- ===== src/Lib.antt =====
-- Verification of minedive, a peer-to-peer search network: minedive/*.go and minedive/cmd/.
--
-- Nodes talk to a rendez-vous server over a websocket, and to one another over WebRTC data
-- channels. The server registers exits and guards and introduces nodes; a node builds a circuit of
-- a guard, a bridge and an exit, and sends its searches through it in three layers of encryption.
--
-- Common: shared names. A Go string or byte slice is the list of its bytes (`Bytes`), a Go map with
--   string keys is an association list (`Dict`), and a call that can panic is an `Outcome`.
-- Codec: base64, encoding/json and nacl, which are not in the repository. They are records of
--   functions; `IsCodec` and `IsNacl` are the documented laws that some theorems assume.
-- Nonce, Name: minedive/util.go. `inc_nonce` is IncNonce, `use_nonce` is UseNonce,
--   `get_random_name` is GetRandomName.
-- Protocol: minedive/protocol.go. Wire: minedive/l1proto.go and its JSON.
-- Server: minedive/server.go. State has the two structs, with pointers as numbers and an explicit
--   heap; Registry has AddExit to GetGuards; Clients has DeleteClientByName, GetClientByName,
--   GetOtherPeer, FwdToTarget and the parts of MinediveAccept; Aliases has GetAlias, SendPeer,
--   DecryptAlias and SendKey.
-- Mined: minedive/cmd/mined/main.go. `minedive_dispatch` is minediveDispatch, `make_avoid_map` is
--   makeAvoidMap. Remined, Sigmined, Resigmined, Kremined and Restmined are the programs of those
--   names in minedive/cmd/, each with its minediveDispatch; Resigmined has signalingDispatch too,
--   and Restmined the pages of restmined. Mined.Reach is mined as a step relation: connections,
--   requests and ends of connections, one step for a body between the calls of the mutex.
--   `Reach` has all runs, `Orderly` those where clients keep the names that they have registered.
-- Redis: the redis commands that they use, a record of functions on a state, with documented laws.
-- Client: minedive/client.go, minedive/circuit.go, minedive/l1peer.go, minedive/l2peer.go. State
--   has the structs and the effects of a handler, Peers and L2 the maps of peers, L2Search
--   HandleL2Msg, Circuits Send and ReplyCircuit, its Building NewCircuit and SetupCircuit as the
--   steps between which they sleep, its FromPeers BuildCircuitZ, Relay handleL1Msg, Decrypt
--   DecL1Msg, Onion the way of a message through a circuit, and Replies that of a reply
--   (ReplyCircuit).
--   Rendezvous has ws_loop, userlistHandler, AcceptOffer, AcceptAnswer and Redial: `ws_step` is the
--   loop on a cell, `ws_failed` on a read error.
--   Dialling has newClient, Dial, DefaultDial, DialOpts, DialMiddle, SearchL2 and the plain commands;
--   Connection has newL1Peer and its callbacks, an event each (`on_event`), with OnMessage DecL1Msg.
-- Logger: minedive/cmd/mined/logger.go and its copies; `append_quoted` is appendQuoted and
--   `proxy_formatter` ProxyFormatter. Of utf8 and strconv it takes a record of functions.
-- Minecli: minedive/cmd/minecli/main.go. `searcher` is `s`, `responder` is `r`; Line has the words
--   of a line and the command it names, State the variables, and Loop cmdLoop: `run_line` is what
--   it does with one line, `cmd_loop` with one after another.
-- Middlemine: minedive/cmd/middlemine/main.go, with fakeSearch (`fake_search`).
-- Browser: minedive/cmd/be/main.go, and of minedive/cmd/bemv3/main.go what differs; `reply_l2` is
--   ReplyL2. A value of the page is of any type, with a record of the functions of syscall/js.
-- States: minedive/circuitstate.go, minedive/minedivestate.go, minedive/errors.go.
-- Examples: the theorems at concrete inputs, with stand-ins for the packages.
--
-- A handler takes the state and returns the new state and the list of what it writes. The body
-- between the calls of a mutex is one step. The order in which `range` visits a map, the numbers of
-- math/rand and the bytes of crypto/rand are arguments, so that a theorem holds for all of them.
-- A `switch` on a string is a function into a data type with a constructor for each case.
--
-- `send` has fuel for its rounds, of which four are enough (`send_total`), `wait_id` for its reads,
-- of which twelve are (`wait_id_total`), and `wait_test`, the loop at the end of SetupCircuit, for
-- its reads, of which 36 are (`wait_test_total`). `build_circuit_z` needs 31 (`find_exit_ends`).
-- `append_quoted` needs the length of its text (`append_quoted_total`).
-- The arrays of 24 and 32 bytes are lists whose length a hypothesis gives where it matters.
--
-- Not modelled: log lines but those of the access log, the HTTP set-up and flags, WebRTC itself (its
-- calls succeed here, and its callbacks are events), timers, peerConnectionNoticeHandler (no code
-- writes to its channel), EncL1Msg (no code calls it), and the browser extension in JavaScript. What
-- other goroutines do to a node while a call sleeps is an argument of the call.
pub mod Browser
pub mod Client
pub mod Codec
pub mod Common
pub mod Examples
pub mod Kremined
pub mod Logger
pub mod Middlemine
pub mod Minecli
pub mod Mined
pub mod Name
pub mod Nonce
pub mod Protocol
pub mod Redis
pub mod Remined
pub mod Resigmined
pub mod Restmined
pub mod Server
pub mod Sigmined
pub mod States
pub mod Wire
