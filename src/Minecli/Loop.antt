-- ===== src/Minecli/Loop.antt =====
-- cmd/minecli/main.go: `cmdLoop`, as what it does with one line after another.
pub mod Table
pub mod Nil
pub mod Stops
pub mod Typed
pub mod Init
pub mod Language
pub mod Session
use minedive.Common.{
  ℕ, suc, ◌+◌, Bool, true, false, List, [], ◌∷◌, ◌++◌, map, Option, none, some, Bytes, bytes, ◌is◌,
  ltb, if◌then◌else◌, length, Outcome, done, panic, ◌>>=◌,
}
use minedive.Codec.{Nacl}
use minedive.Protocol.{Cell, zero_cell}
use minedive.Client.State.{Client, Effect, send_cell, dial_peer, put_circuit}
use minedive.Client.Peers.{delete_peer, get_n_peers, get_peer, list_l1_peers, peer_msg}
use minedive.Client.Circuits.{send}
use minedive.Client.Circuits.Building.{Creation, new_circuit}
use minedive.Client.Dialling.{Net, dial, single_cmd, j_cell, search_l2}
pub use minedive.Minecli.State.{
  Cli, Wait, World, Action, print, print_count, effect, sleep, keep_alive, setup_circuit, Next,
  ready, unfinished, ended, exited, Ran, stay,
}
unfoldable pub use minedive.Minecli.State.{with_client}
use minedive.Minecli.Line.{
  Command, err, avoid, init, search, verbose, silence, join, wsping, cmd, getk, getspd, wsraw,
  circuit, testcirc, testcirc2, searchv2, raw, list, getpeers, quit, other, words_of, command_of,
  Read, text_of,
}

run_avoid : Cli → List Bytes → Ran
run_avoid cli [] = panic
run_avoid cli (name ∷ rest) = stay (record cli { avoid = cli.avoid ++ name ∷ [] }) []

-- The inner loop of "init", from its call number `n` on; every call takes the mutex for itself.
delete_peers : List Bytes → (ℕ → Client → Client) → ℕ → Client → Client
delete_peers [] others n c = c
delete_peers (p ∷ ps) others n c = delete_peers ps others (n + 1) (others n (delete_peer p c))

-- The outer loop, where `none` is that the waits ended before it did.
unfoldable pub wait_peers : List Bytes → List Wait → Client → Option Client × List Action
unfolding delete_peers
wait_peers avoided [] c = (if ltb (get_n_peers c) 2 then none else some c, [])
wait_peers avoided (wait ∷ waits) c =
    let c1 = delete_peers avoided wait.others 0 (wait.asleep c) in
    let (c', out) = wait_peers avoided waits c1 in
    if ltb (get_n_peers c) 2
    then (c', map effect (single_cmd (bytes "getpeers")) ++ sleep 3 ∷ out)
    else (some c, [])

came_up : Cli → Option Client × List Action → Ran
came_up cli (none, out) = done (unfinished, out)
came_up cli (some c, out) = stay (record cli { mine_client = some c; verbose = false }) out

unfoldable pub run_init : World → Cli → Ran
unfolding came_up
run_init w cli = do d ← dial w.net; came_up cli (wait_peers cli.avoid w.waits d.client)

-- The client after a call that writes, with the fuel of `send`.
written : Cli → Option (Outcome (Client × List Effect)) → Ran
written cli none = done (unfinished, [])
written cli (some panic) = panic
written cli (some (done (c, out))) = stay (record cli { mine_client = some c }) (map effect out)

search_for : World → Cli → Client → List Bytes → Ran
unfolding written
search_for w cli c [] = panic
search_for w cli c (q ∷ []) = written cli (search_l2 w.net.codec w.nacl c q (bytes "en_US"))
search_for w cli c (q ∷ lang ∷ rest) = written cli (search_l2 w.net.codec w.nacl c q lang)

run_search : World → Cli → List Bytes → Ran
unfolding search_for
run_search w cli words = elim cli.mine_client [
  | none ↦ done (ended, [])
  | some c ↦ search_for w cli c words
]

set_verbose : Cli → Bool → Ran
set_verbose cli b = elim cli.mine_client [
  | none ↦ stay cli []
  | some c ↦ stay (record cli { verbose = b }) []
]

pubk_cell : World → Client → Cell
pubk_cell w c = record zero_cell { type = bytes "pubk"; d0 = w.net.codec.encode c.pk }

unfoldable pub run_join : World → Cli → Ran
unfolding pubk_cell
run_join w cli = do
  d ← dial w.net
  let c = d.client
  stay (record cli { mine_client = some (record c { has_searcher = true }); verbose = false })
      (print (w.net.codec.encode c.pk ∷ [])
        ∷ effect (send_cell (pubk_cell w c))
        ∷ keep_alive 20
        ∷ [])

-- `SingleCmd` on the client.
command : Cli → Bytes → Ran
unfolding with_client
command cli type = with_client cli.mine_client (λ c. stay cli (map effect (single_cmd type)))

run_cmd : Cli → List Bytes → Ran
unfolding command
run_cmd cli [] = panic
run_cmd cli (type ∷ rest) = if type is [] then stay cli [] else command cli type

run_getk : Cli → List Bytes → Ran
unfolding with_client
run_getk cli [] = panic
run_getk cli (name ∷ rest) =
    let cell : Cell = record zero_cell { type = bytes "getk"; d0 = name } in
    if name is []
    then stay cli []
    else with_client cli.mine_client (λ c. stay cli (effect (send_cell cell) ∷ []))

run_getspd : World → Cli → List Bytes → Ran
run_getspd w cli [] = stay cli (print (bytes "no" ∷ []) ∷ [])
run_getspd w cli (name ∷ rest) = do
  d ← dial w.net
  let c = d.client
  stay (record cli { mine_client = some (record c { has_responder = true }); verbose = false })
      (print (w.net.codec.encode c.pk ∷ [])
        ∷ effect (dial_peer name [] true false)
        ∷ sleep 3
        ∷ print (w.sdp ∷ [])
        ∷ [])

-- `JCell` reads the client only if the text is a cell.
write_cell : Cli → Option Cell → Ran
unfolding with_client
write_cell cli none = stay cli []
write_cell cli (some cell) =
    with_client cli.mine_client (λ c. stay cli (map effect (j_cell (some cell))))

run_wsraw : World → Cli → List Bytes → Ran
unfolding write_cell
run_wsraw w cli [] = panic
run_wsraw w cli (text ∷ rest) =
    if text is [] then stay cli [] else write_cell cli (w.read_cell text)

-- After `NewCircuit` of "circuit".
set_up : Option ℕ → Bytes → Bytes → Bytes → List Action
set_up none guard bridge exit = []
set_up (some z) guard bridge exit =
    print (bytes "invoking setup circuit" ∷ []) ∷ setup_circuit z guard bridge exit ∷ []

invoked : List Bytes → Action
invoked words = print_count (bytes "circuit invoked with cmd:") (suc (length words))

run_circuit : World → Cli → List Bytes → Ran
unfolding set_up invoked
run_circuit w cli (guard ∷ bridge ∷ exit ∷ []) = do
  (m, z, out) ← new_circuit w.net.codec w.creation cli.mine_client
  stay (record cli { mine_client = m })
      (invoked (guard ∷ bridge ∷ exit ∷ []) ∷ (map effect out ++ set_up z guard bridge exit))
run_circuit w cli words = stay cli (invoked words ∷ [])

-- `mineClient.Circuits[0].Send(text)`
send_first : World → Client → Bytes → List ℕ → Option (Outcome (Client × List Effect))
send_first w c text [] = some panic
send_first w c text (z ∷ zs) = elim (send w.net.codec w.nacl 4 (c.circuit z) text) [
  | none ↦ none
  | some panic ↦ some panic
  | some (done (z', e)) ↦ some (done (put_circuit z z' c, e ∷ []))
]

send_on : World → Cli → Bytes → Ran
unfolding with_client send_first written
send_on w cli text = with_client cli.mine_client (λ c. written cli (send_first w c text c.circuits))

test_line : Bytes
test_line = bytes "{\"type\":\"test\"}"

-- What goes before and after an action of a line.
around : List Action → List Action → Ran → Ran
around before after panic = panic
around before after (done (next, out)) = done (next, before ++ (out ++ after))

run_testcirc : World → Cli → Ran
unfolding send_on test_line around
run_testcirc w cli = do
  d ← dial w.net
  (m, z, out) ← new_circuit w.net.codec w.creation (some (record d.client { has_responder = true }))
  around (print (w.net.codec.encode d.client.pk ∷ []) ∷ (map effect out ++ sleep 1 ∷ []))
      (keep_alive 20 ∷ []) (send_on w (record cli { mine_client = m; verbose = false }) test_line)

unfoldable pub search_line : Bytes → Bytes
search_line q = bytes "{\"type\":\"search\",\"q\":\"" ++ (q ++ bytes "\",\"lang\":\"it\"}")

run_searchv2 : World → Cli → List Bytes → Ran
unfolding send_on
run_searchv2 w cli (q ∷ []) = send_on w cli (search_line q)
run_searchv2 w cli words = stay cli []

msg_peer : Cli → Client → Bytes → Bytes → Ran
msg_peer cli c name msg = elim (get_peer c name) [
  | none ↦ stay cli []
  | some p ↦ stay cli (effect (peer_msg c p msg) ∷ [])
]

-- The second test of "raw" is not made if the first fails.
run_raw : Cli → List Bytes → Ran
unfolding with_client msg_peer
run_raw cli [] = panic
run_raw cli (name ∷ []) = if name is [] then stay cli [] else panic
run_raw cli (name ∷ msg ∷ rest) =
    if name is []
    then stay cli []
    else if msg is []
    then stay cli []
    else with_client cli.mine_client (λ c. msg_peer cli c name msg)

unfoldable pub run_command : World → Cli → Command → List Bytes → Ran
unfolding run_avoid run_search set_verbose command run_cmd run_getk run_getspd run_wsraw run_circuit
    run_testcirc send_on test_line run_searchv2 run_raw
run_command w cli err words = stay cli (print words ∷ [])
run_command w cli avoid words = run_avoid cli words
run_command w cli init words = run_init w cli
run_command w cli search words = run_search w cli words
run_command w cli verbose words = set_verbose cli true
run_command w cli silence words = set_verbose cli false
run_command w cli join words = run_join w cli
run_command w cli wsping words = command cli (bytes "ping")
run_command w cli cmd words = run_cmd cli words
run_command w cli getk words = run_getk cli words
run_command w cli getspd words = run_getspd w cli words
run_command w cli wsraw words = run_wsraw w cli words
run_command w cli circuit words = run_circuit w cli words
run_command w cli testcirc words = run_testcirc w cli
run_command w cli testcirc2 words = send_on w cli test_line
run_command w cli searchv2 words = run_searchv2 w cli words
run_command w cli raw words = run_raw cli words
run_command w cli list words = stay cli (print (list_l1_peers cli.mine_client w.order) ∷ [])
run_command w cli getpeers words = command cli (bytes "getpeers")
run_command w cli quit words = done (exited, [])
run_command w cli other words = stay cli []

unfoldable pub run_line : World → Cli → Bytes → Ran
run_line w cli text =
    let (word, words) = words_of text in
    if word is [] then stay cli [] else run_command w cli (command_of word) words

-- The loop, on the reads of `cmdDispatcher`.
unfoldable pub cmd_loop : Cli → List (World × Read) → Ran
cmd_loop cli [] = stay cli []
cmd_loop cli ((w, r) ∷ rs) = do
  (next, out) ← run_line w cli (text_of r)
  elim next [
    | ready cli' ↦ do (last, more) ← cmd_loop cli' rs; done (last, out ++ more)
    | unfinished ↦ done (unfinished, out)
    | ended ↦ done (ended, out)
    | exited ↦ done (exited, out)
  ]
