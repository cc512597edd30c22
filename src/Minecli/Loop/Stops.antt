-- ===== src/Minecli/Loop/Stops.antt =====
-- Which lines make minecli panic.
use minedive.Common.{
  ◌≡◌, ◌↔◌, ◌⊎◌, refl, sym, subst, ap, ◌∙◌, Bool, true, false, List, [], ◌∷◌, Option, none, some,
  inl, inr, Bytes, bytes, ◌is◌, is_eq, Outcome, done, panic, Bool-cases, Option-cases,
}
use minedive.Codec.{Codec, Nacl}
use minedive.Protocol.{Cell}
use minedive.Client.State.{Client, Effect, put_circuit, send_text}
use minedive.Wire.{zero_l2, l2_members}
use minedive.Client.Peers.{get_peer}
use minedive.Client.Circuits.{state_ok}
use minedive.Client.Circuits.Sending.{send_total, with_nonces, onion}
use minedive.Client.Dialling.{search_first, search_l2}
use minedive.Client.Circuits.Building.{new_circuit}
use minedive.Minecli.Line.{
  Command, err, avoid, init, search, verbose, silence, join, wsping, cmd, getk, getspd, wsraw,
  circuit, testcirc, testcirc2, searchv2, raw, list, getpeers, quit, other, words_of, command_of,
  command_of_empty,
}
use minedive.Minecli.Loop.{
  Cli, World, run_line, run_command, run_avoid, run_search, search_for, written, set_verbose,
  command, with_client, run_cmd, run_getk, run_wsraw, write_cell, run_circuit, send_on, send_first,
  test_line, run_searchv2, run_raw, msg_peer, search_line, stay,
}
use minedive.Minecli.Loop.Nil.{run_command_nil-Matches}
use minedive.Minecli.Loop.Table.{
  dials, lacks_word, needs_client, needs_circuit, is_empty, stops_some, stops, CanSend, cli_of,
  Matches, both_stop, both_go_on, unnamed-Matches, goes_on-Matches,
}

written-Returns :
    (cli : Cli) (c : Client) (out : List Effect)
    → Matches (written cli (some (done (c, out)))) false
unfolding written
written-Returns cli c out = both_go_on _

-- A call that sends through the first circuit comes to its end, and writes.
abbrev Writes : Option (Outcome (Client × List Effect)) → Type 0
Writes r = (c : Client) × (out : List Effect) × (r ≡ some (done (c, out)))

abbrev search_text : Codec → Bytes → Bytes → Bytes
search_text codec q lang =
    codec.print (l2_members (record zero_l2 { type = bytes "search"; query = q; lang = lang }))

search_l2-Writes :
    (codec : Codec) (nacl : Nacl) (c : Client) (q lang : Bytes)
    → CanSend c
    → Writes (search_l2 codec nacl c q lang)
unfolding search_l2 search_first
search_l2-Writes codec nacl c q lang can = elim (Bool-cases (state_ok (c.circuit can.own))) [
  | inl ok ↦
      let text = search_text codec q lang in
      let (e, b, g, ready, sent) =
        send_total codec nacl (c.circuit can.own) text can.dc can.is_ready can.open_dc in
      let z = with_nonces (c.circuit can.own) e b g in
      (
        put_circuit can.own z c,
        send_text can.dc (onion codec nacl z text) ∷ [],
        ap (search_first codec nacl c text) can.first ∙ rw (ok, search_first, sent) refl,
      )
  | inr down ↦ (
    c,
    [],
    ap (search_first codec nacl c (search_text codec q lang)) can.first
        ∙ rw (down, search_first) refl,
  )
]

send_first-Writes :
    (w : World) (c : Client) (text : Bytes) → CanSend c → Writes (send_first w c text c.circuits)
unfolding send_first
send_first-Writes w c text can =
    let (e, b, g, ready, sent) =
      send_total w.net.codec w.nacl (c.circuit can.own) text can.dc can.is_ready can.open_dc in
    let z = with_nonces (c.circuit can.own) e b g in
    (
      put_circuit can.own z c,
      send_text can.dc (onion w.net.codec w.nacl z text) ∷ [],
      ap (send_first w c text) can.first ∙ rw (sent, send_first) refl,
    )

written-Matches :
    (cli : Cli) (r : Option (Outcome (Client × List Effect)))
    → Writes r
    → Matches (written cli r) false
written-Matches cli r (c, out, e) = rw e (written-Returns cli c out)

msg_peer-Returns : (cli : Cli) (c : Client) (n m : Bytes) → Matches (msg_peer cli c n m) false
unfolding msg_peer
msg_peer-Returns cli c n m = elim (Option-cases (get_peer c n)) [
  | inl unknown ↦ rw (unknown, msg_peer) (both_go_on _)
  | inr (p, known) ↦ rw (known, msg_peer) (both_go_on _)
]

-- A client is there, and all calls that send through its first circuit panic, or none does.
module _ (w : World) (c : Client) (v : Bool) (avoided : List Bytes) (missing : Bool)
    (searches : (q lang : Bytes)
      → Matches
          (written (cli_of (some c) v avoided) (search_l2 w.net.codec w.nacl c q lang))
          missing)
    (sends : (line : Bytes)
      → Matches
          (written (cli_of (some c) v avoided) (send_first w c line c.circuits))
          missing) where
  run_command-Matches :
      (k : Command) (words : List Bytes)
      → dials k ≡ false
      → Matches (run_command w (cli_of (some c) v avoided) k words) (stops_some missing k words)
  unfolding dials stops_some needs_circuit lacks_word run_command run_avoid run_search search_for
      set_verbose command with_client run_cmd run_getk run_wsraw write_cell run_circuit new_circuit
      send_on test_line run_searchv2 run_raw msg_peer
  run_command-Matches err words h = both_go_on _
  run_command-Matches avoid [] h = both_stop
  run_command-Matches avoid (a ∷ words) h = both_go_on _
  run_command-Matches init words h = absurd cc
  run_command-Matches search [] h = both_stop
  run_command-Matches search (q ∷ []) h = searches q (bytes "en_US")
  run_command-Matches search (q ∷ l ∷ words) h = searches q l
  run_command-Matches verbose words h = both_go_on _
  run_command-Matches silence words h = both_go_on _
  run_command-Matches join words h = absurd cc
  run_command-Matches wsping words h = both_go_on _
  run_command-Matches cmd [] h = both_stop
  run_command-Matches cmd (t ∷ words) h = goes_on-Matches (t is []) _ _ (both_go_on _)
  run_command-Matches getk [] h = both_stop
  run_command-Matches getk (n ∷ words) h = goes_on-Matches (n is []) _ _ (both_go_on _)
  run_command-Matches getspd words h = absurd cc
  run_command-Matches wsraw [] h = both_stop
  run_command-Matches wsraw (t ∷ words) h = goes_on-Matches (t is []) _ _ (by_cell (w.read_cell t))
    where
      by_cell : (cell : Option Cell) → Matches (write_cell (cli_of (some c) v avoided) cell) false
      by_cell none = both_go_on _
      by_cell (some cell) = both_go_on _
  run_command-Matches circuit [] h = both_go_on _
  run_command-Matches circuit (a ∷ []) h = both_go_on _
  run_command-Matches circuit (a ∷ b ∷ []) h = both_go_on _
  run_command-Matches circuit (a ∷ b ∷ e ∷ []) h = elim (Option-cases w.creation.circuit_keys) [
    | inl none_made ↦ rw (none_made, new_circuit) (both_go_on _)
    | inr (keys, made) ↦ rw (made, new_circuit) (both_go_on _)
  ]
  run_command-Matches circuit (a ∷ b ∷ e ∷ d ∷ words) h = both_go_on _
  run_command-Matches testcirc words h = absurd cc
  run_command-Matches testcirc2 words h = sends test_line
  run_command-Matches searchv2 [] h = both_go_on _
  run_command-Matches searchv2 (q ∷ []) h = sends (search_line q)
  run_command-Matches searchv2 (q ∷ l ∷ words) h = both_go_on _
  run_command-Matches raw [] h = both_stop
  run_command-Matches raw (n ∷ []) h = unnamed-Matches (n is []) _
  run_command-Matches raw (n ∷ m ∷ words) h =
      goes_on-Matches (n is []) _ _ (goes_on-Matches (m is []) _ _ (msg_peer-Returns _ c n m))
  run_command-Matches list words h = both_go_on _
  run_command-Matches getpeers words h = both_go_on _
  run_command-Matches quit words h = both_go_on _
  run_command-Matches other words h = both_go_on _

-- The first circuit can send, or there is none.
some-Matches :
    (w : World) (c : Client) (v : Bool) (avoided : List Bytes) (k : Command) (words : List Bytes)
    → (c.circuits ≡ []) ⊎ CanSend c
    → dials k ≡ false
    → Matches (run_command w (cli_of (some c) v avoided) k words) (stops w (some c) k words)
unfolding stops is_empty search_l2 search_first send_first written
some-Matches w c v avoided k words (inl without) h =
    subst (λ b. Matches (run_command w (cli_of (some c) v avoided) k words) (stops_some b k words))
      (sym (ap is_empty without))
      (run_command-Matches w c v avoided true
        (λ q lang. rw (ap (search_first w.net.codec w.nacl c _) without) both_stop)
        (λ line. rw (ap (send_first w c line) without) both_stop) k words h)
some-Matches w c v avoided k words (inr can) h =
    subst (λ b. Matches (run_command w (cli_of (some c) v avoided) k words) (stops_some b k words))
      (sym (ap is_empty can.first))
      (run_command-Matches w c v avoided false
        (λ q lang.
          written-Matches (cli_of (some c) v avoided) _
            (search_l2-Writes w.net.codec w.nacl c q lang can))
        (λ line. written-Matches (cli_of (some c) v avoided) _ (send_first-Writes w c line can)) k
        words h)

-- Which lines make minecli panic. Without a client: those that lack a word that their command reads
-- by its index, but "search", and those whose command needs a client. With a client that has no
-- circuit, as one that has just dialled: those that lack a word, and those whose command sends
-- through the first circuit, like "search". With a client whose first circuit can send: those that
-- lack a word. For every line whose command does not dial.
pub run_line_panics :
    (w : World) (m : Option Client) (v : Bool) (avoided : List Bytes) (text : Bytes)
    → ((c : Client) → m ≡ some c → (c.circuits ≡ []) ⊎ CanSend c)
    → let (word, words) = words_of text in
      dials (command_of word) ≡ false
      → (run_line w (cli_of m v avoided) text ≡ panic) ↔ (stops w m (command_of word) words ≡ true)
unfolding run_line stops stops_some needs_circuit lacks_word needs_client
run_line_panics w m v avoided text can h = elim (Bool-cases (word is [])) [
  | inl blank ↦ rw (blank, run_line, is_eq word [] blank, command_of_empty) (on_blank m)
  | inr named ↦ rw (named, run_line) (on_command m can)
]
  where
    word : Bytes
    word = (words_of text).0

    words : List Bytes
    words = (words_of text).1

    on_blank : (m : Option Client) → Matches (stay (cli_of m v avoided) []) (stops w m other words)
    on_blank none = both_go_on _
    on_blank (some c) = both_go_on _

    on_command :
        (m : Option Client)
        → ((c : Client) → m ≡ some c → (c.circuits ≡ []) ⊎ CanSend c)
        → Matches
            (run_command w (cli_of m v avoided) (command_of word) words)
            (stops w m (command_of word) words)
    on_command none able = run_command_nil-Matches w v avoided (command_of word) words h
    on_command (some c) able = some-Matches w c v avoided (command_of word) words (able c refl) h
