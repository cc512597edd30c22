-- ===== src/Minecli/Loop/Init.antt =====
-- The command "init" of minecli.
use minedive.Common.{
  ℕ, ◌+◌, ◌≤◌, ◌<◌, ◌≡◌, ◌⊎◌, refl, ap, false, List, [], ◌∷◌, ◌++◌, map, Option, none, some, inl,
  inr, arith, Bytes, bytes, ltb, lookup, lookup-erase, is_iff, done, All, Bool-cases, Option-cases,
}
use minedive.Client.State.{Client}
use minedive.Client.Peers.{get_n_peers, get_peer, delete_peer}
use minedive.Client.Dialling.{Dialled, dial, dial_alone, single_cmd}
use minedive.Minecli.Loop.Table.{cli_of}
use minedive.Minecli.Loop.{
  Cli, Wait, World, ready, unfinished, Action, effect, sleep, delete_peers, wait_peers, came_up,
  run_init,
}

delete_peer-keeps :
    (p name : Bytes) (c : Client) → get_peer c name ≡ none → get_peer (delete_peer p c) name ≡ none
unfolding get_peer delete_peer
delete_peer-keeps p name c h = elim (Option-cases (lookup p c.l1_peers)) [
  | inl gone ↦ rw (gone, delete_peer) h
  | inr (q, there) ↦ rw (there, delete_peer) (ground (arith, lookup-erase name p c.l1_peers, h))
]

delete_peer-gone : (p : Bytes) (c : Client) → get_peer (delete_peer p c) p ≡ none
unfolding get_peer delete_peer
delete_peer-gone p c = elim (Option-cases (lookup p c.l1_peers)) [
  | inl gone ↦ rw (gone, delete_peer) gone
  | inr (q, there) ↦
      rw (there, delete_peer) (ground (arith, lookup-erase p p c.l1_peers, is_iff p p))
]

-- The other goroutines bring no peer of the name.
abbrev pub KeepsAway : (ℕ → Client → Client) → Bytes → Type 0
KeepsAway others name =
    (n : ℕ) (c : Client) → get_peer c name ≡ none → get_peer (others n c) name ≡ none

delete_peers-keeps :
    (ps : List Bytes) (name : Bytes) (others : ℕ → Client → Client) (n : ℕ) (c : Client)
    → KeepsAway others name
    → get_peer c name ≡ none
    → get_peer (delete_peers ps others n c) name ≡ none
unfolding delete_peers
delete_peers-keeps [] name others n c away h = h
delete_peers-keeps (p ∷ ps) name others n c away h =
    delete_peers-keeps ps name others (n + 1) (others n (delete_peer p c)) away
      (away n (delete_peer p c) (delete_peer-keeps p name c h))

-- None of the names is a peer.
abbrev pub Avoids : List Bytes → Client → Type 0
Avoids ps c = All (λ name. get_peer c name ≡ none) ps

delete_peers-Avoids :
    (ps : List Bytes) (others : ℕ → Client → Client) (n : ℕ) (c : Client)
    → All (KeepsAway others) ps
    → Avoids ps (delete_peers ps others n c)
unfolding delete_peers
delete_peers-Avoids [] others n c away = tt
delete_peers-Avoids (p ∷ ps) others n c (away, rest) =
    let c1 = others n (delete_peer p c) in
    (
      delete_peers-keeps ps p others (n + 1) c1 away
          (away n (delete_peer p c) (delete_peer-gone p c)),
      delete_peers-Avoids ps others (n + 1) c1 rest,
    )

-- Between the calls of `DeletePeer` nothing brings a peer of the names.
abbrev pub StaysAway : List Bytes → List Wait → Type 0
StaysAway ps waits = All (λ wait. All (KeepsAway wait.others) ps) waits

-- The client after each round of the loop, if it did not leave.
abbrev pub rounds : List Bytes → List Wait → Client → List Client
unfolding delete_peers
rounds avoided [] c = []
rounds avoided (wait ∷ waits) c =
    let c' = delete_peers avoided wait.others 0 (wait.asleep c) in c' ∷ rounds avoided waits c'

-- How the loop ends, from a client with the result `b` of the test for less than two peers.
abbrev Ends : List Bytes → List Client → Client → Option Client × List Action → Type 0
Ends avoided cs c r =
    ((out : List Action) × (r ≡ (none, out)) × All (λ c'. get_n_peers c' < 2) (c ∷ cs))
    ⊎ ((c' : Client) × (out : List Action) × (r ≡ (some c', out))
        × (2 ≤ get_n_peers c')
        × (c' ≡ c ⊎ Avoids avoided c'))

wait_peers-Ends :
    (avoided : List Bytes) (waits : List Wait) (c : Client)
    → StaysAway avoided waits
    → Ends avoided (rounds avoided waits c) c (wait_peers avoided waits c)
unfolding wait_peers rounds
wait_peers-Ends avoided [] c away = elim (Bool-cases (ltb (get_n_peers c) 2)) [
  | inl few ↦ inl ([], rw (few, wait_peers) refl, (ground (arith, few), tt))
  | inr enough ↦ inr (c, [], rw (enough, wait_peers) refl, ground (arith, enough), inl refl)
]
wait_peers-Ends avoided (wait ∷ waits) c (away, rest) = elim (Bool-cases (ltb (get_n_peers c) 2)) [
  | inr enough ↦ inr (c, [], rw (enough, wait_peers) refl, ground (arith, enough), inl refl)
  | inl few ↦
      let c1 = delete_peers avoided wait.others 0 (wait.asleep c) in
      let asked =
        λ (out : List Action). map effect (single_cmd (bytes "getpeers")) ++ sleep 3 ∷ out in
      elim (wait_peers-Ends avoided waits c1 rest) [
        | inl (out, e, all) ↦
            inl (asked out, rw (few, wait_peers, e) refl, (ground (arith, few), all))
        | inr (c', out, e, enough, at) ↦
            inr (c', asked out, rw (few, wait_peers, e) refl, enough, inr (avoided_by at))
      ]
]
  where
    avoided_by :
        {c' : Client}
        → c' ≡ delete_peers avoided wait.others 0 (wait.asleep c) ⊎ Avoids avoided c'
        → Avoids avoided c'
    avoided_by (inl e) = rw e (delete_peers-Avoids avoided wait.others 0 (wait.asleep c) away)
    avoided_by (inr h) = h

-- "init" on a node that dials, where nothing brings a peer to be avoided between the calls of
-- `DeletePeer`. Either the client has less than two peers after each of the rounds, and the loop is
-- still in its waits; or the loop ends, with a client that has two peers at least, none of which is
-- to be avoided.
pub run_init-Avoids :
    (w : World) (cli : Cli) (d : Dialled)
    → dial w.net ≡ done d
    → StaysAway cli.avoid w.waits
    → ((out : List Action) × (run_init w cli ≡ done (unfinished, out))
        × All (λ c. get_n_peers c < 2) (rounds cli.avoid w.waits d.client))
      ⊎ ((c : Client) × (out : List Action) × (run_init w cli
            ≡ done (ready (cli_of (some c) false cli.avoid), out))
          × (2 ≤ get_n_peers c)
          × Avoids cli.avoid c)
unfolding run_init came_up
run_init-Avoids w cli d h away = elim (wait_peers-Ends cli.avoid w.waits d.client away) [
  | inl (out, e, (few, all)) ↦ inl (out, rw (h, run_init, e) refl, all)
  | inr (c, out, e, enough, at) ↦ inr (
    c,
    out,
    rw (h, run_init, e) refl,
    enough,
    elim at [
      | inl same ↦ absurd (omega (arith, enough, ap get_n_peers same, dial_alone w.net d h))
      | inr avoids ↦ avoids
    ],
  )
]
