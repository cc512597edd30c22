-- ===== src/Minecli/Loop/Session.antt =====
-- A session of minecli: names to avoid, and then "init".
use minedive.Common.{
  ◌≤◌, ◌<◌, ◌≡◌, ◌⊎◌, refl, sym, ap, subst, Bool, false, List, [], ◌∷◌, ◌++◌, Option, none, some,
  inl, inr, Bytes, bytes, ◌is◌, All, done, panic, ◌>>=◌,
}
use mathlib.Core.List.{append-nil, append_assoc}
use minedive.Client.State.{Client}
use minedive.Client.Peers.{get_n_peers}
use minedive.Client.Dialling.{Dialled, dial}
use minedive.Minecli.Line.{
  Read, line, text_of, is_blank, IsWord, unwords, words_of-unwords, command_of_avoid,
  command_of_init,
}
use minedive.Minecli.Loop.{
  Cli, World, ready, unfinished, Action, Ran, stay, run_line, run_command, run_avoid, run_init,
  cmd_loop,
}
use minedive.Minecli.Loop.Table.{cli_of}
use minedive.Minecli.Loop.Init.{rounds, Avoids, StaysAway, run_init-Avoids}

abbrev pub avoid_line : Bytes → Read
avoid_line name = line (unwords (bytes "avoid") (name ∷ []) ++ b'\n' ∷ [])

abbrev pub init_line : Read
init_line = line (unwords (bytes "init") [] ++ b'\n' ∷ [])

-- The session in which a line for each name comes before the line "init".
abbrev pub session : World → List Bytes → List (World × Read)
session w [] = (w, init_line) ∷ []
session w (name ∷ names) = (w, avoid_line name) ∷ session w names

avoid_IsWord : IsWord (bytes "avoid")
unfolding bytes is_blank
avoid_IsWord = (λ e. cc, (refl, (refl, (refl, (refl, (refl, tt))))))

init_IsWord : IsWord (bytes "init")
unfolding bytes is_blank
init_IsWord = (λ e. cc, (refl, (refl, (refl, (refl, tt)))))

run_line-avoid :
    (w : World) (m : Option Client) (v : Bool) (avoided : List Bytes) (name : Bytes)
    → IsWord name
    → run_line w (cli_of m v avoided) (text_of (avoid_line name))
      ≡ stay (cli_of m v (avoided ++ name ∷ [])) []
unfolding run_line run_command run_avoid text_of ◌is◌ bytes
run_line-avoid w m v avoided name h =
    rw
      (
        words_of-unwords (bytes "avoid") (name ∷ []) avoid_IsWord (h, tt),
        run_line,
        command_of_avoid,
      )
      refl

run_line-init : (w : World) (cli : Cli) → run_line w cli (text_of init_line) ≡ run_init w cli
unfolding run_line run_command text_of ◌is◌ bytes
run_line-init w cli =
    rw (words_of-unwords (bytes "init") [] init_IsWord tt, run_line, command_of_init) refl

-- How a session ends.
abbrev pub Ends : World → Dialled → List Bytes → Ran → Type 0
Ends w d avoided r =
    ((out : List Action) × (r ≡ done (unfinished, out))
      × All (λ c. get_n_peers c < 2) (rounds avoided w.waits d.client))
    ⊎ ((c : Client) × (out : List Action) × (r ≡ done (ready (cli_of (some c) false avoided), out))
        × (2 ≤ get_n_peers c)
        × Avoids avoided c)

-- The loop after a line that prints nothing.
quietly : Ran → Ran
quietly r = do (last, more) ← r; done (last, [] ++ more)

quietly_same : (r : Ran) → quietly r ≡ r
unfolding quietly
quietly_same panic = refl
quietly_same (done (last, more)) = refl

cmd_loop-avoid :
    (w : World) (m : Option Client) (v : Bool) (avoided : List Bytes) (name : Bytes)
    (rest : List (World × Read))
    → IsWord name
    → cmd_loop (cli_of m v avoided) ((w, avoid_line name) ∷ rest)
      ≡ cmd_loop (cli_of m v (avoided ++ name ∷ [])) rest
unfolding cmd_loop quietly
cmd_loop-avoid w m v avoided name rest h =
    rw (run_line-avoid w m v avoided name h, cmd_loop)
      (quietly_same (cmd_loop (cli_of m v (avoided ++ name ∷ [])) rest))

cmd_loop-init :
    (w : World) (d : Dialled) (cli : Cli)
    → dial w.net ≡ done d
    → StaysAway cli.avoid w.waits
    → Ends w d cli.avoid (cmd_loop cli ((w, init_line) ∷ []))
unfolding cmd_loop
cmd_loop-init w d cli h away = elim (run_init-Avoids w cli d h away) [
  | inl (out, e, few) ↦ inl (out, rw (run_line-init w cli, cmd_loop, e) refl, few)
  | inr (c, out, e, enough, avoids) ↦ inr (
    c,
    out,
    rw (run_line-init w cli, cmd_loop, e)
        (ap (λ (more : List Action). done (ready (cli_of (some c) false cli.avoid), more))
          (append-nil out)),
    enough,
    avoids,
  )
]

session-Ends :
    (w : World) (d : Dialled) (m : Option Client) (v : Bool) (avoided names : List Bytes)
    → dial w.net ≡ done d
    → All IsWord names
    → StaysAway (avoided ++ names) w.waits
    → Ends w d (avoided ++ names) (cmd_loop (cli_of m v avoided) (session w names))
session-Ends w d m v avoided [] h words away =
    subst (λ l. Ends w d l (cmd_loop (cli_of m v avoided) (session w [])))
      (sym (append-nil avoided))
      (cmd_loop-init w d (cli_of m v avoided) h
        (subst (λ l. StaysAway l w.waits) (append-nil avoided) away))
session-Ends w d m v avoided (name ∷ names) h (word, words) away =
    rw (cmd_loop-avoid w m v avoided name (session w names) word) (
      subst (λ l. Ends w d l (cmd_loop (cli_of m v (avoided ++ name ∷ [])) (session w names)))
        (append_assoc avoided (name ∷ []) names)
        (session-Ends w d m v (avoided ++ name ∷ []) names h words
          (subst (λ l. StaysAway l w.waits) (sym (append_assoc avoided (name ∷ []) names)) away)))

-- A session that avoids names. The user of minecli, just started, types "avoid" with each of some
-- names, words without blanks, and then "init"; the node dials, and between the calls of
-- `DeletePeer` of one round no other goroutine brings a peer of one of the names, while in the
-- waits any may come. Either it has less than two peers after each of its rounds, and is still in
-- its waits; or the loop is ready for the next line with a client that has two peers at least, and
-- none of the names is a peer of it.
pub session-Avoids :
    (w : World) (d : Dialled) (names : List Bytes)
    → dial w.net ≡ done d
    → All IsWord names
    → StaysAway names w.waits
    → Ends w d names (cmd_loop (cli_of none false []) (session w names))
session-Avoids w d names = session-Ends w d none false [] names
