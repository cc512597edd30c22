-- ===== src/Minecli/Loop/Table.antt =====
-- What the lines of minecli need: a client, words, a circuit.
use minedive.Common.{
  ◌≡◌, ◌↔◌, refl, Bool, true, false, not, ◌&&◌, List, [], ◌∷◌, Option, none, some, Bytes, ◌is◌,
  if◌then◌else◌, ℕ, done, panic,
}
use minedive.Client.State.{Client}
use minedive.Client.Circuits.Sending.{IsReady}
use minedive.Minecli.Line.{
  Command, avoid, init, search, join, wsping, cmd, getk, getspd, wsraw, circuit, testcirc,
  testcirc2, searchv2, raw, getpeers,
}
use minedive.Minecli.Loop.{Cli, World, Next, Ran, Action}

-- The commands that replace the client by a new one.
unfoldable pub dials : Command → Bool
dials init = true
dials join = true
dials getspd = true
dials testcirc = true
dials _ = false

-- A word that the command reads by its index is missing.
unfoldable pub lacks_word : Command → List Bytes → Bool
lacks_word avoid [] = true
lacks_word search [] = true
lacks_word cmd [] = true
lacks_word getk [] = true
lacks_word wsraw [] = true
lacks_word raw [] = true
lacks_word raw (name ∷ []) = not (name is [])
lacks_word _ _ = false

unfoldable pub is_some {ℓ} : {A : Type ℓ} → Option A → Bool
is_some none = false
is_some (some a) = true

-- The command uses the client, without a test for nil.
unfoldable pub needs_client : World → Command → List Bytes → Bool
needs_client w wsping words = true
needs_client w getpeers words = true
needs_client w testcirc2 words = true
needs_client w cmd (type ∷ rest) = not (type is [])
needs_client w getk (name ∷ rest) = not (name is [])
needs_client w wsraw (text ∷ rest) = not (text is []) && is_some (w.read_cell text)
needs_client w circuit (guard ∷ bridge ∷ exit ∷ []) = is_some w.creation.circuit_keys
needs_client w searchv2 (q ∷ []) = true
needs_client w raw (name ∷ msg ∷ rest) = not (name is []) && not (msg is [])
needs_client w _ _ = false

-- The command sends through the first circuit, without a test that there is one.
unfoldable pub needs_circuit : Command → List Bytes → Bool
needs_circuit search (q ∷ rest) = true
needs_circuit testcirc2 words = true
needs_circuit searchv2 (q ∷ []) = true
needs_circuit _ _ = false

unfoldable pub is_empty {ℓ} : {A : Type ℓ} → List A → Bool
is_empty [] = true
is_empty (x ∷ xs) = false

-- What a line does to a client whose circuits are missing, or not.
unfoldable pub stops_some : Bool → Command → List Bytes → Bool
stops_some missing k words = if lacks_word k words then true else needs_circuit k words && missing

-- Without a client, "search" ends the loop before it reads its words.
unfoldable pub stops : World → Option Client → Command → List Bytes → Bool
unfolding stops_some
stops w (some c) k words = stops_some (is_empty c.circuits) k words
stops w none search words = false
stops w none k words = if lacks_word k words then true else needs_client w k words

-- The first circuit of the client can send.
pub record CanSend (c : Client) : Type 0 where
  pub own : ℕ
  pub others : List ℕ
  pub dc : ℕ
  pub first : c.circuits ≡ own ∷ others
  pub open_dc : (c.circuit own).dc ≡ some dc
  pub is_ready : IsReady (c.circuit own)

abbrev pub cli_of : Option Client → Bool → List Bytes → Cli
cli_of m v avoided = record { mine_client = m; verbose = v; avoid = avoided }

-- What a run and the table say of one line.
abbrev pub Matches : Ran → Bool → Type 0
Matches r b = (r ≡ panic) ↔ (b ≡ true)

pub both_stop : Matches panic true
both_stop = (λ h. refl, λ h. refl)

pub both_go_on : (r : Next × List Action) → Matches (done r) false
both_go_on r = (λ h. cc, λ h. cc)

-- A test for an empty word, before what the table says `b` of.
pub tested-Matches :
    (t b : Bool) (r : Ran) (here : Next × List Action)
    → Matches r b
    → Matches (if t then done here else r) (not t && b)
tested-Matches true b r here h = both_go_on here
tested-Matches false b r here h = h

pub needed-Matches :
    (t : Bool) (here : Next × List Action) → Matches (if t then done here else panic) (not t)
needed-Matches true here = both_go_on here
needed-Matches false here = both_stop

pub goes_on-Matches :
    (t : Bool) (r : Ran) (here : Next × List Action)
    → Matches r false
    → Matches (if t then done here else r) false
goes_on-Matches true r here h = both_go_on here
goes_on-Matches false r here h = h

-- The same, where the table goes on.
pub unnamed-Matches :
    (t : Bool) (here : Next × List Action)
    → Matches (if t then done here else panic) (if not t then true else false)
unnamed-Matches true here = both_go_on here
unnamed-Matches false here = both_stop
