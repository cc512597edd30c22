-- ===== src/Browser.antt =====
-- cmd/be/main.go: what the page calls in the node, and what the node calls in the page.
-- cmd/bemv3/main.go is a copy of it with other functions that tell of the state: `get_nl1` and
-- `get_nl2` in place of `get_state` and `get_circuit_state`, and without `test_ws`.
pub mod Answers
use minedive.Common.{
  ℕ, zero, suc, ◌+◌, Bool, true, List, [], ◌∷◌, ◌++◌, Option, none, some, Bytes, bytes,
  if◌then◌else◌, Outcome, done, panic, ◌>>=◌,
}
use minedive.Codec.{Codec, Nacl}
use minedive.Protocol.{Cell, zero_cell}
use minedive.Wire.{L2Msg, zero_l2, l2_members}
use minedive.Client.State.{Client, Circuit, Effect, send_cell}
use minedive.Client.Peers.{get_n_peers}
use minedive.Client.Circuits.{reply_circuit}
use minedive.Client.Circuits.Building.{Creation, new_circuit}
use minedive.Client.Dialling.{Net, dial, single_cmd, search_l2}
use minedive.States.{minedive_state_string}

-- Of syscall/js, on the values `V` of the page: whether `Type` is `TypeObject`, `String`, `Get`,
-- `Length` and `Index`. The last three panic where the value is not an object.
pub record Js (V : Type 0) : Type 0 where
  pub is_object : V → Bool
  pub string : V → Bytes
  pub get : V → Bytes → Outcome V
  pub length_of : V → Outcome ℕ
  pub index : V → ℕ → Outcome V

-- A method of the nil client panics.
unfoldable pub of_client {ℓ} : {A : Type ℓ} → Option Client → (Client → Outcome A) → Outcome A
of_client none f = panic
of_client (some c) f = f c

module _ {V : Type 0} (js : Js V) where
  -- The inner loop of `ReplyL2`, from index `j` on, with as many rounds as are left.
  unfoldable pub add_texts : ℕ → ℕ → V → L2Msg → Outcome L2Msg
  add_texts zero j list msg = done msg
  add_texts (suc left) j list msg = do
    ti ← js.index list j
    add_texts left (j + 1) list (record msg { text = msg.text ++ js.string ti ∷ [] })

  -- The case of an object.
  unfoldable pub read_result : V → L2Msg → Outcome L2Msg
  unfolding add_texts
  read_result a msg = do
    q ← js.get a (bytes "q")
    list ← js.get a (bytes "text")
    n ← js.length_of list
    add_texts n 0 list (record msg { query = js.string q })

  -- The loop over the arguments.
  unfoldable pub read_args : List V → L2Msg → Outcome L2Msg
  unfolding read_result
  read_args [] msg = done msg
  read_args (a ∷ args) msg = do
    msg' ← if js.is_object a then read_result a msg else done msg
    read_args args msg'

  answer_of : List V → Outcome L2Msg
  unfolding read_args
  answer_of args = do msg ← read_args args zero_l2; done (record msg { type = bytes "respv2" })

  -- `ReplyL2`: the second argument is the key, the third the nonce.
  unfoldable pub reply_l2 : Codec → Nacl → Option Client → List V → Outcome (List Effect)
  unfolding answer_of of_client
  reply_l2 codec nacl m (name ∷ key ∷ nonce ∷ rest) = do
    msg ← answer_of (name ∷ key ∷ nonce ∷ rest)
    of_client m (λ c.
        reply_circuit codec nacl c (codec.print (l2_members msg)) (js.string key) (js.string nonce))
  reply_l2 codec nacl m args = panic

-- `s` and `r`: the arguments of the page's functions `search` and `respond`.
unfoldable pub js_search : Bytes → Bytes → Bytes → Bytes → Bytes → List Bytes
js_search l2 q lang key nonce = l2 ∷ q ∷ lang ∷ key ∷ nonce ∷ []

unfoldable pub js_respond : Bytes → List Bytes
js_respond a = a ∷ []

-- `MinediveNewCircuit`: an error is only logged.
minedive_new_circuit : Codec → Creation → Option Client → Outcome (Option Client × List Effect)
minedive_new_circuit codec k m = do (m', z, out) ← new_circuit codec k m; done (m', out)

-- `MinediveConnect`, up to its `KeepAlive`: the client has both functions of the page, and says its
-- public key. It does not read the two numbers.
minedive_connect : Net → Creation → Outcome (Option Client × List Effect)
unfolding minedive_new_circuit
minedive_connect net k = do
  d ← dial net
  let c : Client = record d.client { has_searcher = true; has_responder = true }
  let cell : Cell = record zero_cell { type = bytes "pubk"; d0 = net.codec.encode c.pk }
  (m, out) ← minedive_new_circuit net.codec k (some c)
  done (m, send_cell cell ∷ out)

-- What an exported function starts as a goroutine.
pub data Started : Type 0 where
  connect : Bytes → Started
  open_circuit : Bytes → Started
  search : Bytes → Bytes → Started

module _ {V : Type 0} (js : Js V) where
  -- `ExportedMinediveConnect` and `ExportedMinediveNewCircuit`: three arguments are read. The two
  -- numbers, 1 where `Atoi` fails, are not used by what is started.
  exported_connect : List V → Outcome Started
  exported_connect (a ∷ b ∷ c ∷ rest) = done (connect (js.string a))
  exported_connect args = panic

  exported_new_circuit : List V → Outcome Started
  exported_new_circuit (a ∷ b ∷ c ∷ rest) = done (open_circuit (js.string a))
  exported_new_circuit args = panic

  -- `ExportedMinediveReConnect`
  exported_reconnect : List V → Outcome Started
  exported_reconnect (a ∷ b ∷ rest) = done (connect (js.string a))
  exported_reconnect args = panic

  -- `ExportedMinediveSearch`
  exported_search : List V → Outcome Started
  exported_search (q ∷ lang ∷ rest) = done (search (js.string q) (js.string lang))
  exported_search args = panic

-- The goroutine, with the fuel of `search_l2`.
run_started :
    Net → Nacl → Creation → Option Client → Started → Option (Outcome (Option Client × List Effect))
unfolding minedive_connect minedive_new_circuit
run_started net nacl k m (connect bootstrap) = some (minedive_connect net k)
run_started net nacl k m (open_circuit bootstrap) = some (minedive_new_circuit net.codec k m)
run_started net nacl k none (search q lang) = some panic
run_started net nacl k (some c) (search q lang) = elim (search_l2 net.codec nacl c q lang) [
  | none ↦ none
  | some panic ↦ some panic
  | some (done (c', out)) ↦ some (done (some c', out))
]

-- `TestWS`
test_ws : Option Client → Outcome (List Effect)
unfolding of_client
test_ws m = of_client m (λ c. done (single_cmd (bytes "ping")))

-- `ExportedMinediveGetState`, on the field `State`.
get_state : Option Client → ℕ → Outcome Bytes
unfolding of_client
get_state m state = of_client m (λ c. done (minedive_state_string state))

-- `m.Circuits[0].State`
first_state : Client → List ℕ → Outcome Bytes
first_state c [] = panic
first_state c (z ∷ zs) = done (c.circuit z).state

-- `ExportedMinediveGetCircuitState`
unfoldable pub get_circuit_state : Option Client → Outcome Bytes
unfolding of_client first_state
get_circuit_state m = of_client m (λ c. first_state c c.circuits)

-- `ExportedMinediveGetNL1` and `ExportedMinediveGetNL2` of bemv3.
get_nl1 : Option Client → Outcome ℕ
unfolding of_client
get_nl1 m = of_client m (λ c. done (get_n_peers c))

get_nl2 : Option Client → Outcome Bytes
unfolding of_client first_state
get_nl2 m = of_client m (λ c. first_state c c.circuits)
