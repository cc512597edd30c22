-- ===== src/Client/Dialling.antt =====
-- client.go: how a node comes to be (`newClient`, `Dial`, `DefaultDial`, `DialOpts`, `DialMiddle`),
-- and its plain commands to the server. A nil pointer, `log.Panic` and `log.Fatal` end the process;
-- all are `panic` here.
pub mod Registering
use minedive.Common.{
  ℕ, Bool, true, false, List, [], ◌∷◌, ◌++◌, Option, none, some, Bytes, bytes, ◌is◌, ltb,
  if◌then◌else◌, replicate, Outcome, done, panic, ◌>>=◌, ◌≡◌, inl, inr, ap, sym, ◌∙◌, Option-cases,
  Bool-cases, refl,
}
use minedive.Codec.{Codec, Nacl, copy}
use minedive.Protocol.{Cell, zero_cell}
use minedive.Wire.{L2Msg, zero_l2, l2_members}
use minedive.Client.State.{
  Client, L1Peer, L2Peer, Circuit, Effect, send_cell, zero_node, put_circuit,
}
use minedive.Client.Peers.{get_n_peers}
use minedive.Client.Circuits.{state_ok, send}
use minedive.Client.Rendezvous.{gettid_cell}

-- What a dial meets outside: `box.GenerateKey`, a public and a private key; whether the websocket
-- opens; and what the server answers to the one cell that is sent. `none` is an error.
pub record Net : Type 0 where
  pub codec : Codec
  pub generate_key : Option (Bytes × Bytes)
  pub connects : Bool
  pub exchange : Cell → Option Cell

pub record DialOptions : Type 0 where
  pub d0 : Bytes
  pub d1 : Bytes
  pub public_key : Option Bytes
  pub private_key : Option Bytes

-- A node whose `ws_loop` starts, the options and the flag `Browser` that it keeps, and the cell
-- that it has sent.
pub record Dialled : Type 0 where
  pub client : Client
  pub opts : DialOptions
  pub browser : Bool
  pub sent : Cell

-- `&Client{}` with its maps made.
fresh_client : Client
fresh_client = record {
  tid = [];
  priv_k = replicate 32 0;
  pk = replicate 32 0;
  has_searcher = false;
  has_responder = false;
  l1_peers = [];
  l2_peers = [];
  keys = [];
  circuits = [];
  routes = [];
  peer = λ p. record { name = []; alias = []; dc = 0; exit = false; sdp = [] };
  l2 = λ p. record {
    name = [];
    gw = none;
    ononce = replicate 24 0;
    msg_ignored = 0;
    state = [];
    k = replicate 32 0;
    pk = replicate 32 0;
  };
  circuit = λ p. record {
    circuit_id = [];
    dc = none;
    state = [];
    guard = zero_node;
    bridge = zero_node;
    exit = zero_node;
    pub_k = replicate 32 0;
    priv_k = replicate 32 0;
  };
  free = 0;
}

-- On an error the client is nil.
new_client : Net → Option Client
unfolding fresh_client
new_client net = if net.connects then some fresh_client else none

-- The cell that `JSONSuccessExchange` leaves in `out`, which was zero.
json_success_exchange : Net → Cell → Cell
json_success_exchange net cell = elim (net.exchange cell) [ none ↦ zero_cell | some out ↦ out ]

-- `cli.Browser = ...` on a nil client panics, before the test of the error.
or_fatal : Option Client → Outcome Client
or_fatal none = panic
or_fatal (some c) = done c

-- `copy(cli.PrivK[:], secret[:32])` and `copy(cli.PK[:], public[:32])`.
keyed_client : Bytes → Bytes → Client → Client
keyed_client public secret c = record c {
  priv_k = copy (replicate 32 0) secret;
  pk = copy (replicate 32 0) public;
}

-- The end that the functions share: "gettid", and the name from the answer.
registered : Net → Client → Cell → DialOptions → Bool → Dialled
unfolding json_success_exchange
registered net c cell opts browser = record {
  client = record c { tid = (json_success_exchange net cell).d0 };
  opts = opts;
  browser = browser;
  sent = cell;
}

-- `Dial` and `DialMiddle`, which differ in the attributes and in `Browser`.
dial_as : Net → Bytes → Bool → Outcome Dialled
unfolding new_client or_fatal keyed_client registered
dial_as net d1 browser = elim net.generate_key [
  | none ↦ panic
  | some (public, secret) ↦ do
    c ← or_fatal (new_client net)
    let c' = keyed_client public secret c
    let opts : DialOptions = record {
      d0 = net.codec.encode c'.pk;
      d1 = d1;
      public_key = none;
      private_key = none;
    }
    done (registered net c' (gettid_cell net.codec c'.pk opts.d1) opts browser)
]

pub dial : Net → Outcome Dialled
unfolding dial_as
dial net = dial_as net (bytes "e,g") true

pub dial_middle : Net → Outcome Dialled
unfolding dial_as
dial_middle net = dial_as net (bytes "g,b") false

-- The keys of the options, if both are there.
keys_of : Net → DialOptions → Option (Bytes × Bytes)
keys_of net opts = elim opts.public_key [
  | none ↦ net.generate_key
  | some public ↦ elim opts.private_key [
    | none ↦ net.generate_key
    | some secret ↦ some (public, secret)
  ]
]

pub dial_opts : Net → DialOptions → Outcome Dialled
unfolding keys_of new_client or_fatal keyed_client registered
dial_opts net opts = elim (keys_of net opts) [
  | none ↦ panic
  | some (public, secret) ↦ do
    c ← or_fatal (new_client net)
    let c' = keyed_client public secret c
    let d0 : Bytes = if opts.d0 is [] then net.codec.encode c'.pk else opts.d0
    let cell : Cell = record zero_cell { type = bytes "gettid"; d0 = d0; d1 = opts.d1 }
    done (registered net c' cell opts true)
]

pub default_dial : Net → Outcome Dialled
unfolding dial_opts
default_dial net =
    dial_opts net (record { d0 = []; d1 = bytes "e,g"; public_key = none; private_key = none })

-- A node that has just dialled has no peers.
pub dial_alone : (net : Net) (d : Dialled) → dial net ≡ done d → get_n_peers d.client ≡ 0
unfolding dial dial_as new_client or_fatal keyed_client registered fresh_client get_n_peers
dial_alone net d h = sym (ap peers_of h) ∙ alone
  where
    peers_of : Outcome Dialled → ℕ
    peers_of panic = 0
    peers_of (done d) = get_n_peers d.client

    alone : peers_of (dial net) ≡ 0
    alone = elim (Option-cases net.generate_key) [
      | inl failed ↦ rw (failed, dial, dial_as) refl
      | inr (keys, made) ↦ elim (Bool-cases net.connects) [
        | inl opens ↦ rw (made, dial, dial_as, opens, new_client) refl
        | inr closed ↦ rw (made, dial, dial_as, closed, new_client) refl
      ]
    ]

-- `SingleCmd`, `SinglePing` and one round of `ping`; `JCell` on what `json.Unmarshal` gives.
pub single_cmd : Bytes → List Effect
single_cmd cmd = send_cell (record zero_cell { type = cmd }) ∷ []

pub single_ping : List Effect
unfolding single_cmd
single_ping = single_cmd (bytes "ping") ++ send_cell zero_cell ∷ []

pub ping_round : Client → List Effect
unfolding single_cmd
ping_round c =
    single_cmd (if ltb 3 (get_n_peers c) then bytes "ping" else bytes "getpeers")
    ++ send_cell zero_cell ∷ []

pub j_cell : Option Cell → List Effect
j_cell none = []
j_cell (some cell) = send_cell cell ∷ []

-- The end of `SearchL2`, on the text of the search. With no circuit it panics.
unfoldable pub search_first :
    Codec → Nacl → Client → Bytes → List ℕ → Option (Outcome (Client × List Effect))
search_first codec nacl c b [] = some panic
search_first codec nacl c b (z ∷ zs) =
    let sent : Option (Outcome (Client × List Effect)) = elim (send codec nacl 4 (c.circuit z) b) [
      | none ↦ none
      | some panic ↦ some panic
      | some (done (c', e)) ↦ some (done (put_circuit z c' c, e ∷ []))
    ] in
    if state_ok (c.circuit z) then sent else some (done (c, []))

-- `none` is that the fuel of `send` ran out.
unfoldable pub search_l2 :
    Codec → Nacl → Client → Bytes → Bytes → Option (Outcome (Client × List Effect))
unfolding search_first
search_l2 codec nacl c q lang =
    let m : L2Msg = record zero_l2 { type = bytes "search"; query = q; lang = lang } in
    search_first codec nacl c (codec.print (l2_members m)) c.circuits
