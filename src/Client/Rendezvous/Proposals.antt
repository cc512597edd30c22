-- ===== src/Client/Rendezvous/Proposals.antt =====
-- The cells "exit", "guard" and "bridge", which name a node for the first circuit.
use minedive.Common.{
  ◌≡◌, refl, ap, ◌∙◌, ℕ, true, false, List, [], ◌∷◌, Bytes, bytes, ◌is◌, if◌then◌else◌, done,
  ==_refl,
}
use minedive.Protocol.{Cell}
use minedive.Client.State.{Client, Circuit, dial_peer, put_circuit}
use minedive.Client.Rendezvous.{
  Env, exit_reply, guard_reply, bridge_reply, reply_of, handle, on_first, ws_step,
}

reply_of_exit : reply_of (bytes "exit") ≡ exit_reply
unfolding reply_of ◌is◌ bytes
reply_of_exit = refl

reply_of_guard : reply_of (bytes "guard") ≡ guard_reply
unfolding reply_of ◌is◌ bytes
reply_of_guard = refl

reply_of_bridge : reply_of (bytes "bridge") ≡ bridge_reply
unfolding reply_of ◌is◌ bytes
reply_of_bridge = refl

-- The circuit with the name of a node.
abbrev pub with_exit : Bytes → Circuit → Circuit
with_exit name z = record z { exit = record z.exit { id = name } }

abbrev pub with_guard : Bytes → Circuit → Circuit
with_guard name z = record z { guard = record z.guard { id = name } }

abbrev pub with_bridge : Bytes → Circuit → Circuit
with_bridge name z = record z { bridge = record z.bridge { id = name } }

pub put_circuit_own : (z : ℕ) (v : Circuit) (c : Client) → (put_circuit z v c).circuit z ≡ v
unfolding put_circuit
put_circuit_own z v c = ap (λ b. if b then v else c.circuit z) (==_refl z)

module _ (env : Env) (c : Client) (m : Cell) (z : ℕ) (zs : List ℕ)
    (first : c.circuits ≡ z ∷ zs) where
  pub ws_step-exit :
      m.type ≡ bytes "exit"
      → ws_step env c m ≡ done (put_circuit z (with_exit m.d0 (c.circuit z)) c, [])
  unfolding ws_step handle on_first
  ws_step-exit type =
      ap (handle env c m) (ap reply_of type ∙ reply_of_exit)
      ∙ ap (on_first (with_exit m.d0) [] c) first

  pub ws_step-guard :
      m.type ≡ bytes "guard"
      → ws_step env c m
        ≡ done (put_circuit z (with_guard m.d0 (c.circuit z)) c, dial_peer m.d0 [] true false ∷ [])
  unfolding ws_step handle on_first
  ws_step-guard type =
      ap (handle env c m) (ap reply_of type ∙ reply_of_guard)
      ∙ ap (on_first (with_guard m.d0) (dial_peer m.d0 [] true false ∷ []) c) first

  pub ws_step-bridge :
      m.type ≡ bytes "bridge"
      → ws_step env c m ≡ done (put_circuit z (with_bridge m.d0 (c.circuit z)) c, [])
  unfolding ws_step handle on_first
  ws_step-bridge type =
      ap (handle env c m) (ap reply_of type ∙ reply_of_bridge)
      ∙ ap (on_first (with_bridge m.d0) [] c) first

-- The three cells one after another.
pub ws_step_three :
    (env : Env) (c : Client) (z : ℕ) (zs : List ℕ) (r1 r2 r3 : Cell)
    → c.circuits ≡ z ∷ zs
    → r1.type ≡ bytes "exit"
    → r2.type ≡ bytes "guard"
    → r3.type ≡ bytes "bridge"
    → (c2 c3 c4 : Client) × (ws_step env c r1 ≡ done (c2, []))
      × (ws_step env c2 r2 ≡ done (c3, dial_peer r2.d0 [] true false ∷ []))
      × (ws_step env c3 r3 ≡ done (c4, []))
      × (c2.circuit z ≡ with_exit r1.d0 (c.circuit z))
      × (c3.circuit z ≡ with_guard r2.d0 (with_exit r1.d0 (c.circuit z)))
      × (c4.circuit z ≡ with_bridge r3.d0 (with_guard r2.d0 (with_exit r1.d0 (c.circuit z))))
unfolding put_circuit
ws_step_three env c z zs r1 r2 r3 first t1 t2 t3 =
    let c2 = put_circuit z (with_exit r1.d0 (c.circuit z)) c in
    let c3 = put_circuit z (with_guard r2.d0 (c2.circuit z)) c2 in
    let c4 = put_circuit z (with_bridge r3.d0 (c3.circuit z)) c3 in
    let at2 = put_circuit_own z (with_exit r1.d0 (c.circuit z)) c in
    let at3 = put_circuit_own z (with_guard r2.d0 (c2.circuit z)) c2 ∙ ap (with_guard r2.d0) at2 in
    (
      c2,
      c3,
      c4,
      ws_step-exit env c r1 z zs first t1,
      ws_step-guard env c2 r2 z zs first t2,
      ws_step-bridge env c3 r3 z zs first t3,
      at2,
      at3,
      put_circuit_own z (with_bridge r3.d0 (c3.circuit z)) c3 ∙ ap (with_bridge r3.d0) at3,
    )
