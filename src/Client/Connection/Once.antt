-- ===== src/Client/Connection/Once.antt =====
-- What the callbacks of one connection do over all its events.
use minedive.Common.{
  ℕ, ◌+◌, ◌≤◌, ◌≡◌, ◌⊎◌, refl, sym, ap, ◌∙◌, inl, inr, Bool, true, false, ◌||◌, List, [], ◌∷◌, ◌++◌,
  Bytes, if◌then◌else◌, lookup, arith, Outcome, done, panic, ◌>>=◌, Bool-cases, Option-cases,
}
use minedive.Codec.{Codec}
use minedive.Protocol.{Cell}
use minedive.Client.State.{
  Client, Effect, send_text, send_cell, search, respond, dial_peer, set_remote, redial_server,
  put_peer,
}
use minedive.Client.Peers.{delete_peer}
use minedive.Client.Connection.{
  Connection, Event, ice_candidate, ice_done, dc_open, dc_close, pc_failed, pc_changed,
  data_channel, close_chan, answer_cell, finish_ice, on_ice_done, on_data_channel, on_event,
  run_events, new_connection,
}
pub mod Callbacks
pub use minedive.Client.Connection.Once.Callbacks.{
  cells, channels, first_answer, opened, expected, cells-append, opened_few, opened_one,
  expected_nothing, Returns, on_event_cases,
}

-- How a run ends.
abbrev Ended : Type 0
Ended = Outcome (Connection × Client × List Effect)

module _ (codec : Codec) where
  run_events-first :
      (e : Event) (es : List Event) (k k1 : Connection) (c c1 : Client) (out : List Effect)
      → on_event codec e k c ≡ done (k1, c1, out)
      → run_events codec (e ∷ es) k c
        ≡ (run_events codec es k1 c1 >>= λ r. done (r.0, r.1, out ++ r.2))
  unfolding run_events
  run_events-first e es k k1 c c1 out h = rw (h, run_events) refl

  channels-split :
      (e : Event) (es : List Event) → channels (e ∷ es) ≡ channels (e ∷ []) + channels es
  unfolding channels
  channels-split ice_candidate es = omega arith
  channels-split (ice_done sdp) es = omega arith
  channels-split (dc_open now) es = omega arith
  channels-split dc_close es = omega arith
  channels-split pc_failed es = omega arith
  channels-split pc_changed es = omega arith
  channels-split (data_channel d) es = omega arith

  -- The flags say how many of the other node's data channels can still come.
  Ends : List Event → Connection → Client → Type 0
  Ends es k c =
      ((opened k + channels es ≤ 1)
        × (k' : Connection) × (c' : Client) × (out : List Effect) × (run_events codec es k c
            ≡ done (k', c', out))
        × (cells out ≡ expected k c es))
      ⊎ ((2 ≤ opened k + channels es) × (run_events codec es k c ≡ panic))

  Ends-first :
      (e : Event) (es : List Event) (k : Connection) (c : Client)
      → (r : Returns codec e k c) → Ends es r.next r.after
      → Ends (e ∷ es) k c
  unfolding Ends
  Ends-first e es k c r (inl (few, k', c', out, runs, sent)) =
      let first = run_events-first e es k r.next c r.after r.out r.runs in
      inl (
        omega (arith, few, r.counted, channels-split e es),
        k',
        c',
        r.out ++ out,
        first ∙ ap (λ (o : Ended). o >>= λ x. done (x.0, x.1, r.out ++ x.2)) runs,
        cells-append r.out out ∙ (ap (λ (x : List Cell). cells r.out ++ x) sent ∙ r.sends es),
      )
  Ends-first e es k c r (inr (many, runs)) =
      let first = run_events-first e es k r.next c r.after r.out r.runs in
      inr (
        omega (arith, many, r.counted, channels-split e es),
        first ∙ ap (λ (o : Ended). o >>= λ x. done (x.0, x.1, r.out ++ x.2)) runs,
      )

  run_events-Ends :
      (es : List Event) (k : Connection) (c : Client)
      → k.gather_complete ≡ k.ice_finished
      → Ends es k c
  run_events-Ends [] k c same =
      unfold Ends in
      unfold run_events in
      unfold cells in
      unfold channels in inl (opened_few k, k, c, [], refl, sym (expected_nothing k c))
  run_events-Ends (e ∷ es) k c same = elim (on_event_cases codec e k c same) [
    | inl r ↦ Ends-first e es k c r (run_events-Ends es r.next r.after r.in_step)
    | inr (stops, now, one) ↦
        unfold Ends in
        unfold run_events in
        inr (omega (arith, opened_one k now, channels-split e es, one), rw (stops, run_events) refl)
  ]

  new_connection-Ends :
      (name alias : Bytes) (initiator exit : Bool) (dc : ℕ) (c : Client) (es : List Event)
      → let (k, c1) = new_connection name alias initiator exit dc c in
        ((0 + channels es ≤ 1)
          × (k' : Connection) × (c' : Client) × (out : List Effect) × (run_events codec es k c1
              ≡ done (k', c', out))
          × (cells out ≡ (if initiator then [] else first_answer c.tid name es)))
        ⊎ ((2 ≤ 0 + channels es) × (run_events codec es k c1 ≡ panic))
  unfolding Ends opened expected new_connection put_peer
  new_connection-Ends name alias initiator exit dc c es =
      let (k, c1) = new_connection name alias initiator exit dc c in run_events-Ends es k c1 refl

  -- The callbacks of one connection, on any events, do not close a channel twice and send no answer
  -- twice, as long as the other node makes one data channel at most: then they all return, and the
  -- cells they send are the answer with the first complete description, if there is one and
  -- the node is not the initiator, and no cell otherwise. From the second data channel on, the
  -- other node makes the node panic.
  pub run_events_total :
      (name alias : Bytes) (initiator exit : Bool) (dc : ℕ) (c : Client) (es : List Event)
      → let (k, c1) = new_connection name alias initiator exit dc c in
        ((channels es ≤ 1)
          × (k' : Connection) × (c' : Client) × (out : List Effect) × (run_events codec es k c1
              ≡ done (k', c', out))
          × (cells out ≡ (if initiator then [] else first_answer c.tid name es)))
        ⊎ ((2 ≤ channels es) × (run_events codec es k c1 ≡ panic))
  run_events_total name alias initiator exit dc c es =
      elim (new_connection-Ends name alias initiator exit dc c es) [
        | inl (few, k', c', out, runs, sent) ↦ inl (omega (arith, few), k', c', out, runs, sent)
        | inr (many, runs) ↦ inr (omega (arith, many), runs)
      ]
