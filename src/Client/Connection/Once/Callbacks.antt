-- ===== src/Client/Connection/Once/Callbacks.antt =====
-- What one callback of a connection does.
use minedive.Common.{
  ℕ, ◌+◌, ◌≤◌, ◌≡◌, ◌⊎◌, refl, ap, ◌∙◌, inl, inr, true, false, ◌||◌, List, [], ◌∷◌, ◌++◌, Bytes,
  if◌then◌else◌, lookup, arith, done, panic, Bool-cases, Option-cases,
}
use minedive.Codec.{Codec}
use minedive.Protocol.{Cell}
use minedive.Client.State.{
  Client, Effect, send_text, send_cell, search, respond, dial_peer, set_remote, redial_server,
  put_peer,
}
use minedive.Client.Peers.{delete_peer}
use minedive.Client.Connection.{
  Connection, Event, ice_candidate, ice_done, dc_open, dc_close, pc_failed, pc_changed,
  data_channel, close_chan, answer_cell, finish_ice, on_ice_done, on_data_channel, on_event,
}

-- The cells among the effects.
unfoldable pub cells : List Effect → List Cell
cells [] = []
cells (send_cell m ∷ out) = m ∷ cells out
cells (_ ∷ out) = cells out

-- The data channels that the other node makes.
unfoldable pub channels : List Event → ℕ
channels [] = 0
channels (data_channel d ∷ es) = 1 + channels es
channels (_ ∷ es) = channels es

-- The answer with the first description that is complete.
unfoldable pub first_answer : Bytes → Bytes → List Event → List Cell
first_answer tid name [] = []
first_answer tid name (ice_done sdp ∷ es) = answer_cell tid name sdp ∷ []
first_answer tid name (_ ∷ es) = first_answer tid name es

unfoldable pub opened : Connection → ℕ
opened k = if k.data_chan_open then 1 else 0

-- What is still to be sent.
unfoldable pub expected : Connection → Client → List Event → List Cell
expected k c es = if k.ice_finished || k.initiator then [] else first_answer c.tid k.name es

pub cells-append : (xs ys : List Effect) → cells (xs ++ ys) ≡ cells xs ++ cells ys
unfolding cells
cells-append [] ys = refl
cells-append (send_cell m ∷ xs) ys = ap (◌∷◌ m) (cells-append xs ys)
cells-append (send_text d b ∷ xs) ys = cells-append xs ys
cells-append (search a b d e f ∷ xs) ys = cells-append xs ys
cells-append (respond b ∷ xs) ys = cells-append xs ys
cells-append (dial_peer a b d e ∷ xs) ys = cells-append xs ys
cells-append (set_remote a b d ∷ xs) ys = cells-append xs ys
cells-append (redial_server ∷ xs) ys = cells-append xs ys

delete_peer-tid : (name : Bytes) (c : Client) → (delete_peer name c).tid ≡ c.tid
unfolding delete_peer
delete_peer-tid name c = elim (Option-cases (lookup name c.l1_peers)) [
  | inl e ↦ rw (e, delete_peer) refl
  | inr (p, e) ↦ rw (e, delete_peer) refl
]

pub opened_few : (k : Connection) → opened k + 0 ≤ 1
unfolding opened
opened_few k = ground arith

pub opened_one : (k : Connection) → k.data_chan_open ≡ true → opened k ≡ 1
unfolding opened
opened_one k now = rw now refl

pub expected_nothing : (k : Connection) (c : Client) → expected k c [] ≡ []
unfolding expected first_answer
expected_nothing k c = ground arith

module _ (codec : Codec) where
  -- A callback that returns.
  pub record Returns (e : Event) (k : Connection) (c : Client) : Type 0 where
    pub next : Connection
    pub after : Client
    pub out : List Effect
    pub runs : on_event codec e k c ≡ done (next, after, out)
    pub in_step : next.gather_complete ≡ next.ice_finished
    pub counted : opened next ≡ opened k + channels (e ∷ [])
    pub sends : (es : List Event) → cells out ++ expected next after es ≡ expected k c (e ∷ es)

  ice_done-Returns :
      (sdp : Bytes) (k : Connection) (c : Client)
      → k.gather_complete ≡ k.ice_finished
      → Returns (ice_done sdp) k c
  unfolding on_event on_ice_done finish_ice close_chan expected opened channels cells first_answer
  ice_done-Returns sdp k c same = elim (Bool-cases k.ice_finished) [
    | inl finished ↦ record {
      next = k;
      after = c;
      out = [];
      runs = rw (finished, on_ice_done) refl;
      in_step = same;
      counted = omega arith;
      sends = λ es. rw finished refl;
    }
    | inr running ↦
        let answer : List Effect =
          if k.initiator then [] else send_cell (answer_cell c.tid k.name sdp) ∷ [] in
        record {
          next = record k { ice_finished = true; gather_complete = true };
          after = c;
          out = answer;
          runs = rw (running, on_ice_done, same ∙ running, finish_ice) refl;
          in_step = refl;
          counted = omega arith;
          sends = λ es. elim (Bool-cases k.initiator) [
            | inl first ↦ rw (running, first) refl
            | inr second ↦ rw (running, second) refl
          ];
        }
  ]

  -- A callback that keeps the flags and the node's name, and sends no cell.
  quiet-Returns :
      (e : Event) (k : Connection) (c c' : Client) (out : List Effect)
      → on_event codec e k c ≡ done (k, c', out)
      → k.gather_complete ≡ k.ice_finished
      → c'.tid ≡ c.tid
      → cells out ≡ []
      → channels (e ∷ []) ≡ 0
      → ((es : List Event) → first_answer c.tid k.name (e ∷ es) ≡ first_answer c.tid k.name es)
      → Returns e k c
  unfolding expected opened
  quiet-Returns e k c c' out runs same tid silent none_made skips = record {
    next = k;
    after = c';
    out = out;
    runs = runs;
    in_step = same;
    counted = omega (arith, none_made);
    sends = λ es. rw (silent, tid, skips es) refl;
  }

  data_channel-Returns :
      (d : ℕ) (k : Connection) (c : Client)
      → k.gather_complete ≡ k.ice_finished
      → k.data_chan_open ≡ false
      → Returns (data_channel d) k c
  unfolding on_event on_data_channel close_chan expected opened channels cells first_answer put_peer
  data_channel-Returns d k c same closed = record {
    next = record k { data_chan_open = true };
    after = put_peer k.p (record (c.peer k.p) { dc = d }) c;
    out = [];
    runs = rw (closed, on_data_channel) refl;
    in_step = same;
    counted = rw closed (omega arith);
    sends = λ es. refl;
  }

  pub on_event_cases :
      (e : Event) (k : Connection) (c : Client)
      → k.gather_complete ≡ k.ice_finished
      → Returns e k c
        ⊎ ((on_event codec e k c ≡ panic) × (k.data_chan_open ≡ true) × (channels (e ∷ []) ≡ 1))
  unfolding on_event channels cells first_answer
  on_event_cases ice_candidate k c same =
      inl (quiet-Returns ice_candidate k c c [] refl same refl refl refl (λ es. refl))
  on_event_cases (ice_done sdp) k c same = inl (ice_done-Returns sdp k c same)
  on_event_cases (dc_open now) k c same =
      inl (quiet-Returns (dc_open now) k c c _ refl same refl refl refl (λ es. refl))
  on_event_cases dc_close k c same =
      inl (quiet-Returns dc_close k c _ [] refl same refl refl refl (λ es. refl))
  on_event_cases pc_failed k c same =
      inl (
        quiet-Returns pc_failed k c _ [] refl same (delete_peer-tid k.name c) refl refl
          (λ es. refl))
  on_event_cases pc_changed k c same =
      inl (quiet-Returns pc_changed k c c [] refl same refl refl refl (λ es. refl))
  on_event_cases (data_channel d) k c same = elim (Bool-cases k.data_chan_open) [
    | inl open_now ↦
        inr (unfold on_data_channel in unfold close_chan in rw open_now refl, open_now, refl)
    | inr closed ↦ inl (data_channel-Returns d k c same closed)
  ]
