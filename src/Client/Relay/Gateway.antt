-- ===== src/Client/Relay/Gateway.antt =====
-- The message "fwd": a gateway passes on what one of its peers sends to another by its alias.
use minedive.Common.{
  ℕ, ◌≡◌, refl, ap, ◌∙◌, false, [], ◌∷◌, none, some, Bytes, bytes, ◌is◌, is_refl, done,
}
use minedive.Codec.{IsCodec}
use minedive.Wire.{FwdMsg, fwd_members}
use minedive.Wire.RoundTrip.{IsFwd, read_fwd-print, read_min-print_fwd}
use minedive.Client.State.{Client, send_text}
use minedive.Client.Peers.{get_peer_by_alias}
use minedive.Client.L2Search.{handle_l2_msg}
use minedive.Client.Relay.{Env, Handled, handle_l1_msg, message_of, handle, handle_fwd, fwd}

message_of_fwd : message_of (bytes "fwd") ≡ fwd
unfolding message_of ◌is◌ bytes
message_of_fwd = refl

module _ (env : Env) (codec_laws : IsCodec env.codec) (cli : Client) (p : ℕ) (m : FwdMsg)
    (v : IsFwd env.codec m) (type : m.type ≡ bytes "fwd") where
  handle_l1_msg-fwd :
      handle_l1_msg env cli p (env.codec.print (fwd_members m)) none
      ≡ handle_fwd env cli p (env.codec.print (fwd_members m))
  unfolding handle_l1_msg handle
  handle_l1_msg-fwd =
      ap (λ (t : Bytes). handle env cli p (env.codec.print (fwd_members m)) none (message_of t))
        (read_min-print_fwd env.codec codec_laws m v ∙ type)
      ∙ ap (handle env cli p (env.codec.print (fwd_members m)) none) message_of_fwd

  -- The gateway sends it on under the alias of the sender.
  pub handle_l1_msg-gateway :
      (next : ℕ)
      → (m.to is cli.tid) ≡ false
      → get_peer_by_alias cli m.to env.alias_order ≡ some next
      → handle_l1_msg env cli p (env.codec.print (fwd_members m)) none
        ≡ done (
          cli,
          send_text (cli.peer next).dc (
                env.codec.print (
                  fwd_members (record m {
                    from = cli.tid;
                    ori = (cli.peer p).alias;
                    to = (cli.peer next).name;
                  })))
              ∷ [],
        )
  unfolding handle_fwd
  handle_l1_msg-gateway next other known =
      handle_l1_msg-fwd
      ∙ rw (read_fwd-print env.codec codec_laws m v, handle_fwd, other, known)
          (ap passed (read_fwd-print env.codec codec_laws m v))
    where
      passed : FwdMsg → Handled
      passed x = done (
        cli,
        send_text (cli.peer next).dc (
              env.codec.print (
                fwd_members (record x {
                  from = cli.tid;
                  ori = (cli.peer p).alias;
                  to = (cli.peer next).name;
                })))
            ∷ [],
      )

  -- The node that it is for handles it as a message of a second-level peer.
  pub handle_l1_msg-own :
      m.to ≡ cli.tid
      → handle_l1_msg env cli p (env.codec.print (fwd_members m)) none
        ≡ handle_l2_msg env.codec env.nacl cli p (env.codec.print (fwd_members m)) env.k2 env.k3
  unfolding handle_fwd
  handle_l1_msg-own same =
      handle_l1_msg-fwd
      ∙ rw (read_fwd-print env.codec codec_laws m v, handle_fwd, same, is_refl cli.tid) refl
