-- ===== src/Server/Clients/Forwarding.antt =====
-- Whom `FwdToTarget` writes to.
use minedive.Common.{ℕ, ◌≡◌, refl, List, [], ◌∷◌, ◌++◌, arith, is_iff}
use minedive.Protocol.{Cell}
use minedive.Server.State.{MinediveServer}
use minedive.Server.Clients.{fwd_loop, fwd_to_target}

fwd_loop-append :
    (s : MinediveServer) (m : Cell) (xs ys : List ℕ)
    → fwd_loop s m (xs ++ ys) ≡ fwd_loop s m xs ++ fwd_loop s m ys
unfolding fwd_loop
fwd_loop-append s m [] ys = refl
fwd_loop-append s m (x ∷ xs) ys = ground (arith, fwd_loop-append s m xs ys)

-- A client of the name that the cell has gets the cell, after those before it in the list.
pub fwd_to_target-member :
    (s : MinediveServer) (m : Cell) (front back : List ℕ) (v : ℕ)
    → s.clients ≡ front ++ v ∷ back
    → (s.heap v).name ≡ m.d1
    → fwd_to_target s m ≡ fwd_loop s m front ++ ((s.heap v).ws, m) ∷ fwd_loop s m back
unfolding fwd_to_target fwd_loop
fwd_to_target-member s m front back v h named =
    ground (arith, fwd_loop-append s m front (v ∷ back), is_iff (s.heap v).name m.d1)
