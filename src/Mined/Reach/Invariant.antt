-- ===== src/Mined/Reach/Invariant.antt =====
-- What holds of the states that mined comes to.
use minedive.Common.{ℕ, Bytes}
use minedive.Server.State.{MinediveServer}
use minedive.Mined.Reach.{
  Step, Reach, connect, request, leave, start, next, IsOrderly, Orderly, begin, continue,
  IsConsistent, IsWellFormed,
}
use minedive.Mined.Reach.Opening.{
  init-IsConsistent, init-IsWellFormed, accept-IsConsistent, accept-IsWellFormed,
}
use minedive.Mined.Reach.Closing.{disconnect-IsConsistent, disconnect-IsWellFormed}
use minedive.Mined.Reach.Asking.{minedive_dispatch-IsConsistent, minedive_dispatch-IsWellFormed}

Step-IsConsistent :
    (text_of : ℕ → Bytes) {s s' : MinediveServer}
    → IsConsistent text_of s
    → Step text_of s s'
    → IsConsistent text_of s'
Step-IsConsistent text_of {s} w (connect host remote_addr secret ws) =
    accept-IsConsistent text_of host remote_addr secret ws s w
Step-IsConsistent text_of {s} w (request env cli m {s'} {out} known e) =
    minedive_dispatch-IsConsistent text_of s cli s' env m out w known e
Step-IsConsistent text_of {s} w (leave p) = disconnect-IsConsistent text_of s p w

-- After any connections, any requests of clients that have connected and any ends of connections,
-- the slice holds no client twice and only clients that have connected, the ids of the clients are
-- the numbers of their connections modulo 2^64, and every entry of the exits and of the guards
-- points to a client that has connected and has the entry's flag.
pub Reach-IsConsistent :
    (text_of : ℕ → Bytes) (s : MinediveServer) → Reach text_of s → IsConsistent text_of s
Reach-IsConsistent text_of _ start = init-IsConsistent text_of
Reach-IsConsistent text_of _ (next {s} r step) =
    Step-IsConsistent text_of (Reach-IsConsistent text_of s r) step

IsOrderly-IsWellFormed :
    (text_of : ℕ → Bytes) {s s' : MinediveServer}
    → IsWellFormed text_of s
    → (t : Step text_of s s') → IsOrderly t
    → IsWellFormed text_of s'
IsOrderly-IsWellFormed text_of {s} w (connect host remote_addr secret ws) tidy =
    accept-IsWellFormed text_of host remote_addr secret ws s w
IsOrderly-IsWellFormed text_of {s} w (request env cli m {s'} {out} known e) tidy =
    minedive_dispatch-IsWellFormed text_of s cli s' env m out w tidy known e
IsOrderly-IsWellFormed text_of {s} w (leave p) tidy = disconnect-IsWellFormed text_of s p w

-- In a run where a client sends "gettid" or "gettssid" only while it is in the slice and no map
-- points to it, every entry of the exits and of the guards points, besides, to a client of the
-- slice that has the entry's name. Nothing is said of other runs: the server lets a client ask for
-- a second name.
pub Orderly-IsWellFormed :
    (text_of : ℕ → Bytes) (s : MinediveServer) → Orderly text_of s → IsWellFormed text_of s
Orderly-IsWellFormed text_of _ begin = init-IsWellFormed text_of
Orderly-IsWellFormed text_of _ (continue {s} r t tidy) =
    IsOrderly-IsWellFormed text_of (Orderly-IsWellFormed text_of s r) t tidy
