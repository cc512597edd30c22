-- ===== src/Name.antt =====
-- util.go: `GetRandomName`. The number `id` only fills a buffer that nothing reads, so it is no
-- argument here. `token` is what `rand.Read` puts into the 24 bytes.
pub mod Tokens
use Prim.Native.Nat.{bit_xor}
use minedive.Common.{[], ◌∷◌, Bytes, Outcome, done, panic, ◌>>=◌}

-- The loop `for i, v := range sseed`; a seed longer than the token panics. The seeds of the
-- program are ASCII, of which a rune is a byte.
xor_seed : Bytes → Bytes → Outcome Bytes
xor_seed token [] = done token
xor_seed [] (v ∷ sseed) = panic
xor_seed (b ∷ token) (v ∷ sseed) = do rest ← xor_seed token sseed; done (bit_xor b v ∷ rest)

unfoldable pub get_random_name : (Bytes → Bytes) → Bytes → Bytes → Outcome Bytes
unfolding xor_seed
get_random_name encode token sseed = do token' ← xor_seed token sseed; done (encode token')
