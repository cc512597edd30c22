-- ===== src/Name/Tokens.antt =====
-- `GetRandomName` on a token that is long enough.
use Prim.Native.Nat.{bit_xor}
use minedive.Common.{◌≤◌, ◌≡◌, refl, ap, [], ◌∷◌, arith, Bytes, length, Outcome, done, ◌>>=◌}
use minedive.Name.{xor_seed, get_random_name}

xor_seed_total :
    (token sseed : Bytes)
    → length sseed ≤ length token
    → (token' : Bytes) × (xor_seed token sseed ≡ done token')
unfolding xor_seed
xor_seed_total token [] h = (token, refl)
xor_seed_total [] (v ∷ sseed) h = absurd (omega arith)
xor_seed_total (b ∷ token) (v ∷ sseed) h =
    let (rest, e) = xor_seed_total token sseed (omega arith) in
    (_, ap (λ (o : Outcome Bytes). o >>= λ t. done (bit_xor b v ∷ t)) e)

pub get_random_name_total :
    (encode : Bytes → Bytes) (token sseed : Bytes)
    → length sseed ≤ length token
    → (name : Bytes) × (get_random_name encode token sseed ≡ done name)
unfolding get_random_name
get_random_name_total encode token sseed h =
    let (token', e) = xor_seed_total token sseed h in
    (encode token', ap (λ (o : Outcome Bytes). o >>= λ t. done (encode t)) e)
