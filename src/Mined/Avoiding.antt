-- ===== src/Mined/Avoiding.antt =====
-- The names that a request for a node rules out.
use minedive.Common.{
  ◌≡◌, ◌≢◌, ◌↔◌, ◌⊎◌, true, false, List, [], ◌∷◌, ◌++◌, arith, Bytes, is_iff, split, Lacks,
  split-append, split_of_Lacks, has,
}
use minedive.Mined.{avoid_name, avoid_all, make_avoid_map}

has-avoid_name :
    (avoid : List Bytes) (s x : Bytes)
    → (has (avoid_name avoid s) x ≡ true) ↔ ((x ≡ s) ⊎ (has avoid x ≡ true))
unfolding avoid_name has
has-avoid_name avoid s x = ground (arith, is_iff s x)

has-avoid_all :
    (avoid ss : List Bytes) (x : Bytes)
    → (has (avoid_all avoid ss) x ≡ true) ↔ ((has avoid x ≡ true) ⊎ (has ss x ≡ true))
unfolding avoid_all has
has-avoid_all avoid [] x = ground arith
has-avoid_all avoid (s ∷ ss) x =
    ground (arith, has-avoid_all (avoid_name avoid s) ss x, has-avoid_name avoid s x, is_iff s x)

-- `makeAvoidMap` holds its first argument and the parts of the second between commas, and nothing
-- else.
pub has-make_avoid_map :
    (n a x : Bytes)
    → (has (make_avoid_map n a) x ≡ true) ↔ ((x ≡ n) ⊎ (has (split b',' a) x ≡ true))
unfolding make_avoid_map has
has-make_avoid_map n a x =
    ground (arith, has-avoid_all (avoid_name [] n) (split b',' a) x, has-avoid_name [] n x)

-- For "getbridge" a client names its guard and its exit, with a comma between them.
pub make_avoid_map_two :
    (n g e x : Bytes)
    → Lacks b',' g
    → Lacks b',' e
    → has (make_avoid_map n (g ++ b',' ∷ e)) x ≡ false
    → (x ≢ n) × (x ≢ g) × (x ≢ e)
unfolding has
make_avoid_map_two n g e x hg he h =
    let parts = split-append b',' g e hg in
    let last = split_of_Lacks b',' e he in
    let all = has-make_avoid_map n (g ++ b',' ∷ e) x in
    ground (arith, parts, last, all, is_iff g x, is_iff e x)
