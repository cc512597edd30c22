-- ===== src/Remined/Avoiding.antt =====
-- Whom remined proposes.
use minedive.Common.{
  ℕ, suc, ◌+◌, ◌≤◌, ◌<◌, ◌≡◌, refl, ◌⊎◌, inl, inr, true, false, List, [], ◌∷◌, arith, Bytes, bytes,
  ◌is◌, is_iff, if◌then◌else◌, ltb, leb, length, has, split, done, Bool-cases,
}
use minedive.Protocol.{Cell}
use minedive.Server.State.{MinediveServer, write}
use minedive.Redis.{IsRedis, Distinct}
use minedive.Remined.{
  Env, getexit, getguard, request_of, make_avoid_map, avoid_name, avoid_all, pick, avoided, drawn,
  reply_name, handle_getexit, handle_getguard, handle, minedive_dispatch,
}

-- The list without the first `x`.
remove : Bytes → List Bytes → List Bytes
remove x [] = []
remove x (y ∷ ys) = let rest = remove x ys in if y is x then ys else y ∷ rest

length-remove :
    (x : Bytes) (ys : List Bytes) → has ys x ≡ true → suc (length (remove x ys)) ≡ length ys
unfolding remove has
length-remove x [] h = cc
length-remove x (y ∷ ys) h = ground (arith, length-remove x ys)

has-remove :
    (x z : Bytes) (ys : List Bytes)
    → has ys z ≡ true
    → (x is z) ≡ false
    → has (remove x ys) z ≡ true
unfolding remove has
has-remove x z [] h n = cc
has-remove x z (y ∷ ys) h n = ground (arith, has-remove x z ys, is_iff y x, is_iff y z, is_iff x z)

-- Every name of the list is avoided.
abbrev pub AllIn : List Bytes → List Bytes → Type 0
AllIn avoid nc = (x : Bytes) → has nc x ≡ true → has avoid x ≡ true

-- Distinct names that are all avoided are not more than those to avoid.
pigeonhole : (nc avoid : List Bytes) → Distinct nc → AllIn avoid nc → length nc ≤ length avoid
unfolding has
pigeonhole [] avoid d h = omega arith
pigeonhole (x ∷ nc) avoid (new, d) h =
    let rest =
      pigeonhole nc (remove x avoid) d
        (λ z e. has-remove x z avoid (h z (ground arith)) (ground (arith, is_iff x z))) in
    omega (arith, rest, length-remove x avoid (h x (ground (arith, is_iff x x))))

-- The picked name is one of the list, and is avoided only if all of them are.
Picks : List Bytes → List Bytes → Type 0
Picks avoid nc =
    (x : Bytes) × (pick avoid nc ≡ done x)
    × (has nc x ≡ true)
    × ((has avoid x ≡ false) ⊎ AllIn avoid nc)

pick_cases : (avoid nc : List Bytes) → 0 < length nc → Picks avoid nc
unfolding Picks pick has
pick_cases avoid [] h = absurd (omega arith)
pick_cases avoid (x ∷ []) h = elim (Bool-cases (has avoid x)) [
  | inl e ↦ (x, refl, ground (arith, is_iff x x), inr (λ z f. ground (arith, is_iff x z)))
  | inr e ↦ (x, refl, ground (arith, is_iff x x), inl e)
]
pick_cases avoid (x ∷ y ∷ nc) h =
    let (z, picked, found, free) = pick_cases avoid (y ∷ nc) (omega arith) in
    elim (Bool-cases (has avoid x)) [
      | inl e ↦ (
        z,
        rw e picked,
        ground arith,
        elim free [ inl f ↦ inl f | inr all ↦ inr (λ w f. ground (arith, is_iff x w, all w)) ],
      )
      | inr e ↦ (x, rw e refl, ground (arith, is_iff x x), inl e)
    ]

length-avoid_all : (avoid ss : List Bytes) → length avoid ≤ length (avoid_all avoid ss)
unfolding avoid_all avoid_name
length-avoid_all avoid [] = omega arith
length-avoid_all avoid (s ∷ ss) =
    ground (arith, length-avoid_all avoid ss, length-avoid_all (avoid_name avoid s) ss)

length-make_avoid_map : (n a : Bytes) → 0 < length (make_avoid_map n a)
unfolding make_avoid_map avoid_name has
length-make_avoid_map n a = length-avoid_all (n ∷ []) (split b',' a)

request_of_getguard : request_of (bytes "getguard") ≡ getguard
unfolding request_of ◌is◌ bytes
request_of_getguard = refl

request_of_getexit : request_of (bytes "getexit") ≡ getexit
unfolding request_of ◌is◌ bytes
request_of_getexit = refl

module _ {R : Type 0} (env : Env R) (s : MinediveServer) (db : R) (cli : ℕ) (m : Cell) where
  -- What redis gives for a key, where remined asks for one name more than there are to avoid.
  abbrev pub asked : Bytes → List Bytes
  asked key =
      env.redis.s_rand_member_n env.chance key (length (make_avoid_map (s.heap cli).name m.d0) + 1)
        db

  -- A request for a guard never panics. It has a guard of redis for an answer that is not among
  -- the names to avoid, or it has no answer, and then redis gave at most as many guards as there
  -- are names to avoid.
  pub getguard_avoids :
      IsRedis env.redis
      → m.type ≡ bytes "getguard"
      → ((minedive_dispatch env s db cli m ≡ done ((s, db), []))
          × (length (asked (bytes "GUARDS")) ≤ length (make_avoid_map (s.heap cli).name m.d0)))
        ⊎ ((nc : Bytes) × (minedive_dispatch env s db cli m
              ≡ done ((s, db), write s cli (record m { type = bytes "guard"; d0 = nc })))
            × (has (asked (bytes "GUARDS")) nc ≡ true)
            × (has (make_avoid_map (s.heap cli).name m.d0) nc ≡ false))
  unfolding minedive_dispatch handle handle_getguard reply_name drawn avoided Picks
  getguard_avoids laws ht =
      let avoid = make_avoid_map (s.heap cli).name m.d0 in
      let nc = asked (bytes "GUARDS") in
      elim (Bool-cases (leb (length nc) (length avoid))) [
        | inl e ↦ inl (rw (ht, request_of_getguard, e) refl, ground arith)
        | inr e ↦
            let many : length avoid < length nc = ground arith in
            let (x, picked, found, free) = pick_cases avoid nc (omega (arith, many)) in
            inr (
              x,
              rw (ht, request_of_getguard, e, picked) refl,
              found,
              elim free [
                | inl f ↦ f
                | inr all ↦ absurd (
                    omega (
                      arith,
                      many,
                      pigeonhole nc avoid
                          (laws.members_distinct env.chance (bytes "GUARDS") (length avoid + 1) db)
                          all,
                    ))
              ],
            )
      ]

  -- A request for an exit never panics. It has no answer where redis gave fewer exits than there
  -- are names to avoid. Else the answer is an exit of redis; and it is one to avoid only where
  -- all that redis gave are, which are then as many as there are names to avoid.
  pub getexit_cases :
      IsRedis env.redis
      → m.type ≡ bytes "getexit"
      → ((minedive_dispatch env s db cli m ≡ done ((s, db), []))
          × (length (asked (bytes "EXITS")) < length (make_avoid_map (s.heap cli).name m.d0)))
        ⊎ ((nc : Bytes) × (minedive_dispatch env s db cli m
              ≡ done ((s, db), write s cli (record m { type = bytes "exit"; d0 = nc })))
            × (has (asked (bytes "EXITS")) nc ≡ true)
            × ((has (make_avoid_map (s.heap cli).name m.d0) nc ≡ false)
                ⊎ (AllIn (make_avoid_map (s.heap cli).name m.d0) (asked (bytes "EXITS"))
                    × (length (asked (bytes "EXITS"))
                        ≡ length (make_avoid_map (s.heap cli).name m.d0)))))
  unfolding minedive_dispatch handle handle_getexit reply_name drawn avoided Picks
  getexit_cases laws ht =
      let avoid = make_avoid_map (s.heap cli).name m.d0 in
      let nc = asked (bytes "EXITS") in
      elim (Bool-cases (ltb (length nc) (length avoid))) [
        | inl e ↦ inl (rw (ht, request_of_getexit, e) refl, ground arith)
        | inr e ↦
            let many : length avoid ≤ length nc = ground arith in
            let some_avoided = length-make_avoid_map (s.heap cli).name m.d0 in
            let (x, picked, found, free) =
              pick_cases avoid nc (omega (arith, many, some_avoided)) in
            inr (
              x,
              rw (ht, request_of_getexit, e, picked) refl,
              found,
              elim free [
                | inl f ↦ inl f
                | inr all ↦ inr (
                  all,
                  omega (
                    arith,
                    many,
                    pigeonhole nc avoid
                        (laws.members_distinct env.chance (bytes "EXITS") (length avoid + 1) db)
                        all,
                  ),
                )
              ],
            )
      ]

  -- When redis gives as many exits as there are names to avoid, and all of them are such names,
  -- the answer to a request for an exit is one of the names to avoid.
  pub getexit_avoided :
      m.type ≡ bytes "getexit"
      → length (asked (bytes "EXITS")) ≡ length (make_avoid_map (s.heap cli).name m.d0)
      → AllIn (make_avoid_map (s.heap cli).name m.d0) (asked (bytes "EXITS"))
      → (nc : Bytes) × (minedive_dispatch env s db cli m
          ≡ done ((s, db), write s cli (record m { type = bytes "exit"; d0 = nc })))
        × (has (make_avoid_map (s.heap cli).name m.d0) nc ≡ true)
  unfolding minedive_dispatch handle handle_getexit reply_name drawn avoided Picks
  getexit_avoided ht size all =
      let avoid = make_avoid_map (s.heap cli).name m.d0 in
      let nc = asked (bytes "EXITS") in
      let some_avoided = length-make_avoid_map (s.heap cli).name m.d0 in
      let enough : ltb (length nc) (length avoid) ≡ false = ground arith in
      let (x, picked, found, free) = pick_cases avoid nc (omega (arith, size, some_avoided)) in
      (x, rw (ht, request_of_getexit, enough, picked) refl, all x found)
