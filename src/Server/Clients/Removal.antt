-- ===== src/Server/Clients/Removal.antt =====
-- Whom `DeleteClientByName` removes.
use mathlib.Core.List.{Perm, append-nil, append_assoc, perm_middle}
use mathlib.Core.List.Perm
use minedive.Common.{
  ℕ, zero, suc, Bool, ◌&&◌, none, Dict, lookup, lookup-erase, if◌then◌else◌, ◌+◌, ◌-◌, ◌≡◌, refl,
  sym, ap, ◌∙◌, subst, false, true, List, [], ◌∷◌, ◌++◌, some, arith, Bytes, ◌is◌, is_iff, All,
  length, length-append, take, take-append_left, set, set-append, get_or, get_or-append, last_split,
}
use minedive.Server.State.{MinediveServer, MinediveClient}
use minedive.Server.Registry.{del_exit, del_guard}
use minedive.Server.Clients.{find_index, swap_remove, unregister, delete_client_by_name, disconnect}

-- No client of the list has the name.
abbrev pub NoneNamed : MinediveServer → Bytes → List ℕ → Type 0
NoneNamed s name cs = All (λ c. ((s.heap c).name is name) ≡ false) cs

find_index-append :
    (s : MinediveServer) (name : Bytes) (n : ℕ) (front back : List ℕ) (v : ℕ)
    → NoneNamed s name front
    → (s.heap v).name ≡ name
    → find_index s name n (front ++ v ∷ back) ≡ some (n + length front)
unfolding find_index
find_index-append s name n [] back v none_before named = ground (arith, is_iff (s.heap v).name name)
find_index-append s name n (c ∷ front) back v (other, none_before) named =
    let rest = find_index-append s name (n + 1) front back v none_before named in
    rw other (rest ∙ ap some (omega arith))

-- The last item of a list goes, after another has been put over an item before it.
abbrev ended : List ℕ → ℕ → List ℕ
ended front w = front ++ w ∷ []

get_or-last : (xs : List ℕ) (w : ℕ) → get_or (ended xs w) (length (ended xs w) - 1) 0 ≡ w
get_or-last xs w = get_or-append xs [] w 0 _ (omega (arith, length-append xs (w ∷ [])))

take-last : (xs : List ℕ) (w : ℕ) → take (length (ended xs w) - 1) (ended xs w) ≡ xs
take-last xs w = take-append_left _ xs (w ∷ []) (omega (arith, length-append xs (w ∷ [])))

length-set : (n v : ℕ) (xs : List ℕ) → length (set xs n v) ≡ length xs
length-set n v [] = refl
length-set zero v (x ∷ xs) = refl
length-set (suc n) v (x ∷ xs) = ap suc (length-set n v xs)

-- The last client takes the place of the one that goes.
swap_remove-last : (front : List ℕ) (v : ℕ) → swap_remove (length front) (ended front v) ≡ front
unfolding swap_remove
swap_remove-last front v =
    rw
      (
        set-append front [] v (get_or (ended front v) (length (ended front v) - 1) 0) (length front)
            refl,
        get_or-last front v,
      )
      (take-last front v)

swap_remove-inner :
    (front back : List ℕ) (v w : ℕ)
    → swap_remove (length front) (front ++ v ∷ ended back w) ≡ front ++ w ∷ back
unfolding swap_remove
swap_remove-inner front back v w =
    let whole : front ++ v ∷ ended back w ≡ ended (front ++ v ∷ back) w =
      sym (append_assoc front (v ∷ back) (w ∷ [])) in
    let after : front ++ w ∷ ended back w ≡ ended (front ++ w ∷ back) w =
      sym (append_assoc front (w ∷ back) (w ∷ [])) in
    let last : get_or (front ++ v ∷ ended back w) (length (front ++ v ∷ ended back w) - 1) 0 ≡ w =
      rw whole (get_or-last (front ++ v ∷ back) w) in
    let same : length (front ++ v ∷ ended back w) ≡ length (front ++ w ∷ ended back w) =
      omega
        (arith, length-append front (v ∷ ended back w), length-append front (w ∷ ended back w)) in
    rw (last, set-append front (ended back w) v w (length front) refl, same, after)
      (take-last (front ++ w ∷ back) w)

swap_remove-append :
    (front back : List ℕ) (v : ℕ)
    → Perm (swap_remove (length front) (front ++ v ∷ back)) (front ++ back)
swap_remove-append front [] v = rw (swap_remove-last front v, append-nil front) (Perm.refl front)
swap_remove-append front (y ∷ ys) v =
    let (b, w, e, l) = last_split (length ys) (y ∷ ys) refl in
    rw (e, swap_remove-inner front b v w)
      (Perm.append_left front (
        Perm.symm
          (subst (λ (l : List ℕ). Perm (b ++ w ∷ []) (w ∷ l)) (append-nil b) (perm_middle b []))))

-- Among the clients of a name the first is the one that `DeleteClientByName` removes.
pub delete_client_by_name-first :
    (s : MinediveServer) (name : Bytes) (front back : List ℕ) (v : ℕ)
    → s.clients ≡ front ++ v ∷ back
    → NoneNamed s name front
    → (s.heap v).name ≡ name
    → (rest : List ℕ) × (delete_client_by_name name s
        ≡ (unregister (s.heap v) (record s { clients = rest }), true))
      × Perm rest (front ++ back)
unfolding delete_client_by_name
delete_client_by_name-first s name front back v listed none_before named =
    let found : find_index s name 0 s.clients ≡ some (length front) =
      ap (find_index s name 0) listed
      ∙ (find_index-append s name 0 front back v none_before named ∙ ap some (omega arith)) in
    let here : get_or s.clients (length front) 0 ≡ v =
      rw listed (get_or-append front back v 0 (length front) refl) in
    (
      swap_remove (length front) s.clients,
      rw (found, delete_client_by_name, here) refl,
      rw listed (swap_remove-append front back v),
    )

-- The entries of a map without the one of a name, if the flag says so.
abbrev pub Without : Bool → Bytes → Dict ℕ → Dict ℕ → Type 0
Without flag name d d' =
    (cn : Bytes) → lookup cn d' ≡ (if flag && (name is cn) then none else lookup cn d)

unregister-Without :
    (c : MinediveClient) (s : MinediveServer)
    → Without c.exit c.name s.exits (unregister c s).exits
      × Without c.guard c.name s.guards (unregister c s).guards
      × ((unregister c s).heap ≡ s.heap)
      × ((unregister c s).clients ≡ s.clients)
unfolding unregister del_exit del_guard
unregister-Without c s = (
  λ cn. ground (arith, lookup-erase cn c.name s.exits),
  λ cn. ground (arith, lookup-erase cn c.name s.guards),
  ground arith,
  ground arith,
)

-- `DeleteClientByName` on a name that clients of the slice have: it tells that it found one, and
-- the first of them leaves the slice, while the others stay, in another order. No client changes.
-- The exits lose the entry of the name if that client is an exit, and the guards if it is a guard;
-- every other entry of the two maps stays.
pub delete_client_by_name_removes :
    (s : MinediveServer) (name : Bytes) (front back : List ℕ) (v : ℕ)
    → s.clients ≡ front ++ v ∷ back
    → NoneNamed s name front
    → (s.heap v).name ≡ name
    → (s' : MinediveServer) × (delete_client_by_name name s ≡ (s', true))
      × Perm s'.clients (front ++ back)
      × (s'.heap ≡ s.heap)
      × Without (s.heap v).exit name s.exits s'.exits
      × Without (s.heap v).guard name s.guards s'.guards
delete_client_by_name_removes s name front back v listed none_before named =
    let (rest, removed, kept) =
      delete_client_by_name-first s name front back v listed none_before named in
    let (exits, guards, heap, clients) =
      unregister-Without (s.heap v) (record s { clients = rest }) in
    (
      unregister (s.heap v) (record s { clients = rest }),
      removed,
      rw clients kept,
      heap,
      subst
          (λ n.
            Without (s.heap v).exit n s.exits
              (unregister (s.heap v) (record s { clients = rest })).exits)
          named exits,
      subst
          (λ n.
            Without (s.heap v).guard n s.guards
              (unregister (s.heap v) (record s { clients = rest })).guards)
          named guards,
    )

-- A connection that ends removes the first client that has the same name as its own, so with two
-- clients of one name, as before they register, the end of the later connection removes the earlier
-- client and leaves its own.
pub disconnect_removes_namesake :
    (s : MinediveServer) (front between back : List ℕ) (v p : ℕ)
    → s.clients ≡ front ++ v ∷ (between ++ p ∷ back)
    → NoneNamed s (s.heap p).name front
    → (s.heap v).name ≡ (s.heap p).name
    → (rest : List ℕ) × (disconnect p s ≡ unregister (s.heap v) (record s { clients = rest }))
      × Perm rest (front ++ (between ++ p ∷ back))
unfolding disconnect
disconnect_removes_namesake s front between back v p listed none_before same =
    let (rest, removed, kept) =
      delete_client_by_name-first s (s.heap p).name front (between ++ p ∷ back) v listed none_before
        same in
    (rest, ap (λ (r : MinediveServer × _). r.0) removed, kept)
