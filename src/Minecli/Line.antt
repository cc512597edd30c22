-- ===== src/Minecli/Line.antt =====
-- cmd/minecli/main.go: a line of input, its words, and the command that its first word names.
use mathlib.Core.List.{append_assoc}
use minedive.Common.{
  ℕ, ◌≡◌, ◌≢◌, refl, ap, ◌∙◌, Bool, false, is_iff, Lacks, ◌&&◌, ◌||◌, List, [], ◌∷◌, ◌++◌, arith,
  Bytes, bytes, ◌is◌, ◌==◌, if◌then◌else◌, split, split-append, split_of_Lacks, All,
}

-- `strings.Trim(line, " \n")`
unfoldable pub is_blank : ℕ → Bool
is_blank b = b == b' ' || b == b'\n'

trim_left : Bytes → Bytes
unfolding is_blank
trim_left [] = []
trim_left (b ∷ s) = let rest = trim_left s in if is_blank b then rest else b ∷ s

trim_right : Bytes → Bytes
unfolding is_blank
trim_right [] = []
trim_right (b ∷ s) = let rest = trim_right s in if is_blank b && (rest is []) then [] else b ∷ rest

trim : Bytes → Bytes
unfolding trim_left trim_right
trim s = trim_left (trim_right s)

-- `cmd`, which has an item at least: the first, and the others.
first_word : List Bytes → Bytes × List Bytes
first_word [] = ([], [])
first_word (w ∷ ws) = (w, ws)

unfoldable pub words_of : Bytes → Bytes × List Bytes
unfolding first_word trim
words_of line = first_word (split b' ' (trim line))

-- The cases of the switch; `other` is `default`.
pub data Command : Type 0 where
  err avoid init search verbose silence join wsping : Command
  cmd getk getspd wsraw circuit testcirc testcirc2 : Command
  searchv2 raw list getpeers quit other : Command

names : List (Bytes × Command)
names =
    (bytes "err", err)
    ∷ (bytes "avoid", avoid)
    ∷ (bytes "init", init)
    ∷ (bytes "search", search)
    ∷ (bytes "verbose", verbose)
    ∷ (bytes "silence", silence)
    ∷ (bytes "join", join)
    ∷ (bytes "wsping", wsping)
    ∷ (bytes "cmd", cmd)
    ∷ (bytes "getk", getk)
    ∷ (bytes "getspd", getspd)
    ∷ (bytes "wsraw", wsraw)
    ∷ (bytes "circuit", circuit)
    ∷ (bytes "testcirc", testcirc)
    ∷ (bytes "testcirc2", testcirc2)
    ∷ (bytes "searchv2", searchv2)
    ∷ (bytes "raw", raw)
    ∷ (bytes "list", list)
    ∷ (bytes "getpeers", getpeers)
    ∷ (bytes "quit", quit)
    ∷ []

find_command : Bytes → List (Bytes × Command) → Command
find_command w [] = other
find_command w ((name, c) ∷ rest) =
    let later = find_command w rest in if w is name then c else later

unfoldable pub command_of : Bytes → Command
unfolding find_command names
command_of w = find_command w names

pub command_of_empty : command_of [] ≡ other
unfolding command_of find_command names bytes ◌is◌
command_of_empty = refl

pub command_of_search : command_of (bytes "search") ≡ search
unfolding command_of find_command names bytes ◌is◌
command_of_search = refl

pub command_of_searchv2 : command_of (bytes "searchv2") ≡ searchv2
unfolding command_of find_command names bytes ◌is◌
command_of_searchv2 = refl

pub command_of_wsraw : command_of (bytes "wsraw") ≡ wsraw
unfolding command_of find_command names bytes ◌is◌
command_of_wsraw = refl

pub command_of_avoid : command_of (bytes "avoid") ≡ avoid
unfolding command_of find_command names bytes ◌is◌
command_of_avoid = refl

pub command_of_init : command_of (bytes "init") ≡ init
unfolding command_of find_command names bytes ◌is◌
command_of_init = refl

-- What `cmdDispatcher` sends for a read: the line, or the error after "err ".
pub data Read : Type 0 where
  line : Bytes → Read
  failed : Bytes → Read

unfoldable pub text_of : Read → Bytes
text_of (line s) = s
text_of (failed e) = bytes "err " ++ e

-- A word is not empty, and no blank is in it.
abbrev pub IsWord : Bytes → Type 0
IsWord s = (s ≢ []) × All (λ b. is_blank b ≡ false) s

-- The words with a space between two.
unfoldable pub unwords : Bytes → List Bytes → Bytes
unwords w [] = w
unwords w (v ∷ vs) = w ++ b' ' ∷ unwords v vs

newline : Bytes
newline = b'\n' ∷ []

unwords_some : (w : Bytes) (ws : List Bytes) → w ≢ [] → unwords w ws ≢ []
unfolding unwords
unwords_some w [] h = h
unwords_some [] (v ∷ vs) h = absurd (h refl)
unwords_some (b ∷ w) (v ∷ vs) h = λ e. cc

-- What follows is not blank as a whole.
trim_right-append : (s t r : Bytes) → trim_right t ≡ r → r ≢ [] → trim_right (s ++ t) ≡ s ++ r
unfolding trim_right
trim_right-append [] t r h some_left = h
trim_right-append (b ∷ s) t r h some_left =
    let e = trim_right-append s t r h some_left in ground (arith, e, is_iff (s ++ r) [], nonempty s)
  where
    nonempty : (s : Bytes) → s ++ r ≢ []
    nonempty [] = some_left
    nonempty (c ∷ s) = λ e. cc

trim_right_word : (s : Bytes) → All (λ b. is_blank b ≡ false) s → trim_right (s ++ newline) ≡ s
unfolding trim_right newline is_blank ◌is◌
trim_right_word [] h = refl
trim_right_word (b ∷ s) (hb, hs) = rw (hb, trim_right, trim_right_word s hs) refl

trim_right-unwords :
    (w : Bytes) (ws : List Bytes)
    → IsWord w
    → All IsWord ws
    → trim_right (unwords w ws ++ newline) ≡ unwords w ws
unfolding unwords
trim_right-unwords w [] h hs = trim_right_word w h.1
trim_right-unwords w (v ∷ vs) h (hv, hvs) =
    let r = trim_right-unwords v vs hv hvs in
    let spaced : trim_right (b' ' ∷ (unwords v vs ++ newline)) ≡ b' ' ∷ unwords v vs =
      trim_right-append (b' ' ∷ []) (unwords v vs ++ newline) (unwords v vs) r
        (unwords_some v vs hv.0) in
    ap trim_right (append_assoc w (b' ' ∷ unwords v vs) newline)
    ∙ trim_right-append w (b' ' ∷ (unwords v vs ++ newline)) (b' ' ∷ unwords v vs) spaced (λ e. cc)

word-Lacks : (s : Bytes) → All (λ b. is_blank b ≡ false) s → Lacks b' ' s
unfolding is_blank
word-Lacks [] h = tt
word-Lacks (b ∷ s) (hb, hs) = (ground arith, word-Lacks s hs)

split-unwords :
    (w : Bytes) (ws : List Bytes) → IsWord w → All IsWord ws → split b' ' (unwords w ws) ≡ w ∷ ws
unfolding unwords
split-unwords w [] h hs = split_of_Lacks b' ' w (word-Lacks w h.1)
split-unwords w (v ∷ vs) h (hv, hvs) =
    split-append b' ' w (unwords v vs) (word-Lacks w h.1) ∙ ap (◌∷◌ w) (split-unwords v vs hv hvs)

trim_left-unwords :
    (w : Bytes) (ws : List Bytes) → IsWord w → trim_left (unwords w ws) ≡ unwords w ws
unfolding trim_left unwords
trim_left-unwords [] ws h = absurd (h.0 refl)
trim_left-unwords (b ∷ w) [] (h, (hb, hw)) = rw hb refl
trim_left-unwords (b ∷ w) (v ∷ vs) (h, (hb, hw)) = rw hb refl

-- A line of words with a space between two, as it is typed, is read as these words.
pub words_of-unwords :
    (w : Bytes) (ws : List Bytes)
    → IsWord w
    → All IsWord ws
    → words_of (unwords w ws ++ b'\n' ∷ []) ≡ (w, ws)
unfolding words_of trim newline first_word
words_of-unwords w ws h hs =
    rw (trim_right-unwords w ws h hs, trim_left-unwords w ws h, split-unwords w ws h hs) refl
