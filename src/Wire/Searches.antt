-- ===== src/Wire/Searches.antt =====
-- Searches and their answers come back from JSON as they were.
use minedive.Common.{◌≡◌, refl, true, List, [], ◌∷◌, arith, Bytes, bytes, ◌is◌, All}
use minedive.Codec.{Codec, IsCodec, IsMember}
use minedive.Wire.RoundTrip.{unless_empty-IsMember}
use minedive.Wire.{L2Msg, l2_members, read_l2, read_min, members, texts_unless_empty}

-- The fields are UTF-8.
pub record IsL2 (c : Codec) (m : L2Msg) : Type 0 where
  pub type : c.valid m.type ≡ true
  pub lang : c.valid m.lang ≡ true
  pub query : c.valid m.query ≡ true
  pub text : All (λ t. c.valid t ≡ true) m.text

read_l2-members : (m : L2Msg) → read_l2 (l2_members m) ≡ m
unfolding read_l2 l2_members ◌is◌ bytes
read_l2-members m = by_fields m.lang m.query m.text
  where
    by_fields :
        (l q : Bytes) (ts : List Bytes)
        → read_l2 (l2_members (record { type = m.type; lang = l; query = q; text = ts }))
          ≡ record { type = m.type; lang = l; query = q; text = ts }
    by_fields [] [] [] = refl
    by_fields [] [] (t ∷ ts) = refl
    by_fields [] (b ∷ q) [] = refl
    by_fields [] (b ∷ q) (t ∷ ts) = refl
    by_fields (a ∷ l) [] [] = refl
    by_fields (a ∷ l) [] (t ∷ ts) = refl
    by_fields (a ∷ l) (b ∷ q) [] = refl
    by_fields (a ∷ l) (b ∷ q) (t ∷ ts) = refl

read_min-members_l2 : (m : L2Msg) → (read_min (l2_members m)).type ≡ m.type
unfolding read_min l2_members ◌is◌ bytes
read_min-members_l2 m = by_fields m.lang m.query m.text
  where
    by_fields :
        (l q : Bytes) (ts : List Bytes)
        → (read_min (l2_members (record { type = m.type; lang = l; query = q; text = ts }))).type
          ≡ m.type
    by_fields [] [] [] = refl
    by_fields [] [] (t ∷ ts) = refl
    by_fields [] (b ∷ q) [] = refl
    by_fields [] (b ∷ q) (t ∷ ts) = refl
    by_fields (a ∷ l) [] [] = refl
    by_fields (a ∷ l) [] (t ∷ ts) = refl
    by_fields (a ∷ l) (b ∷ q) [] = refl
    by_fields (a ∷ l) (b ∷ q) (t ∷ ts) = refl

l2_members-IsMember : (c : Codec) (m : L2Msg) → IsL2 c m → All (IsMember c) (l2_members m)
unfolding l2_members texts_unless_empty bytes
l2_members-IsMember c m v = (
  (omega arith, v.type),
  unless_empty-IsMember c (bytes "l") m.lang _ (omega arith) v.lang (
      unless_empty-IsMember c (bytes "q") m.query _ (omega arith) v.query (by_texts m.text v.text)),
)
  where
    by_texts :
        (ts : List Bytes)
        → All (λ t. c.valid t ≡ true) ts
        → All (IsMember c) (texts_unless_empty (bytes "text") ts)
    by_texts [] h = tt
    by_texts (t ∷ ts) h = ((omega arith, h), tt)

module _ (c : Codec) (laws : IsCodec c) where
  pub read_l2-print : (m : L2Msg) → IsL2 c m → read_l2 (members c (c.print (l2_members m))) ≡ m
  read_l2-print m v =
      rw (laws.parse-print (l2_members m) (l2_members-IsMember c m v)) (read_l2-members m)

  pub read_min-print_l2 :
      (m : L2Msg) → IsL2 c m → (read_min (members c (c.print (l2_members m)))).type ≡ m.type
  read_min-print_l2 m v =
      rw (laws.parse-print (l2_members m) (l2_members-IsMember c m v)) (read_min-members_l2 m)
