-- ===== src/Wire/RoundTrip.antt =====
-- Messages come back from JSON as they were, and a relay reads the type of any of them.
use minedive.Common.{◌≡◌, refl, true, [], ◌∷◌, arith, Bytes, bytes, ◌is◌, All, Dict}
use minedive.Codec.{Codec, Value, IsCodec, IsMember, IsKeyByte}
use minedive.Wire.{
  EncL1Msg, FwdMsg, enc_members, fwd_members, read_enc, read_fwd, read_min, members, unless_empty,
}

-- The fields are UTF-8.
pub record IsEnc (c : Codec) (m : EncL1Msg) : Type 0 where
  pub from : c.valid m.from ≡ true
  pub type : c.valid m.type ≡ true
  pub key : c.valid m.key ≡ true
  pub tpk : c.valid m.tpk ≡ true
  pub nonce : c.valid m.nonce ≡ true
  pub ct : c.valid m.ct ≡ true

pub record IsFwd (c : Codec) (m : FwdMsg) : Type 0 where
  pub from : c.valid m.from ≡ true
  pub type : c.valid m.type ≡ true
  pub to : c.valid m.to ≡ true
  pub msg : c.valid m.msg ≡ true
  pub ori : c.valid m.ori ≡ true

read_enc-members : (m : EncL1Msg) → read_enc (enc_members m) ≡ m
unfolding read_enc enc_members ◌is◌ bytes
read_enc-members m = refl

read_fwd-members : (m : FwdMsg) → read_fwd (fwd_members m) ≡ m
unfolding read_fwd fwd_members ◌is◌ bytes
read_fwd-members m = by_ori m.ori
  where
    by_ori : (o : Bytes) → read_fwd (fwd_members (record m { ori = o })) ≡ record m { ori = o }
    by_ori [] = refl
    by_ori (b ∷ o) = refl

enc_members-IsMember : (c : Codec) (m : EncL1Msg) → IsEnc c m → All (IsMember c) (enc_members m)
unfolding enc_members bytes
enc_members-IsMember c m v = (
  (omega arith, v.from),
  (
    (omega arith, v.type),
    (
      (omega arith, v.key),
      ((omega arith, v.tpk), ((omega arith, v.nonce), ((omega arith, v.ct), tt))),
    ),
  ),
)

pub unless_empty-IsMember :
    (c : Codec) (key s : Bytes) (rest : Dict Value)
    → All IsKeyByte key
    → c.valid s ≡ true
    → All (IsMember c) rest
    → All (IsMember c) (unless_empty key s rest)
unfolding unless_empty
unless_empty-IsMember c key [] rest hk hs hr = hr
unless_empty-IsMember c key (b ∷ s) rest hk hs hr = ((hk, hs), hr)

fwd_members-IsMember : (c : Codec) (m : FwdMsg) → IsFwd c m → All (IsMember c) (fwd_members m)
unfolding fwd_members bytes
fwd_members-IsMember c m v = (
  (omega arith, v.from),
  (
    (omega arith, v.type),
    (
      (omega arith, v.to),
      ((omega arith, v.msg), unless_empty-IsMember c _ m.ori [] (omega arith) v.ori tt),
    ),
  ),
)

module _ (c : Codec) (laws : IsCodec c) where
  -- `json.Unmarshal` reads back the `encL1Msg` that `json.Marshal` wrote, if its fields are UTF-8.
  pub read_enc-print :
      (m : EncL1Msg) → IsEnc c m → read_enc (members c (c.print (enc_members m))) ≡ m
  read_enc-print m v =
      rw (laws.parse-print (enc_members m) (enc_members-IsMember c m v)) (read_enc-members m)

  -- The same of `FwdMsg`, also where `ori` is empty and so left out.
  pub read_fwd-print : (m : FwdMsg) → IsFwd c m → read_fwd (members c (c.print (fwd_members m))) ≡ m
  read_fwd-print m v =
      rw (laws.parse-print (fwd_members m) (fwd_members-IsMember c m v)) (read_fwd-members m)

  -- A relay reads the type of a `FwdMsg` through `minL1Msg`, and of an `encL1Msg` too.
  pub read_min-print_fwd :
      (m : FwdMsg) → IsFwd c m → (read_min (members c (c.print (fwd_members m)))).type ≡ m.type
  unfolding read_min fwd_members ◌is◌ bytes
  read_min-print_fwd m v =
      rw (laws.parse-print (fwd_members m) (fwd_members-IsMember c m v)) (by_ori m.ori)
    where
      by_ori : (o : Bytes) → (read_min (fwd_members (record m { ori = o }))).type ≡ m.type
      by_ori [] = refl
      by_ori (b ∷ o) = refl

  -- Read as an `encL1Msg`, a `FwdMsg` has its own type.
  pub read_enc-print_fwd :
      (m : FwdMsg) → IsFwd c m → (read_enc (members c (c.print (fwd_members m)))).type ≡ m.type
  unfolding read_enc fwd_members ◌is◌ bytes
  read_enc-print_fwd m v =
      rw (laws.parse-print (fwd_members m) (fwd_members-IsMember c m v)) (by_ori m.ori)
    where
      by_ori : (o : Bytes) → (read_enc (fwd_members (record m { ori = o }))).type ≡ m.type
      by_ori [] = refl
      by_ori (b ∷ o) = refl
