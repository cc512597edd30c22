-- ===== src/Codec.antt =====
-- What the program takes from packages outside the repository: base64, JSON and nacl boxes. Each
-- is a record of functions, and a record of the documented laws that some theorems assume.
pub mod Slices
use minedive.Common.{
  ℕ, ◌<◌, ◌≡◌, ◌⊎◌, Bool, true, List, ◌++◌, Option, none, some, Bytes, Dict, length, take, drop,
  ltb, if◌then◌else◌, All,
}

-- The result of `DecodeString`: the slice, what its backing array holds beyond the slice, and
-- whether the error is nil.
pub record Decoded : Type 0 where
  pub slice : Bytes
  pub spare : Bytes
  pub good : Bool

-- `d[:n]`; `none` is the panic of a slice beyond the capacity.
unfoldable pub slice_to : ℕ → Decoded → Option Bytes
slice_to n d =
    let whole = d.slice ++ d.spare in if ltb (length whole) n then none else some (take n whole)

-- `d[n:]`
unfoldable pub slice_from : ℕ → Decoded → Option Bytes
slice_from n d = if ltb (length d.slice) n then none else some (drop n d.slice)

-- `copy(dst, src)`
unfoldable pub copy : Bytes → Bytes → Bytes
copy dst src = take (length dst) src ++ drop (length src) dst

-- The value of a member of a JSON object. `other` is a value that no field of the program takes.
pub data Value : Type 0 where
  text : Bytes → Value
  number : ℕ → Value
  texts : List Bytes → Value
  other : Value

-- `encode` and `decode` are `EncodeToString` and `DecodeString` of `b64.StdEncoding`. `print` is
-- `json.Marshal` on the members of an object in their order; `parse` is how `json.Unmarshal` reads
-- one, its keys in lower case as all tags of the program are (it ignores case), and `none` is a
-- syntax error. `valid` is `utf8.Valid`.
pub record Codec : Type 0 where
  pub encode : Bytes → Bytes
  pub decode : Bytes → Decoded
  pub print : Dict Value → Bytes
  pub parse : Bytes → Option (Dict Value)
  pub valid : Bytes → Bool

-- A member that comes back as it was: the key is ASCII without capitals, and texts are UTF-8.
abbrev pub IsKeyByte : ℕ → Type 0
IsKeyByte b = (b < 128) × ((b < 65) ⊎ (90 < b))

abbrev pub IsValue : Codec → Value → Type 0
IsValue c (text s) = c.valid s ≡ true
IsValue c (number n) = Unit
IsValue c (texts l) = All (λ s. c.valid s ≡ true) l
IsValue c other = ⊥

abbrev pub IsMember : Codec → Bytes × Value → Type 0
IsMember c (k, v) = All IsKeyByte k × IsValue c v

pub record IsCodec (c : Codec) : Type 0 where
  pub decode-encode :
      (s : Bytes) → ((c.decode (c.encode s)).slice ≡ s) × ((c.decode (c.encode s)).good ≡ true)
  pub valid-encode : (s : Bytes) → c.valid (c.encode s) ≡ true
  pub valid_ascii : (s : Bytes) → All (λ b. b < 128) s → c.valid s ≡ true
  pub parse-print : (d : Dict Value) → All (IsMember c) d → c.parse (c.print d) ≡ some d

-- `secretbox.Seal(nil, msg, nonce, key)`, `secretbox.Open(nil, box, nonce, key)`,
-- `box.Precompute(k, public, private)`, and the public key that `box.GenerateKey` gives with a
-- private one.
pub record Nacl : Type 0 where
  pub seal : Bytes → Bytes → Bytes → Bytes
  pub unseal : Bytes → Bytes → Bytes → Option Bytes
  pub precompute : Bytes → Bytes → Bytes
  pub public_of : Bytes → Bytes

pub record IsNacl (n : Nacl) : Type 0 where
  pub unseal-seal : (m nonce key : Bytes) → n.unseal (n.seal m nonce key) nonce key ≡ some m
  pub precompute_comm :
      (a b : Bytes) → n.precompute (n.public_of a) b ≡ n.precompute (n.public_of b) a
