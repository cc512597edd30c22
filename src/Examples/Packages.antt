-- ===== src/Examples/Packages.antt =====
-- Stand-ins for base64, JSON and nacl that meet the laws of `IsCodec` and `IsNacl`: the theorems
-- that assume these laws can be applied.
use minedive.Common.{
  ℕ, zero, suc, ◌+◌, ◌≡◌, refl, ap, true, List, [], ◌∷◌, ◌++◌, Option, none, some, Bytes, Dict,
  length, take, drop, take-append_left, drop-append_left,
}
use native.Mathlib.Nat.{add_comm}
use minedive.Codec.{Value, text, number, texts, other, Codec, IsCodec, Nacl, IsNacl}

put_text : Bytes → Bytes → Bytes
put_text s rest = length s ∷ (s ++ rest)

put_texts : List Bytes → Bytes → Bytes
put_texts [] rest = rest
put_texts (s ∷ l) rest = put_text s (put_texts l rest)

put_value : Value → Bytes → Bytes
put_value (text s) rest = 0 ∷ put_text s rest
put_value (number n) rest = 1 ∷ n ∷ rest
put_value (texts l) rest = 2 ∷ length l ∷ put_texts l rest
put_value other rest = 3 ∷ rest

put_members : Dict Value → Bytes
put_members [] = []
put_members ((k, v) ∷ d) = put_text k (put_value v (put_members d))

abbrev Parser : Type 0 → Type 0
Parser A = Bytes → Option (A × Bytes)

infixl 5 ◌>>=◌
abbrev ◌>>=◌ : {A B : Type 0} → Option A → (A → Option B) → Option B
none >>= f = none
some a >>= f = f a

get_text : Parser Bytes
get_text [] = none
get_text (n ∷ s) = some (take n s, drop n s)

get_texts : ℕ → Parser (List Bytes)
get_texts zero s = some ([], s)
get_texts (suc n) s = do
  first ← get_text s
  rest ← get_texts n first.1
  some (first.0 ∷ rest.0, rest.1)

get_value : Parser Value
get_value [] = none
get_value (zero ∷ s) = do first ← get_text s; some (text first.0, first.1)
get_value (suc zero ∷ []) = none
get_value (suc zero ∷ n ∷ s) = some (number n, s)
get_value (suc (suc zero) ∷ []) = none
get_value (suc (suc zero) ∷ n ∷ s) = do l ← get_texts n s; some (texts l.0, l.1)
get_value (suc (suc (suc n)) ∷ s) = some (other, s)

get_members : ℕ → Bytes → Option (Dict Value)
get_members zero s = some []
get_members (suc n) s = do
  k ← get_text s
  v ← get_value k.1
  d ← get_members n v.1
  some ((k.0, v.0) ∷ d)

get_text-put : (s rest : Bytes) → get_text (put_text s rest) ≡ some (s, rest)
unfolding get_text put_text
get_text-put s rest =
    rw (take-append_left (length s) s rest refl, drop-append_left (length s) s rest refl) refl

get_texts-put :
    (l : List Bytes) (rest : Bytes) → get_texts (length l) (put_texts l rest) ≡ some (l, rest)
unfolding get_texts put_texts
get_texts-put [] rest = refl
get_texts-put (s ∷ l) rest = rw (get_text-put s (put_texts l rest), get_texts-put l rest) refl

get_value-put : (v : Value) (rest : Bytes) → get_value (put_value v rest) ≡ some (v, rest)
unfolding get_value put_value
get_value-put (text s) rest = rw (get_text-put s rest) refl
get_value-put (number n) rest = refl
get_value-put (texts l) rest = rw (get_texts-put l rest) refl
get_value-put other rest = refl

get_members-put : (d : Dict Value) → get_members (length d) (put_members d) ≡ some d
unfolding get_members put_members
get_members-put [] = refl
get_members-put ((k, v) ∷ d) =
    rw
      (
        get_text-put k (put_value v (put_members d)),
        get_value-put v (put_members d),
        get_members-put d,
      )
      refl

parse_members : Bytes → Option (Dict Value)
parse_members [] = none
parse_members (n ∷ s) = get_members n s

abbrev pub plain_codec : Codec
unfolding parse_members get_members get_value get_texts get_text put_members put_value put_texts
    put_text
plain_codec = record {
  encode = λ s. s;
  decode = λ s. record { slice = s; spare = []; good = true };
  print = λ d. length d ∷ put_members d;
  parse = parse_members;
  valid = λ s. true;
}

pub plain_codec-IsCodec : IsCodec plain_codec
unfolding plain_codec
plain_codec-IsCodec = record {
  decode-encode = λ s. (refl, refl);
  valid-encode = λ s. refl;
  valid_ascii = λ s h. refl;
  parse-print = λ d h. get_members-put d;
}

total : Bytes → ℕ
total [] = 0
total (b ∷ s) = b + total s

unseal_plain : Bytes → Option Bytes
unseal_plain [] = none
unseal_plain (b ∷ s) = some s

abbrev pub plain_nacl : Nacl
unfolding unseal_plain total
plain_nacl = record {
  seal = λ m nonce key. 0 ∷ m;
  unseal = λ box nonce key. unseal_plain box;
  precompute = λ a b. (total a + total b) ∷ [];
  public_of = λ a. a;
}

pub plain_nacl-IsNacl : IsNacl plain_nacl
unfolding plain_nacl
plain_nacl-IsNacl = record {
  unseal-seal = λ m nonce key. refl;
  precompute_comm = λ a b. ap (λ (n : ℕ). n ∷ []) (add_comm (total a) (total b));
}

pub plain_codec_valid : (s : Bytes) → plain_codec.valid s ≡ true
unfolding plain_codec
plain_codec_valid s = refl

pub plain_nacl_public : (s : Bytes) → plain_nacl.public_of s ≡ s
unfolding plain_nacl
plain_nacl_public s = refl

pub plain_codec_parse : (d : Dict Value) → plain_codec.parse (plain_codec.print d) ≡ some d
unfolding plain_codec
plain_codec_parse d = get_members-put d

pub plain_codec_nothing : plain_codec.parse [] ≡ none
unfolding plain_codec parse_members
plain_codec_nothing = refl

pub plain_codec_encode : (s : Bytes) → plain_codec.encode s ≡ s
unfolding plain_codec
plain_codec_encode s = refl

pub plain_codec_decode :
    (s : Bytes) → plain_codec.decode s ≡ record { slice = s; spare = []; good = true }
unfolding plain_codec
plain_codec_decode s = refl
