-- ===== src/Logger.antt =====
-- cmd/mined/logger.go, of which the other programs have copies: the access log.
pub mod Quoting
use minedive.Common.{
  ℕ, zero, suc, ◌+◌, ◌*◌, ◌/◌, ◌%◌, ◌^◌, Bool, true, false, ◌&&◌, ◌||◌, List, [], ◌∷◌, ◌++◌, Option,
  none, some, Bytes, bytes, ◌is◌, ltb, leb, ◌==◌, if◌then◌else◌, length, drop, Outcome, done, panic,
}

-- What the log takes from unicode/utf8 and strconv: `DecodeRuneInString`, `EncodeRune`, `IsPrint`
-- and `Itoa`.
pub record Unicode : Type 0 where
  pub decode_rune : Bytes → ℕ × ℕ
  pub encode_rune : ℕ → Bytes
  pub is_print : ℕ → Bool
  pub itoa : ℕ → Bytes

-- `lowerhex[n&0xF]`
lowerhex : ℕ → ℕ
lowerhex n = if ltb (n % 16) 10 then 48 + n % 16 else 87 + n % 16

-- `\x` and the two digits of a byte.
hex_byte : ℕ → Bytes
unfolding lowerhex
hex_byte b = b'\\' ∷ b'x' ∷ lowerhex (b / 16) ∷ lowerhex b ∷ []

-- The loops over `s`, from `4 * n` down to 0.
hex_digits : ℕ → ℕ → Bytes
unfolding lowerhex
hex_digits zero r = lowerhex r ∷ []
hex_digits (suc n) r = lowerhex (r / 2 ^ (4 * suc n)) ∷ hex_digits n r

-- The `switch` at the end of the loop's body; `b` is the first byte of `s`.
escaped : ℕ → ℕ → Bytes
unfolding hex_byte hex_digits
escaped b r =
    if r == 7
    then bytes "\\a"
    else if r == 8
    then bytes "\\b"
    else if r == 12
    then bytes "\\f"
    else if r == 10
    then bytes "\\n"
    else if r == 13
    then bytes "\\r"
    else if r == 9
    then bytes "\\t"
    else if r == 11
    then bytes "\\v"
    else if ltb r 32
    then hex_byte b
    else if ltb 1114111 r
    then b'\\' ∷ b'u' ∷ hex_digits 3 65533
    else if ltb r 65536
    then b'\\' ∷ b'u' ∷ hex_digits 3 r
    else b'\\' ∷ b'U' ∷ hex_digits 7 r

module _ (u : Unicode) where
  -- The rune at the front of `b ∷ s`, and its width.
  rune : ℕ → Bytes → ℕ × ℕ
  rune b s = if ltb b 128 then (b, 1) else u.decode_rune (b ∷ s)

  -- What one round of the loop appends, for the rune `r` of that width.
  quoted : ℕ → ℕ → ℕ → Bytes
  unfolding escaped hex_byte
  quoted b r width =
      if width == 1 && r == 65533
      then hex_byte b
      else if r == b'"' || r == b'\\'
      then b'\\' ∷ r ∷ []
      else if u.is_print r
      then u.encode_rune r
      else escaped b r

  -- The loop; `none` means that the fuel ran out.
  unfoldable pub append_quoted : ℕ → Bytes → Bytes → Option (Outcome Bytes)
  unfolding rune quoted
  append_quoted fuel buf [] = some (done buf)
  append_quoted zero buf (b ∷ s) = none
  append_quoted (suc fuel) buf (b ∷ s) =
      let (r, width) = rune b s in
      elim (ltb (length (b ∷ s)) width) [
        | true ↦ some panic
        | false ↦ append_quoted fuel (buf ++ quoted b r width) (drop width (b ∷ s))
      ]

-- What `ProxyFormatter` reads of its parameters: two headers, the request, the URL's
-- `RequestURI`, the time in the layout of the log, the status and the size.
pub record LogFormatterParams : Type 0 where
  pub username : Bytes
  pub real_ip : Bytes
  pub request_uri : Bytes
  pub proto_major : ℕ
  pub method : Bytes
  pub host : Bytes
  pub proto : Bytes
  pub url_request_uri : Bytes
  pub time : Bytes
  pub status : ℕ
  pub size : ℕ

logged_name : Bytes → Bytes
logged_name [] = bytes "-"
logged_name (b ∷ s) = b ∷ s

logged_uri : LogFormatterParams → Bytes
logged_uri p =
    let uri =
      if p.proto_major == 2 && (p.method is bytes "CONNECT") then p.host else p.request_uri in
    if uri is [] then p.url_request_uri else uri

-- The entry up to the URI, and after it.
entry_before : LogFormatterParams → Bytes
unfolding logged_name
entry_before p =
    p.real_ip
    ++ (bytes " - "
        ++ (logged_name p.username
            ++ (bytes " [" ++ (p.time ++ (bytes "] \"" ++ (p.method ++ bytes " "))))))

entry_after : Unicode → LogFormatterParams → Bytes
entry_after u p =
    bytes " " ++ (p.proto ++ (bytes "\" " ++ (u.itoa p.status ++ (bytes " " ++ u.itoa p.size))))

-- What is written.
pub proxy_formatter : Unicode → LogFormatterParams → Option (Outcome Bytes)
unfolding append_quoted logged_uri entry_before entry_after
proxy_formatter u p =
    elim (append_quoted u (length (logged_uri p)) (entry_before p) (logged_uri p)) [
      | none ↦ none
      | some panic ↦ some panic
      | some (done buf) ↦ some (done (buf ++ (entry_after u p ++ b'\n' ∷ [])))
    ]
