-- ===== src/Examples/Logs.antt =====
-- The access log at concrete requests.
use minedive.Common.{
  ℕ, ◌+◌, ◌/◌, ◌%◌, ◌≡◌, refl, false, ◌&&◌, [], ◌∷◌, ◌++◌, some, arith, Bytes, bytes, ltb, leb,
  if◌then◌else◌, done,
}
use minedive.Logger.{Unicode, LogFormatterParams, append_quoted, proxy_formatter}
use minedive.Logger.Quoting.{IsUnicode, IsText, read_quoted}
use minedive.Logger.Quoting.Entry.{entry_start, request_line, entry_end, proxy_formatter-Entry}

abbrev decode_ascii : Bytes → ℕ × ℕ
decode_ascii [] = (65533, 0)
decode_ascii (b ∷ s) = if ltb b 128 then (b, 1) else (65533, 1)

-- No rune but ASCII is encoded, and numbers have three digits.
abbrev ascii : Unicode
ascii = record {
  decode_rune = decode_ascii;
  encode_rune = λ r. r ∷ [];
  is_print = λ r. leb 32 r && ltb r 127;
  itoa = λ n. (48 + n / 100 % 10) ∷ (48 + n / 10 % 10) ∷ (48 + n % 10) ∷ [];
}

ascii-IsUnicode : IsUnicode ascii
ascii-IsUnicode = record {
  decode_width = λ b s. ground arith;
  decode_wide = λ b s h. ground arith;
  encode_ascii = λ r h. refl;
  encode_wide = λ r h. (h, tt);
  print_ascii = λ r h shown. ground arith;
}

-- `/"\` and the end of a line.
abbrev bad_uri : Bytes
bad_uri = b'/' ∷ b'"' ∷ b'\\' ∷ b'\n' ∷ 200 ∷ []

append_quoted_escapes : append_quoted ascii 5 [] bad_uri ≡ some (done (bytes "/\\\"\\\\\\n\\xc8"))
unfolding append_quoted bytes
append_quoted_escapes = refl

abbrev params : LogFormatterParams
params = record {
  username = [];
  real_ip = bytes "10.0.0.1";
  request_uri = bad_uri;
  proto_major = 1;
  method = b'G' ∷ b'E' ∷ b'T' ∷ [];
  host = bytes "h";
  proto = b'H' ∷ [];
  url_request_uri = [];
  time = bytes "26/Nov";
  status = 404;
  size = 19;
}

proxy_formatter-Entry_example :
    (out : Bytes) × (proxy_formatter ascii params
      ≡ some
          (done (entry_start params ++ (request_line params out ++ b'"' ∷ entry_end ascii params))))
    × IsText (entry_start params ++ request_line params out)
    × (read_quoted false (request_line params out ++ b'"' ∷ entry_end ascii params)
        ≡ some (request_line params out, entry_end ascii params))
unfolding bytes
proxy_formatter-Entry_example =
    proxy_formatter-Entry ascii params ascii-IsUnicode (ground arith) tt (ground arith)
      (ground arith) (ground arith)
