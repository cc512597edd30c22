-- ===== src/Logger/Quoting/Entry.antt =====
-- The parts of an entry of the log.
use mathlib.Core.List.{append_assoc}
use minedive.Common.{
  ℕ, ◌≤◌, ◌≡◌, ◌≢◌, ap, false, [], ◌∷◌, ◌++◌, some, arith, Bytes, bytes, length, All, All-append,
  done,
}
use minedive.Logger.{
  Unicode, LogFormatterParams, logged_name, logged_uri, entry_before, entry_after, proxy_formatter,
}
use minedive.Logger.Quoting.{
  IsUnicode, IsText, IsPiece, read_quoted, nil-IsPiece, append-IsPiece, plain-IsPiece,
  append_quoted-IsPiece, stops,
}

-- A byte that means itself between quotes.
abbrev pub IsPlain : ℕ → Type 0
IsPlain b = (32 ≤ b) × (b ≢ b'"') × (b ≢ b'\\')

quotable-IsPiece : (s : Bytes) → All IsPlain s → IsPiece s
quotable-IsPiece [] h = nil-IsPiece
quotable-IsPiece (b ∷ s) (h, hs) =
    append-IsPiece (b ∷ []) s (plain-IsPiece b h.0 h.1 h.2) (quotable-IsPiece s hs)

-- The entry up to the quote before the method.
pub entry_start : LogFormatterParams → Bytes
unfolding logged_name
entry_start p =
    p.real_ip
    ++ (bytes " - " ++ (logged_name p.username ++ (bytes " [" ++ (p.time ++ bytes "] \""))))

-- Between the quotes, for the quoted URI.
pub request_line : LogFormatterParams → Bytes → Bytes
request_line p out = p.method ++ (bytes " " ++ (out ++ (bytes " " ++ p.proto)))

-- After the quote: the status and the size.
pub entry_end : Unicode → LogFormatterParams → Bytes
entry_end u p = bytes " " ++ (u.itoa p.status ++ (bytes " " ++ (u.itoa p.size ++ b'\n' ∷ [])))

entry_split :
    (u : Unicode) (p : LogFormatterParams) (out : Bytes)
    → (entry_before p ++ out) ++ (entry_after u p ++ b'\n' ∷ [])
      ≡ entry_start p ++ (request_line p out ++ b'"' ∷ entry_end u p)
unfolding entry_before entry_after entry_start request_line entry_end bytes
entry_split u p out = simp (append_assoc)

entry_start-IsText :
    (p : LogFormatterParams)
    → IsText p.real_ip
    → IsText p.username
    → IsText p.time
    → IsText (entry_start p)
unfolding entry_start bytes logged_name
entry_start-IsText p ip name time = text _ _ ip (
    text (bytes " - ") _ (ground arith) (
      text _ _ (named p.username name)
        (text (bytes " [") _ (ground arith) (text _ (bytes "] \"") time (ground arith)))))
  where
    text : (s t : Bytes) → IsText s → IsText t → IsText (s ++ t)
    text = All-append (λ b. 32 ≤ b)

    named : (s : Bytes) → IsText s → IsText (logged_name s)
    named [] h = ground arith
    named (b ∷ s) h = h

request_line-IsPiece :
    (p : LogFormatterParams) (out : Bytes)
    → All IsPlain p.method
    → All IsPlain p.proto
    → IsPiece out
    → IsPiece (request_line p out)
unfolding request_line bytes
request_line-IsPiece p out method proto h =
    let space = plain-IsPiece b' ' (omega arith) (λ e. omega arith) (λ e. omega arith) in
    append-IsPiece p.method _ (quotable-IsPiece p.method method) (
      append-IsPiece (b' ' ∷ []) _ space (
        append-IsPiece out _ h
          (append-IsPiece (b' ' ∷ []) _ space (quotable-IsPiece p.proto proto))))

-- An entry of the access log has the fields that it should have, whatever the URI. `ProxyFormatter`
-- comes to an end, and writes the start of the entry, up to the quote, the line of the request, the
-- quote, and the status and the size. No control character is before that end; and a reader
-- that starts at the line of the request stops at the quote after it, so the status and the size
-- that it then reads are the log's. The headers and the time have no control character, and the
-- method and the protocol no quote and no backslash either.
pub proxy_formatter-Entry :
    (u : Unicode) (p : LogFormatterParams)
    → IsUnicode u
    → IsText p.real_ip
    → IsText p.username
    → IsText p.time
    → All IsPlain p.method
    → All IsPlain p.proto
    → (out : Bytes) × (proxy_formatter u p
        ≡ some (done (entry_start p ++ (request_line p out ++ b'"' ∷ entry_end u p))))
      × IsText (entry_start p ++ request_line p out)
      × (read_quoted false (request_line p out ++ b'"' ∷ entry_end u p)
          ≡ some (request_line p out, entry_end u p))
unfolding proxy_formatter
proxy_formatter-Entry u p laws ip name time method proto =
    let (out, e, h) =
      append_quoted-IsPiece u laws (length (logged_uri p)) (entry_before p) (logged_uri p)
        (omega arith) in
    let piece = request_line-IsPiece p out method proto h in
    (
      out,
      rw (e, proxy_formatter) (ap (λ (x : Bytes). some (done x)) (entry_split u p out)),
      All-append (λ b. 32 ≤ b) (entry_start p) (request_line p out)
          (entry_start-IsText p ip name time) piece.is_text,
      stops (request_line p out) (entry_end u p) piece,
    )
