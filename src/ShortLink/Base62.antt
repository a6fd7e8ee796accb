-- ===== src/ShortLink/Base62.antt =====
-- apps/shortlink_server: `encodeBase62` of src/MemoryShortLinkRepository.cpp. The same text stands
-- in src/MySqlShortLinkRepository.cpp.
pub mod RoundTrip
use hao_short_link.Prelude.{
  Bytes, [], bytes_eq, codes, if◌then◌else◌, length, ltb, nat_eq, replicate, reverse, suc, zero, ℕ,
  ◌%◌, ◌++◌, ◌/◌, ◌==◌, ◌∷◌,
}
use hao_short_link.Prelude.Int.{int_eq}
use hao_short_link.ShortLink.Record.{status_eq}

abbrev pub base62_chars : Bytes
base62_chars = codes "0123456789ABCDEFGHIJKLMNOPQRSTUVWXYZabcdefghijklmnopqrstuvwxyz"

abbrev pub min_code_length : ℕ
min_code_length = 6

-- `kBase62Chars[index]`; the index is always below 62.
unfoldable pub char_at : Bytes → ℕ → ℕ
char_at [] i = 0
char_at (c ∷ s) zero = c
char_at (c ∷ s) (suc i) = char_at s i

-- `while (value > 0)`: `push_back` adds at the end. A round divides the value by 62, so a fuel of
-- `value` rounds is never used up (`RoundTrip`).
unfoldable pub push_digits : ℕ → ℕ → Bytes → Bytes
push_digits zero value encoded = encoded
push_digits (suc fuel) value encoded =
    let rest = push_digits fuel (value / 62) (encoded ++ char_at base62_chars (value % 62) ∷ []) in
    if ltb 0 value then rest else encoded

-- `while (encoded.size() < kMinCodeLength)`, with a fuel of six rounds.
unfoldable pub pad : ℕ → Bytes → Bytes
pad zero encoded = encoded
pad (suc fuel) encoded =
    let rest = pad fuel (encoded ++ b'0' ∷ []) in
    if ltb (length encoded) min_code_length then rest else encoded

unfoldable pub encode_base62 : ℕ → Bytes
encode_base62 value =
    if value == 0
    then replicate min_code_length b'0'
    else reverse (pad min_code_length (push_digits value value []))
