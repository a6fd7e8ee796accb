-- ===== src/ShortLink/Cache/Codec.antt =====
-- apps/shortlink_server: `serialize` and `deserialize` of src/RedisShortLinkCache.cpp, the text of
-- a cache entry.
pub mod RoundTrip
use hao_short_link.Prelude.{
  Bytes, List, Option, [], bytes_eq, codes, if◌then◌else◌, is_empty, nat_eq, none, not, some,
  starts_with, suc, zero, ℕ, ◌++◌, ◌==◌, ◌>>=◌, ◌||◌, ◌∷◌,
}
use hao_short_link.Prelude.Int.{int_eq, ℤ}
use hao_short_link.Decimal.{int_to_string, stoll, stoull, to_string}
use hao_short_link.ShortLink.Record.{ShortLinkRecord, parse_status, status_eq, status_to_string}

abbrev pub separator : ℕ
separator = b'|'

-- `*expires_at` in decimal, or "-".
unfoldable pub print_expiry : Option ℤ → Bytes
print_expiry none = codes "-"
print_expiry (some t) = int_to_string t

unfoldable pub serialize : ShortLinkRecord → Bytes
serialize r =
    codes "v2|"
    ++ (to_string r.id
        ++ (separator
            ∷ (to_string r.owner_id
                ++ (separator
                    ∷ (status_to_string r.status
                        ++ (separator
                            ∷ (print_expiry r.expires_at
                                ++ (separator
                                    ∷ (int_to_string r.created_at
                                        ++ (separator
                                            ∷ (int_to_string r.updated_at
                                                ++ (separator ∷ r.original_url))))))))))))

-- `value.find('|', begin)`: the field before the separator, and what follows it.
unfoldable pub cut : ℕ → Bytes → Option (Bytes × Bytes)
cut sep [] = none
cut sep (c ∷ s) =
    let later = cut sep s in if c == sep then some ([], s) else (do r ← later; some (c ∷ r.0, r.1))

-- The loop over `separators` separators: the fields in front, and the rest.
unfoldable pub cut_fields : ℕ → Bytes → Option (List Bytes × Bytes)
cut_fields zero value = some ([], value)
cut_fields (suc separators) value = do
  r ← cut separator value
  rest ← cut_fields separators r.1
  some (r.0 ∷ rest.0, rest.1)

unfoldable pub parse_expiry : Bytes → Option (Option ℤ)
parse_expiry field = if field == codes "-" then some none else (do t ← stoll field; some (some t))

-- The `try` block: any conversion that throws gives `nullopt`.
unfoldable pub read_fields : Bytes → List Bytes → Bytes → Option ShortLinkRecord
read_fields code (version ∷ id ∷ owner ∷ state ∷ expiry ∷ created ∷ updated ∷ []) url =
    if not (version == codes "v2") || is_empty url then none else (do
      status ← parse_status state
      id' ← stoull id
      owner_id ← stoull owner
      expires_at ← parse_expiry expiry
      created_at ← stoll created
      updated_at ← stoll updated
      some (record {
        id = id';
        owner_id = owner_id;
        code = code;
        original_url = url;
        status = status;
        expires_at = expires_at;
        created_at = created_at;
        updated_at = updated_at;
      }))
read_fields code _ url = none

unfoldable pub deserialize : Bytes → Bytes → Option ShortLinkRecord
deserialize code value =
    if starts_with value (codes "v2|")
    then (do fields ← cut_fields 7 value; read_fields code fields.0 fields.1)
    else none
