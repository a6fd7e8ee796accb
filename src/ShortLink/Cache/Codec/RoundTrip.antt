-- ===== src/ShortLink/Cache/Codec/RoundTrip.antt =====
-- A cache entry is read back as the record that was written.
use hao_short_link.Prelude.{
  All-map, Bytes, Lacks, Option, [], arith, beq_self, bytes_beq, bytes_eq, codes, false, is_empty,
  nat_eq, none, refl, some, starts_with, suc, true, ℕ, ◌++◌, ◌+◌, ◌==◌, ◌∷◌, ◌≡◌, ◌≢◌, ◌≤◌,
}
use hao_short_link.Prelude.Int.{int_eq, neg_part, negsuc, pos, pos_part, ℤ}
use hao_short_link.Decimal.{int_to_string, max_i64, max_u64, to_string}
use hao_short_link.Decimal.RoundTrip.{
  IsDigit, stoll-int_to_string, stoull-to_string, to_string-IsDigit, to_string-cons,
}
use hao_short_link.ShortLink.Cache.Codec.{
  cut, cut_fields, deserialize, parse_expiry, print_expiry, read_fields, separator, serialize,
}
use hao_short_link.ShortLink.Record.{
  ShortLinkRecord, Status, parse_status-status_to_string, status_eq, status_to_string,
}

abbrev pub Fits64 : ℤ → Type 0
Fits64 z = (pos_part z ≤ max_i64) × (neg_part z ≤ max_i64 + 1)

abbrev pub OptionFits64 : Option ℤ → Type 0
OptionFits64 none = Unit {0}
OptionFits64 (some z) = Fits64 z

-- The fields fit the machine's integers, and the link has a target.
pub record IsStorable (r : ShortLinkRecord) : Type 0 where
  pub id_fits : r.id ≤ max_u64
  pub owner_fits : r.owner_id ≤ max_u64
  pub expiry_fits : OptionFits64 r.expires_at
  pub created_fits : Fits64 r.created_at
  pub updated_fits : Fits64 r.updated_at
  pub has_target : r.original_url ≢ []

cut-append : (sep : ℕ) (s rest : Bytes) → Lacks sep s → cut sep (s ++ sep ∷ rest) ≡ some (s, rest)
unfolding cut
cut-append sep [] rest h = ground arith
cut-append sep (c ∷ s) rest (ne, h) = ground (arith, cut-append sep s rest h)

to_string-Lacks : (n : ℕ) → Lacks separator (to_string n)
to_string-Lacks n =
    All-map IsDigit (λ c. c ≢ separator) (λ c d. ground arith) _ (to_string-IsDigit n)

int_to_string-Lacks : (z : ℤ) → Lacks separator (int_to_string z)
unfolding int_to_string
int_to_string-Lacks (pos n) = to_string-Lacks n
int_to_string-Lacks (negsuc n) = (omega arith, to_string-Lacks (suc n))

status-Lacks : (s : Status) → Lacks separator (status_to_string s)
unfolding status_to_string
status-Lacks Status.active = omega arith
status-Lacks Status.disabled = omega arith

expiry-Lacks : (t : Option ℤ) → Lacks separator (print_expiry t)
unfolding print_expiry
expiry-Lacks none = omega arith
expiry-Lacks (some z) = int_to_string-Lacks z

not_dash : (z : ℤ) → (int_to_string z == codes "-") ≡ false
unfolding int_to_string bytes_beq
not_dash (pos n) = let (c, s, e, d) = to_string-cons n in rw e (ground arith)
not_dash (negsuc n) = let (c, s, e, d) = to_string-cons (suc n) in rw e (ground arith)

parse_expiry-print_expiry : (t : Option ℤ) → OptionFits64 t → parse_expiry (print_expiry t) ≡ some t
unfolding parse_expiry print_expiry
parse_expiry-print_expiry none h = unfold bytes_beq in refl
parse_expiry-print_expiry (some z) h = rw (not_dash z, stoll-int_to_string z h.0 h.1)

-- The fields of a serialized record are the printed fields.
cut_fields-serialize :
    (r : ShortLinkRecord)
    → cut_fields 7 (serialize r)
      ≡ some (
        codes "v2"
            ∷ to_string r.id
            ∷ to_string r.owner_id
            ∷ status_to_string r.status
            ∷ print_expiry r.expires_at
            ∷ int_to_string r.created_at
            ∷ int_to_string r.updated_at
            ∷ [],
        r.original_url,
      )
unfolding cut_fields serialize
cut_fields-serialize r = simp (
  cut-append separator (codes "v2") _ (omega arith),
  cut-append separator _ _ (to_string-Lacks r.id),
  cut-append separator _ _ (to_string-Lacks r.owner_id),
  cut-append separator _ _ (status-Lacks r.status),
  cut-append separator _ _ (expiry-Lacks r.expires_at),
  cut-append separator _ _ (int_to_string-Lacks r.created_at),
  cut-append separator _ _ (int_to_string-Lacks r.updated_at),
)

not_empty : (s : Bytes) → s ≢ [] → is_empty s ≡ false
not_empty [] h = absurd (h refl)
not_empty (c ∷ s) h = refl

starts : (r : ShortLinkRecord) → starts_with (serialize r) (codes "v2|") ≡ true
unfolding serialize
starts r = refl

read_back :
    (r : ShortLinkRecord)
    → IsStorable r
    → read_fields r.code
        (codes "v2"
          ∷ to_string r.id
          ∷ to_string r.owner_id
          ∷ status_to_string r.status
          ∷ print_expiry r.expires_at
          ∷ int_to_string r.created_at
          ∷ int_to_string r.updated_at
          ∷ [])
        r.original_url
      ≡ some r
unfolding read_fields
read_back r h = rw (
  beq_self (codes "v2"),
  not_empty r.original_url h.has_target,
  (parse_status-status_to_string _ r.status).1 refl,
  stoull-to_string r.id h.id_fits,
  stoull-to_string r.owner_id h.owner_fits,
  parse_expiry-print_expiry r.expires_at h.expiry_fits,
  stoll-int_to_string r.created_at h.created_fits.0 h.created_fits.1,
  stoll-int_to_string r.updated_at h.updated_fits.0 h.updated_fits.1,
)

-- A cache entry is read back as the record that it was made from, for every record whose numbers
-- fit their types and whose target is not empty; the target may hold the separator.
pub deserialize-serialize :
    (r : ShortLinkRecord) → IsStorable r → deserialize r.code (serialize r) ≡ some r
unfolding deserialize
deserialize-serialize r h = rw (starts r, cut_fields-serialize r, read_back r h)
