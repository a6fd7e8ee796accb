-- ===== src/ShortLink/Memory/Listing.antt =====
-- `list` of src/MemoryShortLinkRepository.cpp: what its pages hold, and in which order.
use hao_short_link.Prelude.{
  All, All-take, Bool, Bool-cases, Bytes, List, [], arith, bytes_eq, false, filter, inl, inr,
  length, length-take-le, ltb, map, nat_eq, not, suc, sym, take, take_all, true, zero, ℕ, ◌<◌, ◌∷◌,
  ◌≡◌, ◌≢◌, ◌≤◌,
}
use hao_short_link.Prelude.Int.{int_eq}
use hao_short_link.ShortLink.Memory.{
  MemoryRepository, differs, insert_by_id, list, skips, sort_by_id, values,
}
use hao_short_link.ShortLink.Memory.Invariant.{Distinct, IsValid, ids}
use hao_short_link.ShortLink.Record.{ListQuery, ShortLinkRecord, status_eq}

-- The ids of the records rise strictly from above `n`.
abbrev pub Above : ℕ → List ShortLinkRecord → Type 0
Above n [] = Unit {0}
Above n (r ∷ rest) = (n < r.id) × Above r.id rest

abbrev pub record_ids : List ShortLinkRecord → List ℕ
record_ids = map (λ r. r.id)

-- The records of the answer before it is cut to the limit.
abbrev pub matches : MemoryRepository → ListQuery → List ShortLinkRecord
matches repository query = sort_by_id (filter (λ r. not (skips query r)) (values repository.links))

Above-mono : (m n : ℕ) (s : List ShortLinkRecord) → m ≤ n → Above n s → Above m s
Above-mono m n [] h a = tt
Above-mono m n (r ∷ s) h a = (omega arith, a.1)

pub list-eq-take :
    (repository : MemoryRepository) (query : ListQuery)
    → list repository query ≡ take query.limit (matches repository query)
unfolding list
list-eq-take repository query =
    elim (Bool-cases (ltb query.limit (length (matches repository query)))) [
      | inl long ↦ rw long
      | inr short ↦ rw short (sym (take_all query.limit (matches repository query) (ground arith)))
    ]

insert_by_id-Above :
    (n : ℕ) (r : ShortLinkRecord) (s : List ShortLinkRecord)
    → n < r.id
    → All (λ t. r.id ≢ t.id) s
    → Above n s
    → Above n (insert_by_id r s)
unfolding insert_by_id
insert_by_id-Above n r [] h d a = (h, tt)
insert_by_id-Above n r (t ∷ s) h (ne, d) (lt, a) = ground (arith, insert_by_id-Above t.id r s)

All-insert_by_id {ℓ} :
    (P : ShortLinkRecord → Type ℓ) (r : ShortLinkRecord) (s : List ShortLinkRecord)
    → P r
    → All P s
    → All P (insert_by_id r s)
unfolding insert_by_id
All-insert_by_id P r [] p h = (p, tt)
All-insert_by_id P r (t ∷ s) p (q, h) = elim (Bool-cases (ltb r.id t.id)) [
  | inl e ↦ rw e (p, (q, h))
  | inr e ↦ rw e (q, All-insert_by_id P r s p h)
]

All-sort_by_id {ℓ} :
    (P : ShortLinkRecord → Type ℓ) (s : List ShortLinkRecord) → All P s → All P (sort_by_id s)
unfolding sort_by_id
All-sort_by_id P [] h = tt
All-sort_by_id P (r ∷ s) (p, h) = All-insert_by_id P r (sort_by_id s) p (All-sort_by_id P s h)

-- Different records have different ids.
abbrev pub DistinctIds : List ShortLinkRecord → Type 0
DistinctIds [] = Unit {0}
DistinctIds (r ∷ s) = All (λ t. r.id ≢ t.id) s × DistinctIds s

pub sort_by_id-Above :
    (n : ℕ) (s : List ShortLinkRecord)
    → All (λ r. n < r.id) s
    → DistinctIds s
    → Above n (sort_by_id s)
unfolding sort_by_id
sort_by_id-Above n [] h d = tt
sort_by_id-Above n (r ∷ s) (lt, h) (ne, d) =
    insert_by_id-Above n r (sort_by_id s) lt (All-sort_by_id _ s ne) (sort_by_id-Above n s h d)

All-filter {ℓ} :
    (P : ShortLinkRecord → Type ℓ) (p : ShortLinkRecord → Bool) (s : List ShortLinkRecord)
    → ((r : ShortLinkRecord) → p r ≡ true → P r)
    → All P (filter p s)
All-filter P p [] f = tt
All-filter P p (r ∷ s) f = elim (Bool-cases (p r)) [
  | inl e ↦ rw e (f r e, All-filter P p s f)
  | inr e ↦ rw e (All-filter P p s f)
]

All-filter_of {ℓ} :
    (P : ShortLinkRecord → Type ℓ) (p : ShortLinkRecord → Bool) (s : List ShortLinkRecord)
    → All P s
    → All P (filter p s)
All-filter_of P p [] h = tt
All-filter_of P p (r ∷ s) (q, h) = elim (Bool-cases (p r)) [
  | inl e ↦ rw e (q, All-filter_of P p s h)
  | inr e ↦ rw e (All-filter_of P p s h)
]

pub DistinctIds-filter :
    (p : ShortLinkRecord → Bool) (s : List ShortLinkRecord)
    → DistinctIds s
    → DistinctIds (filter p s)
DistinctIds-filter p [] d = tt
DistinctIds-filter p (r ∷ s) (ne, d) = elim (Bool-cases (p r)) [
  | inl e ↦ rw e (All-filter_of _ p s ne, DistinctIds-filter p s d)
  | inr e ↦ rw e (DistinctIds-filter p s d)
]

DistinctIds-values :
    (m : List (Bytes × ShortLinkRecord)) → Distinct (ids m) → DistinctIds (values m)
DistinctIds-values [] d = tt
DistinctIds-values ((k, r) ∷ m) (ne, d) = (other m ne, DistinctIds-values m d)
  where
    other :
        (m : List (Bytes × ShortLinkRecord))
        → All (λ n. r.id ≢ n) (ids m)
        → All (λ t. r.id ≢ t.id) (values m)
    other [] h = tt
    other ((j, t) ∷ m) (h, hs) = (h, other m hs)

-- What the source lets through, in words: above the cursor, of the owner, in the state.
abbrev pub Fits : ListQuery → ShortLinkRecord → Type 0
Fits query r =
    (query.cursor < r.id)
    × (differs query.owner_id r.owner_id ≡ false)
    × (differs query.status r.status ≡ false)

skips_iff : (query : ListQuery) (r : ShortLinkRecord) → not (skips query r) ≡ true → Fits query r
unfolding skips
skips_iff query r h = ground arith

pub matches-Above :
    (repository : MemoryRepository) (query : ListQuery)
    → IsValid repository
    → Above query.cursor (matches repository query)
matches-Above repository query v =
    sort_by_id-Above query.cursor _
      (All-filter _ _ (values repository.links) (λ r e. (skips_iff query r e).0))
      (DistinctIds-filter _ _ (DistinctIds-values repository.links v.distinct))

pub Above-take : (n k : ℕ) (s : List ShortLinkRecord) → Above n s → Above n (take k s)
Above-take n zero s a = tt
Above-take n (suc k) [] a = tt
Above-take n (suc k) (r ∷ s) (lt, a) = (lt, Above-take r.id k s a)

-- A page is at most as long as the limit, its ids rise strictly from above the cursor, and each of
-- its records is of the owner and in the state that the query names.
pub list-Fits :
    (repository : MemoryRepository) (query : ListQuery)
    → IsValid repository
    → (length (list repository query) ≤ query.limit)
      × Above query.cursor (list repository query)
      × All (Fits query) (list repository query)
list-Fits repository query v = rw (list-eq-take repository query) (
  length-take-le query.limit (matches repository query),
  Above-take query.cursor query.limit _ (matches-Above repository query v),
  All-take _ query.limit _
      (All-sort_by_id _ _ (All-filter _ _ (values repository.links) (skips_iff query))),
)
