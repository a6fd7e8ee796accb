-- ===== src/ShortLink/Memory/Paging.antt =====
-- Walking through `list` page by page, as `handleList` of src/ShortLinkHttpApi.cpp lets a client do:
-- the id of a page's last record is the next page's cursor.
-- A record stands in a list.
use hao_short_link.Prelude.{
  All, Bool, List, [], ap, arith, bytes_eq, drop, filter, if◌then◌else◌, inl, inr, length, ltb,
  nat_eq, not, refl, suc, sym, take, true, zero, ℕ, ◌&&◌, ◌++◌, ◌+◌, ◌<◌, ◌∙◌, ◌∷◌, ◌≡◌, ◌≤◌, ◌⊎◌,
}
use hao_short_link.Prelude.Int.{int_eq}
use hao_short_link.Prelude.Map.{pair_eq}
use hao_short_link.ShortLink.Memory.{
  MemoryRepository, insert_by_id, list, skips, sort_by_id, values,
}
use hao_short_link.ShortLink.Memory.Invariant.{IsValid}
use hao_short_link.ShortLink.Memory.Listing.{
  Above, Above-take, Fits, list-eq-take, matches, matches-Above,
}
use hao_short_link.ShortLink.MySql.Table.{fits}
use hao_short_link.ShortLink.Record.{ListQuery, ShortLinkRecord}
use native.Mathlib.Nat.{le_refl, zero-add, suc-add}
use mathlib.Core.Path.{fun_ext}

abbrev pub Elem : ShortLinkRecord → List ShortLinkRecord → Type 0
Elem r [] = ⊥
Elem r (t ∷ s) = (r ≡ t) ⊎ Elem r s

-- The id of the last record, or the given number if there is none.
abbrev pub last_id : ℕ → List ShortLinkRecord → ℕ
last_id n [] = n
last_id n (r ∷ s) = last_id r.id s

abbrev pub above : ℕ → List ShortLinkRecord → List ShortLinkRecord
above n = filter (λ r. ltb n r.id)

filter-filter :
    (p q : ShortLinkRecord → Bool) (s : List ShortLinkRecord)
    → filter p (filter q s) ≡ filter (λ r. q r && p r) s
filter-filter p q [] = refl
filter-filter p q (r ∷ s) = ground (arith, filter-filter p q s)

filter_agree :
    (p q : ShortLinkRecord → Bool) (s : List ShortLinkRecord)
    → ((r : ShortLinkRecord) → p r ≡ q r)
    → filter p s ≡ filter q s
filter_agree p q s e = rw (fun_ext e)

take-nil : (n : ℕ) → take {A = ShortLinkRecord} n [] ≡ []
take-nil zero = refl
take-nil (suc n) = refl

take-drop : (k n : ℕ) (s : List ShortLinkRecord) → take k s ++ take n (drop k s) ≡ take (k + n) s
take-drop zero n s = rw zero-add
take-drop (suc k) n [] = take-nil n ∙ sym (take-nil (suc k + n))
take-drop (suc k) n (r ∷ s) = rw suc-add (ap (◌∷◌ r) (take-drop k n s))

-- Nothing of a rising list is cut by a test that its first record passes.
above_all : (n m : ℕ) (s : List ShortLinkRecord) → n ≤ m → Above m s → above n s ≡ s
above_all n m [] h a = refl
above_all n m (r ∷ s) h (lt, a) = ground (arith, above_all n r.id s (omega arith) a)

above-insert_by_id :
    (n : ℕ) (r : ShortLinkRecord) (s : List ShortLinkRecord)
    → above n (insert_by_id r s) ≡ (if ltb n r.id then insert_by_id r (above n s) else above n s)
unfolding insert_by_id
above-insert_by_id n r [] = refl
above-insert_by_id n r (t ∷ s) = ground (arith, above-insert_by_id n r s)

above-sort_by_id :
    (n : ℕ) (s : List ShortLinkRecord) → above n (sort_by_id s) ≡ sort_by_id (above n s)
unfolding sort_by_id
above-sort_by_id n [] = refl
above-sort_by_id n (r ∷ s) =
    ground (arith, above-insert_by_id n r (sort_by_id s), above-sort_by_id n s)

not-skips :
    (query : ListQuery) (n : ℕ) (r : ShortLinkRecord)
    → query.cursor ≤ n
    → (not (skips query r) && ltb n r.id) ≡ not (skips (record query { cursor = n }) r)
unfolding skips
not-skips query n r h = ground arith

-- A higher cursor cuts the answer, and does nothing else.
pub above-matches :
    (repository : MemoryRepository) (query : ListQuery) (n : ℕ)
    → query.cursor ≤ n
    → matches repository (record query { cursor = n }) ≡ above n (matches repository query)
above-matches repository query n h = sym (
    above-sort_by_id n _
    ∙ ap sort_by_id (
        filter-filter _ _ (values repository.links)
        ∙ filter_agree _ _ (values repository.links) (λ r. not-skips query n r h)))

pub le-last_id : (n : ℕ) (s : List ShortLinkRecord) → Above n s → n ≤ last_id n s
le-last_id n [] a = omega arith
le-last_id n (r ∷ s) (lt, a) = omega (arith, le-last_id r.id s a)

-- Above the last id of a page stands what follows the page.
pub above-last_id :
    (n k : ℕ) (s : List ShortLinkRecord) → Above n s → above (last_id n (take k s)) s ≡ drop k s
above-last_id n zero s a = above_all n n s (le_refl n) a
above-last_id n (suc k) [] a = refl
above-last_id n (suc k) (r ∷ s) (lt, a) =
    ground (arith, above-last_id r.id k s a, le-last_id r.id (take k s) (Above-take r.id k s a))

-- A page and the page behind its last id are together the page of both limits: a walk through the
-- pages leaves out no record and shows none twice.
pub list-pages :
    (repository : MemoryRepository) (query : ListQuery) (n : ℕ)
    → IsValid repository
    → let page = list repository query in
      page ++ list repository (record query { cursor = last_id query.cursor page; limit = n })
      ≡ list repository (record query { limit = query.limit + n })
unfolding skips
list-pages repository query n v =
    rw
      (
        list-eq-take repository query,
        list-eq-take repository (record query { limit = query.limit + n }),
      )
      (ap (◌++◌ page) (list-eq-take repository next ∙ ap (take n) rest)
        ∙ take-drop query.limit n found)
  where
    found : List ShortLinkRecord
    found = matches repository query

    page : List ShortLinkRecord
    page = take query.limit found

    next : ListQuery
    next = record query { cursor = last_id query.cursor page; limit = n }

    rising : Above query.cursor found
    rising = matches-Above repository query v

    rest : matches repository next ≡ drop query.limit found
    rest =
        above-matches repository query (last_id query.cursor page)
          (le-last_id query.cursor page (Above-take query.cursor query.limit found rising))
        ∙ above-last_id query.cursor query.limit found rising

Elem-insert_by_id :
    (r t : ShortLinkRecord) (s : List ShortLinkRecord) → Elem r (t ∷ s) → Elem r (insert_by_id t s)
unfolding insert_by_id
Elem-insert_by_id r t [] h = h
Elem-insert_by_id r t (u ∷ s) h = ground (arith, Elem-insert_by_id r t s)

Elem-sort_by_id :
    (r : ShortLinkRecord) (s : List ShortLinkRecord) → Elem r s → Elem r (sort_by_id s)
unfolding sort_by_id
Elem-sort_by_id r [] h = h
Elem-sort_by_id r (t ∷ s) (inl e) = Elem-insert_by_id r t (sort_by_id s) (inl e)
Elem-sort_by_id r (t ∷ s) (inr h) =
    Elem-insert_by_id r t (sort_by_id s) (inr (Elem-sort_by_id r s h))

Elem-filter :
    (r : ShortLinkRecord) (p : ShortLinkRecord → Bool) (s : List ShortLinkRecord)
    → p r ≡ true
    → Elem r s
    → Elem r (filter p s)
Elem-filter r p [] e h = h
Elem-filter r p (t ∷ s) e (inl h) = rw (← h, e) (inl refl)
Elem-filter r p (t ∷ s) e (inr h) = ground (arith, Elem-filter r p s e h)

Fits-skips : (query : ListQuery) (r : ShortLinkRecord) → Fits query r → not (skips query r) ≡ true
unfolding skips
Fits-skips query r h = ground arith

Elem-lt : (n : ℕ) (r : ShortLinkRecord) (s : List ShortLinkRecord) → Above n s → Elem r s → n < r.id
Elem-lt n r [] a h = elim h [ ]
Elem-lt n r (t ∷ s) (lt, a) (inl e) = rw e lt
Elem-lt n r (t ∷ s) (lt, a) (inr h) = omega (arith, Elem-lt t.id r s a h)

-- A record of a rising list is in its first `k` ones, or these are `k` ones of lower ids.
Elem-take :
    (n k : ℕ) (r : ShortLinkRecord) (s : List ShortLinkRecord)
    → Above n s
    → Elem r s
    → Elem r (take k s) ⊎ ((length (take k s) ≡ k) × All (λ t. t.id < r.id) (take k s))
Elem-take n zero r s a h = inr (refl, tt)
Elem-take n (suc k) r [] a h = elim h [ ]
Elem-take n (suc k) r (t ∷ s) a (inl e) = inl (inl e)
Elem-take n (suc k) r (t ∷ s) (lt, a) (inr h) = elim (Elem-take t.id k r s a h) [
  | inl here ↦ inl (inr here)
  | inr (full, below) ↦ inr (ap suc full, (Elem-lt t.id r s a h, below))
]

-- A stored record that the query fits is in the answer, unless the answer has as many records as the
-- limit allows and all of them have lower ids.
pub Fits-list :
    (repository : MemoryRepository) (query : ListQuery) (r : ShortLinkRecord)
    → IsValid repository
    → Elem r (values repository.links)
    → Fits query r
    → let page = list repository query in
      Elem r page ⊎ ((length page ≡ query.limit) × All (λ t. t.id < r.id) page)
Fits-list repository query r v h fits = rw (list-eq-take repository query) (
    Elem-take query.cursor query.limit r (matches repository query)
      (matches-Above repository query v)
      (Elem-sort_by_id r _ (Elem-filter r _ (values repository.links) (Fits-skips query r fits) h)))
