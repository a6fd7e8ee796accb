-- ===== src/ShortLink/Memory/Invariant.antt =====
-- What `MemoryShortLinkRepository` keeps true of its map, and how each method moves the map seen
-- as a function from codes to records.
use hao_short_link.Prelude.{
  All, All-append, All-map, Bool-cases, Bytes, List, Option, Option-cases, [], arith, bytes_beq,
  bytes_beq_iff, bytes_eq, if◌then◌else◌, inl, inr, is_some, map, nat_eq, none, not, refl, some,
  sym, ℕ, ◌%◌, ◌&&◌, ◌++◌, ◌+◌, ◌<◌, ◌==◌, ◌^◌, ◌∷◌, ◌≡◌, ◌≢◌,
}
use hao_short_link.Prelude.Int.{int_eq, ℤ}
use hao_short_link.Prelude.Map.{insert, lookup, lookup-insert}
use hao_short_link.ShortLink.Memory.{
  MemoryRepository, apply_update, choose_code, create, differs, find_by_code_for_owner,
  initial_repository, new_record, update_lifecycle,
}
use hao_short_link.ShortLink.Record.{
  LifecycleUpdate, ShortLinkRecord, returned, short_code_conflict, status_eq,
}
use native.Mathlib.Nat.{mod-eq_of_lt}
use mathlib.Core.Option

abbrev pub ids : List (Bytes × ShortLinkRecord) → List ℕ
ids = map (λ item. item.1.id)

abbrev pub Distinct : List ℕ → Type 0
Distinct [] = Unit {0}
Distinct (x ∷ xs) = All (λ y. x ≢ y) xs × Distinct xs

-- A record stands under its own code, its id has been given out, and ids are given out once.
pub record IsValid (repository : MemoryRepository) : Type 0 where
  pub keyed : All (λ item. item.0 ≡ item.1.code) repository.links
  pub fresh : All (λ n. n < repository.next_id) (ids repository.links)
  pub distinct : Distinct (ids repository.links)

initial-IsValid : IsValid initial_repository
initial-IsValid = record { keyed = tt; fresh = tt; distinct = tt }

All-insert {ℓ} :
    (P : Bytes × ShortLinkRecord → Type ℓ) (k : Bytes) (v : ShortLinkRecord)
    (m : List (Bytes × ShortLinkRecord))
    → P (k, v)
    → All P m
    → All P (insert k v m)
unfolding insert
All-insert P k v [] p h = (p, tt)
All-insert P k v ((j, w) ∷ m) p (q, h) = elim (Bool-cases (bytes_beq j k)) [
  | inl e ↦ rw e (p, h)
  | inr e ↦ rw e (q, All-insert P k v m p h)
]

-- A new key goes to the end.
ids-insert_new :
    (k : Bytes) (v : ShortLinkRecord) (m : List (Bytes × ShortLinkRecord))
    → lookup k m ≡ none
    → ids (insert k v m) ≡ ids m ++ v.id ∷ []
unfolding insert lookup
ids-insert_new k v [] h = refl
ids-insert_new k v ((j, w) ∷ m) h = ground (arith, ids-insert_new k v m)

-- A key that is there keeps its place.
ids-insert_old :
    (k : Bytes) (v w : ShortLinkRecord) (m : List (Bytes × ShortLinkRecord))
    → lookup k m ≡ some w
    → v.id ≡ w.id
    → ids (insert k v m) ≡ ids m
unfolding insert lookup
ids-insert_old k v w [] h e = cc
ids-insert_old k v w ((j, u) ∷ m) h e = ground (arith, ids-insert_old k v w m)

Distinct-append :
    (xs : List ℕ) (n : ℕ) → All (λ x. x < n) xs → Distinct xs → Distinct (xs ++ n ∷ [])
Distinct-append [] n h d = (tt, tt)
Distinct-append (x ∷ xs) n (lt, h) (new, d) =
    (All-append (λ y. x ≢ y) xs (n ∷ []) new (omega arith, tt), Distinct-append xs n h d)

lookup-keyed :
    (k : Bytes) (w : ShortLinkRecord) (m : List (Bytes × ShortLinkRecord))
    → All (λ item. item.0 ≡ item.1.code) m
    → lookup k m ≡ some w
    → w.code ≡ k
unfolding lookup
lookup-keyed k w [] h e = cc
lookup-keyed k w ((j, u) ∷ m) (p, h) e = ground (arith, bytes_beq_iff j k, lookup-keyed k w m h)

-- A creation keeps the invariant, whether it adds a link or meets a conflict, as long as the ids do
-- not wrap.
pub create-IsValid :
    (repository : MemoryRepository) (original_url : Bytes) (expires_at : Option ℤ) (owner_id : ℕ)
    (custom_code : Option Bytes) (now : ℤ)
    → IsValid repository
    → repository.next_id + 1 < 2 ^ 64
    → IsValid (create repository original_url expires_at owner_id custom_code now).0
unfolding create
create-IsValid repository original_url expires_at owner_id custom_code now v h =
    elim (Option-cases (lookup code repository.links)) [
      | inl none_there ↦ rw none_there (record {
        keyed = All-insert _ code r repository.links refl v.keyed;
        fresh =
            rw (step, ids-insert_new code r repository.links none_there)
              (All-append _ _ (id ∷ []) later (omega arith, tt));
        distinct =
            rw (ids-insert_new code r repository.links none_there)
              (Distinct-append _ id v.fresh v.distinct);
      })
      | inr (w, there) ↦
          rw there (record { keyed = v.keyed; fresh = rw step later; distinct = v.distinct })
    ]
  where
    id : ℕ
    id = repository.next_id

    code : Bytes
    code = choose_code custom_code id

    r : ShortLinkRecord
    r = new_record id owner_id code original_url expires_at now

    step : (id + 1) % 2 ^ 64 ≡ id + 1
    step = mod-eq_of_lt h

    later : All (λ n. n < id + 1) (ids repository.links)
    later = All-map (λ n. n < id) (λ n. n < id + 1) (λ n lt. omega arith) _ v.fresh

-- An update keeps the invariant.
pub update_lifecycle-IsValid :
    (repository : MemoryRepository) (code : Bytes) (update : LifecycleUpdate) (now : ℤ)
    → IsValid repository
    → IsValid (update_lifecycle repository code update now).0
unfolding update_lifecycle apply_update
update_lifecycle-IsValid repository code update now v =
    elim (Option-cases (lookup code repository.links)) [
      | inl none_there ↦ rw (none_there, update_lifecycle) v
      | inr (w, there) ↦
          rw (there, update_lifecycle)
            (elim (Bool-cases (differs update.owner_id w.owner_id)) [
              | inl other ↦ rw other v
              | inr own ↦ rw own (record {
                keyed =
                    All-insert _ code (apply_update update now w) repository.links
                      (sym (lookup-keyed code w repository.links v.keyed there)) v.keyed;
                fresh =
                    rw
                      (ids-insert_old code (apply_update update now w) w repository.links there
                        refl)
                      v.fresh;
                distinct =
                    rw
                      (ids-insert_old code (apply_update update now w) w repository.links there
                        refl)
                      v.distinct;
              })
            ])
    ]

-- The lookup that the other methods see: the map as a function from codes to records.
abbrev pub view : MemoryRepository → Bytes → Option ShortLinkRecord
view repository code = lookup code repository.links

-- A creation under a free code adds that one link; under a taken code it throws. No other code is
-- touched, and an id is used up either way.
pub view-create :
    (repository : MemoryRepository) (original_url : Bytes) (expires_at : Option ℤ) (owner_id : ℕ)
    (custom_code : Option Bytes) (now : ℤ) (other : Bytes)
    → let id = repository.next_id in
      let code = choose_code custom_code id in
      let r = new_record id owner_id code original_url expires_at now in
      let free = not (is_some (view repository code)) in
      let after = create repository original_url expires_at owner_id custom_code now in
      (after.1 ≡ (if free then returned (some r) else short_code_conflict))
      × (view after.0 other ≡ (if free && (code == other) then some r else view repository other))
      × (after.0.next_id ≡ (id + 1) % 2 ^ 64)
unfolding create
view-create repository original_url expires_at owner_id custom_code now other = ground (
  arith,
  lookup-insert code other (new_record id owner_id code original_url expires_at now)
      repository.links,
)
  where
    id : ℕ
    id = repository.next_id

    code : Bytes
    code = choose_code custom_code id

-- The record that an update may change: the one under the code, if its owner is the one asked for.
abbrev pub target : MemoryRepository → Bytes → Option ℕ → Option ShortLinkRecord
target repository code none = view repository code
target repository code (some owner_id) = find_by_code_for_owner repository code owner_id

-- An update reaches the record of its code, if the owner is its owner, and no other record; what it
-- returns is the record then stored.
pub view-update_lifecycle :
    (repository : MemoryRepository) (code : Bytes) (update : LifecycleUpdate) (now : ℤ)
    (other : Bytes)
    → let goal = target repository code update.owner_id in
      let after = update_lifecycle repository code update now in
      (after.1 ≡ Option.map (apply_update update now) goal)
      × (view after.0 other
          ≡ (if (code == other) && is_some goal then after.1 else view repository other))
unfolding update_lifecycle find_by_code_for_owner
view-update_lifecycle repository code update now other =
    elim (Option-cases (lookup code repository.links)) [
      | inl e ↦ ground (arith)
      | inr (w, e) ↦
          ground (arith, lookup-insert code other (apply_update update now w) repository.links)
    ]
