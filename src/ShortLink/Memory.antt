-- ===== src/ShortLink/Memory.antt =====
-- apps/shortlink_server: src/MemoryShortLinkRepository.cpp and its header. The map `links_` is an
-- association list; the order of an unordered map is never observed, since `list` sorts. The
-- methods hold one mutex from end to end, so that each is one step; the clock is an argument `now`.
pub mod Invariant
pub mod Listing
pub mod Paging
pub mod Contract
pub mod Tests
use hao_short_link.Prelude.{
  Bool, Bytes, Eq, List, Option, [], bytes_eq, false, filter, if◌then◌else◌, is_some, leb, length,
  ltb, map, nat_eq, none, not, some, take, ℕ, ◌%◌, ◌+◌, ◌==◌, ◌>>=◌, ◌^◌, ◌||◌, ◌∷◌,
}
use hao_short_link.Prelude.Int.{int_eq, ℤ}
use hao_short_link.Prelude.Map.{insert, lookup}
use hao_short_link.ShortLink.Base62.{encode_base62}
use hao_short_link.ShortLink.Record.{
  LifecycleUpdate, ListQuery, LookupResult, LookupSource, Outcome, ShortLinkRecord, Status,
  returned, short_code_conflict, status_eq,
}

pub record MemoryRepository : Type 0 where
  pub links : List (Bytes × ShortLinkRecord)
  pub next_id : ℕ

abbrev pub initial_repository : MemoryRepository
initial_repository = record { links = []; next_id = 1 }

-- `customCode ? *customCode : encodeBase62(id)`
unfoldable pub choose_code : Option Bytes → ℕ → Bytes
choose_code none id = encode_base62 id
choose_code (some custom_code) id = custom_code

abbrev pub new_record : ℕ → ℕ → Bytes → Bytes → Option ℤ → ℤ → ShortLinkRecord
new_record id owner_id code original_url expires_at now = record {
  id = id;
  owner_id = owner_id;
  code = code;
  original_url = original_url;
  status = Status.active;
  expires_at = expires_at;
  created_at = now;
  updated_at = now;
}

-- `nextId_++` wraps at 2 ^ 64, and happens before the conflict is found.
unfoldable pub create :
    MemoryRepository
    → Bytes
    → Option ℤ
    → ℕ
    → Option Bytes
    → ℤ
    → MemoryRepository × Outcome (Option ShortLinkRecord)
create repository original_url expires_at owner_id custom_code now =
    let id = repository.next_id in
    let taken = record repository { next_id = (id + 1) % 2 ^ 64 } in
    let code = choose_code custom_code id in
    let r = new_record id owner_id code original_url expires_at now in
    if is_some (lookup code repository.links)
    then (taken, short_code_conflict)
    else (record taken { links = insert code r repository.links }, returned (some r))

unfoldable pub find_by_code : MemoryRepository → Bytes → LookupResult
find_by_code repository code = record {
  found = lookup code repository.links;
  source = LookupSource.memory;
}

unfoldable pub find_by_code_for_owner : MemoryRepository → Bytes → ℕ → Option ShortLinkRecord
find_by_code_for_owner repository code owner_id = do
  r ← lookup code repository.links
  if r.owner_id == owner_id then some r else none

-- `query.ownerId && item.ownerId != *query.ownerId`, and so for the state.
abbrev pub differs {ℓ} : {A : Type ℓ} ⦃e : Eq A⦄ → Option A → A → Bool
differs none a = false
differs (some b) a = not (a == b)

-- The condition of `continue` in `list`.
unfoldable pub skips : ListQuery → ShortLinkRecord → Bool
skips query r =
    leb r.id query.cursor || (differs query.owner_id r.owner_id || differs query.status r.status)

-- `std::sort` by `left.id < right.id`. The ids differ (`Invariant`), so that there is one result.
unfoldable pub insert_by_id : ShortLinkRecord → List ShortLinkRecord → List ShortLinkRecord
insert_by_id r [] = r ∷ []
insert_by_id r (s ∷ rest) = if ltb r.id s.id then r ∷ s ∷ rest else s ∷ insert_by_id r rest

unfoldable pub sort_by_id : List ShortLinkRecord → List ShortLinkRecord
sort_by_id [] = []
sort_by_id (r ∷ rest) = insert_by_id r (sort_by_id rest)

abbrev pub values : List (Bytes × ShortLinkRecord) → List ShortLinkRecord
values = map (λ item. item.1)

unfoldable pub list : MemoryRepository → ListQuery → List ShortLinkRecord
list repository query =
    let records = sort_by_id (filter (λ r. not (skips query r)) (values repository.links)) in
    if ltb query.limit (length records) then take query.limit records else records

abbrev pub or_else {ℓ} : {A : Type ℓ} → Option A → A → A
or_else none a = a
or_else (some b) a = b

-- The writes of `updateLifecycle` to the record that it found.
unfoldable pub apply_update : LifecycleUpdate → ℤ → ShortLinkRecord → ShortLinkRecord
apply_update update now r = record r {
  status = or_else update.status r.status;
  expires_at = if update.expires_at_provided then update.expires_at else r.expires_at;
  updated_at = now;
}

unfoldable pub update_lifecycle :
    MemoryRepository → Bytes → LifecycleUpdate → ℤ → MemoryRepository × Option ShortLinkRecord
update_lifecycle repository code update now = elim (lookup code repository.links) [
  | none ↦ (repository, none)
  | some r ↦ if differs update.owner_id r.owner_id then (repository, none) else (
    record repository { links = insert code (apply_update update now r) repository.links },
    some (apply_update update now r),
  )
]
