-- ===== src/ShortLink/CachedRepository.antt =====
-- apps/shortlink_server: `RedisCachedShortLinkRepository` of src/RedisCachedShortLinkRepository.cpp,
-- over any source repository and any Redis server. `now` is the clock's answer during the call.
pub mod Coherence
pub mod Contract
mod Tests
use hao_short_link.Prelude.{Bytes, List, Option, bytes_eq, nat_eq, none, some, ℕ}
use hao_short_link.Prelude.Int.{int_eq, ℤ}
use hao_short_link.ShortLink.Cache.Redis.{Redis}
use hao_short_link.ShortLink.Cache.Store.{CacheConfig, CacheWorld, erase, get, set}
use hao_short_link.ShortLink.Record.{
  LifecycleUpdate, ListQuery, LookupResult, LookupSource, Outcome, ShortLinkRecord, backend_failure,
  returned, short_code_conflict, status_eq,
}
use hao_short_link.ShortLink.Repository.{ShortLinkRepository}

module _ {S T : Type 0} (redis : Redis S) (config : CacheConfig)
    (source : ShortLinkRepository T) where
  unfoldable pub create_cached :
      Bytes
      → Option ℤ
      → ℕ
      → Option Bytes
      → ℤ
      → CacheWorld S × T
      → (CacheWorld S × T) × Outcome (Option ShortLinkRecord)
  create_cached url expires_at owner_id custom now (w, t) =
      let (t', out) = source.create_link url expires_at owner_id custom now t in ((w, t'), out)

  -- The cache is filled only when the source has the link.
  unfoldable pub filled : ℤ → CacheWorld S → Option ShortLinkRecord → CacheWorld S
  filled now w none = w
  filled now w (some r) = (set redis config r now w).0

  unfoldable pub fill :
      ℤ → CacheWorld S × T → Outcome LookupResult → (CacheWorld S × T) × Outcome LookupResult
  fill now (w, t) (returned res) = ((filled now w res.found, t), returned res)
  fill now (w, t) short_code_conflict = ((w, t), short_code_conflict)
  fill now (w, t) backend_failure = ((w, t), backend_failure)

  unfoldable pub find_cached :
      Bytes → ℤ → CacheWorld S × T → (CacheWorld S × T) × Outcome LookupResult
  find_cached code now (w, t) =
      let (w₁, cached) = get redis config code w in
      let (t₁, out) = source.find_link code now t in
      elim cached [
        | some r ↦ ((w₁, t), returned (record { found = some r; source = LookupSource.redis }))
        | none ↦ fill now (w₁, t₁) out
      ]

  unfoldable pub find_cached_for_owner :
      Bytes → ℕ → CacheWorld S × T → (CacheWorld S × T) × Outcome (Option ShortLinkRecord)
  find_cached_for_owner code owner_id (w, t) =
      let (t', out) = source.find_link_for_owner code owner_id t in ((w, t'), out)

  unfoldable pub list_cached :
      ListQuery → CacheWorld S × T → (CacheWorld S × T) × Outcome (List ShortLinkRecord)
  list_cached query (w, t) = let (t', out) = source.list_links query t in ((w, t'), out)

  -- The answer of `erase` is not looked at.
  unfoldable pub forget :
      Bytes
      → CacheWorld S × T
      → Outcome (Option ShortLinkRecord)
      → (CacheWorld S × T) × Outcome (Option ShortLinkRecord)
  forget code (w, t) (returned (some r)) = (((erase redis config code w).0, t), returned (some r))
  forget code (w, t) (returned none) = ((w, t), returned none)
  forget code (w, t) short_code_conflict = ((w, t), short_code_conflict)
  forget code (w, t) backend_failure = ((w, t), backend_failure)

  unfoldable pub update_cached :
      Bytes
      → LifecycleUpdate
      → ℤ
      → CacheWorld S × T
      → (CacheWorld S × T) × Outcome (Option ShortLinkRecord)
  update_cached code update now (w, t) =
      let (t', out) = source.update_link code update now t in forget code (w, t') out

  -- The cached repository is a repository.
  unfoldable pub cached_repository : ShortLinkRepository (CacheWorld S × T)
  cached_repository = record {
    create_link = create_cached;
    find_link = find_cached;
    find_link_for_owner = find_cached_for_owner;
    list_links = list_cached;
    update_link = update_cached;
    default_lookup_source = source.default_lookup_source;
  }
