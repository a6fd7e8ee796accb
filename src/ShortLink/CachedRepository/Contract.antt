-- ===== src/ShortLink/CachedRepository/Contract.antt =====
-- The cached repository as a `ShortLinkRepository` itself.
use hao_short_link.Prelude.{
  Bytes, Option, Option-cases, ap, bytes_eq, inl, inr, nat_eq, none, refl, some, sym, ◌∙◌, ◌≡◌,
}
use hao_short_link.Prelude.Int.{int_eq, ℤ}
use hao_short_link.ShortLink.Cache.Redis.{Redis, RedisLaws}
use hao_short_link.ShortLink.Cache.Store.{CacheConfig, CacheWorld, get}
use hao_short_link.ShortLink.CachedRepository.{
  cached_repository, create_cached, fill, find_cached, forget, update_cached,
}
use hao_short_link.ShortLink.CachedRepository.Coherence.{Coherent, Storable, find_cached-answers}
use hao_short_link.ShortLink.Record.{
  LifecycleUpdate, LookupResult, Outcome, ShortLinkRecord, backend_failure, returned,
  short_code_conflict, status_eq,
}
use hao_short_link.ShortLink.Repository.{IsRepository, ShortLinkRepository}

module _ {S T : Type 0} (redis : Redis S) (entry : S → Bytes → Option Bytes)
    (laws : RedisLaws redis entry) (config : CacheConfig) (source : ShortLinkRepository T)
    (Valid : T → Type 0) (links : T → Bytes → Option ShortLinkRecord)
    (contract : IsRepository source Valid links) where
  abbrev pub CachedValid : CacheWorld S × T → Type 0
  CachedValid (w, t) =
      Valid t
      × Storable redis entry laws config source Valid links contract t
      × Coherent redis entry laws config source Valid links contract (w, t)

  abbrev pub cached_links : CacheWorld S × T → Bytes → Option ShortLinkRecord
  cached_links (w, t) = links t

  fill-source :
      (now : ℤ) (w : CacheWorld S) (t : T) (out : Outcome LookupResult)
      → (fill redis config source now (w, t) out).0.1 ≡ t
  unfolding fill
  fill-source now w t (returned res) = refl
  fill-source now w t short_code_conflict = refl
  fill-source now w t backend_failure = refl

  forget-keeps :
      (code : Bytes) (w : CacheWorld S) (t : T) (out : Outcome (Option ShortLinkRecord))
      → ((forget redis config source code (w, t) out).0.1 ≡ t)
        × ((forget redis config source code (w, t) out).1 ≡ out)
  unfolding forget
  forget-keeps code w t (returned none) = (refl, refl)
  forget-keeps code w t (returned (some r)) = (refl, refl)
  forget-keeps code w t short_code_conflict = (refl, refl)
  forget-keeps code w t backend_failure = (refl, refl)

  find-keeps :
      (code : Bytes) (now : ℤ) (w : CacheWorld S) (t : T) (other : Bytes)
      → Valid t
      → cached_links (find_cached redis config source code now (w, t)).0 other ≡ links t other
  unfolding find_cached
  find-keeps code now w t other valid = elim (Option-cases (get redis config code w).1) [
    | inr (r, hit) ↦ rw (find_cached, hit) refl
    | inl missed ↦
        rw (find_cached, missed)
          (ap (λ x. links x other) (fill-source now _ (source.find_link code now t).0 _)
            ∙ contract.find_keeps code now t other valid)
  ]

  update-source :
      (code : Bytes) (update : LifecycleUpdate) (now : ℤ) (w : CacheWorld S) (t : T)
      → ((update_cached redis config source code update now (w, t)).0.1
          ≡ (source.update_link code update now t).0)
        × ((update_cached redis config source code update now (w, t)).1
            ≡ (source.update_link code update now t).1)
  unfolding update_cached
  update-source code update now w t =
      forget-keeps code w (source.update_link code update now t).0
        (source.update_link code update now t).1

  -- In front of a source that keeps the repository's contract, over any Redis server that keeps its
  -- documented behaviour, the cached repository keeps the contract too, with the source's links, as
  -- long as the cache is coherent and the links can be stored.
  pub cached-IsRepository :
      IsRepository (cached_repository redis config source) CachedValid cached_links
  unfolding cached_repository create_cached
  cached-IsRepository = record {
    find_answers = λ code now (w, t) res (valid, _, coherent) e.
        find_cached-answers redis entry laws config source Valid links contract code now w t res
          valid coherent e;
    find_keeps = λ code now (w, t) other (valid, _, _). find-keeps code now w t other valid;
    create_frame = λ url expires_at owner_id custom now (w, t) other r (valid, _, _) e.
        contract.create_frame url expires_at owner_id custom now t other r valid e;
    update_frame = λ code update now (w, t) other (valid, _, _) ne.
        ap (λ x. links x other) (update-source code update now w t).0
        ∙ contract.update_frame code update now t other valid ne;
    update_refused = λ code update now (w, t) other (valid, _, _) e.
        ap (λ x. links x other) (update-source code update now w t).0
        ∙ contract.update_refused code update now t other valid
            (sym (update-source code update now w t).1 ∙ e);
  }
