-- ===== src/ShortLink/CachedRepository/Coherence.antt =====
-- The cache agrees with the source: what a cache entry is read as is what the source holds.
use hao_short_link.Prelude.{
  Bool-cases, Bytes, Option, Option-cases, [], ap, arith, bytes_beq, bytes_beq_iff, bytes_eq, inl,
  inr, nat_eq, none, refl, some, sym, true, ℕ, ◌++◌, ◌∙◌, ◌∷◌, ◌≡◌, ◌⊎◌,
}
use hao_short_link.Prelude.Int.{int_eq, ℤ}
use hao_short_link.ShortLink.Cache.Codec.{deserialize}
use hao_short_link.ShortLink.Cache.Codec.RoundTrip.{IsStorable, deserialize-serialize}
use hao_short_link.ShortLink.Cache.Effects.{
  erase-Shrinks, erase-done, get-Shrinks, get-hit, set-Writes,
}
use hao_short_link.ShortLink.Cache.Redis.{Redis, RedisLaws}
use hao_short_link.ShortLink.Cache.Store.{CacheConfig, CacheWorld, build_cache_key, erase, get, set}
use hao_short_link.ShortLink.CachedRepository.{
  create_cached, fill, filled, find_cached, forget, update_cached,
}
use hao_short_link.ShortLink.Record.{
  LifecycleUpdate, LookupResult, LookupSource, Outcome, ShortLinkRecord, backend_failure, returned,
  returned-injective, short_code_conflict, status_eq,
}
use hao_short_link.ShortLink.Repository.{IsRepository, ShortLinkRepository}
use mathlib.Core.Option.{none-ne-some, some-injective}

append-injective : (p a b : Bytes) → p ++ a ≡ p ++ b → a ≡ b
append-injective [] a b e = e
append-injective (c ∷ p) a b e = append-injective p a b (cc)

returned-found : (a b : LookupResult) → returned a ≡ returned b → a.found ≡ b.found
returned-found a b e = ap (λ (x : LookupResult). x.found) (returned-injective a b e)

module _ {S T : Type 0} (redis : Redis S) (entry : S → Bytes → Option Bytes)
    (laws : RedisLaws redis entry) (config : CacheConfig) (source : ShortLinkRepository T)
    (Valid : T → Type 0) (links : T → Bytes → Option ShortLinkRecord)
    (contract : IsRepository source Valid links) where
  -- Every entry that is read back is the source's link.
  unfoldable pub Coherent : CacheWorld S × T → Type 0
  Coherent (w, t) =
      (code : Bytes) (value : Bytes) (r : ShortLinkRecord)
      → entry w.server (build_cache_key config code) ≡ some value
      → deserialize code value ≡ some r
      → links t code ≡ some r

  -- The source's links can be written to the cache, and each is found under its own code.
  abbrev pub Storable : T → Type 0
  Storable t =
      (code : Bytes) (r : ShortLinkRecord) → links t code ≡ some r → (r.code ≡ code) × IsStorable r

  -- Dropping entries, and changing links that have no entry, keeps the agreement.
  shrink-Coherent :
      (w w' : CacheWorld S) (t t' : T)
      → ((k : Bytes) → (entry w'.server k ≡ entry w.server k) ⊎ (entry w'.server k ≡ none))
      → ((code : Bytes)
          → (entry w'.server (build_cache_key config code) ≡ none)
            ⊎ ((r : ShortLinkRecord) → links t code ≡ some r → links t' code ≡ some r))
      → Coherent (w, t)
      → Coherent (w', t')
  unfolding Coherent
  shrink-Coherent w w' t t' smaller links_kept coherent code value r at read =
      elim (links_kept code) [
        | inl gone ↦ absurd (none-ne-some value (sym gone ∙ at))
        | inr kept ↦ elim (smaller (build_cache_key config code)) [
          | inl same ↦ kept r (coherent code value r (sym same ∙ at) read)
          | inr gone ↦ absurd (none-ne-some value (sym gone ∙ at))
        ]
      ]

  key-injective : (a b : Bytes) → build_cache_key config a ≡ build_cache_key config b → a ≡ b
  unfolding build_cache_key
  key-injective a b e = append-injective config.key_prefix a b e

  -- Writing a link that the source holds.
  set-Coherent :
      (r : ShortLinkRecord) (now : ℤ) (w : CacheWorld S) (t : T)
      → links t r.code ≡ some r
      → IsStorable r
      → Coherent (w, t)
      → Coherent ((set redis config r now w).0, t)
  unfolding Coherent
  set-Coherent r now w t linked storable coherent code value r' at read =
      elim (set-Writes redis entry laws config r now w (build_cache_key config code)) [
        | inl (inl kept) ↦ coherent code value r' (sym kept ∙ at) read
        | inl (inr gone) ↦ absurd (none-ne-some value (sym gone ∙ at))
        | inr (same_key, written) ↦
            let same = key-injective code r.code same_key in
            let value_is = some-injective (sym written ∙ at) in
            let read_is = deserialize-serialize r storable in ground (arith)
      ]

  get-Coherent :
      (code : Bytes) (w : CacheWorld S) (t t' : T)
      → ((other : Bytes) → links t' other ≡ links t other)
      → Coherent (w, t)
      → Coherent ((get redis config code w).0, t')
  get-Coherent code w t t' same coherent =
      shrink-Coherent w (get redis config code w).0 t t'
        (get-Shrinks redis entry laws config code w) (λ other. inr (λ r e. same other ∙ e)) coherent

  fill-Coherent :
      (code : Bytes) (now : ℤ) (w : CacheWorld S) (t : T) (out : Outcome LookupResult)
      → ((res : LookupResult) → out ≡ returned res → res.found ≡ links t code)
      → Storable t
      → Coherent (w, t)
      → Coherent (fill redis config source now (w, t) out).0
  unfolding fill filled
  fill-Coherent code now w t short_code_conflict answers storable coherent = coherent
  fill-Coherent code now w t backend_failure answers storable coherent = coherent
  fill-Coherent code now w t (returned res) answers storable coherent =
      elim (Option-cases res.found) [
        | inl missed ↦ rw (filled, missed) coherent
        | inr (r, e) ↦
            let linked = sym (answers res refl) ∙ e in
            let (own, fits) = storable code r linked in
            rw (filled, e) (set-Coherent r now w t (ap (links t) own ∙ linked) fits coherent)
      ]

  -- A lookup keeps the cache coherent with the source.
  pub find_cached-Coherent :
      (code : Bytes) (now : ℤ) (w : CacheWorld S) (t : T)
      → Valid t
      → Storable t
      → Coherent (w, t)
      → Coherent (find_cached redis config source code now (w, t)).0
  unfolding find_cached
  find_cached-Coherent code now w t valid storable coherent =
      let t₁ = (source.find_link code now t).0 in
      let w₁ = (get redis config code w).0 in
      let keeps = λ (other : Bytes). contract.find_keeps code now t other valid in
      elim (Option-cases (get redis config code w).1) [
        | inr (r, hit) ↦ rw (find_cached, hit) (get-Coherent code w t t (λ other. refl) coherent)
        | inl missed ↦
            rw (find_cached, missed)
              (fill-Coherent code now w₁ t₁ (source.find_link code now t).1
                (λ res e. contract.find_answers code now t res valid e ∙ sym (keeps code))
                (λ other r e. storable other r (sym (keeps other) ∙ e))
                (get-Coherent code w t t₁ keeps coherent))
      ]

  fill-keeps :
      (now : ℤ) (w : CacheWorld S) (t : T) (out : Outcome LookupResult)
      → (fill redis config source now (w, t) out).1 ≡ out
  unfolding fill
  fill-keeps now w t short_code_conflict = refl
  fill-keeps now w t backend_failure = refl
  fill-keeps now w t (returned res) = refl

  -- What a lookup answers, from the cache or from the source, is the source's link.
  pub find_cached-answers :
      (code : Bytes) (now : ℤ) (w : CacheWorld S) (t : T) (res : LookupResult)
      → Valid t
      → Coherent (w, t)
      → (find_cached redis config source code now (w, t)).1 ≡ returned res
      → res.found ≡ links t code
  unfolding find_cached Coherent
  find_cached-answers code now w t res valid coherent answered =
      elim (Option-cases (get redis config code w).1) [
        | inr (r, hit) ↦
            let (value, at, read) = get-hit redis entry laws config code w r hit in
            let from_cache =
              returned-found (record { found = some r; source = LookupSource.redis }) res
                (rw (find_cached, hit) at answered) in
            sym from_cache ∙ sym (coherent code value r at read)
        | inl missed ↦
            let filled = rw (find_cached, missed) at answered in
            contract.find_answers code now t res valid
              (sym (fill-keeps now _ (source.find_link code now t).0 _) ∙ filled)
      ]

  -- Creating a link keeps the cache coherent: the source never replaces a link.
  pub create_cached-Coherent :
      (url : Bytes) (expires_at : Option ℤ) (owner_id : ℕ) (custom : Option Bytes) (now : ℤ)
      (w : CacheWorld S) (t : T)
      → Valid t
      → Coherent (w, t)
      → Coherent (create_cached redis config source url expires_at owner_id custom now (w, t)).0
  unfolding create_cached Coherent
  create_cached-Coherent url expires_at owner_id custom now w t valid coherent code value r at
        read =
      contract.create_frame url expires_at owner_id custom now t code r valid
        (coherent code value r at read)

  others_kept :
      (code : Bytes) (update : LifecycleUpdate) (now : ℤ) (w : CacheWorld S) (t : T)
      → Valid t
      → (erase redis config code w).1 ≡ true
      → (other : Bytes)
      → (entry (erase redis config code w).0.server (build_cache_key config other) ≡ none)
        ⊎ ((r : ShortLinkRecord)
            → links t other ≡ some r
            → links (source.update_link code update now t).0 other ≡ some r)
  others_kept code update now w t valid erased other = elim (Bool-cases (bytes_beq code other)) [
    | inl same ↦ inl (
        let e = (bytes_beq_iff code other).0 same in
        ap (λ c. entry (erase redis config code w).0.server (build_cache_key config c)) (sym e)
        ∙ erase-done redis entry laws config code w erased)
    | inr unlike ↦ inr (λ r e.
        contract.update_frame code update now t other valid
          (λ same. ground (arith, (bytes_beq_iff code other).1 same))
        ∙ e)
  ]

  -- An update keeps the cache coherent, if the source refused it, or if it was done and the entry
  -- was deleted.
  pub update_cached-Coherent :
      (code : Bytes) (update : LifecycleUpdate) (now : ℤ) (w : CacheWorld S) (t : T)
      → Valid t
      → Coherent (w, t)
      → ((source.update_link code update now t).1 ≡ returned none)
        ⊎ ((r : ShortLinkRecord) × ((source.update_link code update now t).1 ≡ returned (some r))
            × ((erase redis config code w).1 ≡ true))
      → Coherent (update_cached redis config source code update now (w, t)).0
  unfolding update_cached forget Coherent
  update_cached-Coherent code update now w t valid coherent done = elim done [
    | inl refused ↦
        rw (update_cached, refused, forget)
          (λ other value r at read.
            contract.update_refused code update now t other valid refused
            ∙ coherent other value r at read)
    | inr (r, changed, erased) ↦
        rw (update_cached, changed, forget)
          (shrink-Coherent w (erase redis config code w).0 t
            (source.update_link code update now t).0 (erase-Shrinks redis entry laws config code w)
            (others_kept code update now w t valid erased) coherent)
  ]
