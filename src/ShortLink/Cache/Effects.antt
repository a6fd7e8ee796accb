-- ===== src/ShortLink/Cache/Effects.antt =====
-- What `get`, `set` and `erase` of the cache do to the entries that the server holds.
use hao_short_link.Prelude.{
  Bool-cases, Bytes, Option, Option-cases, arith, bytes_eq, inl, inr, nat_eq, none, refl, some, sym,
  true, ◌∙◌, ◌≡◌, ◌⊎◌,
}
use hao_short_link.Prelude.Int.{int_eq, ℤ}
use hao_short_link.ShortLink.Cache.Codec.{deserialize, serialize}
use hao_short_link.ShortLink.Cache.Redis.{Command, Redis, RedisLaws, Reply}
use hao_short_link.ShortLink.Cache.Store.{
  CacheConfig, CacheWorld, after_get, build_cache_key, connect, entry_ttl, erase, get, is_integer,
  set, store_command,
}
use hao_short_link.ShortLink.Record.{ShortLinkRecord, status_eq}
use mathlib.Core.Option.{none-ne-some}

module _ {S : Type 0} (redis : Redis S) (entry : S → Bytes → Option Bytes)
    (laws : RedisLaws redis entry) (config : CacheConfig) where
  abbrev pub Shrinks : S → S → Type 0
  Shrinks s s' = (k : Bytes) → (entry s' k ≡ entry s k) ⊎ (entry s' k ≡ none)

  abbrev pub Writes : Bytes → Bytes → S → S → Type 0
  Writes key value s s' =
      (k : Bytes)
      → ((entry s' k ≡ entry s k) ⊎ (entry s' k ≡ none)) ⊎ ((k ≡ key) × (entry s' k ≡ some value))

  pub connect-keeps : (s : S) (k : Bytes) → entry (connect redis config s).0 k ≡ entry s k
  unfolding connect
  connect-keeps s k = ground (
    arith,
    laws.connect_keeps config.host config.port s k,
    laws.select_keeps config.database (redis.connect config.host config.port s).0 k,
  )

  after_get-Shrinks :
      (code : Bytes) (reply : Reply) (w : CacheWorld S)
      → Shrinks w.server (after_get redis config code reply w).0.server
  unfolding after_get
  after_get-Shrinks code Reply.missing w k = inl refl
  after_get-Shrinks code Reply.error w k = inl refl
  after_get-Shrinks code Reply.nil w k = inl refl
  after_get-Shrinks code Reply.status w k = inl refl
  after_get-Shrinks code Reply.integer w k = inl refl
  after_get-Shrinks code Reply.other w k = inl refl
  after_get-Shrinks code (Reply.text value) w k =
      ground (arith, laws.del_effect (build_cache_key config code) w.server k)

  pub get-Shrinks :
      (code : Bytes) (w : CacheWorld S) → Shrinks w.server (get redis config code w).0.server
  unfolding get
  get-Shrinks code w k =
      let s₁ = (connect redis config w.server).0 in
      let answered = redis.command (Command.get (build_cache_key config code)) s₁ in
      ground (
        arith,
        connect-keeps w.server k,
        laws.get_keeps (build_cache_key config code) s₁ k,
        after_get-Shrinks code answered.1 (record w { server = answered.0 }) k,
      )

  after_get-hit :
      (code : Bytes) (reply : Reply) (w : CacheWorld S) (r : ShortLinkRecord)
      → (after_get redis config code reply w).1 ≡ some r
      → (value : Bytes) × (reply ≡ Reply.text value) × (deserialize code value ≡ some r)
  unfolding after_get
  after_get-hit code Reply.missing w r e = absurd (none-ne-some r e)
  after_get-hit code Reply.error w r e = absurd (none-ne-some r e)
  after_get-hit code Reply.nil w r e = absurd (none-ne-some r e)
  after_get-hit code Reply.status w r e = absurd (none-ne-some r e)
  after_get-hit code Reply.integer w r e = absurd (none-ne-some r e)
  after_get-hit code Reply.other w r e = absurd (none-ne-some r e)
  after_get-hit code (Reply.text value) w r e = (value, refl, ground (arith))

  pub get-hit :
      (code : Bytes) (w : CacheWorld S) (r : ShortLinkRecord)
      → (get redis config code w).1 ≡ some r
      → (value : Bytes) × (entry w.server (build_cache_key config code) ≡ some value)
        × (deserialize code value ≡ some r)
  unfolding get
  get-hit code w r e =
      let s₁ = (connect redis config w.server).0 in
      let key = build_cache_key config code in
      let answered = redis.command (Command.get key) s₁ in
      elim (Bool-cases (connect redis config w.server).1) [
        | inl on ↦
            let (value, at, read) =
              after_get-hit code answered.1 (record w { server = answered.0 }) r (ground (arith)) in
            (value, sym (connect-keeps w.server key) ∙ laws.get_answers key s₁ value at, read)
        | inr off ↦ absurd (ground (arith, none-ne-some r))
      ]

  pub erase-Shrinks :
      (code : Bytes) (w : CacheWorld S) → Shrinks w.server (erase redis config code w).0.server
  unfolding erase
  erase-Shrinks code w k = ground (
    arith,
    connect-keeps w.server k,
    laws.del_effect (build_cache_key config code) (connect redis config w.server).0 k,
  )

  integer_reply : (reply : Reply) → is_integer reply ≡ true → reply ≡ Reply.integer
  integer_reply reply e = ground arith

  pub erase-done :
      (code : Bytes) (w : CacheWorld S)
      → (erase redis config code w).1 ≡ true
      → entry (erase redis config code w).0.server (build_cache_key config code) ≡ none
  unfolding erase
  erase-done code w e =
      let s₁ = (connect redis config w.server).0 in
      let key = build_cache_key config code in
      ground (arith, integer_reply (redis.command (Command.del key) s₁).1, laws.del_done key s₁)

  store_command-Writes :
      (r : ShortLinkRecord) (ttl : ℤ) (s : S) (k : Bytes)
      → (entry (redis.command (store_command redis config r ttl) s).0 k ≡ entry s k)
        ⊎ ((k ≡ build_cache_key config r.code)
            × (entry (redis.command (store_command redis config r ttl) s).0 k ≡ some (serialize r)))
  unfolding store_command
  store_command-Writes r ttl s k =
      let key = build_cache_key config r.code in
      ground
        (arith, laws.setex_effect key ttl (serialize r) s k, laws.set_effect key (serialize r) s k)

  pub set-Writes :
      (r : ShortLinkRecord) (now : ℤ) (w : CacheWorld S)
      → Writes
          (build_cache_key config r.code)
          (serialize r)
          w.server
          (set redis config r now w).0.server
  unfolding set
  set-Writes r now w k = elim (Option-cases (entry_ttl config r.expires_at now)) [
    | inl gone ↦ rw (set, gone) (inl (erase-Shrinks r.code w k))
    | inr (ttl, e) ↦
        rw (set, e)
          (ground (
            arith,
            connect-keeps w.server k,
            store_command-Writes r ttl (connect redis config w.server).0 k,
          ))
  ]
