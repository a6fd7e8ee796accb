-- ===== src/ShortLink/Cache/Store.antt =====
-- apps/shortlink_server: `RedisShortLinkCache` of src/RedisShortLinkCache.cpp, its constructor and
-- its operations `get`, `set` and `erase`. Freeing a context or a reply changes no state here, and
-- log lines are left out. The metrics pointer may be null, hence the `Option`.
use hao_short_link.Prelude.{
  Bool, Bytes, Option, bytes_eq, false, if◌then◌else◌, nat_eq, none, not, some, true, ◌++◌, ◌||◌,
}
use hao_short_link.Prelude.Int.{int_eq, leb_ℤ, ltb_ℤ, pos, ℤ, ◌-ℤ◌}
use hao_short_link.ShortLink.Cache.Codec.{deserialize, serialize}
use hao_short_link.ShortLink.Cache.Redis.{Command, Redis, Reply}
use hao_short_link.ShortLink.Metrics.{
  Backend, BackendOperation, CacheOperation, CacheResult, ShortLinkMetrics, record_backend_error,
  record_cache,
}
use hao_short_link.ShortLink.Record.{ShortLinkRecord, status_eq}
use mathlib.Core.Option

pub record CacheConfig : Type 0 where
  pub host : Bytes
  pub port : ℤ
  pub database : ℤ
  pub ttl_seconds : ℤ
  pub key_prefix : Bytes

-- The constructor: a life time outside 1 .. 86400 becomes 3600.
unfoldable pub make_cache : CacheConfig → CacheConfig
make_cache config =
    if leb_ℤ config.ttl_seconds (pos 0) || ltb_ℤ (pos 86400) config.ttl_seconds
    then record config { ttl_seconds = pos 3600 }
    else config

unfoldable pub build_cache_key : CacheConfig → Bytes → Bytes
build_cache_key config code = config.key_prefix ++ code

-- What the operations change: the server, and the metrics, if there are any.
pub record CacheWorld (S : Type 0) : Type 0 where
  pub server : S
  pub metrics : Option ShortLinkMetrics

abbrev pub noted :
    {S : Type 0} → (ShortLinkMetrics → ShortLinkMetrics) → CacheWorld S → CacheWorld S
noted f w = record w { metrics = Option.map f w.metrics }

abbrev pub min_ℤ : ℤ → ℤ → ℤ
min_ℤ a b = if ltb_ℤ b a then b else a

-- The life time that `set` asks for; `none` if the link has expired, so that `set` erases instead.
unfoldable pub entry_ttl : CacheConfig → Option ℤ → ℤ → Option ℤ
entry_ttl config none now = some config.ttl_seconds
entry_ttl config (some expires_at) now =
    let remaining = expires_at -ℤ now in
    let ttl = config.ttl_seconds in
    if leb_ℤ remaining (pos 0)
    then none
    else if ltb_ℤ (pos 0) ttl
    then some (min_ℤ ttl remaining)
    else some (min_ℤ remaining (pos 2147483647))

-- `reply && reply->type != REDIS_REPLY_ERROR`
abbrev usable : Reply → Bool
usable Reply.missing = false
usable Reply.error = false
usable Reply.nil = true
usable Reply.status = true
usable Reply.integer = true
usable (Reply.text value) = true
usable Reply.other = true

abbrev pub is_status : Reply → Bool
is_status Reply.status = true
is_status Reply.missing = false
is_status Reply.error = false
is_status Reply.nil = false
is_status Reply.integer = false
is_status (Reply.text value) = false
is_status Reply.other = false

abbrev pub is_integer : Reply → Bool
is_integer Reply.integer = true
is_integer Reply.missing = false
is_integer Reply.error = false
is_integer Reply.nil = false
is_integer Reply.status = false
is_integer (Reply.text value) = false
is_integer Reply.other = false

module _ {S : Type 0} (redis : Redis S) (config : CacheConfig) where
  -- `connect` of the anonymous namespace: true if it returns a context.
  unfoldable pub connect : S → S × Bool
  connect s =
      let (s₁, reached) = redis.connect config.host config.port s in
      if not reached
      then (s₁, false)
      else if ltb_ℤ (pos 0) config.database
      then (let (s₂, reply) = redis.command (Command.select config.database) s₁ in
          (s₂, usable reply))
      else (s₁, true)

  get_error : ShortLinkMetrics → ShortLinkMetrics
  get_error m =
      record_backend_error Backend.redis BackendOperation.get
        (record_cache CacheOperation.get CacheResult.error m)

  -- What `get` does with the reply to GET; an entry that is not read is deleted.
  unfoldable pub after_get : Bytes → Reply → CacheWorld S → CacheWorld S × Option ShortLinkRecord
  unfolding get_error
  after_get code Reply.missing w = (noted get_error w, none)
  after_get code Reply.error w = (noted get_error w, none)
  after_get code Reply.nil w = (noted (record_cache CacheOperation.get CacheResult.miss) w, none)
  after_get code Reply.status w = (noted get_error w, none)
  after_get code Reply.integer w = (noted get_error w, none)
  after_get code Reply.other w = (noted get_error w, none)
  after_get code (Reply.text value) w = elim (deserialize code value) [
    | none ↦
        let (s, reply) = redis.command (Command.del (build_cache_key config code)) w.server in
        (noted (record_cache CacheOperation.get CacheResult.miss) (record w { server = s }), none)
    | some r ↦ (noted (record_cache CacheOperation.get CacheResult.hit) w, some r)
  ]

  unfoldable pub get : Bytes → CacheWorld S → CacheWorld S × Option ShortLinkRecord
  unfolding after_get get_error
  get code w =
      let (s₁, connected) = connect w.server in
      let (s₂, reply) = redis.command (Command.get (build_cache_key config code)) s₁ in
      if connected
      then after_get code reply (record w { server = s₂ })
      else (noted get_error (record w { server = s₁ }), none)

  -- The counters behind SET and DEL.
  outcome : CacheOperation → BackendOperation → Bool → ShortLinkMetrics → ShortLinkMetrics
  outcome operation backend_operation true m = record_cache operation CacheResult.success m
  outcome operation backend_operation false m =
      record_backend_error Backend.redis backend_operation
        (record_cache operation CacheResult.error m)

  unfoldable pub erase : Bytes → CacheWorld S → CacheWorld S × Bool
  unfolding outcome
  erase code w =
      let (s₁, connected) = connect w.server in
      let (s₂, reply) = redis.command (Command.del (build_cache_key config code)) s₁ in
      if connected
      then (
        noted (outcome CacheOperation.delete BackendOperation.delete (is_integer reply))
            (record w { server = s₂ }),
        is_integer reply,
      )
      else (
        noted (outcome CacheOperation.delete BackendOperation.delete false)
            (record w { server = s₁ }),
        false,
      )

  unfoldable pub store_command : ShortLinkRecord → ℤ → Command
  store_command r ttl =
      if ltb_ℤ (pos 0) ttl
      then Command.setex (build_cache_key config r.code) ttl (serialize r)
      else Command.set (build_cache_key config r.code) (serialize r)

  unfoldable pub set : ShortLinkRecord → ℤ → CacheWorld S → CacheWorld S × Bool
  unfolding outcome store_command
  set r now w = elim (entry_ttl config r.expires_at now) [
    | none ↦ erase r.code w
    | some ttl ↦
        let (s₁, connected) = connect w.server in
        let (s₂, reply) = redis.command (store_command r ttl) s₁ in
        if connected
        then (
          noted (outcome CacheOperation.set BackendOperation.set (is_status reply))
              (record w { server = s₂ }),
          is_status reply,
        )
        else (
          noted (outcome CacheOperation.set BackendOperation.set false) (record w { server = s₁ }),
          false,
        )
  ]
