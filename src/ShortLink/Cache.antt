-- ===== src/ShortLink/Cache.antt =====
-- The Redis cache of apps/shortlink_server: src/RedisShortLinkCache.cpp. `Codec` is the text of an
-- entry, `Redis` the server as the cache uses it, `Store` the three operations.
pub mod Codec
pub mod Redis
pub mod Store
pub mod Effects
pub mod Lifetime
