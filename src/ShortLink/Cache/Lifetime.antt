-- ===== src/ShortLink/Cache/Lifetime.antt =====
-- The life time that `set` gives a cache entry.
use hao_short_link.Prelude.{Option, arith, bytes_eq, nat_eq, none, some}
use hao_short_link.Prelude.Int.{+ℤ_parts, -ℤ_parts, int_eq, pos, ℤ, ◌+ℤ◌, ◌-ℤ◌, ◌≤ℤ◌}
use hao_short_link.ShortLink.Cache.Store.{CacheConfig, entry_ttl, make_cache}
use hao_short_link.ShortLink.Record.{status_eq}

make_cache-bounds :
    (config : CacheConfig)
    → (pos 1 ≤ℤ (make_cache config).ttl_seconds) × ((make_cache config).ttl_seconds ≤ℤ pos 86400)
unfolding make_cache
make_cache-bounds config = ground arith

-- The life time asked for, in the two cases of the link's own.
abbrev pub WithinLife : Option ℤ → ℤ → Option ℤ → Type 0
WithinLife none now none = ⊥
WithinLife none now (some ttl) = (pos 1 ≤ℤ ttl) × (ttl ≤ℤ pos 86400)
WithinLife (some e) now none = e ≤ℤ now
WithinLife (some e) now (some ttl) = (pos 1 ≤ℤ ttl) × (ttl ≤ℤ pos 86400) × (now +ℤ ttl ≤ℤ e)

-- An entry of a cache that was made lives between one second and a day, and not longer than its
-- link; `set` erases instead only if the link has expired.
pub entry_ttl-bounds :
    (config : CacheConfig) (expires_at : Option ℤ) (now : ℤ)
    → WithinLife expires_at now (entry_ttl (make_cache config) expires_at now)
unfolding entry_ttl
entry_ttl-bounds config none now = make_cache-bounds config
entry_ttl-bounds config (some e) now =
    let ttl = (make_cache config).ttl_seconds in
    ground
      (arith, make_cache-bounds config, -ℤ_parts e now, +ℤ_parts now ttl, +ℤ_parts now (e -ℤ now))
