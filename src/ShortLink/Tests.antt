-- ===== src/ShortLink/Tests.antt =====
-- The codes, the cache entries and the metrics at concrete inputs.
use hao_short_link.Prelude.{All, arith, bytes_eq, codes, nat_eq, none, refl, some, ◌≡◌}
use hao_short_link.Prelude.Int.{int_eq, negsuc, pos}
use hao_short_link.Prelude.Map.{pair_eq}
use hao_short_link.Decimal.{emit, int_to_string, to_string}
use hao_short_link.ShortLink.Base62.{encode_base62}
use hao_short_link.ShortLink.Base62.RoundTrip.{
  IsAlphanumeric, decode_base62, decode_base62-encode_base62, encode_base62-IsAlphanumeric,
}
use hao_short_link.ShortLink.Cache.Codec.{deserialize, print_expiry, serialize}
use hao_short_link.ShortLink.Cache.Codec.RoundTrip.{IsStorable, deserialize-serialize}
use hao_short_link.ShortLink.Cache.Lifetime.{WithinLife, entry_ttl-bounds}
use hao_short_link.ShortLink.Cache.Store.{CacheConfig, entry_ttl, make_cache}
use hao_short_link.ShortLink.Metrics.{CacheOperation, CacheResult}
use hao_short_link.ShortLink.Metrics.Counts.{Series}
use hao_short_link.ShortLink.Record.{ShortLinkRecord, Status, status_to_string}

abbrev link : ShortLinkRecord
link = record {
  id = 125;
  owner_id = 3;
  code = codes "000021";
  original_url = codes "https://a.example/?q=a|b";
  status = Status.disabled;
  expires_at = none;
  created_at = pos 10;
  updated_at = negsuc 4;
}

printed : serialize link ≡ codes "v2|125|3|disabled|-|10|-5|https://a.example/?q=a|b"
unfolding serialize to_string emit int_to_string status_to_string print_expiry
printed = refl

link-IsStorable : IsStorable link
link-IsStorable = record {
  id_fits = omega arith;
  owner_fits = omega arith;
  expiry_fits = tt;
  created_fits = (omega arith, omega arith);
  updated_fits = (omega arith, omega arith);
  has_target = ground arith;
}

deserialize-serialize_example : deserialize (codes "000021") (serialize link) ≡ some link
deserialize-serialize_example = deserialize-serialize link link-IsStorable

abbrev config : CacheConfig
config = record {
  host = codes "127.0.0.1";
  port = pos 6379;
  database = pos 0;
  ttl_seconds = pos 100000;
  key_prefix = codes "shortlink:";
}

entry_ttl-bounds_example :
    WithinLife (some (pos 50)) (pos 20) (entry_ttl (make_cache config) (some (pos 50)) (pos 20))
entry_ttl-bounds_example = entry_ttl-bounds config (some (pos 50)) (pos 20)

decode_base62-encode_base62_example : decode_base62 (encode_base62 125) ≡ 125
decode_base62-encode_base62_example = decode_base62-encode_base62 125

encode_base62-IsAlphanumeric_example : All IsAlphanumeric (encode_base62 125)
encode_base62-IsAlphanumeric_example = encode_base62-IsAlphanumeric 125

abbrev hit : Series
hit = Series.caches CacheOperation.get CacheResult.hit
