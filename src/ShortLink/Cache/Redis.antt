-- ===== src/ShortLink/Cache/Redis.antt =====
-- A Redis server as hiredis shows it to apps/shortlink_server: commands, replies, and the documented
-- behaviour that the cache relies on. The server is not part of the repository; it is a parameter.
use hao_short_link.Prelude.{Bool, Bytes, Option, bytes_eq, nat_eq, none, some, ◌≡◌, ◌⊎◌}
use hao_short_link.Prelude.Int.{int_eq, ℤ}
use hao_short_link.ShortLink.Record.{status_eq}

pub data Command : Type 0 where
  select : ℤ → Command
  get : Bytes → Command
  del : Bytes → Command
  setex : Bytes → ℤ → Bytes → Command
  set : Bytes → Bytes → Command

-- What `redisCommand` returns: a null pointer, or a reply of one of the types.
pub data Reply : Type 0 where
  missing error nil status integer : Reply
  text : Bytes → Reply
  other : Reply

-- `connect host port` is `redisConnectWithTimeout`; true if the context is usable.
pub record Redis (S : Type 0) : Type 0 where
  pub connect : Bytes → ℤ → S → S × Bool
  pub command : Command → S → S × Reply

-- The documented behaviour, over the entries that the server holds. A command that fails may or may
-- not have been carried out; expiry is a step of its own, which only removes entries.
pub record RedisLaws {S : Type 0} (redis : Redis S) (entry : S → Bytes → Option Bytes)
    : Type 0 where
  pub connect_keeps :
      (host : Bytes) (port : ℤ) (s : S) (k : Bytes)
      → entry (redis.connect host port s).0 k ≡ entry s k
  pub select_keeps :
      (db : ℤ) (s : S) (k : Bytes) → entry (redis.command (Command.select db) s).0 k ≡ entry s k
  pub get_keeps :
      (key : Bytes) (s : S) (k : Bytes) → entry (redis.command (Command.get key) s).0 k ≡ entry s k
  pub get_answers :
      (key : Bytes) (s : S) (value : Bytes)
      → (redis.command (Command.get key) s).1 ≡ Reply.text value
      → entry s key ≡ some value
  pub del_effect :
      (key : Bytes) (s : S) (k : Bytes)
      → (entry (redis.command (Command.del key) s).0 k ≡ entry s k)
        ⊎ (entry (redis.command (Command.del key) s).0 k ≡ none)
  pub del_done :
      (key : Bytes) (s : S)
      → (redis.command (Command.del key) s).1 ≡ Reply.integer
      → entry (redis.command (Command.del key) s).0 key ≡ none
  pub setex_effect :
      (key : Bytes) (ttl : ℤ) (value : Bytes) (s : S) (k : Bytes)
      → (entry (redis.command (Command.setex key ttl value) s).0 k ≡ entry s k)
        ⊎ ((k ≡ key) × (entry (redis.command (Command.setex key ttl value) s).0 k ≡ some value))
  pub set_effect :
      (key value : Bytes) (s : S) (k : Bytes)
      → (entry (redis.command (Command.set key value) s).0 k ≡ entry s k)
        ⊎ ((k ≡ key) × (entry (redis.command (Command.set key value) s).0 k ≡ some value))
