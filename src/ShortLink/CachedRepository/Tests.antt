-- ===== src/ShortLink/CachedRepository/Tests.antt =====
-- The cached repository over a concrete Redis server that never fails, and the memory repository.
-- The server's state is its entries.
use hao_short_link.Prelude.{
  Bytes, List, Option, [], ap, arith, beq_self, bytes_beq, bytes_beq_iff, bytes_eq, codes, false,
  inr, nat_eq, none, refl, some, sym, true, ◌∙◌, ◌∷◌, ◌≡◌, ◌⊎◌,
}
use hao_short_link.Prelude.Int.{int_eq, pos}
use hao_short_link.Prelude.Map.{insert, lookup, lookup-insert, lookup-remove, remove}
use hao_short_link.ShortLink.Cache.Codec.RoundTrip.{IsStorable}
use hao_short_link.ShortLink.Cache.Redis.{Command, Redis, RedisLaws, Reply}
use hao_short_link.ShortLink.Cache.Store.{CacheConfig, CacheWorld, connect, erase, make_cache}
use hao_short_link.ShortLink.CachedRepository.{cached_repository, find_cached, update_cached}
use hao_short_link.ShortLink.CachedRepository.Coherence.{
  Coherent, Storable, find_cached-Coherent, update_cached-Coherent,
}
use hao_short_link.ShortLink.CachedRepository.Contract.{
  CachedValid, cached-IsRepository, cached_links,
}
use hao_short_link.ShortLink.Memory.{MemoryRepository, apply_update, update_lifecycle}
use hao_short_link.ShortLink.Memory.Contract.{memory-IsRepository, memory_repository}
use hao_short_link.ShortLink.Memory.Invariant.{view}
use hao_short_link.ShortLink.Record.{LifecycleUpdate, ShortLinkRecord, Status, status_eq}
use hao_short_link.ShortLink.Repository.{IsRepository}
use mathlib.Core.Option.{none-ne-some}
use mathlib.Core.Path.{subst}

answer_get : Option Bytes → Reply
answer_get none = Reply.nil
answer_get (some value) = Reply.text value

carry_out : Command → List (Bytes × Bytes) → List (Bytes × Bytes) × Reply
unfolding answer_get
carry_out (Command.select db) s = (s, Reply.status)
carry_out (Command.get key) s = (s, answer_get (lookup key s))
carry_out (Command.del key) s = (remove key s, Reply.integer)
carry_out (Command.setex key ttl value) s = (insert key value s, Reply.status)
carry_out (Command.set key value) s = (insert key value s, Reply.status)

abbrev server : Redis (List (Bytes × Bytes))
server = record { connect = λ host port s. (s, true); command = carry_out }

abbrev held : List (Bytes × Bytes) → Bytes → Option Bytes
held s key = lookup key s

answered : (o : Option Bytes) (value : Bytes) → answer_get o ≡ Reply.text value → o ≡ some value
unfolding answer_get
answered none value e = ground arith
answered (some v) value e = ground arith

inserted :
    (key value : Bytes) (s : List (Bytes × Bytes)) (k : Bytes)
    → (lookup k (insert key value s) ≡ lookup k s)
      ⊎ ((k ≡ key) × (lookup k (insert key value s) ≡ some value))
inserted key value s k = ground (arith, lookup-insert key k value s, bytes_beq_iff key k)

erased :
    (key : Bytes) (s : List (Bytes × Bytes)) (k : Bytes)
    → (lookup k (remove key s) ≡ lookup k s) ⊎ (lookup k (remove key s) ≡ none)
erased key s k = ground (arith, lookup-remove key k s)

server-RedisLaws : RedisLaws server held
unfolding carry_out
server-RedisLaws = record {
  connect_keeps = λ host port s k. refl;
  select_keeps = λ db s k. refl;
  get_keeps = λ key s k. refl;
  get_answers = λ key s value e. answered (lookup key s) value e;
  del_effect = erased;
  del_done = λ key s e. ground (arith, lookup-remove key key s, beq_self key);
  setex_effect = λ key ttl value s k. inserted key value s k;
  set_effect = inserted;
}

abbrev config : CacheConfig
config = make_cache (record {
  host = codes "127.0.0.1";
  port = pos 6379;
  database = pos 0;
  ttl_seconds = pos 0;
  key_prefix = codes "shortlink:";
})

abbrev link : ShortLinkRecord
link = record {
  id = 1;
  owner_id = 1;
  code = codes "docs";
  original_url = codes "https://a.example/";
  status = Status.active;
  expires_at = some (pos 50);
  created_at = pos 10;
  updated_at = pos 10;
}

abbrev stored : MemoryRepository
stored = record { next_id = 2; links = (codes "docs", link) ∷ [] }

abbrev cold : CacheWorld (List (Bytes × Bytes))
cold = record { server = []; metrics = none }

only_link :
    (code : Bytes) (r : ShortLinkRecord)
    → view stored code ≡ some r
    → (codes "docs" ≡ code) × (link ≡ r)
unfolding lookup
only_link code r e = ground (arith, bytes_beq_iff (codes "docs") code)

link-IsStorable : IsStorable link
link-IsStorable = record {
  id_fits = omega arith;
  owner_fits = omega arith;
  expiry_fits = (omega arith, omega arith);
  created_fits = (omega arith, omega arith);
  updated_fits = (omega arith, omega arith);
  has_target = ground arith;
}

abbrev StoredHere : MemoryRepository → Type 0
StoredHere =
    Storable server held server-RedisLaws config memory_repository (λ t. Unit {0}) view
      memory-IsRepository

abbrev CoherentHere : CacheWorld (List (Bytes × Bytes)) × MemoryRepository → Type 0
CoherentHere =
    Coherent server held server-RedisLaws config memory_repository (λ t. Unit {0}) view
      memory-IsRepository

stored-Storable : StoredHere stored
stored-Storable code r e =
    let (own, same) = only_link code r e in
    (sym (ap (λ (x : ShortLinkRecord). x.code) same) ∙ own, subst IsStorable same link-IsStorable)

cold-Coherent : CoherentHere (cold, stored)
unfolding lookup Coherent
cold-Coherent code value r at read = absurd (none-ne-some value at)

abbrev warm : CacheWorld (List (Bytes × Bytes)) × MemoryRepository
warm = (find_cached server config memory_repository (codes "docs") (pos 20) (cold, stored)).0

find_cached-Coherent_example : CoherentHere warm
find_cached-Coherent_example =
    find_cached-Coherent server held server-RedisLaws config memory_repository (λ t. Unit {0}) view
      memory-IsRepository (codes "docs") (pos 20) cold stored tt stored-Storable cold-Coherent

abbrev disable : LifecycleUpdate
disable = record {
  status = some Status.disabled;
  expires_at_provided = false;
  expires_at = none;
  owner_id = some 1;
}

update_cached-Coherent_example :
    CoherentHere
      (update_cached server config memory_repository
        (codes "docs")
        disable
        (pos 30)
        (cold, stored)).0
unfolding update_lifecycle lookup bytes_beq apply_update erase connect make_cache carry_out
update_cached-Coherent_example =
    update_cached-Coherent server held server-RedisLaws config memory_repository (λ t. Unit {0})
      view memory-IsRepository (codes "docs") disable (pos 30) cold stored tt cold-Coherent
      (inr (record link { status = Status.disabled; updated_at = pos 30 }, refl, refl))

cached-IsRepository_example :
    IsRepository
      (cached_repository server config memory_repository)
      (CachedValid server held server-RedisLaws config memory_repository
        (λ t. Unit {0})
        view
        memory-IsRepository)
      (cached_links server held server-RedisLaws config memory_repository
        (λ t. Unit {0})
        view
        memory-IsRepository)
cached-IsRepository_example =
    cached-IsRepository server held server-RedisLaws config memory_repository (λ t. Unit {0}) view
      memory-IsRepository
