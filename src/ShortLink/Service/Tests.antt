-- ===== src/ShortLink/Service/Tests.antt =====
-- The service over the memory repository at concrete inputs.
use hao_short_link.Prelude.{
  Bytes, Option, bytes_beq, bytes_eq, codes, nat_eq, none, refl, some, ◌++◌, ◌↔◌, ◌≡◌,
}
use hao_short_link.Prelude.Int.{int_eq, pos, ℤ}
use hao_short_link.Prelude.Map.{insert, lookup, pair_eq}
use hao_short_link.ShortLink.Base62.{encode_base62}
use hao_short_link.ShortLink.Memory.{
  MemoryRepository, choose_code, create, find_by_code, initial_repository, new_record,
}
use hao_short_link.ShortLink.Memory.Contract.{memory-IsRepository, memory_repository}
use hao_short_link.ShortLink.Memory.Invariant.{view}
use hao_short_link.ShortLink.Metrics.{ShortLinkMetrics}
use hao_short_link.ShortLink.Record.{returned}
use hao_short_link.ShortLink.Service.{
  CreatedLink, RedirectStatus, create_short_link, finish, is_acceptable, is_expired,
  is_valid_custom_code, is_valid_url, judge, present, resolve,
}
use hao_short_link.ShortLink.Service.Creation.{created-resolves}
use hao_short_link.ShortLink.Service.Redirects.{LiveAt, Redirects, resolve-Redirects}
use hao_short_link.ShortLink.Metrics.{RedirectResult as RedirectLabel}

abbrev url : Bytes
url = codes "https://a.example/"

-- The repository after one creation, at time 10, of a link that ends at time 50.
abbrev one_link : MemoryRepository
one_link =
    (create_short_link memory_repository url (some (pos 50)) 7 (some (codes "docs")) (pos 10)
      (pos 10) initial_repository).0

abbrev link : CreatedLink
link = record {
  link = new_record 1 7 (codes "docs") url (some (pos 50)) (pos 10);
  short_url = codes "/s/docs";
}

created-resolves_example :
    (link.link.owner_id ≡ 7)
    × (link.link.original_url ≡ url)
    × ((code : Bytes) → some (codes "docs") ≡ some code → codes "docs" ≡ code)
    × (some (codes "docs") ≡ none → codes "docs" ≡ encode_base62 1)
    × (link.short_url ≡ codes "/s/" ++ codes "docs")
    × ((later later' : ℤ) (m : Option ShortLinkMetrics)
        → LiveAt (some (pos 50)) later'
        → (resolve memory_repository (codes "docs") later later' one_link m).2
          ≡ returned (record { status = RedirectStatus.success; original_url = some url }))
unfolding create_short_link is_acceptable is_valid_url is_valid_custom_code bytes_beq present create
    lookup choose_code
created-resolves_example =
    created-resolves initial_repository url (some (pos 50)) 7 (some (codes "docs")) (pos 10)
      (pos 10) link refl

resolve-Redirects_example :
    (some url ≡ some url) ↔ Redirects (view one_link (codes "docs")) (pos 20) url
unfolding resolve finish judge find_by_code lookup create_short_link is_acceptable is_valid_url
    is_valid_custom_code bytes_beq create insert choose_code is_expired
resolve-Redirects_example =
    resolve-Redirects memory_repository (λ t. Unit {0}) view memory-IsRepository (codes "docs")
      (pos 20) (pos 20) one_link none
      (record { status = RedirectStatus.success; original_url = some url }) tt refl url
