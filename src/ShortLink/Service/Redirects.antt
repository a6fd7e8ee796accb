-- ===== src/ShortLink/Service/Redirects.antt =====
-- What `resolve` answers and records.
use hao_short_link.Prelude.{
  Bytes, Option, ap, arith, bytes_eq, false, if◌then◌else◌, nat_eq, none, refl, some, sym, ◌%◌, ◌+◌,
  ◌^◌, ◌↔◌, ◌∙◌, ◌≡◌,
}
use hao_short_link.Prelude.Int.{+ℤ_parts, int_eq, pos, ℤ, ◌+ℤ◌, ◌≤ℤ◌}
use hao_short_link.Prelude.Map.{pair_eq}
use hao_short_link.ShortLink.Metrics.{RedirectSource, ShortLinkMetrics}
use hao_short_link.ShortLink.Metrics.Counts.{Series, count, same_series}
use hao_short_link.ShortLink.Record.{
  LookupResult, LookupSource, Outcome, ShortLinkRecord, Status, backend_failure, returned,
  returned-injective, short_code_conflict,
}
use hao_short_link.ShortLink.Repository.{IsRepository, ShortLinkRepository}
use hao_short_link.ShortLink.Service.{
  RedirectResult, RedirectStatus, finish, has_ended, is_expired, judge, resolve,
}
use mathlib.Core.Path.{subst}
use mathlib.Core.Option.{none-ne-some}
use hao_short_link.ShortLink.Metrics.{RedirectResult as RedirectLabel}

-- The link is not over at a time.
abbrev pub LiveAt : Option ℤ → ℤ → Type 0
LiveAt none now = Unit {0}
LiveAt (some e) now = now +ℤ pos 1 ≤ℤ e

-- The link that a redirect may follow.
abbrev pub Redirects : Option ShortLinkRecord → ℤ → Bytes → Type 0
Redirects found now url =
    (r : ShortLinkRecord) × (found ≡ some r)
    × (r.status ≡ Status.active)
    × LiveAt r.expires_at now
    × (r.original_url ≡ url)

pub has_ended-LiveAt : (o : Option ℤ) (now : ℤ) → (has_ended o now ≡ false) ↔ LiveAt o now
has_ended-LiveAt none now = ground arith
has_ended-LiveAt (some e) now = ground (arith, +ℤ_parts now (pos 1))

judge-found :
    (r : ShortLinkRecord) (now : ℤ) (url : Bytes)
    → ((judge (some r) now).0.original_url ≡ some url)
      ↔ ((r.status ≡ Status.active) × (has_ended r.expires_at now ≡ false) × (r.original_url ≡ url))
unfolding judge is_expired
judge-found r now url = ground arith

judge-Redirects :
    (found : Option ShortLinkRecord) (now : ℤ) (url : Bytes)
    → ((judge found now).0.original_url ≡ some url) ↔ Redirects found now url
unfolding judge is_expired
judge-Redirects none now url =
    (λ e. absurd (none-ne-some url e), λ (r, e, _, _, _). absurd (none-ne-some r e))
judge-Redirects (some r) now url = (
  λ e.
      let (active, live, same) = (judge-found r now url).0 e in
      (r, refl, active, (has_ended-LiveAt r.expires_at now).0 live, same),
  λ (r', e, active, live, same).
      ap (λ x. (judge x now).0.original_url) e
      ∙ (judge-found r' now url).1 (active, (has_ended-LiveAt r'.expires_at now).1 live, same),
)

-- The label that an answer is counted under.
abbrev pub label_of : Outcome RedirectResult → RedirectLabel
label_of (returned res) = elim res.status [
  | RedirectStatus.success ↦ RedirectLabel.success
  | RedirectStatus.not_found ↦ RedirectLabel.not_found
  | RedirectStatus.disabled ↦ RedirectLabel.disabled
  | RedirectStatus.expired ↦ RedirectLabel.expired
]
label_of short_code_conflict = RedirectLabel.error
label_of backend_failure = RedirectLabel.error

-- The store that a lookup answered from, as the metrics name it.
abbrev pub store_of : LookupSource → RedirectSource
store_of LookupSource.memory = RedirectSource.memory
store_of LookupSource.mysql = RedirectSource.mysql
store_of LookupSource.redis = RedirectSource.redis

-- The store that answered; where the lookup threw, the one that the repository names.
abbrev pub answered_from : LookupSource → Outcome LookupResult → LookupSource
answered_from default (returned found) = found.source
answered_from default short_code_conflict = default
answered_from default backend_failure = default

-- One more occurrence of a series, and none of any other.
pub record Counted (e : Series) (before : ShortLinkMetrics) (after : Option ShortLinkMetrics)
    : Type 0 where
  pub metrics : ShortLinkMetrics
  pub kept : after ≡ some metrics
  pub each :
      (s : Series)
      → count s metrics
        ≡ (if same_series e s then (count e before + 1) % 2 ^ 64 else count s before)

module _ {T : Type 0} (repository : ShortLinkRepository T) (Valid : T → Type 0)
    (links : T → Bytes → Option ShortLinkRecord)
    (contract : IsRepository repository Valid links) where
  judged :
      (out : Outcome LookupResult) (now : ℤ) (m : Option ShortLinkMetrics) (res : RedirectResult)
      → (finish repository out now m).1 ≡ returned res
      → (found : LookupResult) × (out ≡ returned found) × ((judge found.found now).0 ≡ res)
  unfolding finish
  judged (returned found) now m res e = (found, refl, returned-injective _ _ e)
  judged short_code_conflict now m res e = ground arith
  judged backend_failure now m res e = ground arith

  -- Over a repository that keeps its contract, an answer of `resolve` has a target exactly if the
  -- repository links the code to an active link that is not over, and the target is that link's;
  -- whether the code was found in a cache or not.
  pub resolve-Redirects :
      (code : Bytes) (now now' : ℤ) (t : T) (m : Option ShortLinkMetrics) (res : RedirectResult)
      → Valid t
      → (resolve repository code now now' t m).2 ≡ returned res
      → (url : Bytes) → (res.original_url ≡ some url) ↔ Redirects (links t code) now' url
  unfolding resolve
  resolve-Redirects code now now' t m res valid e url =
      let (found, out_is, judged_is) = judged _ now' m res e in
      let same : (judge (links t code) now').0 ≡ res =
        ap (λ x. (judge x now').0) (sym (contract.find_answers code now t found valid out_is))
        ∙ judged_is in
      subst
        (λ (x : RedirectResult). (x.original_url ≡ some url) ↔ Redirects (links t code) now' url)
        same (judge-Redirects (links t code) now' url)
