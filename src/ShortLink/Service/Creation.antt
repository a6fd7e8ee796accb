-- ===== src/ShortLink/Service/Creation.antt =====
-- What `createShortLink` creates.
use hao_short_link.Prelude.{
  All, Bool-cases, Bytes, Option, [], all_of, ap, arith, beq_self, bytes_eq, codes, inl, inr,
  is_some, nat_eq, none, not, refl, some, sym, true, ℕ, ◌++◌, ◌<◌, ◌==◌, ◌^◌, ◌∙◌, ◌∷◌, ◌≡◌,
}
use hao_short_link.Prelude.Int.{int_eq, ℤ}
use hao_short_link.Prelude.Map.{pair_eq}
use hao_short_link.ShortLink.Base62.{encode_base62}
use hao_short_link.ShortLink.Base62.RoundTrip.{
  IsAlphanumeric, encode_base62-IsAlphanumeric, length-encode_base62,
}
use hao_short_link.ShortLink.Memory.{
  MemoryRepository, choose_code, create, find_by_code, new_record,
}
use hao_short_link.ShortLink.Memory.Contract.{memory_repository}
use hao_short_link.ShortLink.Memory.Invariant.{view, view-create}
use hao_short_link.ShortLink.Metrics.{ShortLinkMetrics}
use hao_short_link.ShortLink.Record.{
  Outcome, ShortLinkRecord, Status, backend_failure, returned, returned-injective,
  short_code_conflict, status_eq,
}
use hao_short_link.ShortLink.Service.{
  CreatedLink, RedirectStatus, create_short_link, finish, is_acceptable, is_code_char, is_expired,
  is_valid_custom_code, judge, present, reserved, resolve,
}
use hao_short_link.ShortLink.Service.Redirects.{LiveAt, has_ended-LiveAt}
use mathlib.Core.Option.{none-ne-some}
use mathlib.Core.Path.{subst}

some_is {ℓ} : {A : Type ℓ} (a b : A) → some a ≡ some b → a ≡ b
some_is a b e = cc

present-link :
    (out : Outcome (Option ShortLinkRecord)) (created : CreatedLink)
    → present memory_repository out ≡ returned (some created)
    → (out ≡ returned (some created.link)) × (created.short_url ≡ codes "/s/" ++ created.link.code)
unfolding present
present-link (returned none) created e = absurd (none-ne-some created (returned-injective _ _ e))
present-link (returned (some r)) created e =
    let same = some_is _ created (returned-injective _ _ e) in
    (
      ap (λ (x : CreatedLink). returned (some x.link)) same,
      subst (λ (x : CreatedLink). x.short_url ≡ codes "/s/" ++ x.link.code) same refl,
    )
present-link short_code_conflict created e = ground arith
present-link backend_failure created e = ground arith

create-found :
    (t : MemoryRepository) (url : Bytes) (expires_at : Option ℤ) (owner_id : ℕ)
    (custom_code : Option Bytes) (now : ℤ) (r : ShortLinkRecord)
    → (create t url expires_at owner_id custom_code now).1 ≡ returned (some r)
    → let code = choose_code custom_code t.next_id in
      (new_record t.next_id owner_id code url expires_at now ≡ r)
      × (view (create t url expires_at owner_id custom_code now).0 code
          ≡ some (new_record t.next_id owner_id code url expires_at now))
create-found t url expires_at owner_id custom_code now r e =
    let code = choose_code custom_code t.next_id in
    let (out, seen, _) = view-create t url expires_at owner_id custom_code now code in
    elim (Bool-cases (is_some (view t code))) [
      | inl taken ↦
          let clash : short_code_conflict ≡ returned (some r) = sym (rw taken at out) ∙ e in
          absurd (ground arith)
      | inr free ↦ (
        some_is _ r (returned-injective _ _ (sym (rw free at out) ∙ e)),
        rw (free, beq_self code) at seen,
      )
    ]

judge-live :
    (r : ShortLinkRecord) (now : ℤ)
    → r.status ≡ Status.active
    → LiveAt r.expires_at now
    → (judge (some r) now).0
      ≡ record { status = RedirectStatus.success; original_url = some r.original_url }
unfolding judge is_expired
judge-live r now active live = ground (arith, (has_ended-LiveAt r.expires_at now).1 live)

-- A link that the service has created over the memory repository has the owner and the target that
-- were asked for, and the code that was asked for, or the next id in base 62 if none was; its short
-- URL ends in its code. In the state that the creation leaves, `resolve` answers the code with the
-- target at every time before the end that was given, or at every time if none was.
pub created-resolves :
    (t : MemoryRepository) (url : Bytes) (expires_at : Option ℤ) (owner_id : ℕ)
    (custom_code : Option Bytes) (now now' : ℤ) (created : CreatedLink)
    → (create_short_link memory_repository url expires_at owner_id custom_code now now' t).1
      ≡ returned (some created)
    → (created.link.owner_id ≡ owner_id)
      × (created.link.original_url ≡ url)
      × ((code : Bytes) → custom_code ≡ some code → created.link.code ≡ code)
      × (custom_code ≡ none → created.link.code ≡ encode_base62 t.next_id)
      × (created.short_url ≡ codes "/s/" ++ created.link.code)
      × ((later later' : ℤ) (m : Option ShortLinkMetrics)
          → LiveAt expires_at later'
          → (resolve memory_repository created.link.code later later'
              (create_short_link memory_repository url expires_at owner_id custom_code now now' t).0
              m).2
            ≡ returned (record { status = RedirectStatus.success; original_url = some url }))
unfolding create_short_link resolve finish find_by_code choose_code
created-resolves t url expires_at owner_id custom_code now now' created e =
    elim (Bool-cases (is_acceptable url expires_at owner_id custom_code now)) [
      | inr bad ↦
          absurd (none-ne-some created (returned-injective _ _ (rw (create_short_link, bad) at e)))
      | inl good ↦
          let (out, short) = present-link _ created (rw (create_short_link, good) at e) in
          let (r_is, seen) =
            create-found t url expires_at owner_id custom_code now' created.link out in
          let code_is : created.link.code ≡ choose_code custom_code t.next_id =
            ap (λ (r : ShortLinkRecord). r.code) (sym r_is) in
          (
            ap (λ (r : ShortLinkRecord). r.owner_id) (sym r_is),
            ap (λ (r : ShortLinkRecord). r.original_url) (sym r_is),
            λ code asked. code_is ∙ ap (λ c. choose_code c t.next_id) asked,
            λ unasked. code_is ∙ ap (λ c. choose_code c t.next_id) unasked,
            short,
            λ later later' m live.
                rw (create_short_link, good, find_by_code, code_is, seen)
                  (ap returned (judge-live _ later' refl live)),
          )
    ]

custom_chars : (s : Bytes) → All IsAlphanumeric s → all_of is_code_char s ≡ true
custom_chars [] h = refl
custom_chars (c ∷ s) (d, h) = ground (arith, custom_chars s h)

-- A code generated from an id of 64 bits passes the check on custom codes, unless it is a reserved
-- word.
pub is_valid_custom_code-encode_base62 :
    (id : ℕ)
    → id < 2 ^ 64
    → is_valid_custom_code (encode_base62 id)
      ≡ all_of (λ value. not (encode_base62 id == value)) reserved
unfolding is_valid_custom_code
is_valid_custom_code-encode_base62 id h =
    let (long, short) = length-encode_base62 id 11 (omega arith) in
    rw (custom_chars (encode_base62 id) (encode_base62-IsAlphanumeric id))
      (ground (arith, long, short))
