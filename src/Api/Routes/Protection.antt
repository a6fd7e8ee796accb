-- ===== src/Api/Routes/Protection.antt =====
-- Whose links the routes of src/ShortLinkHttpApi.cpp change, over the memory repository.
use hao_short_link.Prelude.{Bytes, ap, bytes_eq, inl, inr, nat_eq, some, ℕ, ◌∙◌, ◌≡◌, ◌⊎◌}
use hao_short_link.Prelude.Int.{int_eq, ℤ}
use hao_short_link.Prelude.Map.{pair_eq}
use hao_short_link.Account.Repository.{AuthRepository, User}
use hao_short_link.Account.Service.{Digests}
use hao_short_link.Api.Auth.{AuthHttpConfig}
use hao_short_link.Api.Json.{HandlerReply, JsonValues, replied}
use hao_short_link.Api.Links.{code_of, handle_update}
use hao_short_link.Api.Links.Ownership.{answer_update-protects, read_change-owner}
use hao_short_link.Api.Routes.{put_link}
use hao_short_link.Api.Routes.Guards.{Comes, with_origin_and_user-cases}
use hao_short_link.Http.Request.{HttpRequest}
use hao_short_link.Http.Response.{HttpResponse}
use hao_short_link.ShortLink.Memory.{MemoryRepository}
use hao_short_link.ShortLink.Memory.Contract.{memory_repository}
use hao_short_link.ShortLink.Memory.Invariant.{view}
use hao_short_link.ShortLink.Record.{ShortLinkRecord}

module _ {A J : Type 0} (accounts : AuthRepository A) (digests : Digests) (ttl : ℤ)
    (json : JsonValues J) (config : AuthHttpConfig) (before_1970 : ℕ → Bytes) where
  -- Over the memory repository, after a PUT for a link every stored link is as it was, but for one
  -- under the code of the request whose owner is the user of the session that the request came with,
  -- where the same-origin check let the request pass.
  pub put_link-protects :
      (request : HttpRequest) (now now' : ℤ) (r : HttpResponse) (a : A) (t : MemoryRepository)
      (code : Bytes) (link : ShortLinkRecord)
      → view t code ≡ some link
      → let done =
          put_link accounts digests ttl memory_repository json config before_1970 request now now' r
            (a, t) in
        (view done.0 code ≡ some link)
        ⊎ ((user : User) × Comes accounts digests ttl memory_repository json config before_1970
              request now a user
            × (user.id ≡ link.owner_id)
            × (code_of request ≡ code))
  unfolding put_link handle_update
  put_link-protects request now now' r a t code link here =
      elim (with_origin_and_user-cases accounts digests ttl memory_repository json config
        before_1970 request now r a (λ refusal. (t, replied refusal))
        (λ user checked.
          handle_update memory_repository json before_1970 request user.id now' checked t)) [
            | inr (refusal, is, e) ↦
                inl (ap (λ (x : MemoryRepository × HandlerReply). view x.0 code) e ∙ here)
            | inl (user, checked, comes, e) ↦
                elim (answer_update-protects json before_1970 (code_of request) code user.id _ now'
                  checked t link (read_change-owner json before_1970 user.id _) here) [
                    | inl same ↦
                        inl (ap (λ (x : MemoryRepository × HandlerReply). view x.0 code) e ∙ same)
                    | inr (own, at) ↦ inr (user, comes, own, at)
                  ]
          ]
