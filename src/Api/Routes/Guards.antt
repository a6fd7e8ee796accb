-- ===== src/Api/Routes/Guards.antt =====
-- The guards of the routes of src/ShortLinkHttpApi.cpp that change links.
-- A handler's outcome: it ran for the user that was found, or there was none.
use hao_short_link.Prelude.{
  Bool, Bool-cases, Bytes, Option, bytes_eq, false, if◌then◌else◌, inl, inr, nat_eq, none, refl,
  some, true, ℕ, ◌≡◌, ◌⊎◌,
}
use hao_short_link.Prelude.Int.{int_eq, ℤ}
use hao_short_link.Prelude.Map.{pair_eq}
use hao_short_link.Account.Repository.{AuthRepository, User}
use hao_short_link.Account.Service.{Digests, refuse}
use hao_short_link.Api.Auth.{
  AuthHttpConfig, authenticate_request, require_authenticated_user, require_found,
}
use hao_short_link.Api.Auth.Sessions.{error_status, refused_status}
use hao_short_link.Api.Json.{JsonValues}
use hao_short_link.Api.Origin.{is_same_origin_request, require_same_origin_request}
use hao_short_link.Api.Routes.{
  authenticate_user, go_on, mark_found, with_origin_and_user, with_user,
}
use hao_short_link.Http.Request.{HttpRequest}
use hao_short_link.Http.Response.{HttpResponse, HttpStatusCode}
use hao_short_link.ShortLink.Repository.{ShortLinkRepository}

abbrev Decides {ℓ} :
    {B : Type ℓ} → (HttpResponse → B) → (User → HttpResponse → B) → Option User → B → Type ℓ
Decides refuse handler found done =
    ((user : User) × (checked : HttpResponse) × (found ≡ some user) × (done ≡ handler user checked))
    ⊎ ((refused : HttpResponse) × (refused.status_code ≡ HttpStatusCode.unauthorized)
        × (done ≡ refuse refused))

found-Decides {ℓ} :
    {B : Type ℓ} (refuse : HttpResponse → B) (handler : User → HttpResponse → B) (r : HttpResponse)
    (found : Option User)
    → Decides refuse handler found (go_on refuse handler (mark_found (require_found r found)))
unfolding mark_found require_found
found-Decides refuse handler r none = inr (_, error_status _ _ _ _, refl)
found-Decides refuse handler r (some user) = inl (user, _, refl, refl)

-- An answer of the guards: 403 for another origin, 401 without a session.
abbrev pub IsRefusal : HttpResponse → Type 0
IsRefusal r =
    (r.status_code ≡ HttpStatusCode.forbidden) ⊎ (r.status_code ≡ HttpStatusCode.unauthorized)

chosen :
    (b : Bool) (x y : HttpResponse)
    → let done : HttpResponse × Bool = if b then (x, true) else (y, false) in
      done.1 ≡ true → b ≡ true
chosen true x y e = refl
chosen false x y e = e

own_origin :
    (request : HttpRequest) (r : HttpResponse)
    → (require_same_origin_request request r).1 ≡ true
    → is_same_origin_request request ≡ true
unfolding require_same_origin_request
own_origin request r e = chosen (is_same_origin_request request) _ _ e

module _ {A T J : Type 0} (accounts : AuthRepository A) (digests : Digests) (ttl : ℤ)
    (repository : ShortLinkRepository T) (json : JsonValues J) (config : AuthHttpConfig)
    (before_1970 : ℕ → Bytes) where
  -- A request that the same-origin check lets pass, with the cookie of a session of the user.
  pub record Comes (request : HttpRequest) (now : ℤ) (a : A) (user : User) : Type 0 where
    pub own_page : is_same_origin_request request ≡ true
    pub session :
        authenticate_request accounts digests ttl json config before_1970 request now a ≡ some user

  with_user-cases {ℓ} :
      {B : Type ℓ} (request : HttpRequest) (now : ℤ) (r : HttpResponse) (a : A)
      (refuse : HttpResponse → B) (handler : User → HttpResponse → B)
      → Decides refuse handler
          (authenticate_request accounts digests ttl json config before_1970 request now a)
          (with_user accounts digests ttl repository json config before_1970 request now r a refuse
            handler)
  unfolding with_user authenticate_user require_authenticated_user
  with_user-cases request now r a refuse handler = found-Decides refuse handler r _

  -- Behind both checks the handler runs for a request that comes from the user, and any other is
  -- answered with an error.
  pub with_origin_and_user-cases {ℓ} :
      {B : Type ℓ} (request : HttpRequest) (now : ℤ) (r : HttpResponse) (a : A)
      (refuse : HttpResponse → B) (handler : User → HttpResponse → B)
      → let done =
          with_origin_and_user accounts digests ttl repository json config before_1970 request now r
            a refuse handler in
        ((user : User) × (checked : HttpResponse) × Comes request now a user
          × (done ≡ handler user checked))
        ⊎ ((refused : HttpResponse) × IsRefusal refused × (done ≡ refuse refused))
  unfolding with_origin_and_user
  with_origin_and_user-cases request now r a refuse handler =
      elim (Bool-cases (require_same_origin_request request r).1) [
        | inl same ↦
            rw same
              (elim (with_user-cases request now (require_same_origin_request request r).0 a refuse
                handler) [
                  | inl (user, checked, known, e) ↦ inl (
                    user,
                    checked,
                    record { own_page = own_origin request r same; session = known },
                    e,
                  )
                  | inr (refused, status, e) ↦ inr (refused, inr status, e)
                ])
        | inr other ↦ rw other (
            inr (
              (require_same_origin_request request r).0,
              inl (refused_status request r other),
              refl,
            ))
      ]
