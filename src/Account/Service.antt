-- ===== src/Account/Service.antt =====
-- apps/shortlink_server: src/AuthService.cpp and its header. What OpenSSL and the password hasher
-- answer is an argument: the hash of a new password, the bytes drawn for a token, the check of a
-- password, and the digest. So is the clock.
pub mod Sessions
pub mod Registration
pub mod Tests
use hao_short_link.Prelude.{
  Bool, Bytes, Option, [], all_of, bytes_eq, false, if◌then◌else◌, is_empty, leb, length, ltb,
  nat_eq, none, not, some, ℕ, ◌%◌, ◌&&◌, ◌+◌, ◌/◌, ◌==◌, ◌||◌, ◌∷◌,
}
use hao_short_link.Prelude.Int.{int_eq, ℤ, ◌+ℤ◌}
use hao_short_link.Prelude.Map.{pair_eq}
use hao_short_link.Account.Repository.{
  AuthRepository, CreateUserStatus, Credentials, User, is_active,
}
use hao_short_link.ShortLink.Record.{status_eq}

abbrev hex_digit : ℕ → ℕ
hex_digit n = if ltb n 10 then 48 + n else 87 + n

unfoldable pub to_hex : Bytes → Bytes
to_hex [] = []
to_hex (b ∷ rest) = hex_digit (b / 16) ∷ hex_digit (b % 16) ∷ to_hex rest

abbrev is_ascii_letter : ℕ → Bool
is_ascii_letter ch = (leb 65 ch && leb ch 90) || (leb 97 ch && leb ch 122)

abbrev is_name_char : ℕ → Bool
is_name_char ch = is_ascii_letter ch || (leb 48 ch && leb ch 57) || (ch == 95) || (ch == 45)

abbrev is_name : Bytes → Bool
is_name [] = false
is_name (first ∷ rest) = is_ascii_letter first && all_of is_name_char rest

unfoldable pub is_valid_username : Bytes → Bool
is_valid_username username =
    not (ltb (length username) 3 || ltb 32 (length username)) && is_name username

unfoldable pub is_valid_password : Bytes → Bool
is_valid_password password = leb 10 (length password) && leb (length password) 128

unfoldable pub normalize_username : Bytes → Bytes
normalize_username [] = []
normalize_username (ch ∷ rest) =
    (if leb 65 ch && leb ch 90 then ch + 32 else ch) ∷ normalize_username rest

pub data ResultStatus : Type 0 where
  success invalid_username invalid_password username_conflict invalid_credentials error :
      ResultStatus

pub record AuthenticatedSession : Type 0 where
  pub user : User
  pub token : Bytes
  pub expires_at : ℤ

pub record AuthResult : Type 0 where
  pub status : ResultStatus
  pub session : Option AuthenticatedSession

abbrev pub refuse : ResultStatus → AuthResult
refuse status = record { status = status; session = none }

-- `session ? Result { Success, session } : Result { Error, nullopt }`
abbrev pub answer : Option AuthenticatedSession → AuthResult
answer none = refuse ResultStatus.error
answer (some session) = record { status = ResultStatus.success; session = some session }

-- The bytes of `RAND_bytes`, if it succeeds.
unfoldable pub generate_token : Option Bytes → Option Bytes
generate_token none = none
generate_token (some drawn) = some (to_hex drawn)

pub record Digests : Type 0 where
  pub sha256 : Bytes → Option Bytes
  pub verify : Bytes → Bytes → Bool
  pub dummy_password_hash : Bytes

unfoldable pub token_hash : Digests → Bytes → Bytes
token_hash digests token = elim (digests.sha256 token) [ none ↦ [] | some digest ↦ to_hex digest ]

module _ {T : Type 0} (repository : AuthRepository T) (digests : Digests) (ttl : ℤ) where
  unfoldable pub create_session : User → Option Bytes → ℤ → T → T × Option AuthenticatedSession
  create_session user drawn now t = elim (generate_token drawn) [
    | none ↦ (t, none)
    | some token ↦
        let expires_at = now +ℤ ttl in
        let digest = token_hash digests token in
        if is_empty digest then (t, none) else (
          repository.create_session user.id digest expires_at t,
          some (record { user = user; token = token; expires_at = expires_at }),
        )
  ]

  unfoldable pub answered : T × Option AuthenticatedSession → T × AuthResult
  answered (t, session) = (t, answer session)

  -- `hashed` is what `PasswordHasher::hash` gives for the password. The clock is read by the
  -- repository, and then for the session.
  unfoldable pub register_user :
      Bytes → Bytes → Option Bytes → Option Bytes → ℤ → ℤ → T → T × AuthResult
  register_user username password hashed drawn now now' t =
      if not (is_valid_username username)
      then (t, refuse ResultStatus.invalid_username)
      else if not (is_valid_password password)
      then (t, refuse ResultStatus.invalid_password)
      else elim hashed [
        | none ↦ (t, refuse ResultStatus.error)
        | some password_hash ↦
            let (t₁, made) =
              repository.create_user username (normalize_username username) password_hash now t in
            elim made.user [
              | none ↦ (t₁, refuse ResultStatus.username_conflict)
              | some user ↦ elim made.status [
                | CreateUserStatus.conflict ↦ (t₁, refuse ResultStatus.username_conflict)
                | CreateUserStatus.created ↦ answered (create_session user drawn now' t₁)
              ]
            ]
      ]

  unfoldable pub stored_hash : Option Credentials → Bytes
  stored_hash none = digests.dummy_password_hash
  stored_hash (some c) = c.password_hash

  unfoldable pub login : Bytes → Bytes → Option Bytes → ℤ → T → T × AuthResult
  login username password drawn now t =
      let found = repository.find_credentials (normalize_username username) t in
      let password_matches = digests.verify password (stored_hash found) in
      elim found [
        | none ↦ (t, refuse ResultStatus.invalid_credentials)
        | some c ↦
            if not (is_active c.user.status) || not password_matches
            then (t, refuse ResultStatus.invalid_credentials)
            else answered (create_session c.user drawn now t)
      ]

  unfoldable pub authenticate : Bytes → ℤ → T → Option User
  authenticate token now t =
      if not (length token == 64)
      then none
      else repository.find_user_by_session (token_hash digests token) now t

  unfoldable pub logout : Bytes → ℤ → T → T
  logout token now t =
      if length token == 64 then repository.revoke_session (token_hash digests token) now t else t
