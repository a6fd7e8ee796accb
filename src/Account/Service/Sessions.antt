-- ===== src/Account/Service/Sessions.antt =====
-- Who a session's token stands for, over any repository that keeps the contract.
use hao_short_link.Prelude.{
  Bool, Bool-cases, Bytes, Option, Option-cases, [], ap, arith, bytes_beq_iff, bytes_eq, false,
  if◌then◌else◌, inl, inr, is_empty, length, nat_eq, none, refl, some, sym, true, ℕ, ◌&&◌, ◌*◌,
  ◌==◌, ◌∙◌, ◌∷◌, ◌≡◌,
}
use hao_short_link.Prelude.Int.{int_eq, leb_ℤ, ℤ, ◌+ℤ◌}
use hao_short_link.Prelude.Map.{pair_eq}
use hao_short_link.Account.Repository.{
  AuthRepository, Credentials, IsAuthRepository, User, is_active, only_active,
}
use hao_short_link.Account.Service.{
  AuthenticatedSession, Digests, answer, answered, authenticate, create_session, generate_token,
  login, logout, normalize_username, stored_hash, to_hex, token_hash,
}
use hao_short_link.ShortLink.Record.{status_eq}
use mathlib.Core.Option.{none-ne-some}

length-to_hex : (bytes : Bytes) → length (to_hex bytes) ≡ 2 * length bytes
unfolding to_hex
length-to_hex [] = refl
length-to_hex (b ∷ rest) = omega (arith, length-to_hex rest)

both : {a b : Bool} → a && b ≡ true → (a ≡ true) × (b ≡ true)
both {a} {b} e = ground arith

module _ {T : Type 0} (repository : AuthRepository T) (digests : Digests) (ttl : ℤ)
    {Valid : T → Type 0} {user_of : ℕ → T → Option User}
    (laws : IsAuthRepository repository Valid user_of) where
  -- A session of an active user, as its token finds it.
  pub record Stands (user : User) (now : ℤ) (session : AuthenticatedSession) (t : T) : Type 0 where
    pub same_user : session.user ≡ user
    pub lasts : session.expires_at ≡ now +ℤ ttl
    pub finds :
        (now' : ℤ)
        → authenticate repository digests ttl session.token now' t
          ≡ (if leb_ℤ session.expires_at now' then none else some user)

  create_session-new :
      (user : User) (drawn : Bytes) (now : ℤ) (t : T) (session : AuthenticatedSession)
      → is_empty (token_hash digests (to_hex drawn)) ≡ false
      → (create_session repository digests ttl user (some drawn) now t).1 ≡ some session
      → record { user = user; token = to_hex drawn; expires_at = now +ℤ ttl } ≡ session
  unfolding create_session generate_token
  create_session-new user drawn now t session fine e = ground arith

  create_session-lost :
      (user : User) (drawn : Bytes) (now : ℤ) (t : T)
      → is_empty (token_hash digests (to_hex drawn)) ≡ true
      → (create_session repository digests ttl user (some drawn) now t).1 ≡ none
  unfolding create_session generate_token
  create_session-lost user drawn now t lost = ground arith

  create_session-finds :
      (user : User) (drawn : Bytes) (now now' : ℤ) (t : T)
      → length drawn ≡ 32
      → user_of user.id t ≡ some user
      → is_active user.status ≡ true
      → authenticate repository digests ttl
          (to_hex drawn)
          now'
          (repository.create_session user.id (token_hash digests (to_hex drawn)) (now +ℤ ttl) t)
        ≡ (if leb_ℤ (now +ℤ ttl) now' then none else some user)
  unfolding authenticate only_active
  create_session-finds user drawn now now' t size here live =
      let digest = token_hash digests (to_hex drawn) in
      rw (laws.starts user.id digest digest (now +ℤ ttl) now' t, here, live)
        (ground (arith, bytes_beq_iff digest digest, length-to_hex drawn))

  pub create_session-Stands :
      (user : User) (drawn : Bytes) (now : ℤ) (t : T) (session : AuthenticatedSession)
      → length drawn ≡ 32
      → user_of user.id t ≡ some user
      → is_active user.status ≡ true
      → (create_session repository digests ttl user (some drawn) now t).1 ≡ some session
      → Stands user now session (create_session repository digests ttl user (some drawn) now t).0
  unfolding create_session generate_token authenticate only_active
  create_session-Stands user drawn now t session size here live e =
      elim (Bool-cases (is_empty (token_hash digests (to_hex drawn)))) [
        | inl lost ↦
            absurd (none-ne-some session (sym (create_session-lost user drawn now t lost) ∙ e))
        | inr fine ↦
            let new = create_session-new user drawn now t session fine e in
            rw (sym new, fine)
              (record {
                same_user = refl;
                lasts = refl;
                finds = λ now'. create_session-finds user drawn now now' t size here live;
              })
      ]

  -- In a repository that keeps the contract, after a token of 64 characters is logged out, it finds no
  -- user any more, nor does a token with the same digest; every other token finds whom it found
  -- before.
  pub logout-authenticate :
      (token other : Bytes) (now now' : ℤ) (t : T)
      → length token ≡ 64
      → authenticate repository digests ttl other now' (logout repository digests ttl token now t)
        ≡ (if token_hash digests token == token_hash digests other
            then none
            else authenticate repository digests ttl other now' t)
  unfolding authenticate logout
  logout-authenticate token other now now' t size =
      ground (arith, laws.revokes (token_hash digests token) (token_hash digests other) now now' t)

  pub answered-session :
      (x : T × Option AuthenticatedSession) → (answered repository digests ttl x).1.session ≡ x.1
  unfolding answered
  answered-session (t, none) = refl
  answered-session (t, some session) = refl

  pub answered-state :
      (x : T × Option AuthenticatedSession) → (answered repository digests ttl x).0 ≡ x.0
  unfolding answered
  answered-state (t, session) = refl

  login-known :
      (username password drawn : Bytes) (now : ℤ) (t : T) (c : Credentials)
      → repository.find_credentials (normalize_username username) t ≡ some c
      → is_active c.user.status ≡ true
      → digests.verify password c.password_hash ≡ true
      → login repository digests ttl username password (some drawn) now t
        ≡ answered repository digests ttl
            (create_session repository digests ttl c.user (some drawn) now t)
  unfolding login stored_hash
  login-known username password drawn now t c found live right =
      rw (login, found, live) (rw (found, right) refl)

  login-unknown :
      (username password drawn : Bytes) (now : ℤ) (t : T)
      → repository.find_credentials (normalize_username username) t ≡ none
      → (login repository digests ttl username password (some drawn) now t).1.session ≡ none
  unfolding login
  login-unknown username password drawn now t unknown = rw (login, unknown) refl

  login-refused :
      (username password drawn : Bytes) (now : ℤ) (t : T) (c : Credentials)
      → repository.find_credentials (normalize_username username) t ≡ some c
      → is_active c.user.status && digests.verify password c.password_hash ≡ false
      → (login repository digests ttl username password (some drawn) now t).1.session ≡ none
  unfolding login stored_hash
  login-refused username password drawn now t c found wrong =
      rw (login, found) (ground (arith, wrong))

  -- In a valid state of a repository that keeps the contract, a login that succeeds was made with the
  -- password of an active user, and its token finds that user exactly until the session ends, where
  -- 32 bytes are drawn for a token.
  pub login-authenticate :
      (username password drawn : Bytes) (now now' : ℤ) (t : T) (session : AuthenticatedSession)
      → length drawn ≡ 32
      → Valid t
      → (login repository digests ttl username password (some drawn) now t).1
        ≡ answer (some session)
      → let after = (login repository digests ttl username password (some drawn) now t).0 in
        (c : Credentials) × (repository.find_credentials (normalize_username username) t ≡ some c)
        × (digests.verify password c.password_hash ≡ true)
        × (is_active c.user.status ≡ true)
        × (session.expires_at ≡ now +ℤ ttl)
        × (authenticate repository digests ttl session.token now' after
            ≡ (if leb_ℤ session.expires_at now' then none else some c.user))
  unfolding login answered
  login-authenticate username password drawn now now' t session size valid e =
      elim (Option-cases (repository.find_credentials (normalize_username username) t)) [
        | inl unknown ↦
            absurd
              (none-ne-some session (misses (login-unknown username password drawn now t unknown)))
        | inr (c, found) ↦
            elim (Bool-cases (is_active c.user.status && digests.verify password c.password_hash)) [
              | inr wrong ↦ absurd (
                  none-ne-some session
                    (misses (login-refused username password drawn now t c found wrong)))
              | inl good ↦
                  let (live, right) = both good in
                  let made = create_session repository digests ttl c.user (some drawn) now t in
                  let known = login-known username password drawn now t c found live right in
                  let stands =
                    create_session-Stands c.user drawn now t session size
                      (laws.credentials_of (normalize_username username) t c valid found) live
                      (sym (answered-session made)
                        ∙ ap (λ x. x.1.session) (sym known)
                        ∙ ap (λ x. x.session) e) in
                  (
                    c,
                    found,
                    right,
                    live,
                    stands.lasts,
                    ap (authenticate repository digests ttl session.token now')
                          (ap (λ x. x.0) known ∙ answered-state made)
                        ∙ stands.finds now',
                  )
            ]
      ]
    where
      misses :
          (login repository digests ttl username password (some drawn) now t).1.session ≡ none
          → none ≡ some session
      misses gone = sym gone ∙ ap (λ x. x.session) e
