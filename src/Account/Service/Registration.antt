-- ===== src/Account/Service/Registration.antt =====
-- What a registration leaves, over any repository that keeps the contract.
use hao_short_link.Prelude.{
  Bool-cases, Bytes, Option, Option-cases, [], ap, arith, bytes_eq, if◌then◌else◌, inl, inr, length,
  nat_eq, none, refl, some, sym, true, ℕ, ◌+◌, ◌∙◌, ◌∷◌, ◌≡◌, ◌≤◌, ◌⊎◌,
}
use hao_short_link.Prelude.Int.{int_eq, leb_ℤ, ℤ, ◌+ℤ◌}
use hao_short_link.Prelude.Map.{pair_eq}
use hao_short_link.Access.Event.{refused}
use hao_short_link.Account.Repository.{
  AuthRepository, CreateUserStatus, IsAuthRepository, User, is_active,
}
use hao_short_link.Account.Service.{
  AuthenticatedSession, Digests, answer, answered, authenticate, create_session, generate_token,
  is_valid_password, is_valid_username, normalize_username, register_user, to_hex, token_hash,
}
use hao_short_link.Account.Service.Sessions.{
  answered-session, answered-state, create_session-Stands,
}
use mathlib.Core.Option.{none-ne-some}

status-cases :
    (status : CreateUserStatus)
    → (status ≡ CreateUserStatus.created) ⊎ (status ≡ CreateUserStatus.conflict)
status-cases CreateUserStatus.created = inl refl
status-cases CreateUserStatus.conflict = inr refl

-- The second letter is the small one of the first, a capital from A to Z.
abbrev pub IsSmallOf : ℕ → ℕ → Type 0
IsSmallOf c d = (b'A' ≤ c) × (c ≤ b'Z') × (d + b'A' ≡ c + b'a')

-- The names differ in capitals only: letter by letter they are the same, or one is the small letter
-- of the other.
abbrev pub SameButCase : Bytes → Bytes → Type 0
SameButCase [] [] = Unit {0}
SameButCase [] (d ∷ t) = ⊥
SameButCase (c ∷ s) [] = ⊥
SameButCase (c ∷ s) (d ∷ t) = ((c ≡ d) ⊎ (IsSmallOf c d ⊎ IsSmallOf d c)) × SameButCase s t

normalize_username-SameButCase :
    (s t : Bytes) → SameButCase s t → normalize_username s ≡ normalize_username t
unfolding normalize_username
normalize_username-SameButCase [] [] h = refl
normalize_username-SameButCase [] (d ∷ t) h = elim h [ ]
normalize_username-SameButCase (c ∷ s) [] h = elim h [ ]
normalize_username-SameButCase (c ∷ s) (d ∷ t) (letter, h) =
    ground (arith, normalize_username-SameButCase s t h)

module _ {T : Type 0} (repository : AuthRepository T) (digests : Digests) (ttl : ℤ)
    {Valid : T → Type 0} {user_of : ℕ → T → Option User}
    (laws : IsAuthRepository repository Valid user_of) where
  create_session-credentials :
      (name : Bytes) (user : User) (drawn : Bytes) (now : ℤ) (t : T)
      → repository.find_credentials name
          (create_session repository digests ttl user (some drawn) now t).0
        ≡ repository.find_credentials name t
  unfolding create_session generate_token
  create_session-credentials name user drawn now t =
      ground
        (arith, laws.starts_no_user name user.id (token_hash digests (to_hex drawn)) (now +ℤ ttl) t)

  register_user-creates :
      (username password hash drawn : Bytes) (now now' : ℤ) (t : T) (session : AuthenticatedSession)
      → (register_user repository digests ttl username password
          (some hash)
          (some drawn)
          now
          now'
          t).1
        ≡ answer (some session)
      → let made = repository.create_user username (normalize_username username) hash now t in
        (user : User) × (made.1.user ≡ some user)
        × (register_user repository digests ttl username password
              (some hash)
              (some drawn)
              now
              now'
              t
            ≡ answered repository digests ttl
                (create_session repository digests ttl user (some drawn) now' made.0))
  unfolding register_user
  register_user-creates username password hash drawn now now' t session e =
      let made = repository.create_user username (normalize_username username) hash now t in
      elim (Bool-cases (is_valid_username username)) [
        | inr bad ↦ absurd (none-ne-some session (misses (rw (register_user, bad) refl)))
        | inl named ↦ elim (Bool-cases (is_valid_password password)) [
          | inr bad ↦ absurd (none-ne-some session (misses (rw (register_user, named, bad) refl)))
          | inl strong ↦ elim (Option-cases made.1.user) [
            | inl taken ↦
                absurd
                  (none-ne-some session (misses (rw (register_user, named, strong, taken) refl)))
            | inr (user, new) ↦ elim (status-cases made.1.status) [
              | inr refused ↦ absurd (
                  none-ne-some session
                    (misses (rw (register_user, named, strong, new, refused) refl)))
              | inl fine ↦ (user, new, rw (register_user, named, strong, new, fine) refl)
            ]
          ]
        ]
      ]
    where
      misses :
          (register_user repository digests ttl username password
              (some hash)
              (some drawn)
              now
              now'
              t).1.session
            ≡ none
          → none ≡ some session
      misses gone = sym gone ∙ ap (λ x. x.session) e

  -- A registration that succeeds leaves, in a repository that keeps the contract, an active user. Every
  -- name that differs from the registered one in the case of its letters A to Z only, looked up as a
  -- login does, finds that user with the hash of the password; and the token of the registration finds
  -- the user exactly until the session ends, where 32 bytes are drawn for it.
  pub register_user-authenticate :
      (username password hash drawn again : Bytes) (now now' now'' : ℤ) (t : T)
      (session : AuthenticatedSession)
      → length drawn ≡ 32
      → SameButCase again username
      → (register_user repository digests ttl username password
          (some hash)
          (some drawn)
          now
          now'
          t).1
        ≡ answer (some session)
      → let after =
          (register_user repository digests ttl username password
            (some hash)
            (some drawn)
            now
            now'
            t).0 in
        (repository.find_credentials (normalize_username again) after
          ≡ some (record { user = session.user; password_hash = hash }))
        × (is_active session.user.status ≡ true)
        × (session.expires_at ≡ now' +ℤ ttl)
        × (authenticate repository digests ttl session.token now'' after
            ≡ (if leb_ℤ session.expires_at now'' then none else some session.user))
  register_user-authenticate username password hash drawn again now now' now'' t session size alike
        e =
      let same = normalize_username-SameButCase again username alike in
      let (user, new, known) =
        register_user-creates username password hash drawn now now' t session e in
      let (here, live, filed) =
        laws.creates username (normalize_username username) hash now t user new in
      let start = (repository.create_user username (normalize_username username) hash now t).0 in
      let made = create_session repository digests ttl user (some drawn) now' start in
      let stands =
        create_session-Stands repository digests ttl laws user drawn now' start session size here
          live
          (sym (answered-session repository digests ttl laws made)
            ∙ ap (λ x. x.1.session) (sym known)
            ∙ ap (λ x. x.session) e) in
      let after = ap (λ x. x.0) known ∙ answered-state repository digests ttl laws made in
      rw (stands.same_user, same)
        (
          ap (repository.find_credentials (normalize_username username)) after
              ∙ create_session-credentials (normalize_username username) user drawn now' start
              ∙ filed,
          live,
          stands.lasts,
          ap (authenticate repository digests ttl session.token now'') after ∙ stands.finds now'',
        )
