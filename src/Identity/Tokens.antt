-- ===== src/Identity/Tokens.antt =====
-- The token of a login, and what `whoami` makes of it.
use alos_backend.Prelude.{
  String, ◌≡◌, refl, sym, ◌∙◌, ap, inl, inr, Option, none, some, false, [], ◌∷◌, ◌==◌, string_eq,
  beq_refl, Bool-cases, ok,
}
use alos_backend.Prelude.Dict.{Dict, get}
use alos_backend.Prelude.Entries.{Every, get-Every}
use alos_backend.Prelude.Outcomes.{or_raise-ok, ok-eq}
use alos_backend.Authorization.{Principal}
use alos_backend.Identity.Directory.{principal_for}
use alos_backend.Identity.Service.{
  Crypto, AccountRecord, AuthService, Response, serialize_principal, value_or, invalid_credentials,
  account_disabled,
}
use alos_backend.Identity.Passwords.{verify_password}
use alos_backend.Identity.Sessions.{issue_token, checked_account, login, resolve_account, whoami}

-- Accounts with the same token are one.
abbrev pub HaveTokens : Crypto → Dict String AccountRecord → Type 0
HaveTokens crypto accounts =
    Every
      (λ _ account.
        Every (λ _ other. issue_token crypto other ≡ issue_token crypto account → other ≡ account)
          accounts)
      accounts

resolve_account-own :
    (crypto : Crypto) (email : String) (account : AccountRecord)
    (accounts : Dict String AccountRecord)
    → Every
        (λ _ other. issue_token crypto other ≡ issue_token crypto account → other ≡ account)
        accounts
    → get email accounts ≡ some account
    → resolve_account crypto (issue_token crypto account) accounts ≡ some account
unfolding resolve_account get
resolve_account-own crypto email account [] only at = cc
resolve_account-own crypto email account ((e, other) ∷ rest) only at =
    elim (Bool-cases (issue_token crypto other == issue_token crypto account)) [
      | inl same ↦ rw same (
          ap some (
            only.0
              ((string_eq.beq_iff (issue_token crypto other) (issue_token crypto account)).0 same)))
      | inr differs ↦ elim (Bool-cases (email == e)) [
        | inl this ↦
            (let found : some other ≡ some account = rw this at at in
              let equal : other ≡ account = cc in
              let wrong = rw (equal, beq_refl (issue_token crypto account)) at differs in cc)
        | inr later ↦
            rw differs (resolve_account-own crypto email account rest only.1 (rw later at at))
      ]
    ]

token_given :
    (crypto : Crypto) (account : AccountRecord) → (issue_token crypto account == "") ≡ false
unfolding issue_token
token_given crypto account = elim (Bool-cases (issue_token crypto account == "")) [
  | inr given ↦ given
  | inl empty ↦ (let wrong = (string_eq.beq_iff (issue_token crypto account) "").0 empty in cc)
]

account-whoami :
    (crypto : Crypto) (email : String) (account : AccountRecord) (known : Principal)
    (s : AuthService)
    → HaveTokens crypto s.accounts
    → get email s.accounts ≡ some account
    → principal_for account.actor_id account.workspace_id s.directory ≡ some known
    → whoami crypto (issue_token crypto account) s
      ≡ (ok (serialize_principal known (some account.email) none), s)
unfolding whoami
account-whoami crypto email account known s apart at found =
    let own =
      resolve_account-own crypto email account s.accounts
        (get-Every _ email account s.accounts apart at) at in
    rw (token_given crypto account, own, found) refl

checked-account :
    (crypto : Crypto) (password : String) (o : Option AccountRecord) (account : AccountRecord)
    → checked_account crypto password o ≡ some account
    → o ≡ some account
checked-account crypto password none account h = cc
checked-account crypto password (some other) account h =
    elim (Bool-cases (verify_password crypto.derive password other.password_hash)) [
      | inl verified ↦ rw verified at h
      | inr wrong_one ↦ (let wrong = rw wrong_one at h in cc)
    ]

-- Where accounts with the same token are one, `whoami` knows the token of a login: it gives the
-- answer of the login without the token and its type, which is bearer, and neither of them changes
-- the service.
pub login-whoami :
    (crypto : Crypto) (given : Option String) (password : String) (s s' : AuthService)
    (body : Response)
    → HaveTokens crypto s.accounts
    → login crypto given password s ≡ (ok body, s')
    → (token : String) × (body.access_token ≡ some token)
      × (body.token_type ≡ some "bearer")
      × (whoami crypto token s' ≡ (ok (record body { token_type = none; access_token = none }), s'))
      × (s' ≡ s)
unfolding login serialize_principal
login-whoami crypto given password s s' body apart h =
    let (account, checked, h1) =
      or_raise-ok
        (checked_account crypto password (get (crypto.normal (value_or "" given)) s.accounts))
        invalid_credentials _ s s' body h in
    let (known, found, h2) =
      or_raise-ok (principal_for account.actor_id account.workspace_id s.directory) account_disabled
        _ s s' body h1 in
    let email = crypto.normal (value_or "" given) in
    let at = checked-account crypto password (get email s.accounts) account checked in
    let told = account-whoami crypto email account known s apart at found in
    let answer = ok-eq h2 in
    let same : s ≡ s' = ap (λ m. m.1) h2 in
    (
      issue_token crypto account,
      ap (λ (b : Response). b.access_token) (sym answer),
      ap (λ (b : Response). b.token_type) (sym answer),
      ap (whoami crypto (issue_token crypto account)) (sym same)
          ∙ told
          ∙ ap (λ (b : Response). (ok (record b { token_type = none; access_token = none }), s))
              answer
          ∙ ap
              (λ (t : AuthService).
                (ok (record body { token_type = none; access_token = none }), t))
              same,
      sym same,
    )
