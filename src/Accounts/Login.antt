-- ===== src/Accounts/Login.antt =====
-- Who is logged in, and that a user who has registered is.
use forge_gate.Base.{String, true, false, some, ◌≡◌, refl, ◌=ₛ◌}
use forge_gate.Js.Text.{or_text?}
use forge_gate.Accounts.{
  LoginDto, LoginContext, User, Tokens, Session, AuthReply, done, Fresh, Client,
}
use forge_gate.Accounts.Sessions.{view_of, check_verified, check_login, login_checked, login}

-- A reply that is an exception.
abbrev pub IsRefused {ℓ} : {A : Type ℓ} → AuthReply A → Type 0
IsRefused (done a) = ⊥
IsRefused _ = Unit

-- The reply is a session of the user.
abbrev pub IsSessionOf : User → AuthReply Session → Type 0
IsSessionOf u r =
    (tokens : Tokens) × (r
      ≡ done (record { user = view_of u u.tenant u.role.name; tokens = tokens }))

module _ (c : Client) where
  -- The user has a password, which is the given one, and is active.
  abbrev pub MayLogin : User → (password : String) → Type 0
  MayLogin u password =
      ((or_text? u.password_hash "" =ₛ "") ≡ false)
      × (c.verify_hash (or_text? u.password_hash "") password ≡ some true)
      × (u.is_active ≡ true)

  login_done :
      (u : User) (ctx : LoginContext) (fresh : Fresh) (db : c.Db)
      → IsSessionOf u (login_checked c (done u) ctx fresh db).0
  unfolding login_checked
  login_done u ctx fresh db = (_, refl)

  check_login-done :
      (u : User) (password : String)
      → MayLogin u password
      → check_login c (some u) password ≡ done u
  unfolding check_login check_verified
  check_login-done u password may = rw may.0 (rw (may.1, check_verified) (rw may.2 refl))

  pub login_of_found :
      (u : User) (dto : LoginDto) (ctx : LoginContext) (fresh : Fresh) (db : c.Db)
      → c.find_user dto.email db ≡ some u
      → MayLogin u dto.password
      → IsSessionOf u (login c dto ctx fresh db).0
  unfolding login
  login_of_found u dto ctx fresh db there may =
      rw (there, login)
        (rw (check_login-done u dto.password may, login) (login_done u ctx fresh db))
