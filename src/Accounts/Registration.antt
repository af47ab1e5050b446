-- ===== src/Accounts/Registration.antt =====
-- What a registration makes: a user who can log in, with the role that the request names.
use forge_gate.Base.{String, Option, none, some, ◌≡◌, refl, inl, inr, Option-cases}
use forge_gate.Js.Text.{or_text}
use forge_gate.Js.Json.{text, object, field, no_fields}
use forge_gate.Accounts.{
  AccountAudit, RegisterDto, Tenant, Role, NewUser, User, Session, done, Fresh, Client,
}
use forge_gate.Accounts.Laws.{Stored}
use forge_gate.Accounts.Sessions.{
  view_of, plain_audit, claims_of, found_or, generate_tokens, resolve_tenant, resolve_role,
  open_session, register_new, register,
}

module _ (c : Client) (stored : Stored c) where
  name-resolve_role :
      (name : String) (d : Option String) (db : c.Db) → (resolve_role c name d db).0.name ≡ name
  unfolding resolve_role found_or
  name-resolve_role name d db = elim (Option-cases (c.find_role name db)) [
    | inl new ↦ rw (new, found_or) (stored.create_role_name name d db)
    | inr (r, there) ↦ rw (there, found_or) (stored.find_role_name name db r there)
  ]

  module _ (dto : RegisterDto) (fresh : Fresh) (db : c.Db) where
    abbrev new_tenant : Tenant × c.Db
    new_tenant = resolve_tenant c dto db

    abbrev new_role : Role × c.Db
    new_role =
        resolve_role c (or_text dto.role_name "user") (some "Standard user role") new_tenant.1

    abbrev new_row : NewUser
    new_row = record {
      email = dto.email;
      name = dto.name;
      password_hash = c.hash fresh.salt dto.password;
      tenant_id = new_tenant.0.id;
      role_id = new_role.0.id;
    }

    abbrev new_user : User × c.Db
    new_user = c.create_user new_row new_role.1

    abbrev new_audit : AccountAudit
    new_audit = plain_audit new_tenant.0.id new_user.0.id "user.registered" (
        object
          (field "email" (text new_user.0.email) (field "role" (text new_role.0.name) no_fields)))

    register-open_session :
        c.find_user dto.email db ≡ none
        → register c dto fresh db
          ≡ open_session c new_user.0 new_tenant.0 new_role.0.name new_audit fresh new_user.1
    unfolding register register_new
    register-open_session new = rw (new, register) refl

    abbrev new_session : Session
    new_session = record {
      user = view_of new_user.0 new_tenant.0 new_role.0.name;
      tokens = record {
        access_token =
            c.sign (claims_of new_user.0.id new_user.0.email new_role.0.name new_tenant.0.id) "15m"
              fresh.now;
        refresh_token = c.sign (object (field "sub" (text new_user.0.id) no_fields)) "7d" fresh.now;
      };
    }

    -- A registration with an email that no user has gives a session whose user and access token have
    -- the role that the request names, or the role "user" where it names none.
    pub role-register :
        c.find_user dto.email db ≡ none
        → (session : Session) × ((register c dto fresh db).0 ≡ done session)
          × (session.user.role ≡ or_text dto.role_name "user")
          × (session.tokens.access_token
              ≡ c.sign
                  (claims_of session.user.id session.user.email
                    (or_text dto.role_name "user")
                    session.user.tenant.id)
                  "15m"
                  fresh.now)
    unfolding open_session generate_tokens
    role-register new = (
      new_session,
      rw (register-open_session new) refl,
      name-resolve_role _ _ new_tenant.1,
      rw name-resolve_role refl,
    )
