-- ===== src/Accounts/Revocation.antt =====
-- `verifyToken`, `revokeToken` and the `RedisService`.
use forge_gate.Base.{ℕ, String, ◌<>◌, Bool, true, false, not, Option, none, some, ◌&&◌, ◌=ₛ◌}
use forge_gate.Js.Text.{or_text, or_text?}
use forge_gate.Js.Json.{Json, undefined, text_field, object_fields}
use forge_gate.Idempotency.Redis.{Answer, answered, refused}
use forge_gate.Accounts.{RefreshToken, AuthReply, done, unauthorized, crashed, Client, Stores}
use forge_gate.Accounts.Sessions.{record_account_audit, plain_audit}

abbrev pub blacklist_key : String → String
blacklist_key token_id = "bl_" <> token_id

-- `decoded && decoded.jti`; the empty one is falsy.
unfoldable pub jti_of : Json → String
jti_of decoded = or_text? (text_field "jti" (object_fields decoded)) ""

-- What is blacklisted for a token: its id, or the token itself.
abbrev pub revoked_name : Json → String → String
revoked_name decoded token = or_text (jti_of decoded) token

abbrev pub is_live_token_of : String → RefreshToken → Bool
is_live_token_of user_id t = t.user_id =ₛ user_id && not t.revoked

abbrev pub revoke_refresh : RefreshToken → RefreshToken
revoke_refresh t = record t { revoked = true }

-- `isTokenBlacklisted`, with the test on what was read; `none` where it throws.
unfoldable pub is_revoked_mark : Answer (Option String) → Option Bool
is_revoked_mark refused = none
is_revoked_mark (answered none) = some false
is_revoked_mark (answered (some held)) = some (held =ₛ "revoked")

unfoldable pub checked_payload : Option Json → AuthReply Json
checked_payload none = unauthorized "Invalid or expired token"
checked_payload (some payload) = done payload

unfoldable pub verify_unless : Option Bool → AuthReply Json → AuthReply Json
verify_unless none checked = crashed
verify_unless (some true) checked = unauthorized "Token has been revoked"
verify_unless (some false) checked = checked

module _ (c : Client) where
  -- `blacklistToken`: whether it does not throw.
  unfoldable pub blacklist_token : (token_id : String) → ℕ → c.Server → Bool × c.Server
  blacklist_token token_id ttl server = c.setex (blacklist_key token_id) ttl "revoked" server

  unfoldable pub is_token_blacklisted : (token_id : String) → c.Server → Option Bool
  unfolding is_revoked_mark
  is_token_blacklisted token_id server = is_revoked_mark (c.get (blacklist_key token_id) server)

  -- `verifyToken`
  unfoldable pub verify_token : (token : String) → ℕ → c.Server → AuthReply Json
  unfolding is_token_blacklisted checked_payload verify_unless
  verify_token token now server =
      verify_unless (is_token_blacklisted token server) (checked_payload (c.verify token now))

  unfoldable pub after_blacklist :
      Bool → (user_id tenant_id : String) → Stores c → String × Stores c
  after_blacklist false user_id tenant_id s = ("Logged out", s)
  after_blacklist true user_id tenant_id s =
      let revoked = c.update_refresh_tokens (is_live_token_of user_id) revoke_refresh s.db in
      let out =
        record_account_audit c (plain_audit tenant_id user_id "user.logout" undefined) revoked in
      (
        "Token revoked successfully",
        record s {
          db = record_account_audit c (plain_audit tenant_id user_id "token.revoked" undefined) out;
        },
      )

  -- `revokeToken`: its message; the status is always `success`.
  unfoldable pub revoke_token :
      (access_token user_id tenant_id : String) → Stores c → String × Stores c
  unfolding blacklist_token
  revoke_token access_token user_id tenant_id s =
      let marked =
        blacklist_token (revoked_name (c.decode access_token) access_token) 86400 s.server in
      after_blacklist marked.0 user_id tenant_id (record s { server = marked.1 })
