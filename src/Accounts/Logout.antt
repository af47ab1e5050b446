-- ===== src/Accounts/Logout.antt =====
-- What a logout does to the token and to the refresh tokens of the user.
use forge_gate.Base.{
  ℕ, String, Bool, true, false, some, List, [], ◌∷◌, map, count_of, update_row, ◌≡◌, ◌≢◌, refl, sym,
  ◌=ₛ◌, Bool-cases, inl, inr, arith,
}
use text.Mathlib.TextLemmas.{append_cancel_left}
use forge_gate.Js.Text.{or_text}
use forge_gate.Accounts.{unauthorized, RefreshToken, Client, Stores}
use forge_gate.Idempotency.Redis.{answered}
use forge_gate.Accounts.Laws.{Reads, Refreshes}
use forge_gate.Accounts.Sessions.{record_account_audit}
use forge_gate.Accounts.Revocation.{
  blacklist_key, jti_of, revoked_name, is_live_token_of, revoke_refresh, blacklist_token,
  is_revoked_mark, is_token_blacklisted, verify_unless, verify_token, after_blacklist, revoke_token,
}

revoked_not_live :
    (user_id : String) (t : RefreshToken)
    → is_live_token_of user_id (update_row (is_live_token_of user_id) revoke_refresh t) ≡ false
revoked_not_live user_id t = elim (Bool-cases (is_live_token_of user_id t)) [
  | inl h ↦ rw h (ground arith)
  | inr h ↦ rw h h
]

-- No refresh token of a user is live once each live one has been revoked.
none_live :
    (user_id : String) (ts : List RefreshToken)
    → count_of
        (is_live_token_of user_id)
        (map (update_row (is_live_token_of user_id) revoke_refresh) ts)
      ≡ 0
none_live user_id [] = refl
none_live user_id (t ∷ ts) = rw (revoked_not_live user_id t) (none_live user_id ts)

name_of_plain : (jti token : String) → jti ≡ "" → or_text jti token ≡ token
name_of_plain jti token h = rw h refl

key_apart :
    (jti token : String)
    → (jti =ₛ "") ≡ false
    → jti ≢ token
    → blacklist_key token ≢ blacklist_key (or_text jti token)
key_apart jti token named other = rw named (λ e. other (sym (append_cancel_left "bl_" token jti e)))

module _ (c : Client) where
  server-after_blacklist :
      (b : Bool) (user_id tenant_id : String) (s : Stores c)
      → (after_blacklist c b user_id tenant_id s).1.server ≡ s.server
  unfolding after_blacklist
  server-after_blacklist false user_id tenant_id s = refl
  server-after_blacklist true user_id tenant_id s = refl

  -- The server after the token has been blacklisted.
  abbrev marked_server : (token : String) → c.Server → c.Server
  marked_server token server =
      (c.setex (blacklist_key (revoked_name (c.decode token) token)) 86400 "revoked" server).1

  server-revoke_token :
      (token user_id tenant_id : String) (s : Stores c)
      → (revoke_token c token user_id tenant_id s).1.server ≡ marked_server token s.server
  unfolding revoke_token blacklist_token
  server-revoke_token token user_id tenant_id s = server-after_blacklist _ user_id tenant_id _

  verify_token-marked :
      (token : String) (now : ℕ) (server : c.Server)
      → c.get (blacklist_key token) server ≡ answered (some "revoked")
      → verify_token c token now server ≡ unauthorized "Token has been revoked"
  unfolding verify_token is_token_blacklisted is_revoked_mark verify_unless
  verify_token-marked token now server h = rw (h, verify_token, is_token_blacklisted) refl

  get-marked_server :
      (reads : Reads c) (token : String) (server : c.Server)
      → (c.setex (blacklist_key token) 86400 "revoked" server).0 ≡ true
      → jti_of (c.decode token) ≡ ""
      → c.get (blacklist_key token) (marked_server token server) ≡ answered (some "revoked")
  get-marked_server reads token server ok plain =
      rw (name_of_plain (jti_of (c.decode token)) token plain, marked_server)
        (reads.setex_lem (blacklist_key token) "revoked" 86400 server ok)

  tokens-after_blacklist :
      (r : Refreshes c) (b : Bool) (user_id tenant_id : String) (s : Stores c)
      → b ≡ true
      → count_of
          (is_live_token_of user_id)
          (r.tokens (after_blacklist c b user_id tenant_id s).1.db)
        ≡ 0
  unfolding after_blacklist record_account_audit
  tokens-after_blacklist r false user_id tenant_id s h = absurd (cc)
  tokens-after_blacklist r true user_id tenant_id s h =
      rw (r.create_audit_tokens, r.create_audit_tokens, r.update_lem) (none_live user_id _)

  tokens-revoke_token :
      (r : Refreshes c) (token user_id tenant_id : String) (s : Stores c)
      → (c.setex (blacklist_key (revoked_name (c.decode token) token)) 86400 "revoked" s.server).0
        ≡ true
      → count_of
          (is_live_token_of user_id)
          (r.tokens (revoke_token c token user_id tenant_id s).1.db)
        ≡ 0
  unfolding revoke_token blacklist_token
  tokens-revoke_token r token user_id tenant_id s ok =
      tokens-after_blacklist r _ user_id tenant_id _ ok

  -- Where Redis stores the mark, after a logout with a token that has no id of its own the token is
  -- refused as revoked, and no refresh token of the user is live.
  pub revoke_token_revokes :
      (reads : Reads c) (r : Refreshes c) (token user_id tenant_id : String) (now : ℕ)
      (s : Stores c)
      → (c.setex (blacklist_key token) 86400 "revoked" s.server).0 ≡ true
      → jti_of (c.decode token) ≡ ""
      → let after = (revoke_token c token user_id tenant_id s).1 in
        (verify_token c token now after.server ≡ unauthorized "Token has been revoked")
        × (count_of (is_live_token_of user_id) (r.tokens after.db) ≡ 0)
  revoke_token_revokes reads r token user_id tenant_id now s ok plain = (
    rw (server-revoke_token token user_id tenant_id s)
        (verify_token-marked token now _ (get-marked_server reads token s.server ok plain)),
    tokens-revoke_token r token user_id tenant_id s
        (rw (name_of_plain (jti_of (c.decode token)) token plain) ok),
  )

  -- A logout with a token that has an id of its own, other than the token, marks the id: the check of
  -- the token gives what it gave before.
  pub verify_token-revoke_token :
      (reads : Reads c) (token user_id tenant_id : String) (now : ℕ) (s : Stores c)
      → (jti_of (c.decode token) =ₛ "") ≡ false
      → jti_of (c.decode token) ≢ token
      → verify_token c token now (revoke_token c token user_id tenant_id s).1.server
        ≡ verify_token c token now s.server
  unfolding verify_token is_token_blacklisted
  verify_token-revoke_token reads token user_id tenant_id now s named other =
      let apart = key_apart (jti_of (c.decode token)) token named other in
      rw (server-revoke_token token user_id tenant_id s, marked_server)
        (rw (reads.setex_other _ (blacklist_key token) "revoked" 86400 s.server apart) refl)

  after_blacklist-failed :
      (b : Bool) (user_id tenant_id : String) (s : Stores c)
      → b ≡ false
      → after_blacklist c b user_id tenant_id s ≡ ("Logged out", s)
  unfolding after_blacklist
  after_blacklist-failed false user_id tenant_id s h = refl
  after_blacklist-failed true user_id tenant_id s h = absurd (cc)

  -- Where Redis refuses the mark, a logout says that it is done, and no table has changed: the
  -- refresh tokens of the user stay as they are.
  pub revoke_token_refused :
      (token user_id tenant_id : String) (s : Stores c)
      → (c.setex (blacklist_key (revoked_name (c.decode token) token)) 86400 "revoked" s.server).0
        ≡ false
      → let left = revoke_token c token user_id tenant_id s in
        (left.0 ≡ "Logged out") × (left.1.db ≡ s.db)
  unfolding revoke_token blacklist_token
  revoke_token_refused token user_id tenant_id s down =
      rw (after_blacklist-failed _ user_id tenant_id _ down) (refl, refl)
