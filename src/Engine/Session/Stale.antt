-- ===== src/Engine/Session/Stale.antt =====
-- engine.rs: a login as another user over a session that has a key.
use my_domain_core.Prelude.{
  Bool-cases, Option-cases, nat_eq, string_eq, String, ◌≡◌, ◌≢◌, sym, ◌∙◌, inl, inr, true, none,
  some, arith,
}
use my_domain_core.Prelude.Result.{ok, is_ok}
use my_domain_core.Text.{trim, is_empty}
use my_domain_core.Model.{TokenResp}
use my_domain_core.Host.{Host}
use my_domain_core.Crypto.{derive_key}
use my_domain_core.Ctx.{Ctx, record_effect, next_turn}
use my_domain_core.Registry.{auth_call}
use my_domain_core.Engine.Session.{do_auth, open_session, is_ready, set_encryption_key, store_key}

module _ (h : Host) where
  -- The key that a user sets is the one of the passphrase and that user.
  key-set_encryption_key :
      (passphrase old : String) (s : Ctx)
      → s.username ≡ some old
      → is_ok (set_encryption_key h passphrase s).1 ≡ true
      → ((set_encryption_key h passphrase s).0.key ≡ derive_key h passphrase old)
        × (derive_key h passphrase old ≢ none)
  unfolding set_encryption_key store_key
  key-set_encryption_key passphrase old s e done =
      elim (Option-cases (derive_key h passphrase old)) [
        | inl fails ↦ absurd (ground (arith, e, done, fails))
        | inr (key, f) ↦ (ground (arith, e, done, f), λ g. cc)
      ]

  -- What a login that succeeds does.
  granted_lem :
      (path url user password : String) (resp : TokenResp) (t : Ctx)
      → auth_call h t.turn url path (trim user) password ≡ ok resp
      → is_ok (do_auth h path url user password t).1 ≡ true
      → ((do_auth h path url user password t).0.username ≡ some resp.username)
        × ((do_auth h path url user password t).0.token ≡ some resp.token)
        × ((do_auth h path url user password t).0.key ≡ t.key)
  unfolding do_auth open_session record_effect next_turn
  granted_lem path url user password resp t granted done = elim (Bool-cases (is_empty (trim url))) [
    | inl blank ↦ absurd (ground (arith, blank, done))
    | inr named ↦
        (rw (named, granted, do_auth), rw (named, granted, do_auth), rw (named, granted, do_auth))
  ]

  -- The user `old` sets the key by a passphrase, and then someone logs in (or registers) on the same
  -- engine, and the server answers with a user for whom the passphrase gives another key. If both
  -- calls succeed, the engine has the new user and says that it is ready, and its key is still the one
  -- of `old`, not the one that the passphrase gives to the new user.
  pub do_auth_stale :
      (passphrase old path url user password : String) (resp : TokenResp) (s : Ctx)
      → let t = (set_encryption_key h passphrase s).0 in
        let logged_in = do_auth h path url user password t in
        s.username ≡ some old
        → is_ok (set_encryption_key h passphrase s).1 ≡ true
        → auth_call h t.turn url path (trim user) password ≡ ok resp
        → is_ok logged_in.1 ≡ true
        → derive_key h passphrase resp.username ≢ derive_key h passphrase old
        → (logged_in.0.username ≡ some resp.username)
          × (is_ready logged_in.0 ≡ true)
          × (logged_in.0.key ≡ derive_key h passphrase old)
          × (logged_in.0.key ≢ derive_key h passphrase resp.username)
  unfolding is_ready
  do_auth_stale passphrase old path url user password resp s e stores granted done other =
      let t = (set_encryption_key h passphrase s).0 in
      let (has, derives) = key-set_encryption_key passphrase old s e stores in
      let (named, opened, kept) = granted_lem path url user password resp t granted done in
      let stale = kept ∙ has in
      (
        named,
        elim (Option-cases (derive_key h passphrase old)) [
          | inl fails ↦ absurd (derives fails)
          | inr (key, f) ↦ rw (opened, stale, f)
        ],
        stale,
        λ same. other (sym same ∙ stale),
      )
