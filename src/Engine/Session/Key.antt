-- ===== src/Engine/Session/Key.antt =====
-- engine.rs: what a refused operation on the session leaves, and what a change of the key takes.
use my_domain_core.Prelude.{
  Option-cases, nat_eq, string_eq, ℕ, String, ◌≡◌, inl, inr, true, false, some, List, arith,
}
use my_domain_core.Prelude.Result.{ok, is_ok, Result-cases}
use my_domain_core.Host.{Host}
use my_domain_core.Crypto.{derive_key}
use my_domain_core.Ctx.{Ctx, session_of, next_turn}
use my_domain_core.Registry.{verify_password_call}
use my_domain_core.Engine.Session.{
  Done, do_auth, store_key, dev_login, set_encryption_key, replace_key, update_encryption_key,
}

-- A refusal leaves the session.
abbrev pub KeepsOnRefusal : Ctx → Done → Type 0
KeepsOnRefusal s d = is_ok d.1 ≡ false → session_of d.0 ≡ session_of s

module _ (h : Host) where
  do_auth_keeps :
      (path server_url username password : String) (s : Ctx)
      → KeepsOnRefusal s (do_auth h path server_url username password s)
  unfolding do_auth next_turn
  do_auth_keeps path server_url username password s = ground arith

  dev_login_keeps :
      (username passphrase : String) (s : Ctx)
      → KeepsOnRefusal s (dev_login h username passphrase s)
  unfolding dev_login
  dev_login_keeps username passphrase s = ground arith

  store_key_keeps :
      (passphrase username : String) (s : Ctx)
      → KeepsOnRefusal s (store_key h passphrase username s)
  unfolding store_key
  store_key_keeps passphrase username s = ground arith

  set_encryption_key_keeps :
      (passphrase : String) (s : Ctx) → KeepsOnRefusal s (set_encryption_key h passphrase s)
  unfolding set_encryption_key store_key
  set_encryption_key_keeps passphrase s = ground arith

  update_encryption_key_keeps :
      (passphrase password : String) (s : Ctx)
      → KeepsOnRefusal s (update_encryption_key h passphrase password s)
  unfolding update_encryption_key replace_key store_key next_turn
  update_encryption_key_keeps passphrase password s = ground arith

  -- A login, a local login, and both ways to set the key leave the session (server, token, user and
  -- key) as it was whenever they do not succeed.
  pub refusal_keeps :
      (path server_url username password passphrase : String) (s : Ctx)
      → KeepsOnRefusal s (do_auth h path server_url username password s)
        × KeepsOnRefusal s (dev_login h username passphrase s)
        × KeepsOnRefusal s (set_encryption_key h passphrase s)
        × KeepsOnRefusal s (update_encryption_key h passphrase password s)
  refusal_keeps path server_url username password passphrase s = (
    do_auth_keeps path server_url username password s,
    dev_login_keeps username passphrase s,
    set_encryption_key_keeps passphrase s,
    update_encryption_key_keeps passphrase password s,
  )

  -- If `update_encryption_key` succeeds, then there was a user and a server in the session, the server
  -- verified the given password for that user, and the key is now the one that the given passphrase
  -- gives to that user. (`set_encryption_key` and `dev_login` set a key without a password.)
  pub update_encryption_key_verified :
      (passphrase password : String) (s : Ctx)
      → is_ok (update_encryption_key h passphrase password s).1 ≡ true
      → (username : String) × (url : String) × (key : List ℕ) × (s.username ≡ some username)
        × (s.server_url ≡ some url)
        × (verify_password_call h s.turn url username password ≡ ok true)
        × (derive_key h passphrase username ≡ some key)
        × ((update_encryption_key h passphrase password s).0.key ≡ some key)
  unfolding update_encryption_key replace_key store_key
  update_encryption_key_verified passphrase password s e = elim (Option-cases s.username) [
    | inl nobody ↦ absurd (ground (arith, e, nobody))
    | inr (username, e1) ↦ elim (Option-cases s.server_url) [
      | inl nowhere ↦ absurd (ground (arith, e, e1, nowhere))
      | inr (url, e2) ↦ elim (Result-cases (verify_password_call h s.turn url username password)) [
        | inl (failure, e3) ↦ absurd (ground (arith, e, e1, e2, e3))
        | inr (answer, e3) ↦ elim (Option-cases (derive_key h passphrase username)) [
          | inl underived ↦ absurd (ground (arith, e, e1, e2, e3, underived))
          | inr (key, e4) ↦ (
            username,
            url,
            key,
            e1,
            e2,
            ground (arith, e, e1, e2, e3),
            e4,
            ground (arith, e, e1, e2, e3, e4),
          )
        ]
      ]
    ]
  ]
