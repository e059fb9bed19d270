-- ===== src/Engine/Session.antt =====
-- engine.rs: the session with the registry, and the message key.
pub mod Key
pub mod Stale
use my_domain_core.Prelude.{
  if◌then◌else◌, nat_eq, string_eq, is_some, String, Bool, true, false, ◌&&◌, ◌||◌, none, some,
}
use my_domain_core.Prelude.Result.{Result, ok, err}
use my_domain_core.Text.{trim, is_empty}
use my_domain_core.Model.{TokenResp}
use my_domain_core.Host.{Host}
use my_domain_core.Crypto.{derive_key}
use my_domain_core.Ctx.{Ctx, stored, record_effect, next_turn}
use my_domain_core.Transport.Dial.{DialError}
use my_domain_core.Registry.{HttpError, auth_call, verify_password_call}
use my_domain_core.Registry.Base.{base}

-- A refusal of the engine by its message, an error of the registry's client, a signal that serde
-- cannot write, or an error of dialling.
pub data EngineError : Type 0 where
  refused : String → EngineError
  registry_failed : HttpError → EngineError
  not_serialized : EngineError
  not_dialled : DialError → EngineError

abbrev pub Done : Type 0
Done = Ctx × Result EngineError Unit

-- `is_ready`
unfoldable pub is_ready : Ctx → Bool
is_ready s = is_some s.token && is_some s.key

-- The fields of a session that the registry opened, and what the platform keeps of it.
unfoldable pub open_session : String → TokenResp → Ctx → Ctx
unfolding record_effect
open_session server_url resp s = record_effect (stored "username" resp.username) (
    record_effect (stored "server_url" (base server_url)) (record s {
      server_url = some (base server_url);
      token = some resp.token;
      username = some resp.username;
    }))

unfoldable pub logout : Ctx → Ctx
logout s = record s { token = none; key = none }

module _ (h : Host) where
  unfoldable pub do_auth : String → String → String → String → Ctx → Done
  do_auth path server_url username password s =
      let asked = next_turn s in
      let tried : Done = elim (auth_call h s.turn server_url path (trim username) password) [
        | err e ↦ (asked, err (registry_failed e))
        | ok resp ↦ (open_session server_url resp asked, ok tt)
      ] in
      if is_empty (trim server_url) then (s, err (refused "server URL is required")) else tried

  unfoldable pub auth_login : String → String → String → Ctx → Done
  auth_login server_url username password s = do_auth "/auth/login" server_url username password s

  unfoldable pub auth_register : String → String → String → Ctx → Done
  auth_register server_url username password s =
      do_auth "/auth/register" server_url username password s

  -- The key that a passphrase gives to a user.
  unfoldable pub store_key : String → String → Ctx → Done
  store_key passphrase username s = elim (derive_key h passphrase username) [
    | none ↦ (s, err (refused "failed to derive key"))
    | some key ↦ (record s { key = some key }, ok tt)
  ]

  unfoldable pub dev_login : String → String → Ctx → Done
  dev_login username passphrase s =
      let named : Done = elim (derive_key h passphrase (trim username)) [
        | none ↦ (s, err (refused "failed to derive key"))
        | some key ↦ (record s { username = some (trim username); key = some key }, ok tt)
      ] in
      if is_empty (trim username) || is_empty (trim passphrase)
      then (s, err (refused "username and encryption key required"))
      else named

  unfoldable pub set_encryption_key : String → Ctx → Done
  set_encryption_key passphrase s = elim s.username [
    | none ↦ (s, err (refused "log in first"))
    | some username ↦
        if is_empty (trim passphrase)
        then (s, err (refused "encryption key is required"))
        else store_key passphrase username s
  ]

  -- Behind the password that the server verified.
  unfoldable pub replace_key : String → String → Ctx → Done
  replace_key passphrase username s =
      if is_empty (trim passphrase)
      then (s, err (refused "new encryption key is required"))
      else store_key passphrase username s

  unfoldable pub update_encryption_key : String → String → Ctx → Done
  update_encryption_key passphrase password s = elim s.username [
    | none ↦ (s, err (refused "log in first"))
    | some username ↦ elim s.server_url [
      | none ↦ (s, err (refused "no server"))
      | some url ↦ elim (verify_password_call h s.turn url username password) [
        | err e ↦ (next_turn s, err (registry_failed e))
        | ok false ↦ (next_turn s, err (refused "incorrect password"))
        | ok true ↦ replace_key passphrase username (next_turn s)
      ]
    ]
  ]
