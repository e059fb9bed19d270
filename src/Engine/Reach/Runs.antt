-- ===== src/Engine/Reach/Runs.antt =====
-- The engine as an abstract machine: runs of the live registry's machine, and between them the calls
-- that change the session.
use my_domain_core.Prelude.{
  Bool-cases, Option-cases, nat_eq, string_eq, ℕ, String, ◌≡◌, refl, ap, ◌⊎◌, inl, inr, true, false,
  ◌||◌, Option, none, List, [], arith,
}
use my_domain_core.Prelude.Result.{Result-cases}
use my_domain_core.Text.{is_empty, trim}
use my_domain_core.Registry.{verify_password_call}
use my_domain_core.Host.{Host}
use my_domain_core.Crypto.{derive_key}
use my_domain_core.Ctx.{Ctx, record_effect, next_turn}
use my_domain_core.Transport.Live.Evolves.{Evolves, IsUnseen, Evolves-session}
use my_domain_core.Transport.Live.Balance.{
  IsBalanced, IsUnseen-IsBalanced, Evolves-IsBalanced, Extends, Extends-trans, Evolves-Extends,
}
use my_domain_core.Engine.Session.{
  open_session, do_auth, dev_login, set_encryption_key, update_encryption_key, replace_key,
  store_key, logout,
}
use my_domain_core.Engine.Reach.Ops.{
  do_auth-IsUnseen, dev_login-IsUnseen, set_encryption_key-IsUnseen, update_encryption_key-IsUnseen,
  logout-IsUnseen,
}

-- A call of the engine that is about the session.
pub data SessionCall : Type 0 where
  auths : (path url user password : String) → SessionCall
  logs_in : (user passphrase : String) → SessionCall
  sets_key : (passphrase : String) → SessionCall
  updates_key : (passphrase password : String) → SessionCall
  logs_out : SessionCall

module _ (h : Host) where
  abbrev pub call : SessionCall → Ctx → Ctx
  call (auths path url user password) s = (do_auth h path url user password s).0
  call (logs_in user passphrase) s = (dev_login h user passphrase s).0
  call (sets_key passphrase) s = (set_encryption_key h passphrase s).0
  call (updates_key passphrase password) s = (update_encryption_key h passphrase password s).0
  call logs_out s = logout s

  -- The states of the machine from `s0` on.
  pub data Runs (s0 : Ctx) : Ctx → Type 0 where
    starts : Runs s0 s0
    goes : (s t : Ctx) → Evolves s t → Runs s0 s → Runs s0 t
    calls : (c : SessionCall) (s : Ctx) → Runs s0 s → Runs s0 (call c s)

  call-IsUnseen : (c : SessionCall) (s : Ctx) → IsUnseen s (call c s)
  call-IsUnseen (auths path url user password) s = do_auth-IsUnseen h path url user password s
  call-IsUnseen (logs_in user passphrase) s = dev_login-IsUnseen h user passphrase s
  call-IsUnseen (sets_key passphrase) s = set_encryption_key-IsUnseen h passphrase s
  call-IsUnseen (updates_key passphrase password) s =
      update_encryption_key-IsUnseen h passphrase password s
  call-IsUnseen logs_out s = logout-IsUnseen s

  -- What the machine keeps.
  pub Runs-IsBalanced : {s0 : Ctx} (s : Ctx) → Runs s0 s → IsBalanced s0 → IsBalanced s
  Runs-IsBalanced s (Runs.starts) k = k
  Runs-IsBalanced s (Runs.goes t _ more run) k = Evolves-IsBalanced s more (Runs-IsBalanced t run k)
  Runs-IsBalanced s (Runs.calls c t run) k =
      IsUnseen-IsBalanced t s (call-IsUnseen c t) (Runs-IsBalanced t run k)

  pub Runs-Extends : {s0 : Ctx} (s : Ctx) → Runs s0 s → Extends s0 s
  Runs-Extends s (Runs.starts) = ([], refl)
  Runs-Extends {s0} s (Runs.goes t _ more run) =
      Extends-trans s0 t s (Runs-Extends t run) (Evolves-Extends s more)
  Runs-Extends {s0} s (Runs.calls c t run) =
      Extends-trans s0 t s (Runs-Extends t run) ([], (call-IsUnseen c t).told)

  -- There is no key, or it is what some passphrase gives to some user.
  abbrev pub IsDerived : Option (List ℕ) → Type 0
  IsDerived key =
      (key ≡ none)
      ⊎ ((passphrase : String) × (user : String) × (derive_key h passphrase user ≡ key))

  store_key-IsDerived :
      (passphrase user : String) (s : Ctx)
      → IsDerived s.key
      → IsDerived (store_key h passphrase user s).0.key
  unfolding store_key
  store_key-IsDerived passphrase user s k = elim (Option-cases (derive_key h passphrase user)) [
    | inl fails ↦ rw (fails, store_key) k
    | inr (key, e) ↦ rw (e, store_key) (inr (passphrase, user, e))
  ]

  key-do_auth :
      (path url user password : String) (s : Ctx)
      → (do_auth h path url user password s).0.key ≡ s.key
  unfolding do_auth open_session record_effect next_turn
  key-do_auth path url user password s = ground arith

  dev_login-IsDerived :
      (user passphrase : String) (s : Ctx)
      → IsDerived s.key
      → IsDerived (dev_login h user passphrase s).0.key
  unfolding dev_login
  dev_login-IsDerived user passphrase s k =
      elim (Bool-cases (is_empty (trim user) || is_empty (trim passphrase))) [
        | inl blank ↦ rw (blank, dev_login) k
        | inr named ↦ elim (Option-cases (derive_key h passphrase (trim user))) [
          | inl fails ↦ rw (named, fails, dev_login) k
          | inr (key, e) ↦ rw (named, e, dev_login) (inr (passphrase, trim user, e))
        ]
      ]

  set_encryption_key-IsDerived :
      (passphrase : String) (s : Ctx)
      → IsDerived s.key
      → IsDerived (set_encryption_key h passphrase s).0.key
  unfolding set_encryption_key
  set_encryption_key-IsDerived passphrase s k = elim (Option-cases s.username) [
    | inl stranger ↦ rw (stranger, set_encryption_key) k
    | inr (user, e) ↦ elim (Bool-cases (is_empty (trim passphrase))) [
      | inl blank ↦ rw (e, blank, set_encryption_key) k
      | inr good ↦ rw (e, good, set_encryption_key) (store_key-IsDerived passphrase user s k)
    ]
  ]

  replace_key-IsDerived :
      (passphrase user : String) (s : Ctx)
      → IsDerived s.key
      → IsDerived (replace_key h passphrase user s).0.key
  unfolding replace_key
  replace_key-IsDerived passphrase user s k = elim (Bool-cases (is_empty (trim passphrase))) [
    | inl blank ↦ rw (blank, replace_key) k
    | inr good ↦ rw (good, replace_key) (store_key-IsDerived passphrase user s k)
  ]

  update_encryption_key-IsDerived :
      (passphrase password : String) (s : Ctx)
      → IsDerived s.key
      → IsDerived (update_encryption_key h passphrase password s).0.key
  unfolding update_encryption_key next_turn
  update_encryption_key-IsDerived passphrase password s k = elim (Option-cases s.username) [
    | inl stranger ↦ rw (stranger, update_encryption_key) k
    | inr (user, e) ↦ elim (Option-cases s.server_url) [
      | inl nowhere ↦ rw (e, nowhere, update_encryption_key) k
      | inr (url, f) ↦ elim (Result-cases (verify_password_call h s.turn url user password)) [
        | inl (why, g) ↦ rw (e, f, g, update_encryption_key) k
        | inr (true, g) ↦
            rw (e, f, g, update_encryption_key)
              (replace_key-IsDerived passphrase user (next_turn s) k)
        | inr (false, g) ↦ rw (e, f, g, update_encryption_key) k
      ]
    ]
  ]

  call-IsDerived : (c : SessionCall) (s : Ctx) → IsDerived s.key → IsDerived (call c s).key
  unfolding logout
  call-IsDerived (auths path url user password) s k = rw (key-do_auth path url user password s) k
  call-IsDerived (logs_in user passphrase) s k = dev_login-IsDerived user passphrase s k
  call-IsDerived (sets_key passphrase) s k = set_encryption_key-IsDerived passphrase s k
  call-IsDerived (updates_key passphrase password) s k =
      update_encryption_key-IsDerived passphrase password s k
  call-IsDerived logs_out s k = inl refl

  pub Runs-IsDerived : {s0 : Ctx} (s : Ctx) → Runs s0 s → IsDerived s0.key → IsDerived s.key
  Runs-IsDerived s (Runs.starts) k = k
  Runs-IsDerived s (Runs.goes t _ more run) k =
      rw (ap (λ x. x.0) (Evolves-session s more)) (Runs-IsDerived t run k)
  Runs-IsDerived s (Runs.calls c t run) k = call-IsDerived c t (Runs-IsDerived t run k)
