-- ===== src/AuthService/Outcomes.antt =====
-- What registration and login come to, on every branch.
use multi_tenant_saas_api.Base.{subst, Text}
use multi_tenant_saas_api.Auth.{AuthSettings}
use multi_tenant_saas_api.AuthService.{register_user, login_user}
use multi_tenant_saas_api.AuthService.Atomicity.{register_user-Atomic, login_user-Atomic}
use multi_tenant_saas_api.AuthService.Effects.{Registered, register_user-Returns}
use multi_tenant_saas_api.AuthService.Effects.Login.{LoggedIn, login_user-Returns}
use multi_tenant_saas_api.Exec.{Env, State}
use multi_tenant_saas_api.Exec.Rules.{IsClean}
use multi_tenant_saas_api.Exec.Returns.{Outcome, outcome}

-- From a session with nothing pending, registration either returns, and has committed an active user
-- under a free address, with the display name that was given and the hash of a password that has the
-- policy's length and a character other than whitespace, and the event only; or it raises, leaves
-- nothing pending, and has committed nothing.
pub register_user-Outcome :
    (env : Env) (settings : AuthSettings) (email password name : Text) (s : State)
    → IsClean s
    → Outcome
        (λ v t. Registered env settings email password name s.committed v t.committed)
        s.committed
        (register_user env settings email password name s)
register_user-Outcome env settings email password name s c =
    subst
      (λ d.
        Outcome (λ v t. Registered env settings email password name d v t.committed) s.committed
          (register_user env settings email password name s))
      c
      (outcome _ s (register_user-Atomic env settings email password name)
        (register_user-Returns env settings email password name s) c)

-- From a session with nothing pending, login either returns a token that names the active user of
-- the address and the password, and has committed the event only; or it raises, leaves nothing
-- pending, and has committed nothing.
pub login_user-Outcome :
    (env : Env) (settings : AuthSettings) (email password : Text) (s : State)
    → IsClean s
    → Outcome
        (λ v t. LoggedIn env settings email password s.committed v t.committed)
        s.committed
        (login_user env settings email password s)
login_user-Outcome env settings email password s c =
    subst
      (λ d.
        Outcome (λ v t. LoggedIn env settings email password d v t.committed) s.committed
          (login_user env settings email password s))
      c
      (outcome _ s (login_user-Atomic env settings email password)
        (login_user-Returns env settings email password s) c)
