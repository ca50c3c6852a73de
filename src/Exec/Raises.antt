-- ===== src/Exec/Raises.antt =====
-- Which exceptions a method may raise: one rule for each way to build it.
use multi_tenant_saas_api.Base.{
  ◌≡◌, refl, Bool, true, false, Option, none, some, arith, if◌then◌else◌, Text,
}
use multi_tenant_saas_api.Database.{Db}
use multi_tenant_saas_api.Exec.{
  Env, Error, Result, ok, err, Metric, State, Action, pure, raise, query, or_raise, raise_if,
  continue, ◌>>=◌, record_metric, uuid4, now, token_urlsafe, flush, commit, transaction, catch,
  integrity_error, operational_error,
}

-- Every exception of `m` is among those that `allowed` gives.
abbrev pub Allowed : {A : Type 0} → (Error → Bool) → Result A → Type 0
Allowed allowed (ok a) = Unit
Allowed allowed (err e) = allowed e ≡ true

pub record Raises {A : Type 0} (allowed : Error → Bool) (m : Action A) : Type 0 where
  pub at : (s : State) → Allowed allowed (m s).0

module _ {A : Type 0} (allowed : Error → Bool) where
  pub Raises-pure : (a : A) → Raises allowed (pure a)
  Raises-pure a = record { at = λ s. tt }

  pub Raises-raise : (e : Error) → allowed e ≡ true → Raises allowed (raise {A = A} e)
  Raises-raise e h = record { at = λ s. h }

  pub Raises-query : (f : Db → A) → Raises allowed (query f)
  Raises-query f = record { at = λ s. tt }

  pub Raises-or_raise :
      (o : Option A) (e : Error) → allowed e ≡ true → Raises allowed (or_raise o e)
  Raises-or_raise none e h = record { at = λ s. h }
  Raises-or_raise (some a) e h = record { at = λ s. tt }

  pub Raises-if :
      (b : Bool) (m k : Action A)
      → Raises allowed m
      → Raises allowed k
      → Raises allowed (if b then m else k)
  Raises-if true m k hm hk = hm
  Raises-if false m k hm hk = hk

  -- `except Exception: rollback, raise`, with what the exception becomes.
  pub Raises-transaction :
      (translate : Error → Error) (inner : Error → Bool) (m : Action A)
      → ((e : Error) → inner e ≡ true → allowed (translate e) ≡ true)
      → Raises inner m
      → Raises allowed (transaction translate m)
  unfolding transaction
  Raises-transaction translate inner m t r = record { at = λ s. step s (m s) (r.at s) }
    where
      step :
          (s : State) (p : Result A × State)
          → Allowed inner p.0
          → Allowed allowed (transaction translate (λ _. p) s).0
      step s (ok a, u) h = tt
      step s (err e, u) h = t e h

  -- `try: m`, `except ... as exc: raise ...`.
  pub Raises-catch :
      (translate : Error → Error) (inner : Error → Bool) (m : Action A)
      → ((e : Error) → inner e ≡ true → allowed (translate e) ≡ true)
      → Raises inner m
      → Raises allowed (catch m (λ e. raise (translate e)))
  unfolding catch
  Raises-catch translate inner m t r = record { at = λ s. step s (m s) (r.at s) }
    where
      step :
          (s : State) (p : Result A × State)
          → Allowed inner p.0
          → Allowed allowed (catch (λ _. p) (λ e. raise (translate e)) s).0
      step s (ok a, u) h = tt
      step s (err e, u) h = t e h

  pub Raises-weaken :
      (inner : Error → Bool) (m : Action A)
      → ((e : Error) → inner e ≡ true → allowed e ≡ true)
      → Raises inner m
      → Raises allowed m
  Raises-weaken inner m w r = record { at = λ s. step (m s).0 (r.at s) }
    where
      step : (p : Result A) → Allowed inner p → Allowed allowed p
      step (ok a) h = tt
      step (err e) h = w e h

module _ (allowed : Error → Bool) where
  pub Raises-raise_if : (b : Bool) (e : Error) → allowed e ≡ true → Raises allowed (raise_if b e)
  Raises-raise_if true e h = record { at = λ s. h }
  Raises-raise_if false e h = record { at = λ s. tt }

  pub Raises-record_metric : (m : Metric) → Raises allowed (record_metric m)
  Raises-record_metric m = record { at = λ s. tt }

  module _ (env : Env) where
    pub Raises-uuid4 : Raises allowed (uuid4 env)
    unfolding uuid4
    Raises-uuid4 = record { at = λ s. tt }

    pub Raises-now : Raises allowed (now env)
    unfolding now
    Raises-now = record { at = λ s. tt }

    pub Raises-token_urlsafe : Raises allowed (token_urlsafe env)
    unfolding token_urlsafe
    Raises-token_urlsafe = record { at = λ s. tt }

    pub Raises-flush :
        (fits : Db → Bool) (write : Db → Db)
        → allowed operational_error ≡ true
        → allowed integrity_error ≡ true
        → Raises allowed (flush env fits write)
    unfolding flush
    Raises-flush fits write ho hi = record { at = λ s. ground arith }

    pub Raises-commit : allowed operational_error ≡ true → Raises allowed (commit env)
    unfolding commit
    Raises-commit h = record { at = λ s. ground arith }

module _ {A B : Type 0} (allowed : Error → Bool) where
  pub Raises-bind :
      (m : Action A) (f : A → Action B)
      → Raises allowed m
      → ((a : A) → Raises allowed (f a))
      → Raises allowed (m >>= f)
  unfolding ◌>>=◌
  Raises-bind m f rm rf = record { at = λ s. step (m s) (rm.at s) }
    where
      step : (p : Result A × State) → Allowed allowed p.0 → Allowed allowed (continue p f).0
      step (ok a, t) h = (rf a).at t
      step (err e, t) h = h

pub ruleset raise_rules = (
  Raises-pure, Raises-raise, Raises-query, Raises-or_raise, Raises-raise_if, Raises-record_metric,
  Raises-uuid4, Raises-now, Raises-token_urlsafe, Raises-flush, Raises-commit, Raises-bind,
  Raises-if, refl,
)
