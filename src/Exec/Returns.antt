-- ===== src/Exec/Returns.antt =====
-- Postconditions of a method that returns, one rule for each way to build it.
use multi_tenant_saas_api.Base.{
  ◌≡◌, refl, subst, sym, Bool, true, false, Option, none, some, arith, if◌then◌else◌,
}
use multi_tenant_saas_api.Database.{Db}
use multi_tenant_saas_api.Exec.{
  Env, Error, Metric, Result, ok, err, State, Action, pure, query, or_raise, raise_if, continue,
  ◌>>=◌, transaction, commit, record_metric,
}
use multi_tenant_saas_api.Exec.Rules.{ReadOnly, IsClean, Whole, Atomic}

-- Where `m` returns from `s`, its value and its state satisfy `P`.
pub record Returns {A : Type 0} (m : Action A) (s : State) (P : A → State → Type 0) : Type 0 where
  pub at : (a : A) (t : State) → m s ≡ (ok a, t) → P a t

module _ {A : Type 0} where
  pub Returns-pure : (a : A) {s : State} {P : A → State → Type 0} → P a s → Returns (pure a) s P
  Returns-pure a {s} {P} p = record {
    at = λ b t h. subst (λ (q : A × State). P q.0 q.1) (returned b t h) p;
  }
    where
      returned : (b : A) (t : State) → pure a s ≡ (ok b, t) → ◌≡◌ {A = A × State} (a, s) (b, t)
      returned b t h = cc

  pub or_raise-some :
      (o : Option A) (e : Error) (s : State) {a : A} {t : State}
      → or_raise o e s ≡ (ok a, t)
      → o ≡ some a
  or_raise-some none e s h = cc
  or_raise-some (some b) e s h = cc

  pub Returns-if :
      (b : Bool) (m k : Action A) {s : State} {P : A → State → Type 0}
      → (b ≡ true → Returns m s P)
      → (b ≡ false → Returns k s P)
      → Returns (if b then m else k) s P
  Returns-if true m k hm hk = hm refl
  Returns-if false m k hm hk = hk refl

  pub Returns-weaken :
      {m : Action A} {s : State} {Q P : A → State → Type 0}
      → Returns m s Q
      → ((a : A) (t : State) → Q a t → P a t)
      → Returns m s P
  Returns-weaken r w = record { at = λ a t h. w a t (r.at a t h) }

  pub Returns-transaction :
      (translate : Error → Error) (m : Action A) {s : State} {P : A → State → Type 0}
      → Returns m s P
      → Returns (transaction translate m) s P
  unfolding transaction
  Returns-transaction translate m r = record { at = λ a t h. r.at a t (ground arith) }

module _ {A B : Type 0} where
  pub Returns-bind :
      (m : Action A) (f : A → Action B) {s : State} {Q : A → State → Type 0}
      {P : B → State → Type 0}
      → Returns m s Q
      → ((a : A) (t : State) → Q a t → Returns (f a) t P)
      → Returns (m >>= f) s P
  unfolding ◌>>=◌
  Returns-bind m f {s} {Q} {P} r k = record { at = λ b t h. step b t (m s) refl h }
    where
      step : (b : B) (t : State) (p : Result A × State) → m s ≡ p → continue p f ≡ (ok b, t) → P b t
      step b t (ok a, u) e h = (k a u (r.at a u e)).at b t h
      step b t (err x, u) e h = cc

  -- A check reads, and leaves the state alone.
  pub Returns-check :
      (m : Action A) (f : A → Action B) {s : State} {Q : A → Type 0} {P : B → State → Type 0}
      → ReadOnly m
      → Returns m s (λ a _. Q a)
      → ((a : A) → Q a → Returns (f a) s P)
      → Returns (m >>= f) s P
  Returns-check m f {s} {Q} {P} r q k =
      Returns-bind m f {Q = λ a t. (t ≡ s) × Q a}
        (record {
          at = λ a t h. (subst (λ (p : Result A × State). p.1 ≡ s) h (r.at s), q.at a t h);
        })
        (λ a t e. subst (λ u. Returns (f a) u P) (sym e.0) (k a e.1))

  pub Returns-query :
      (g : Db → A) (f : A → Action B) {s : State} {P : B → State → Type 0}
      → Returns (f (g s.session)) s P
      → Returns (query g >>= f) s P
  unfolding ◌>>=◌
  Returns-query g f r = record { at = r.at }

  pub Returns-or_raise :
      (o : Option A) (e : Error) (f : A → Action B) {s : State} {P : B → State → Type 0}
      → ((a : A) → o ≡ some a → Returns (f a) s P)
      → Returns (or_raise o e >>= f) s P
  unfolding ◌>>=◌
  Returns-or_raise none e f k = record { at = λ b t h. cc }
  Returns-or_raise (some a) e f k = record { at = (k a refl).at }

module _ {B : Type 0} where
  pub Returns-raise_if :
      (b : Bool) (e : Error) (k : Action B) {s : State} {P : B → State → Type 0}
      → (b ≡ false → Returns k s P)
      → Returns (raise_if b e >>= λ _. k) s P
  unfolding ◌>>=◌
  Returns-raise_if true e k r = record { at = λ b t h. cc }
  Returns-raise_if false e k r = record { at = (r refl).at }

committed_by :
    (env : Env) (s : State) (x : Unit {0}) (u : State)
    → commit env s ≡ (ok x, u)
    → (u.session ≡ s.session) × (u.committed ≡ s.session)
unfolding commit
committed_by env s x u h = ground arith

module _ {B : Type 0} where
  pub Returns-record_metric :
      (m : Metric) (k : Action B) {s : State} {P : B → State → Type 0}
      → ((u : State) → u.session ≡ s.session → u.committed ≡ s.committed → Returns k u P)
      → Returns (record_metric m >>= λ _. k) s P
  unfolding ◌>>=◌
  Returns-record_metric m k {s} r = record { at = (r (record_metric m s).1 refl refl).at }

  -- A commit that returns has made the session's view the committed one.
  pub Returns-commit :
      (env : Env) (k : Action B) {s : State} {P : B → State → Type 0}
      → ((u : State) → u.session ≡ s.session → u.committed ≡ s.session → Returns k u P)
      → Returns (commit env >>= λ _. k) s P
  Returns-commit env k {s} r =
      Returns-bind (commit env) (λ _. k)
        {Q = λ _ u. (u.session ≡ s.session) × (u.committed ≡ s.session)}
        (record { at = committed_by env s }) (λ _ u q. r u q.0 q.1)

-- What came of `m`: it returned with a value and a state that satisfy `P`, or it raised, and then
-- nothing is pending and the committed database is as before.
abbrev pub Outcome : {A : Type 0} → (A → State → Type 0) → Db → Result A × State → Type 0
Outcome P before (ok a, t) = P a t
Outcome P before (err e, t) = IsClean t × (t.committed ≡ before)

pub outcome :
    {A : Type 0} (m : Action A) (s : State) {P : A → State → Type 0}
    → Atomic m
    → Returns m s P
    → IsClean s
    → Outcome P s.committed (m s)
outcome {A} m s {P} am r c = step (m s) refl (am.at s c)
  where
    step : (p : Result A × State) → m s ≡ p → Whole s.committed p → Outcome P s.committed p
    step (ok a, t) e w = r.at a t e
    step (err x, t) e w = w

-- The same in either case, where it holds of an unchanged database.
pub either_way :
    {A : Type 0} (P : Db → Type 0) (before : Db) (p : Result A × State)
    → P before
    → Outcome (λ _ t. P t.committed) before p
    → P p.1.committed
either_way P before (ok a, t) h o = o
either_way P before (err e, t) h o = subst P (sym o.1) h
