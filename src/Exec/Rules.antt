-- ===== src/Exec/Rules.antt =====
-- Unit-of-work rules: one for each way to build a method. A method is atomic when, from a session
-- with nothing pending, it ends with nothing pending, and has committed nothing if it raised.
use multi_tenant_saas_api.Base.{
  ◌≡◌, refl, sym, ap, subst, ◌∙◌, ◌+◌, Bool, true, false, Option, none, some, arith, if◌then◌else◌,
}
use multi_tenant_saas_api.Database.{Db}
use multi_tenant_saas_api.Exec.{
  Env, Error, Result, ok, err, Metric, State, Action, pure, raise, query, or_raise, raise_if,
  continue, ◌>>=◌, record_metric, uuid4, now, flush, commit, transaction,
}

-- `m` changes nothing.
pub record ReadOnly {A : Type 0} (m : Action A) : Type 0 where
  pub at : (s : State) → (m s).1 ≡ s

-- `m` commits nothing.
pub record KeepsCommitted {A : Type 0} (m : Action A) : Type 0 where
  pub at : (s : State) → (m s).1.committed ≡ s.committed

-- `m` writes nothing to the database, and does not raise.
pub record Records {A : Type 0} (m : Action A) : Type 0 where
  pub at : (s : State) → (a : A) × ((m s).0 ≡ ok a)
  pub session : (s : State) → (m s).1.session ≡ s.session
  pub committed : (s : State) → (m s).1.committed ≡ s.committed

-- `m` does nothing to the database.
pub record Idle {A : Type 0} (m : Action A) : Type 0 where
  pub session : (s : State) → (m s).1.session ≡ s.session
  pub committed : (s : State) → (m s).1.committed ≡ s.committed

-- Nothing is pending in the session.
abbrev pub IsClean : State → Type 0
IsClean s = s.session ≡ s.committed

abbrev pub Settled : {A : Type 0} → Db → Result A × State → Type 0
Settled before (ok a, t) = IsClean t
Settled before (err e, t) = t.committed ≡ before

-- `m` ends with a commit, or raises and has committed nothing.
pub record Commits {A : Type 0} (m : Action A) : Type 0 where
  pub at : (s : State) → Settled s.committed (m s)

abbrev pub Whole : {A : Type 0} → Db → Result A × State → Type 0
Whole before (ok a, t) = IsClean t
Whole before (err e, t) = IsClean t × (t.committed ≡ before)

pub record Atomic {A : Type 0} (m : Action A) : Type 0 where
  pub at : (s : State) → IsClean s → Whole s.committed (m s)

module _ {A : Type 0} where
  pub ReadOnly-pure : (a : A) → ReadOnly (pure a)
  ReadOnly-pure a = record { at = λ s. refl }

  pub ReadOnly-raise : (e : Error) → ReadOnly (raise {A = A} e)
  ReadOnly-raise e = record { at = λ s. refl }

  pub ReadOnly-query : (f : Db → A) → ReadOnly (query f)
  ReadOnly-query f = record { at = λ s. refl }

  pub ReadOnly-or_raise : (o : Option A) (e : Error) → ReadOnly (or_raise o e)
  ReadOnly-or_raise none e = record { at = λ s. refl }
  ReadOnly-or_raise (some a) e = record { at = λ s. refl }

  pub KeepsCommitted-pure : (a : A) → KeepsCommitted (pure a)
  KeepsCommitted-pure a = record { at = λ s. refl }

  pub KeepsCommitted-if :
      (b : Bool) (m k : Action A)
      → KeepsCommitted m
      → KeepsCommitted k
      → KeepsCommitted (if b then m else k)
  KeepsCommitted-if true m k hm hk = hm
  KeepsCommitted-if false m k hm hk = hk

  pub ReadOnly-if :
      (b : Bool) (m k : Action A) → ReadOnly m → ReadOnly k → ReadOnly (if b then m else k)
  ReadOnly-if true m k hm hk = hm
  ReadOnly-if false m k hm hk = hk

  pub KeepsCommitted-of-ReadOnly : (m : Action A) → ReadOnly m → KeepsCommitted m
  KeepsCommitted-of-ReadOnly m r = record { at = λ s i. (r.at s i).committed }

  pub Atomic-of-ReadOnly : (m : Action A) → ReadOnly m → Atomic m
  Atomic-of-ReadOnly m r = record { at = λ s c. whole s c (m s) (r.at s) }
    where
      whole : (s : State) → IsClean s → (p : Result A × State) → p.1 ≡ s → Whole s.committed p
      whole s c (ok a, t) e = subst IsClean (sym e) c
      whole s c (err x, t) e = (subst IsClean (sym e) c, ap (λ u. u.committed) e)

pub ReadOnly-raise_if : (b : Bool) (e : Error) → ReadOnly (raise_if b e)
ReadOnly-raise_if true e = record { at = λ s. refl }
ReadOnly-raise_if false e = record { at = λ s. refl }

module _ {A B : Type 0} where
  pub ReadOnly-bind :
      (m : Action A) (f : A → Action B)
      → ReadOnly m
      → ((a : A) → ReadOnly (f a))
      → ReadOnly (m >>= f)
  unfolding ◌>>=◌
  ReadOnly-bind m f rm rf = record { at = λ s. step (m s) ∙ rm.at s }
    where
      step : (p : Result A × State) → (continue p f).1 ≡ p.1
      step (ok a, t) = (rf a).at t
      step (err e, t) = refl

  pub KeepsCommitted-bind :
      (m : Action A) (f : A → Action B)
      → KeepsCommitted m
      → ((a : A) → KeepsCommitted (f a))
      → KeepsCommitted (m >>= f)
  unfolding ◌>>=◌
  KeepsCommitted-bind m f km kf = record { at = λ s. step (m s) ∙ km.at s }
    where
      step : (p : Result A × State) → (continue p f).1.committed ≡ p.1.committed
      step (ok a, t) = (kf a).at t
      step (err e, t) = refl

  pub Commits-bind :
      (m : Action A) (f : A → Action B)
      → KeepsCommitted m
      → ((a : A) → Commits (f a))
      → Commits (m >>= f)
  unfolding ◌>>=◌
  Commits-bind m f km cf = record {
    at = λ s. subst (λ d. Settled d (continue (m s) f)) (km.at s) (step (m s));
  }
    where
      step : (p : Result A × State) → Settled p.1.committed (continue p f)
      step (ok a, t) = (cf a).at t
      step (err e, t) = refl

  pub Atomic-bind :
      (m : Action A) (f : A → Action B) → ReadOnly m → ((a : A) → Atomic (f a)) → Atomic (m >>= f)
  unfolding ◌>>=◌
  Atomic-bind m f rm af = record { at = λ s c. step s c (m s) (rm.at s) }
    where
      step :
          (s : State)
          → IsClean s
          → (p : Result A × State) → p.1 ≡ s
          → Whole s.committed (continue p f)
      step s c (ok a, t) e =
          subst (λ u. Whole u.committed (continue (ok a, t) f)) e
            ((af a).at t (subst IsClean (sym e) c))
      step s c (err x, t) e = (subst IsClean (sym e) c, ap (λ u. u.committed) e)

  -- The same where the first part draws from the clock or the generator.
  pub Atomic-bind-Idle :
      (m : Action A) (f : A → Action B) → Idle m → ((a : A) → Atomic (f a)) → Atomic (m >>= f)
  unfolding ◌>>=◌
  Atomic-bind-Idle m f im af = record { at = λ s c. step s c (m s) (im.session s) (im.committed s) }
    where
      step :
          (s : State)
          → IsClean s
          → (p : Result A × State) → p.1.session ≡ s.session
          → p.1.committed ≡ s.committed
          → Whole s.committed (continue p f)
      step s c (ok a, t) e d =
          subst (λ b. Whole b (continue (ok a, t) f)) d ((af a).at t (e ∙ c ∙ sym d))
      step s c (err x, t) e d = (e ∙ c ∙ sym d, d)

  -- What follows the transaction only makes the answer.
  pub Atomic-map : (m : Action A) (f : A → B) → Atomic m → Atomic (m >>= λ a. pure (f a))
  unfolding ◌>>=◌
  Atomic-map m f am = record { at = λ s c. step s (m s) (am.at s c) }
    where
      step :
          (s : State) (p : Result A × State)
          → Whole s.committed p
          → Whole s.committed (continue p (λ a. pure (f a)))
      step s (ok a, t) w = w
      step s (err x, t) w = w

-- `m` settles what was clean before it: it commits, or it does nothing.
pub record Settles {A : Type 0} (m : Action A) : Type 0 where
  pub at : (s : State) → IsClean s → Settled s.committed (m s)

module _ {A : Type 0} where
  pub Settles-of-Commits : (m : Action A) → Commits m → Settles m
  Settles-of-Commits m cm = record { at = λ s c. cm.at s }

  pub Settles-pure : (a : A) → Settles (pure a)
  Settles-pure a = record { at = λ s c. c }

  pub Settles-if :
      (b : Bool) (m k : Action A) → Settles m → Settles k → Settles (if b then m else k)
  Settles-if true m k hm hk = hm
  Settles-if false m k hm hk = hk

  -- The rollback of a transaction leaves nothing pending.
  pub Atomic-transaction :
      (translate : Error → Error) (m : Action A) → Settles m → Atomic (transaction translate m)
  unfolding transaction
  Atomic-transaction translate m cm = record { at = λ s c. ground (arith, cm.at s c) }

module _ {A B : Type 0} where
  -- What follows a transaction never raises on what the transaction returns.
  pub Atomic-then :
      (m : Action A) (f : A → Action B)
      → Atomic m
      → ((s : State) (a : A) (t : State) → m s ≡ (ok a, t) → (b : B) × (f a ≡ pure b))
      → Atomic (m >>= f)
  unfolding ◌>>=◌
  Atomic-then m f am total = record { at = λ s c. step s (m s) refl (am.at s c) }
    where
      step :
          (s : State) (p : Result A × State)
          → m s ≡ p
          → Whole s.committed p
          → Whole s.committed (continue p f)
      step s (ok a, t) e w =
          subst (λ (g : Action B). Whole s.committed (g t)) (sym (total s a t e).1) w
      step s (err x, t) e w = w

pub KeepsCommitted-record_metric : (m : Metric) → KeepsCommitted (record_metric m)
KeepsCommitted-record_metric m = record { at = λ s. refl }

module _ {A : Type 0} where
  pub Records-pure : (a : A) → Records (pure a)
  Records-pure a = record { at = λ s. (a, refl); session = λ s. refl; committed = λ s. refl }

  pub Records-record_metric :
      (m : Metric) (k : Action A) → Records k → Records (record_metric m >>= λ _. k)
  unfolding ◌>>=◌
  Records-record_metric m k r = record {
    at = λ s. r.at (record_metric m s).1;
    session = λ s. r.session (record_metric m s).1;
    committed = λ s. r.committed (record_metric m s).1;
  }

module _ (env : Env) where
  pub KeepsCommitted-uuid4 : KeepsCommitted (uuid4 env)
  unfolding uuid4
  KeepsCommitted-uuid4 = record { at = λ s. refl }

  pub KeepsCommitted-now : KeepsCommitted (now env)
  unfolding now
  KeepsCommitted-now = record { at = λ s. refl }

  pub KeepsCommitted-flush :
      (fits : Db → Bool) (write : Db → Db) → KeepsCommitted (flush env fits write)
  unfolding flush
  KeepsCommitted-flush fits write = record { at = λ s. ground arith }

  -- A commit is the last thing that may raise.
  pub Commits-commit : {A : Type 0} (k : Action A) → Records k → Commits (commit env >>= λ _. k)
  unfolding ◌>>=◌ commit
  Commits-commit k r = record {
    at = λ s.
        let u = record s { committed = s.session; ticks = s.ticks + 1 } in
        ground (arith, r.at u, r.session u, r.committed u);
  }

pub ruleset read_rules = (
  ReadOnly-pure, ReadOnly-raise, ReadOnly-query, ReadOnly-or_raise, ReadOnly-raise_if,
  ReadOnly-bind, ReadOnly-if,
)

pub ruleset pending_rules = (
  KeepsCommitted-bind, KeepsCommitted-uuid4, KeepsCommitted-now, KeepsCommitted-flush,
  KeepsCommitted-record_metric, KeepsCommitted-pure, KeepsCommitted-if,
)

pub ruleset commit_rules = (Commits-bind, Commits-commit, Records-pure, Records-record_metric)

pub ruleset atomic_rules =
    (read_rules, Atomic-bind, Atomic-map, Atomic-transaction, Settles-of-Commits)
