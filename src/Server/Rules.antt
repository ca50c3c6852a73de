-- ===== src/Server/Rules.antt =====
-- What holds of the committed database at the end of a request, by the way the request is built.
use multi_tenant_saas_api.Base.{
  ◌≡◌, refl, sym, subst, Bool, true, false, List, [], ◌∷◌, Option, some, none, arith, if◌then◌else◌,
}
use multi_tenant_saas_api.Database.{Db}
use multi_tenant_saas_api.Exec.{
  State, Action, Result, Error, Metric, ok, err, pure, raise, query, or_raise, raise_if, catch,
  ◌>>=◌, continue, record_metric,
}
use multi_tenant_saas_api.Exec.Rules.{IsClean, Whole, Atomic, ReadOnly}
use multi_tenant_saas_api.Exec.Returns.{Returns}
use multi_tenant_saas_api.Schemas.Responses.{validate_items}
use multi_tenant_saas_api.Routes.{translated}

-- From a session with nothing pending over a database that has the property, `m` ends with nothing
-- pending over one that has it, whether it returns or raises.
pub record Stays (Holds : Db → Type 0) {A : Type 0} (m : Action A) : Type 0 where
  pub clean : (s : State) → IsClean s → Holds s.committed → IsClean (m s).1
  pub holds : (s : State) → IsClean s → Holds s.committed → Holds (m s).1.committed

module _ (Holds : Db → Type 0) {A : Type 0} where
  pub Stays-pure : (a : A) → Stays Holds (pure a)
  Stays-pure a = record { clean = λ s c h. c; holds = λ s c h. h }

  pub Stays-raise : (e : Error) → Stays Holds (raise {A = A} e)
  Stays-raise e = record { clean = λ s c h. c; holds = λ s c h. h }

  pub Stays-or_raise : (o : Option A) (e : Error) → Stays Holds (or_raise o e)
  Stays-or_raise none e = Stays-raise e
  Stays-or_raise (some a) e = Stays-pure a

  pub Stays-if :
      (b : Bool) (m k : Action A) → Stays Holds m → Stays Holds k → Stays Holds (if b then m else k)
  Stays-if true m k x y = x
  Stays-if false m k x y = y

  pub Stays-of-ReadOnly : (m : Action A) → ReadOnly m → Stays Holds m
  Stays-of-ReadOnly m r = record {
    clean = λ s c h. subst IsClean (sym (r.at s)) c;
    holds = λ s c h. subst (λ t. Holds t.committed) (sym (r.at s)) h;
  }

  pub Stays-translated :
      (translate : Error → Error) (m : Action A)
      → Stays Holds m
      → Stays Holds (translated translate m)
  unfolding catch
  Stays-translated translate m x = record {
    clean = λ s c h. subst IsClean (sym (same s)) (x.clean s c h);
    holds = λ s c h. subst (λ t. Holds t.committed) (sym (same s)) (x.holds s c h);
  }
    where
      same : (s : State) → (translated translate m s).1 ≡ (m s).1
      same s = ground arith

module _ (Holds : Db → Type 0) {A B : Type 0} where
  pub Stays-bind :
      (m : Action A) (f : A → Action B)
      → Stays Holds m
      → ((a : A) → Stays Holds (f a))
      → Stays Holds (m >>= f)
  unfolding ◌>>=◌
  Stays-bind m f x y = record {
    clean = λ s c h. ended (m s) (x.clean s c h) (x.holds s c h);
    holds = λ s c h. kept (m s) (x.clean s c h) (x.holds s c h);
  }
    where
      ended : (p : Result A × State) → IsClean p.1 → Holds p.1.committed → IsClean (continue p f).1
      ended (ok a, t) c h = (y a).clean t c h
      ended (err e, t) c h = c

      kept :
          (p : Result A × State)
          → IsClean p.1
          → Holds p.1.committed
          → Holds (continue p f).1.committed
      kept (ok a, t) c h = (y a).holds t c h
      kept (err e, t) c h = h

module _ (Holds : Db → Type 0) where
  pub Stays-validate_items :
      {A B : Type 0} (f : A → Action B) (xs : List A)
      → ((a : A) → Stays Holds (f a))
      → Stays Holds (validate_items f xs)
  unfolding validate_items
  Stays-validate_items f [] x = Stays-pure Holds []
  Stays-validate_items f (a ∷ rest) x =
      Stays-bind Holds _ _ (x a)
        λ b. Stays-bind Holds _ _ (Stays-validate_items f rest x) λ bs. Stays-pure Holds (b ∷ bs)

  pub Stays-raise_if : (b : Bool) (e : Error) → Stays Holds (raise_if b e)
  Stays-raise_if true e = Stays-raise Holds e
  Stays-raise_if false e = Stays-pure Holds tt

  pub Stays-record_metric : (m : Metric) → Stays Holds (record_metric m)
  Stays-record_metric m = record { clean = λ s c h. c; holds = λ s c h. h }

  pub Stays-query : {A : Type 0} (f : Db → A) → Stays Holds (query f)
  Stays-query f = record { clean = λ s c h. c; holds = λ s c h. h }

-- From a session with nothing pending over a database that has the first property, `m` ends with
-- nothing pending over one that has the second, whether it returns or raises.
pub record Moves (Before After : Db → Type 0) {A : Type 0} (m : Action A) : Type 0 where
  pub clean : (s : State) → IsClean s → Before s.committed → IsClean (m s).1
  pub holds : (s : State) → IsClean s → Before s.committed → After (m s).1.committed

module _ (Before After : Db → Type 0) {A : Type 0} where
  pub Moves-translated :
      (translate : Error → Error) (m : Action A)
      → Moves Before After m
      → Moves Before After (translated translate m)
  unfolding catch
  Moves-translated translate m x = record {
    clean = λ s c h. subst IsClean (sym (same s)) (x.clean s c h);
    holds = λ s c h. subst (λ t. After t.committed) (sym (same s)) (x.holds s c h);
  }
    where
      same : (s : State) → (translated translate m s).1 ≡ (m s).1
      same s = ground arith

module _ (Before After : Db → Type 0) {A B : Type 0} where
  -- The step is taken first.
  pub Moves-then :
      (m : Action A) (f : A → Action B)
      → Moves Before After m
      → ((a : A) → Stays After (f a))
      → Moves Before After (m >>= f)
  unfolding ◌>>=◌
  Moves-then m f x y = record {
    clean = λ s c h. ended (m s) (x.clean s c h) (x.holds s c h);
    holds = λ s c h. kept (m s) (x.clean s c h) (x.holds s c h);
  }
    where
      ended : (p : Result A × State) → IsClean p.1 → After p.1.committed → IsClean (continue p f).1
      ended (ok a, t) c h = (y a).clean t c h
      ended (err e, t) c h = c

      kept :
          (p : Result A × State)
          → IsClean p.1
          → After p.1.committed
          → After (continue p f).1.committed
      kept (ok a, t) c h = (y a).holds t c h
      kept (err e, t) c h = h

-- What the first property holds of has the second too.
module _ (Before After : Db → Type 0) (widens : (db : Db) → Before db → After db) where
  pub Moves-of-Stays : {A : Type 0} (m : Action A) → Stays Before m → Moves Before After m
  Moves-of-Stays m x = record { clean = x.clean; holds = λ s c h. widens _ (x.holds s c h) }

  -- The step is taken last.
  pub Moves-after :
      {A B : Type 0} (m : Action A) (f : A → Action B)
      → Stays Before m
      → ((a : A) → Moves Before After (f a))
      → Moves Before After (m >>= f)
  unfolding ◌>>=◌
  Moves-after {A} m f x y = record {
    clean = λ s c h. ended (m s) (x.clean s c h) (x.holds s c h);
    holds = λ s c h. kept (m s) (x.clean s c h) (x.holds s c h);
  }
    where
      ended : (p : Result A × State) → IsClean p.1 → Before p.1.committed → IsClean (continue p f).1
      ended (ok a, t) c h = (y a).clean t c h
      ended (err e, t) c h = c

      kept :
          (p : Result A × State)
          → IsClean p.1
          → Before p.1.committed
          → After (continue p f).1.committed
      kept (ok a, t) c h = (y a).holds t c h
      kept (err e, t) c h = widens t.committed h

  -- A unit of work that takes the step where it returns.
  pub Moves-of-Atomic :
      {A : Type 0} (m : Action A)
      → Atomic m
      → ((s : State) → IsClean s → Before s.committed → Returns m s (λ _ t. After t.committed))
      → Moves Before After m
  Moves-of-Atomic {A} m atomic moves = record {
    clean = λ s c h. ended s (m s) (atomic.at s c);
    holds = λ s c h. moved s c h (m s) refl (atomic.at s c);
  }
    where
      ended : (s : State) (p : Result A × State) → Whole s.committed p → IsClean p.1
      ended s (ok a, t) w = w
      ended s (err x, t) w = w.0

      moved :
          (s : State)
          → IsClean s
          → Before s.committed
          → (p : Result A × State) → m s ≡ p
          → Whole s.committed p
          → After p.1.committed
      moved s c h (ok a, t) e w = (moves s c h).at a t e
      moved s c h (err x, t) e w = subst After (sym w.1) (widens s.committed h)

-- A unit of work that keeps the property where it returns.
pub Stays-of-Atomic :
    (Holds : Db → Type 0) {A : Type 0} (m : Action A)
    → Atomic m
    → ((s : State) → IsClean s → Holds s.committed → Returns m s (λ _ t. Holds t.committed))
    → Stays Holds m
Stays-of-Atomic Holds m atomic keeps =
    let x = Moves-of-Atomic Holds Holds (λ db h. h) m atomic keeps in
    record { clean = x.clean; holds = x.holds }

pub ruleset stay_rules = (
  Stays-pure, Stays-raise, Stays-or_raise, Stays-if, Stays-translated, Stays-bind,
  Stays-validate_items, Stays-raise_if, Stays-record_metric, Stays-query,
)
