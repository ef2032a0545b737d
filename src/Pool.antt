-- ===== src/Pool.antt =====
-- pkg/pool/pool.go, a typed sync.Pool whose values are reset when they are put back. The values are
-- pointers, so an object has an address, what it holds, and a place: with one user, in the pool, or
-- nowhere. By the contract of sync.Pool a user neither uses an object after Put nor puts it twice.
-- sync.Pool may lose an object at any time, and Get may call the factory also when there are some.
use go_yandex_practicum_metr.Prelude.{
  ℕ, eqb, Bool, Option, none, some, List, [], ◌∷◌, All, ◌≡◌, if◌then◌else◌, true, false,
}

-- Where an object is.
pub data Place : Type 0 where
  nowhere held pooled : Place

-- The objects of a program that uses one pool, by their addresses.
pub record Objects (V : Type 0) : Type 0 where
  pub content : ℕ → V
  pub place : ℕ → Place

-- The object at an address, with this content and at this place now.
abbrev pub moved : {V : Type 0} → ℕ → Place → V → Objects V → Objects V
moved r to v p = record {
  content = λ x. if eqb x r then v else p.content x;
  place = λ x. if eqb x r then to else p.place x;
}

-- New: a pool without objects
abbrev pub new_pool : {V : Type 0} → (ℕ → V) → Objects V
new_pool content = record { content = content; place = λ x. nowhere }

-- What one call, or one step of a user, leaves, and the content of the object that Get returns, if it
-- is a call of Get. `Made` are the contents that the factory may give.
pub data PoolStep {V : Type 0} (Made : V → Type 0) (reset : V → V) (p : Objects V)
    : Option V → Objects V → Type 0 where
  -- Put: the object is reset while its user still has it, and then pooled
  put :
      (r : ℕ)
      → p.place r ≡ held
      → PoolStep Made reset p none (moved r pooled (reset (p.content r)) p)
  -- Get, of an object of the pool
  get :
      (r : ℕ)
      → p.place r ≡ pooled
      → PoolStep Made reset p (some (p.content r)) (moved r held (p.content r) p)
  -- Get, of a new object that the factory allocates
  get_fresh :
      (r : ℕ) (v : V)
      → p.place r ≡ nowhere
      → Made v
      → PoolStep Made reset p (some v) (moved r held v p)
  -- the garbage collector
  lose : (r : ℕ) → p.place r ≡ pooled → PoolStep Made reset p none (moved r nowhere (p.content r) p)
  -- a user allocates an object, writes to one that it has, or drops it
  allocate : (r : ℕ) (v : V) → p.place r ≡ nowhere → PoolStep Made reset p none (moved r held v p)
  write : (r : ℕ) (v : V) → p.place r ≡ held → PoolStep Made reset p none (moved r held v p)
  drop : (r : ℕ) → p.place r ≡ held → PoolStep Made reset p none (moved r nowhere (p.content r) p)

-- What steps lead to, with the contents that calls of Get have returned, the last one first.
pub data PoolReach {V : Type 0} (Made : V → Type 0) (reset : V → V)
    : List V → Objects V → Type 0 where
  start : (content : ℕ → V) → PoolReach Made reset [] (new_pool content)
  returns :
      {got : List V} {p q : Objects V} (v : V)
      → PoolReach Made reset got p
      → PoolStep Made reset p (some v) q
      → PoolReach Made reset (v ∷ got) q
  changes :
      {got : List V} {p q : Objects V}
      → PoolReach Made reset got p
      → PoolStep Made reset p none q
      → PoolReach Made reset got q

module _ {V : Type 0} (Made : V → Type 0) (reset : V → V) (IsClean : V → Type 0)
    (made : (v : V) → Made v → IsClean v) (cleared : (v : V) → IsClean (reset v)) where
  -- Every object in the pool is clean.
  abbrev pub IsCleanPool : Objects V → Type 0
  IsCleanPool p = (r : ℕ) → p.place r ≡ pooled → IsClean (p.content r)

  moved-IsCleanPool :
      (r : ℕ) (to : Place) (v : V) (p : Objects V)
      → (to ≡ pooled → IsClean v)
      → IsCleanPool p
      → IsCleanPool (moved r to v p)
  moved-IsCleanPool r to v p clean h x = by_test (eqb x r)
    where
      by_test :
          (b : Bool)
          → (if b then to else p.place x) ≡ pooled
          → IsClean (if b then v else p.content x)
      by_test true e = clean e
      by_test false e = h x e

  abbrev IsCleanOption : Option V → Type 0
  IsCleanOption none = Unit
  IsCleanOption (some v) = IsClean v

  PoolStep-IsClean :
      {p q : Objects V} {o : Option V}
      → PoolStep Made reset p o q
      → IsCleanPool p
      → IsCleanOption o × IsCleanPool q
  PoolStep-IsClean {p} (put r e) h =
      let clean = cleared (p.content r) in (tt, moved-IsCleanPool r pooled _ p (λ x. clean) h)
  PoolStep-IsClean {p} (get r e) h =
      (h r e, moved-IsCleanPool r held (p.content r) p (λ x. h r e) h)
  PoolStep-IsClean {p} (get_fresh r v e m) h =
      (made v m, moved-IsCleanPool r held v p (λ x. made v m) h)
  PoolStep-IsClean {p} (lose r e) h = (tt, moved-IsCleanPool r nowhere (p.content r) p (λ x. cc) h)
  PoolStep-IsClean {p} (allocate r v e) h = (tt, moved-IsCleanPool r held v p (λ x. cc) h)
  PoolStep-IsClean {p} (write r v e) h = (tt, moved-IsCleanPool r held v p (λ x. cc) h)
  PoolStep-IsClean {p} (drop r e) h = (tt, moved-IsCleanPool r nowhere (p.content r) p (λ x. cc) h)

  -- If what the factory makes is clean, and so is whatever was reset, then the object was clean each
  -- time that Get returned one, and every object in the pool is clean, whatever users write to the
  -- objects that they have and whatever the pool loses, as long as no user writes to an object after
  -- Put or puts it twice.
  pub PoolReach-IsClean :
      {got : List V} {p : Objects V}
      → PoolReach Made reset got p
      → All IsClean got × ((r : ℕ) → p.place r ≡ pooled → IsClean (p.content r))
  PoolReach-IsClean (start content) = (tt, λ r e. cc)
  PoolReach-IsClean (returns v r s) =
      let (got, pool) = PoolReach-IsClean r in
      let (clean, next) = PoolStep-IsClean s pool in ((clean, got), next)
  PoolReach-IsClean (changes r s) =
      let (got, pool) = PoolReach-IsClean r in (got, (PoolStep-IsClean s pool).1)
