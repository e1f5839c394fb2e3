-- ===== src/Scheduler/Posts.antt =====
-- How many retriggers a run of a service posts at most.
use rabbit_maximizer.Prelude.{ℕ, ◌+◌, ◌≤◌, ◌≡◌, refl, length, arith}
use rabbit_maximizer.Schema.{Db}
use rabbit_maximizer.Store.{M, Error, Result, ok, err}
use rabbit_maximizer.Service.{
  World, T, continue, ◌>>=◌, transact, committed, catch, handled, answer, Response, answered,
  refused,
}

-- Whatever a run gives, a size of the world grows by at most `n`.
abbrev pub Grows : {A : Type 0} → (World → ℕ) → ℕ → T A → Type 0
Grows size n m = (w : World) → size (m w).1 ≤ size w + n

module _ (size : World → ℕ) where
  pub Grows-transact :
      {A : Type 0} (m : M A)
      → ((w : World) (db : Db) → size (record w { db = db }) ≡ size w)
      → Grows size 0 (transact m)
  unfolding transact
  Grows-transact {A} m h w = go (m w.db)
    where
      go : (r : Result (A × Db)) → size (committed w r).1 ≤ size w + 0
      go (err e) = omega arith
      go (ok (a, db)) = omega (arith, h w db)

  pub Grows-bind :
      {A B : Type 0} (i j : ℕ) (m : T A) (f : A → T B)
      → Grows size i m
      → ((a : A) → Grows size j (f a))
      → Grows size (i + j) (m >>= f)
  Grows-bind {A} {B} i j m f h k w = go (m w) (h w)
    where
      go : (r : Result A × World) → size r.1 ≤ size w + i → size (continue f r).1 ≤ size w + (i + j)
      go (err e, v) q = omega (arith, q)
      go (ok a, v) q = omega (arith, q, k a v)

-- Whatever a run gives, its posts are those of the world before, and at most `n` more.
abbrev pub Posts : {A : Type 0} → ℕ → T A → Type 0
Posts n m = Grows (λ w. length w.posts) n m

module _ {A : Type 0} where
  pub Posts-transact : (m : M A) → Posts 0 (transact m)
  Posts-transact m = Grows-transact (λ w. length w.posts) m (λ w db. refl)

  pub Posts-catch :
      (n : ℕ) (m : T A) (handle : Error → T A)
      → Posts n m
      → ((e : Error) → Posts 0 (handle e))
      → Posts n (catch m handle)
  Posts-catch n m handle h k w = go (m w) (h w)
    where
      go :
          (r : Result A × World)
          → length r.1.posts ≤ length w.posts + n
          → length (handled handle r).1.posts ≤ length w.posts + n
      go (err e, v) q = omega (arith, q, k e v)
      go (ok a, v) q = q

  pub Posts-answer : (r : Response A) → Posts 0 (answer r)
  Posts-answer (answered a) w = omega arith
  Posts-answer (refused status) w = omega arith

pub Posts-bind :
    {A B : Type 0} (i j : ℕ) (m : T A) (f : A → T B)
    → Posts i m
    → ((a : A) → Posts j (f a))
    → Posts (i + j) (m >>= f)
Posts-bind = Grows-bind (λ w. length w.posts)
