-- ===== src/Scanner/Runs.antt =====
-- What a run of a service leaves: its result, and the tables on success and on failure.
use rabbit_maximizer.Prelude.{◌≡◌, refl, sym, subst}
use rabbit_maximizer.Schema.{Db}
use rabbit_maximizer.Store.{Error, M, Result, ok, err}
use rabbit_maximizer.Queue.Rules.{Holds, failed, done}
use rabbit_maximizer.Service.{
  Response, answered, refused, World, T, continue, handled, committed, ◌>>=◌, return, transact,
  catch, answer,
}

-- The run leaves what `P` says of its result and of the tables after it.
abbrev pub Ends : {A : Type 0} → (A → Db → Type 0) → (Db → Type 0) → Result A × World → Type 0
Ends P E (ok a, w) = P a w.db
Ends P E (err e, w) = E w.db

-- A step that leaves the world alone, and what follows it.
pub after_pure :
    {A B : Type 0} (Q : Result B × World → Type 0) (m : T A) (f : A → T B) (w : World)
    → (m w).1 ≡ w
    → ((a : A) → Q (f a w))
    → ((e : Error) → Q (err e, w))
    → Q ((m >>= f) w)
after_pure {A} {B} Q m f w same h k = go (m w) same
  where
    go : (x : Result A × World) → x.1 ≡ w → Q (continue f x)
    go (err e, v) same = subst (λ z. Q (err e, z)) (sym same) (k e)
    go (ok a, v) same = subst (λ z. Q (f a z)) (sym same) (h a)

pub answer-same : {A : Type 0} (x : Response A) (w : World) → (answer x w).1 ≡ w
answer-same (answered a) w = refl
answer-same (refused status) w = refl

-- What a committed transaction leaves, or the tables as they were.
pub transact-Ends :
    {A : Type 0} (P : A → Db → Type 0) (m : M A) (w : World)
    → Holds P (m w.db)
    → Ends P (λ db. db ≡ w.db) (transact m w)
unfolding transact
transact-Ends {A} P m w h = go (m w.db) h
  where
    go : (x : Result (A × Db)) → Holds P x → Ends P (λ db. db ≡ w.db) (committed w x)
    go x (failed e) = refl
    go x (done a db p) = p

-- The run succeeds, and what `Q` says of its result and of the tables holds.
pub data Runs {A : Type 0} (Q : A → Db → Type 0) : Result A × World → Type 0 where
  ran : (a : A) (w : World) → Q a w.db → Runs Q (ok a, w)

pub Runs-ok :
    {A : Type 0} {Q : A → Db → Type 0} {x : Result A × World}
    → Runs Q x
    → (a : A) × (x.0 ≡ ok a) × Q a x.1.db
Runs-ok (ran a w q) = (a, refl, q)

pub Runs-map :
    {A : Type 0} {P Q : A → Db → Type 0} {x : Result A × World}
    → ((a : A) (db : Db) → P a db → Q a db)
    → Runs P x
    → Runs Q x
Runs-map h (ran a w p) = ran a w (h a w.db p)

pub Runs-bind :
    {A B : Type 0} {P : A → Db → Type 0} {Q : B → Db → Type 0} (m : T A) (f : A → T B) (w : World)
    → Runs P (m w)
    → ((a : A) (v : World) → P a v.db → Runs Q (f a v))
    → Runs Q ((m >>= f) w)
Runs-bind {A} {B} {P} {Q} m f w h k = go (m w) h
  where
    go : (x : Result A × World) → Runs P x → Runs Q (continue f x)
    go x (ran a v p) = k a v p

-- What fails is logged, and `z` takes the place of its result.
pub Runs-attempt :
    {A B : Type 0} {P : A → Db → Type 0} {E : Db → Type 0} {Q : B → Db → Type 0} (m : T A)
    (g : A → B) (z : B) (w : World)
    → Ends P E (m w)
    → ((a : A) (db : Db) → P a db → Q (g a) db)
    → ((db : Db) → E db → Q z db)
    → Runs Q (catch (m >>= λ a. return (g a)) (λ _. return z) w)
Runs-attempt {A} {B} {P} {E} {Q} m g z w h k l = go (m w) h
  where
    go :
        (x : Result A × World)
        → Ends P E x
        → Runs Q (handled (λ _. return z) (continue (λ a. return (g a)) x))
    go (err e, v) q = ran z v (l v.db q)
    go (ok a, v) p = ran (g a) v (k a v.db p)

pub Runs-same :
    {A B : Type 0} {Q : A → Db → Type 0} (x : Response B) (f : B → T A) (z : A) (w : World)
    → Q z w.db
    → ((b : B) → Runs Q (f b w))
    → Runs Q (catch (answer x >>= f) (λ _. return z) w)
Runs-same (refused status) f z w q h = ran z w q
Runs-same {A} {B} {Q} (answered b) f z w q h = go (f b w) (h b)
  where
    go : (x : Result A × World) → Runs Q x → Runs Q (handled (λ _. return z) x)
    go x (ran a v q) = ran a v q
