-- ===== src/Prelude/Counting.antt =====
-- How many rows of a table pass a test, and tables in which no two rows clash.
use Prim.Native.Nat.{ℕ, ◌+◌, ◌≤◌, ◌<◌}
use mathlib.Core.Path.{◌≡◌, refl, subst}
use mathlib.Core.Logic.{◌⊎◌, inl, inr}
use mathlib.Core.Bool.{Bool, true, false, not, ◌&&◌}
use mathlib.Core.List.{List, [], ◌∷◌, ◌++◌, map, Memᴰ}
use native.Mathlib.Omega.{arith}
use rabbit_maximizer.Prelude.Tests.{if◌then◌else◌, Bool-cases}
use rabbit_maximizer.Prelude.Lists.{any, All}

module _ {ℓ} {A : Type ℓ} where
  abbrev pub count : (A → Bool) → List A → ℕ
  count p [] = 0
  count p (x ∷ xs) = (if p x then 1 else 0) + count p xs

  pub count-append_one :
      (p : A → Bool) (xs : List A) (a : A)
      → count p (xs ++ a ∷ []) ≡ count p xs + (if p a then 1 else 0)
  count-append_one p [] a = omega arith
  count-append_one p (x ∷ xs) a = omega (arith, count-append_one p xs a)

  -- A row that passes after the change passed before it, or is one of those counted by `q`.
  pub count-map-le :
      (p q : A → Bool) (f : A → A) (xs : List A)
      → ((a : A) → p (f a) ≡ true → (p a ≡ true) ⊎ (q a ≡ true))
      → count p (map f xs) ≤ count p xs + count q xs
  count-map-le p q f [] h = omega arith
  count-map-le p q f (x ∷ xs) h = ground (arith, h x, count-map-le p q f xs h)

  pub count-le_add :
      (p q r : A → Bool) (xs : List A)
      → ((a : A) → p a ≡ true → (q a ≡ true) ⊎ (r a ≡ true))
      → count p xs ≤ count q xs + count r xs
  count-le_add p q r [] h = omega arith
  count-le_add p q r (x ∷ xs) h = ground (arith, h x, count-le_add p q r xs h)

  pub count_mono :
      (p q : A → Bool) (xs : List A) → ((a : A) → p a ≡ true → q a ≡ true) → count p xs ≤ count q xs
  count_mono p q [] h = omega arith
  count_mono p q (x ∷ xs) h = ground (arith, h x, count_mono p q xs h)

  pub count-Memᴰ : (p : A → Bool) (xs : List A) {a : A} → Memᴰ a xs → p a ≡ true → 0 < count p xs
  count-Memᴰ p [] m h = elim m [ ]
  count-Memᴰ p (x ∷ xs) (Memᴰ.head e) h = ground (arith, subst (λ z. p z ≡ true) e h)
  count-Memᴰ p (x ∷ xs) (Memᴰ.tail m) h = omega (arith, count-Memᴰ p xs m h)

  -- No two rows of the table clash.
  abbrev pub clash_free : (A → A → Bool) → List A → Bool
  clash_free c [] = true
  clash_free c (x ∷ xs) = not (any (c x) xs) && clash_free c xs

  pub any-count : (p : A → Bool) (xs : List A) → any p xs ≡ false → count p xs ≡ 0
  any-count p [] h = refl
  any-count p (x ∷ xs) h = ground (arith, any-count p xs)

  pub clash_free-count :
      (c : A → A → Bool) (p : A → Bool) (xs : List A)
      → ((a b : A) → p a ≡ true → p b ≡ true → c a b ≡ true)
      → clash_free c xs ≡ true
      → count p xs ≤ 1
  clash_free-count c p [] h k = omega arith
  clash_free-count c p (x ∷ xs) h k = elim (Bool-cases (p x)) [
    | inl e ↦ ground (arith, any-count (c x) xs, count_mono p (c x) xs (λ b. h x b e))
    | inr e ↦ ground (arith, e, clash_free-count c p xs h)
  ]

module _ {ℓ} {A : Type ℓ} where
  pub count-map_mono {κ} :
      (H : A → Type κ) (p q : A → Bool) (f : A → A) (xs : List A)
      → ((a : A) → H a → p (f a) ≡ true → q a ≡ true)
      → All H xs
      → count p (map f xs) ≤ count q xs
  count-map_mono H p q f [] h k = omega arith
  count-map_mono H p q f (x ∷ xs) h k = ground (arith, h x k.0, count-map_mono H p q f xs h k.1)

  pub count-map-le_of {κ} :
      (H : A → Type κ) (p q r : A → Bool) (f : A → A) (xs : List A)
      → ((a : A) → H a → p (f a) ≡ true → (q a ≡ true) ⊎ (r a ≡ true))
      → All H xs
      → count p (map f xs) ≤ count q xs + count r xs
  count-map-le_of H p q r f [] h k = omega arith
  count-map-le_of H p q r f (x ∷ xs) h k =
      ground (arith, h x k.0, count-map-le_of H p q r f xs h k.1)

  -- The rows of `p`, those of `q` set apart.
  pub count-split :
      (p q : A → Bool) (xs : List A)
      → count p xs ≡ count (λ a. if q a then false else p a) xs + count (λ a. q a && p a) xs
  count-split p q [] = refl
  count-split p q (x ∷ xs) = ground (arith, count-split p q xs)

  All-of_count-zero {κ} :
      (Q : A → Type κ) (p : A → Bool) (xs : List A)
      → count p xs ≡ 0
      → All (λ r. p r ≡ true → Q r) xs
  All-of_count-zero Q p [] h = tt
  All-of_count-zero Q p (x ∷ xs) h =
      (λ e. absurd (ground (arith, e)), All-of_count-zero Q p xs (ground arith))

  -- Where at most one row passes, a row that passes is the one at hand.
  pub All-of_count-le_one {κ} :
      (Q : A → Type κ) (p : A → Bool) (xs : List A) {a : A}
      → count p xs ≤ 1
      → Memᴰ a xs
      → p a ≡ true
      → Q a
      → All (λ r. p r ≡ true → Q r) xs
  All-of_count-le_one Q p [] h m e k = elim m [ ]
  All-of_count-le_one Q p (x ∷ xs) h (Memᴰ.head q) e k =
      (λ _. subst Q q k, All-of_count-zero Q p xs (ground (arith, subst (λ z. p z ≡ true) q e)))
  All-of_count-le_one Q p (x ∷ xs) h (Memᴰ.tail m) e k = (
    λ f. absurd (ground (arith, f, count-Memᴰ p xs m e)),
    All-of_count-le_one Q p xs (ground (arith, count-Memᴰ p xs m e)) m e k,
  )

  pub any-append_one :
      (p : A → Bool) (xs : List A) (a : A) → any p xs ≡ true → any p (xs ++ a ∷ []) ≡ true
  any-append_one p [] a h = cc
  any-append_one p (x ∷ xs) a h = ground (arith, any-append_one p xs a)

  pub any-append_last :
      (p : A → Bool) (xs : List A) (a : A) → p a ≡ true → any p (xs ++ a ∷ []) ≡ true
  any-append_last p [] a h = ground arith
  any-append_last p (x ∷ xs) a h = ground (arith, any-append_last p xs a h)
