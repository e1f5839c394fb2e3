-- ===== src/Prelude/Finds.antt =====
-- What a change of some rows of a table, or a new row at its end, does to the row that a key finds.
use mathlib.Core.Path.{◌≡◌, refl, sym, ap, subst, ◌∙◌}
use mathlib.Core.Logic.{inl, inr}
use mathlib.Core.Bool.{Bool, true, false}
use mathlib.Core.Option.{none, some}
use mathlib.Core.List.{List, [], ◌∷◌, ◌++◌, map, Memᴰ}
use native.Mathlib.Omega.{arith}
use rabbit_maximizer.Prelude.Tests.{if◌then◌else◌, Bool-cases}
use rabbit_maximizer.Prelude.Lists.{find, any, All}
use rabbit_maximizer.Prelude.Counting.{clash_free}

module _ {ℓ} {A : Type ℓ} where
  pub All-of_Memᴰ : {P : A → Type 0} (xs : List A) → ((x : A) → Memᴰ x xs → P x) → All P xs
  All-of_Memᴰ [] h = tt
  All-of_Memᴰ (x ∷ xs) h = (h x (Memᴰ.head refl), All-of_Memᴰ xs (λ y m. h y (Memᴰ.tail m)))

  some_injective : {x y : A} → some x ≡ some y → x ≡ y
  some_injective e = cc

  pub find-Memᴰ :
      (q : A → Bool) (xs : List A) (a : A) → find q xs ≡ some a → Memᴰ a xs × (q a ≡ true)
  find-Memᴰ q [] a h = absurd (cc)
  find-Memᴰ q (x ∷ xs) a h = elim (Bool-cases (q x)) [
    | inl e ↦
        let same = some_injective (sym (rw e refl) ∙ h) in
        (Memᴰ.head (sym same), subst (λ z. q z ≡ true) same e)
    | inr e ↦ let k = find-Memᴰ q xs a (sym (rw e refl) ∙ h) in (Memᴰ.tail k.0, k.1)
  ]

  pub any-Memᴰ : (q : A → Bool) (xs : List A) {a : A} → Memᴰ a xs → q a ≡ true → any q xs ≡ true
  any-Memᴰ q [] m h = elim m [ ]
  any-Memᴰ q (x ∷ xs) (Memᴰ.head e) h = let t = subst (λ z. q z ≡ true) e h in ground arith
  any-Memᴰ q (x ∷ xs) (Memᴰ.tail m) h = ground (arith, any-Memᴰ q xs m h)

  pub any-find-none : (q : A → Bool) (xs : List A) → find q xs ≡ none → any q xs ≡ false
  any-find-none q [] h = refl
  any-find-none q (x ∷ xs) h = elim (Bool-cases (q x)) [
    | inl e ↦ absurd (ground (arith, e))
    | inr e ↦ rw e (any-find-none q xs (sym (rw e refl) ∙ h))
  ]

  pub find-append_one :
      (q : A → Bool) (xs : List A) (a : A)
      → find q xs ≡ none
      → find q (xs ++ a ∷ []) ≡ (if q a then some a else none)
  find-append_one q [] a h = refl
  find-append_one q (x ∷ xs) a h = elim (Bool-cases (q x)) [
    | inl e ↦ absurd (ground (arith, e))
    | inr e ↦ rw e (find-append_one q xs a (sym (rw e refl) ∙ h))
  ]

  pub find-append_other :
      (q : A → Bool) (xs : List A) (a : A) → q a ≡ false → find q (xs ++ a ∷ []) ≡ find q xs
  find-append_other q [] a h = rw h refl
  find-append_other q (x ∷ xs) a h = elim (Bool-cases (q x)) [
    | inl e ↦ rw e refl
    | inr e ↦ rw e (find-append_other q xs a h)
  ]

  module _ (p : A → Bool) (f : A → A) (q : A → Bool) (same : (a : A) → q (f a) ≡ q a) where
    pub find-change :
        (xs : List A) (a : A)
        → find q xs ≡ some a
        → p a ≡ true
        → find q (map (λ r. if p r then f r else r) xs) ≡ some (f a)
    find-change [] a h k = absurd (cc)
    find-change (x ∷ xs) a h k = elim (Bool-cases (q x)) [
      | inl e ↦
          let eq = some_injective (sym (rw e refl) ∙ h) in
          let px : p x ≡ true = subst (λ z. p z ≡ true) (sym eq) k in
          rw (px, same x, e) (ap (λ z. some (f z)) eq)
      | inr e ↦
          let rest = find-change xs a (sym (rw e refl) ∙ h) k in
          elim (Bool-cases (p x)) [ inl c ↦ rw (c, same x, e) rest | inr c ↦ rw (c, e) rest ]
    ]

    pub find-change_other :
        (xs : List A)
        → All (λ r. p r ≡ true → q r ≡ false) xs
        → find q (map (λ r. if p r then f r else r) xs) ≡ find q xs
    find-change_other [] h = refl
    find-change_other (x ∷ xs) h = elim (Bool-cases (p x)) [
      | inl c ↦ rw (c, same x, h.0 c) (find-change_other xs h.1)
      | inr c ↦ rw (c, find-change_other xs h.1) refl
    ]

    pub any-change : (xs : List A) → any q (map (λ r. if p r then f r else r) xs) ≡ any q xs
    any-change [] = refl
    any-change (x ∷ xs) = elim (Bool-cases (p x)) [
      | inl c ↦ rw (c, same x, any-change xs) refl
      | inr c ↦ rw (c, any-change xs) refl
    ]

module _ {ℓ} {A : Type ℓ} (c : A → A → Bool) where
  -- A change that leaves the keys alone makes no rows clash.
  pub clash_free-map :
      (f : A → A) (xs : List A)
      → ((a b : A) → c (f a) (f b) ≡ c a b)
      → clash_free c (map f xs) ≡ clash_free c xs
  clash_free-map f [] h = refl
  clash_free-map f (x ∷ xs) h = rw (clash_free-map f xs h, any_mapped xs) refl
    where
      any_mapped : (ys : List A) → any (c (f x)) (map f ys) ≡ any (c x) ys
      any_mapped [] = refl
      any_mapped (y ∷ ys) = rw (h x y, any_mapped ys) refl

  pub clash_free-append_one :
      (xs : List A) (a : A)
      → clash_free c xs ≡ true
      → any (λ x. c x a) xs ≡ false
      → clash_free c (xs ++ a ∷ []) ≡ true
  clash_free-append_one [] a h k = refl
  clash_free-append_one (x ∷ xs) a h k = ground (arith, clash_free-append_one xs a, unmet xs)
    where
      unmet :
          (ys : List A) → any (c x) ys ≡ false → c x a ≡ false → any (c x) (ys ++ a ∷ []) ≡ false
      unmet [] u v = rw v refl
      unmet (y ∷ ys) u v = ground (arith, unmet ys)
