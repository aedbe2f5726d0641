-- ===== src/Prelude/Lists.antt =====
-- Lists under Boolean tests, and measured by native numbers.
use Prim.Native.Nat.{ℕ, zero, suc, ◌+◌, ◌-◌, ◌≤◌, min}
use mathlib.Core.Path.{◌≡◌, refl, ap}
use mathlib.Core.Bool.{◌&&◌, Bool, true, false, not, ◌||◌}
use mathlib.Core.List.{List, [], ◌∷◌, ◌++◌}
use mathlib.Core.Option.{Option, none, some}
use native.Mathlib.Omega.{arith}
use mathlib.Core.Logic.{inl, inr}
use real_voice_agent_free.Prelude.Tests.{if◌then◌else◌, Bool-cases}

module _ {ℓ} {A : Type ℓ} where
  abbrev pub length : List A → ℕ
  length [] = 0
  length (x ∷ xs) = suc (length xs)

  abbrev pub take : ℕ → List A → List A
  take zero xs = []
  take (suc n) [] = []
  take (suc n) (x ∷ xs) = x ∷ take n xs

  abbrev pub drop : ℕ → List A → List A
  drop zero xs = xs
  drop (suc n) [] = []
  drop (suc n) (x ∷ xs) = drop n xs

  -- The rows that pass a test, in order.
  abbrev pub filter : (A → Bool) → List A → List A
  filter p [] = []
  filter p (x ∷ xs) = if p x then x ∷ filter p xs else filter p xs

  abbrev pub count : (A → Bool) → List A → ℕ
  count p [] = 0
  count p (x ∷ xs) = (if p x then 1 else 0) + count p xs

  abbrev pub find : (A → Bool) → List A → Option A
  find p [] = none
  find p (x ∷ xs) = if p x then some x else find p xs

  abbrev pub any : (A → Bool) → List A → Bool
  any p [] = false
  any p (x ∷ xs) = p x || any p xs

  -- Every element satisfies `P`.
  abbrev pub All {κ} : (A → Type κ) → List A → Type κ
  All P [] = Unit
  All P (x ∷ xs) = P x × All P xs

module _ {ℓ} {A : Type ℓ} where
  pub length-take : (n : ℕ) (xs : List A) → length (take n xs) ≡ min n (length xs)
  length-take zero xs = omega arith
  length-take (suc n) [] = omega arith
  length-take (suc n) (x ∷ xs) = omega (arith, length-take n xs)

  pub length-append : (xs ys : List A) → length (xs ++ ys) ≡ length xs + length ys
  length-append [] ys = omega arith
  length-append (x ∷ xs) ys = omega (arith, length-append xs ys)

  pub count-append : (p : A → Bool) (xs ys : List A) → count p (xs ++ ys) ≡ count p xs + count p ys
  count-append p [] ys = omega arith
  count-append p (x ∷ xs) ys = omega (arith, count-append p xs ys)

  pub count-le-length : (p : A → Bool) (xs : List A) → count p xs ≤ length xs
  count-le-length p [] = omega arith
  count-le-length p (x ∷ xs) = ground (arith, count-le-length p xs)

  pub find-of_any :
      (p q : A → Bool) (xs : List A) → any p xs ≡ false → find (λ x. p x && q x) xs ≡ none
  find-of_any p q [] h = refl
  find-of_any p q (x ∷ xs) h = ground (arith, find-of_any p q xs)

  pub find-append :
      (p : A → Bool) (xs : List A) (a : A)
      → find p xs ≡ none
      → p a ≡ true
      → find p (xs ++ a ∷ []) ≡ some a
  find-append p [] a h t = rw t refl
  find-append p (x ∷ xs) a h t = ground (arith, find-append p xs a)

  pub find-test : (p : A → Bool) (xs : List A) (a : A) → find p xs ≡ some a → p a ≡ true
  find-test p [] a h = ground arith
  find-test p (x ∷ xs) a h = ground (arith, find-test p xs a)

module _ {ℓ κ} {A : Type ℓ} (P : A → Type κ) where
  pub All-append : (xs ys : List A) → All P xs → All P ys → All P (xs ++ ys)
  All-append [] ys h k = k
  All-append (x ∷ xs) ys h k = (h.0, All-append xs ys h.1 k)

  pub All-take : (n : ℕ) (xs : List A) → All P xs → All P (take n xs)
  All-take zero xs h = tt
  All-take (suc n) [] h = tt
  All-take (suc n) (x ∷ xs) h = (h.0, All-take n xs h.1)

-- Rows in another order pass a test as often; so a test that all of them pass stays passed.
module _ {ℓ} {A : Type ℓ} where
  pub count-not_of_All :
      (p : A → Bool) (xs : List A) → All (λ x. p x ≡ true) xs → count (λ x. not (p x)) xs ≡ 0
  count-not_of_All p [] h = refl
  count-not_of_All p (x ∷ xs) h = ground (arith, count-not_of_All p xs h.1)

  pub All-of_count-not :
      (p : A → Bool) (xs : List A) → count (λ x. not (p x)) xs ≡ 0 → All (λ x. p x ≡ true) xs
  All-of_count-not p [] h = tt
  All-of_count-not p (x ∷ xs) h = elim (Bool-cases (p x)) [
    | inl e ↦ (e, All-of_count-not p xs (ground arith))
    | inr e ↦ absurd (ground arith)
  ]

  pub All-filter : (p : A → Bool) (xs : List A) → All (λ x. p x ≡ true) (filter p xs)
  All-filter p [] = tt
  All-filter p (x ∷ xs) = elim (Bool-cases (p x)) [
    | inl e ↦ rw e (e, All-filter p xs)
    | inr e ↦ rw e (All-filter p xs)
  ]

  pub length-eq-count : (xs : List A) → length xs ≡ count (λ x. true) xs
  length-eq-count [] = refl
  length-eq-count (x ∷ xs) = omega (arith, length-eq-count xs)

  pub length-filter : (p : A → Bool) (xs : List A) → length (filter p xs) ≡ count p xs
  length-filter p [] = refl
  length-filter p (x ∷ xs) = ground (arith, length-filter p xs)

  pub any-eq-false :
      (p : A → Bool) (xs : List A) → any p xs ≡ false → All (λ x. not (p x) ≡ true) xs
  any-eq-false p [] h = tt
  any-eq-false p (x ∷ xs) h = elim (Bool-cases (p x)) [
    | inl e ↦ absurd (ground arith)
    | inr e ↦ (ground arith, any-eq-false p xs (ground arith))
  ]

  pub filter_all : (xs : List A) → filter (λ x. true) xs ≡ xs
  filter_all [] = refl
  filter_all (x ∷ xs) = ap (λ (ys : List A). x ∷ ys) (filter_all xs)

  pub any-count : (p : A → Bool) (xs : List A) → any p xs ≡ false → count p xs ≡ 0
  any-count p [] h = refl
  any-count p (x ∷ xs) h = ground (arith, any-count p xs)

  pub count-any : (p : A → Bool) (xs : List A) → count p xs ≡ 0 → any p xs ≡ false
  count-any p [] h = refl
  count-any p (x ∷ xs) h = ground (arith, count-any p xs)

  -- Some element passes a test, and every element satisfies `P`: so does one that passes.
  pub any-All :
      (P : A → Type 0) (p : A → Bool) (xs : List A)
      → any p xs ≡ true
      → All P xs
      → (a : A) × (p a ≡ true) × P a
  any-All P p [] h all = absurd (ground arith)
  any-All P p (x ∷ xs) h all = elim (Bool-cases (p x)) [
    | inl e ↦ (x, e, all.0)
    | inr e ↦ any-All P p xs (ground arith) all.1
  ]

  -- No element that passes `p` passes `r`.
  pub any-filter :
      (p r : A → Bool) (xs : List A)
      → any r (filter p xs) ≡ false
      → All (λ x. p x ≡ true → r x ≡ false) xs
  any-filter p r [] h = tt
  any-filter p r (x ∷ xs) h = elim (Bool-cases (p x)) [
    | inl e ↦ let h' = rw e at h in ((λ e'. or-left _ _ h'), any-filter p r xs (or-tail _ _ h'))
    | inr e ↦ ((λ e'. absurd (ground arith)), any-filter p r xs (rw e at h))
  ]
    where
      or-left : (a b : Bool) → (a || b) ≡ false → a ≡ false
      or-left a b h = ground arith

      or-tail : (a b : Bool) → (a || b) ≡ false → b ≡ false
      or-tail a b h = ground arith

  pub All-imp : (P Q : A → Type 0) (xs : List A) → ((x : A) → P x → Q x) → All P xs → All Q xs
  All-imp P Q [] f h = tt
  All-imp P Q (x ∷ xs) f h = (f x h.0, All-imp P Q xs f h.1)

  pub All-zip : (P Q : A → Type 0) (xs : List A) → All P xs → All Q xs → All (λ x. P x × Q x) xs
  All-zip P Q [] h k = tt
  All-zip P Q (x ∷ xs) h k = ((h.0, k.0), All-zip P Q xs h.1 k.1)

  pub All-always : (P : A → Type 0) → ((x : A) → P x) → (xs : List A) → All P xs
  All-always P f [] = tt
  All-always P f (x ∷ xs) = (f x, All-always P f xs)

-- `LIMIT` and `OFFSET`
abbrev pub page : {A : Type 0} → ℕ → ℕ → List A → List A
page limit offset rows = take limit (drop offset rows)

-- `rows[-n:]`, of a positive n
abbrev pub last_of : {A : Type 0} → ℕ → List A → List A
last_of n rows = drop (length rows - n) rows
