-- ===== src/Prelude/Members.antt =====
-- Membership in lists, and lists whose elements are kept by a test.
use Prim.Native.Nat.{◌≤◌, ◌<◌}
use mathlib.Core.Path.{◌≡◌, refl, sym, subst}
use mathlib.Core.Logic.{◌↔◌, ◌⊎◌, inl, inr, ⊎_elim}
use mathlib.Core.Bool.{Bool, true, false}
use mathlib.Core.List.{List, [], ◌∷◌, ◌++◌, Memᴰ}
use mathlib.Core.List.Memᴰ
use native.Mathlib.Omega.{arith}
use pact_broker.Prelude.Tests.{Bool-cases}
use pact_broker.Prelude.Lists.{length, keep, any, All}

-- The lists of a list, one after the other.
abbrev pub concat {ℓ} : {A : Type ℓ} → List (List A) → List A
concat [] = []
concat (xs ∷ rest) = xs ++ concat rest

-- No element of one list is an element of the other.
abbrev pub Apart {ℓ} : {A : Type ℓ} → List A → List A → Type ℓ
Apart {A} xs ys = (x : A) → Memᴰ x xs → Memᴰ x ys → ⊥

module _ {ℓ} {A : Type ℓ} where
  pub Memᴰ-cons : (a x : A) (xs : List A) → Memᴰ a (x ∷ xs) ↔ ((a ≡ x) ⊎ Memᴰ a xs)
  Memᴰ-cons a x xs = (Memᴰ.cases_cons, ⊎_elim Memᴰ.head Memᴰ.tail)

  pub Memᴰ-append : (a : A) (xs ys : List A) → Memᴰ a (xs ++ ys) ↔ (Memᴰ a xs ⊎ Memᴰ a ys)
  Memᴰ-append a xs ys = (Memᴰ.append_cases xs, ⊎_elim (Memᴰ.append_left ys) (Memᴰ.append_right xs))

  pub Memᴰ-concat :
      (a : A) {xs : List A} (lists : List (List A))
      → Memᴰ xs lists
      → Memᴰ a xs
      → Memᴰ a (concat lists)
  Memᴰ-concat a [] l m = absurd (Memᴰ.not-nil l)
  Memᴰ-concat a (ys ∷ lists) (Memᴰ.head e) m = Memᴰ.append_left (concat lists) (subst (Memᴰ a) e m)
  Memᴰ-concat a (ys ∷ lists) (Memᴰ.tail l) m = Memᴰ.append_right ys (Memᴰ-concat a lists l m)

  pub concat-Memᴰ :
      (a : A) (lists : List (List A))
      → Memᴰ a (concat lists)
      → (xs : List A) × Memᴰ xs lists × Memᴰ a xs
  concat-Memᴰ a [] m = absurd (Memᴰ.not-nil m)
  concat-Memᴰ a (ys ∷ lists) m = elim (Memᴰ.append_cases ys m) [
    | inl here ↦ (ys, Memᴰ.head refl, here)
    | inr later ↦ let (xs, l, n) = concat-Memᴰ a lists later in (xs, Memᴰ.tail l, n)
  ]

  pub Memᴰ-keep :
      (p : A → Bool) (a : A) (xs : List A) → Memᴰ a (keep p xs) ↔ (Memᴰ a xs × (p a ≡ true))
  Memᴰ-keep p a [] = (λ m. absurd (Memᴰ.not-nil m), λ (m, e). absurd (Memᴰ.not-nil m))
  Memᴰ-keep p a (x ∷ xs) =
      ground (arith, Memᴰ-cons a x xs, Memᴰ-cons a x (keep p xs), Memᴰ-keep p a xs)

  pub any-Memᴰ : (p : A → Bool) (xs : List A) → any p xs ≡ true → (a : A) × Memᴰ a xs × (p a ≡ true)
  any-Memᴰ p [] h = absurd cc
  any-Memᴰ p (x ∷ xs) h = elim (Bool-cases (p x)) [
    | inl here ↦ (x, Memᴰ.head refl, here)
    | inr other ↦ let (a, m, e) = any-Memᴰ p xs (ground arith) in (a, Memᴰ.tail m, e)
  ]

  pub Memᴰ-any : (p : A → Bool) (a : A) (xs : List A) → Memᴰ a xs → p a ≡ true → any p xs ≡ true
  Memᴰ-any p a [] m e = absurd (Memᴰ.not-nil m)
  Memᴰ-any p a (x ∷ xs) m e = ground (arith, Memᴰ-cons a x xs, Memᴰ-any p a xs)

  pub length-keep-le : (p : A → Bool) (xs : List A) → length (keep p xs) ≤ length xs
  length-keep-le p [] = omega arith
  length-keep-le p (x ∷ xs) = ground (arith, length-keep-le p xs)

  pub length-keep-lt :
      (p : A → Bool) (a : A) (xs : List A)
      → Memᴰ a xs
      → p a ≡ false
      → length (keep p xs) < length xs
  length-keep-lt p a [] m e = absurd (Memᴰ.not-nil m)
  length-keep-lt p a (x ∷ xs) m e =
      ground (arith, Memᴰ-cons a x xs, length-keep-le p xs, length-keep-lt p a xs)

pub All-Memᴰ {ℓ κ} :
    {A : Type ℓ} (P : A → Type κ) {x : A} (xs : List A) → All P xs → Memᴰ x xs → P x
All-Memᴰ P [] all m = absurd (Memᴰ.not-nil m)
All-Memᴰ P (y ∷ xs) all (Memᴰ.head e) = subst P (sym e) all.0
All-Memᴰ P (y ∷ xs) all (Memᴰ.tail m) = All-Memᴰ P xs all.1 m

pub Memᴰ-All {ℓ κ} :
    {A : Type ℓ} (P : A → Type κ) (xs : List A) → ((x : A) → Memᴰ x xs → P x) → All P xs
Memᴰ-All P [] h = tt
Memᴰ-All P (x ∷ xs) h = (h x (Memᴰ.head refl), Memᴰ-All P xs (λ y m. h y (Memᴰ.tail m)))
