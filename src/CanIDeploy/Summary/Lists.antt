-- ===== src/CanIDeploy/Summary/Lists.antt =====
-- Tests of the lists that a summary is made of.
use pact_broker.Prelude.{
  ◌+◌, ◌≡◌, refl, Bool, true, false, not, ◌&&◌, ◌||◌, Option, none, some, List, [], ◌∷◌, map, keep,
  any, length, arith, ltb,
}
use pact_broker.CanIDeploy.{Row}
use pact_broker.CanIDeploy.Summary.{succeeds, fails, is_unknown, all}

-- A list has an element.
abbrev pub has_any {ℓ} : {A : Type ℓ} → List A → Bool
has_any xs = any (λ x. true) xs

pub has_any-keep {ℓ} : {A : Type ℓ} (p : A → Bool) (xs : List A) → has_any (keep p xs) ≡ any p xs
has_any-keep p [] = refl
has_any-keep p (x ∷ xs) = ground (arith, has_any-keep p xs)

pub any-keep-keep {ℓ} :
    {A : Type ℓ} (p r : A → Bool) (xs : List A) → any p (keep r xs) ≡ any r (keep p xs)
any-keep-keep p r [] = refl
any-keep-keep p r (x ∷ xs) = ground (arith, any-keep-keep p r xs)

pub any-map {ℓ κ} :
    {A : Type ℓ} {B : Type κ} (p : B → Bool) (b : Bool) (f : A → B) (xs : List A)
    → ((x : A) → p (f x) ≡ b)
    → any p (map f xs) ≡ (b && has_any xs)
any-map p true f [] h = refl
any-map p false f [] h = refl
any-map p true f (x ∷ xs) h = rw (h x) refl
any-map p false f (x ∷ xs) h = rw (h x) (any-map p false f xs h)

pub any-length {ℓ} :
    {A : Type ℓ} (p : A → Bool) (xs : List A) → any p xs ≡ ltb 0 (length (keep p xs))
any-length p [] = ground arith
any-length p (x ∷ xs) = ground (arith, any-length p xs)

pub has_any-length {ℓ} : {A : Type ℓ} (xs : List A) → has_any xs ≡ ltb 0 (length xs)
has_any-length [] = ground arith
has_any-length (x ∷ xs) = ground arith

pub all-succeeds :
    (rows : List Row) → all succeeds rows ≡ not (any is_unknown rows || any fails rows)
all-succeeds [] = refl
all-succeeds (row ∷ rows) = go row.success (all-succeeds rows) refl
  where
    go :
        (o : Option Bool)
        → all succeeds rows ≡ not (any is_unknown rows || any fails rows)
        → row.success ≡ o
        → all succeeds (row ∷ rows) ≡ not (any is_unknown (row ∷ rows) || any fails (row ∷ rows))
    go none h e = rw e refl
    go (some true) h e = rw e h
    go (some false) h e = rw e (ground arith)

-- Each row succeeds, fails, or is unknown.
pub length-rows :
    (rows : List Row)
    → length (keep succeeds rows) + length (keep fails rows) + length (keep is_unknown rows)
      ≡ length rows
length-rows [] = omega arith
length-rows (row ∷ rows) = go row.success (length-rows rows) refl
  where
    go :
        (o : Option Bool)
        → length (keep succeeds rows) + length (keep fails rows) + length (keep is_unknown rows)
          ≡ length rows
        → row.success ≡ o
        → length (keep succeeds (row ∷ rows))
            + length (keep fails (row ∷ rows))
            + length (keep is_unknown (row ∷ rows))
          ≡ length (row ∷ rows)
    go none h e = rw e (omega arith)
    go (some true) h e = rw e (omega arith)
    go (some false) h e = rw e (omega arith)
