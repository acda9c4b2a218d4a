-- ===== src/Network/Groupify/Distinct.antt =====
-- Lists of items with no object twice, and their differences.
use pact_broker.Prelude.{
  ◌≡◌, ◌↔◌, ◌⊎◌, inl, inr, refl, sym, subst, ap, ◌∙◌, Bool, true, false, not, List, [], ◌∷◌, ◌++◌,
  length, any, All, All-append, All-keep, ◌==◌, ==_iff, ◌<◌, arith, Bool-cases, Memᴰ-keep, any-Memᴰ,
  Memᴰ-any, length-keep-lt, All-Memᴰ, Memᴰ-All,
}
use mathlib.Core.List.{Memᴰ}
use mathlib.Core.List.Memᴰ
use pact_broker.Network.{IndexItem}
use pact_broker.Network.Groupify.{subtract}

-- No object is in the list twice.
abbrev pub Distinct : List IndexItem → Type 0
Distinct [] = Unit
Distinct (x ∷ xs) = All (λ y. ¬ (x.object ≡ y.object)) xs × Distinct xs

-- The object of an item is in a list.
abbrev pub holds_object : List IndexItem → IndexItem → Bool
holds_object ys x = any (λ y. y.object == x.object) ys

pub object-eq :
    (xs : List IndexItem) (x y : IndexItem)
    → Distinct xs
    → Memᴰ x xs
    → Memᴰ y xs
    → x.object ≡ y.object
    → x ≡ y
object-eq [] x y d m n e = absurd (Memᴰ.not-nil m)
object-eq (z ∷ xs) x y d (Memᴰ.head h) (Memᴰ.head k) e = h ∙ sym k
object-eq (z ∷ xs) x y d (Memᴰ.head h) (Memᴰ.tail n) e = absurd (
    All-Memᴰ (λ w. ¬ (z.object ≡ w.object)) xs d.0 n (ap (λ (w : IndexItem). w.object) (sym h) ∙ e))
object-eq (z ∷ xs) x y d (Memᴰ.tail m) (Memᴰ.head k) e = absurd (
    All-Memᴰ (λ w. ¬ (z.object ≡ w.object)) xs d.0 m
      (ap (λ (w : IndexItem). w.object) (sym k) ∙ sym e))
object-eq (z ∷ xs) x y d (Memᴰ.tail m) (Memᴰ.tail n) e = object-eq xs x y d.1 m n e

pub subtract-Memᴰ :
    (xs ys : List IndexItem) (x : IndexItem)
    → Memᴰ x (subtract xs ys) ↔ (Memᴰ x xs × (holds_object ys x ≡ false))
unfolding subtract
subtract-Memᴰ xs ys x =
    let kept = Memᴰ-keep (λ x. not (holds_object ys x)) x xs in ground (arith, kept)

-- Among the items of a list without an object twice, each is in a list or in what is left without it.
pub split-subtract :
    (pool xs ys : List IndexItem) (x : IndexItem)
    → Distinct pool
    → ((y : IndexItem) → Memᴰ y ys → Memᴰ y pool)
    → Memᴰ x pool
    → Memᴰ x xs
    → Memᴰ x ys ⊎ Memᴰ x (subtract xs ys)
split-subtract pool xs ys x distinct inside m n = elim (Bool-cases (holds_object ys x)) [
  | inl held ↦
      let (y, k, e) = any-Memᴰ (λ y. y.object == x.object) ys held in
      let same =
        object-eq pool x y distinct m (inside y k) (sym ((==_iff y.object x.object).0 e)) in
      inl (Memᴰ.cast same k)
  | inr free ↦ inr ((subtract-Memᴰ xs ys x).1 (n, free))
]

pub subtract-Apart :
    (xs ys : List IndexItem) (x y : IndexItem)
    → Memᴰ x ys
    → Memᴰ y (subtract xs ys)
    → ¬ (x.object ≡ y.object)
subtract-Apart xs ys x y m n e =
    let free = ((subtract-Memᴰ xs ys y).0 n).1 in
    let held = Memᴰ-any (λ z. z.object == y.object) x ys m ((==_iff x.object y.object).1 e) in cc

pub length-subtract-lt :
    (xs ys : List IndexItem) (x : IndexItem)
    → Memᴰ x xs
    → Memᴰ x ys
    → length (subtract xs ys) < length xs
unfolding subtract
length-subtract-lt xs ys x m n =
    let held : holds_object ys x ≡ true =
      Memᴰ-any (λ y. y.object == x.object) x ys n ((==_iff x.object x.object).1 refl) in
    length-keep-lt (λ x. not (holds_object ys x)) x xs m (ap not held)

pub Distinct-subtract : (xs ys : List IndexItem) → Distinct xs → Distinct (subtract xs ys)
unfolding subtract
Distinct-subtract [] ys d = tt
Distinct-subtract (x ∷ xs) ys d = elim (Bool-cases (holds_object ys x)) [
  | inl held ↦ rw held (Distinct-subtract xs ys d.1)
  | inr free ↦ rw free (
    All-keep (λ y. ¬ (x.object ≡ y.object)) (λ y. ¬ (x.object ≡ y.object))
        (λ x. not (holds_object ys x)) xs (λ y p _. p) d.0,
    Distinct-subtract xs ys d.1,
  )
]

pub Distinct-append :
    (xs ys : List IndexItem)
    → Distinct xs
    → Distinct ys
    → ((x y : IndexItem) → Memᴰ x xs → Memᴰ y ys → ¬ (x.object ≡ y.object))
    → Distinct (xs ++ ys)
Distinct-append [] ys d e apart = e
Distinct-append (x ∷ xs) ys d e apart = (
  All-append (λ y. ¬ (x.object ≡ y.object)) xs ys d.0
      (Memᴰ-All (λ y. ¬ (x.object ≡ y.object)) ys (λ y. apart x y (Memᴰ.head refl))),
  Distinct-append xs ys d.1 e (λ z y m. apart z y (Memᴰ.tail m)),
)

pub Distinct-left : (xs ys : List IndexItem) → Distinct (xs ++ ys) → Distinct xs
Distinct-left [] ys d = tt
Distinct-left (x ∷ xs) ys d = (
  Memᴰ-All (λ y. ¬ (x.object ≡ y.object)) xs
      (λ y m. All-Memᴰ (λ y. ¬ (x.object ≡ y.object)) (xs ++ ys) d.0 (Memᴰ.append_left ys m)),
  Distinct-left xs ys d.1,
)

pub Distinct-right : (xs ys : List IndexItem) → Distinct (xs ++ ys) → Distinct ys
Distinct-right [] ys d = d
Distinct-right (x ∷ xs) ys d = Distinct-right xs ys d.1

Memᴰ-insert : (x c : IndexItem) (xs ys : List IndexItem) → Memᴰ x (xs ++ ys) → Memᴰ x (xs ++ c ∷ ys)
Memᴰ-insert x c xs ys m = elim (Memᴰ.append_cases xs m) [
  | inl left ↦ Memᴰ.append_left (c ∷ ys) left
  | inr right ↦ Memᴰ.append_right xs (Memᴰ.tail right)
]

pub Distinct-skip :
    (xs : List IndexItem) (c : IndexItem) (ys : List IndexItem)
    → Distinct (xs ++ c ∷ ys)
    → Distinct (xs ++ ys)
Distinct-skip [] c ys d = d.1
Distinct-skip (x ∷ xs) c ys d = (
  Memᴰ-All (λ y. ¬ (x.object ≡ y.object)) (xs ++ ys)
      (λ y m.
        All-Memᴰ (λ y. ¬ (x.object ≡ y.object)) {x = y} (xs ++ c ∷ ys) d.0
          (Memᴰ-insert y c xs ys m)),
  Distinct-skip xs c ys d.1,
)

pub Distinct-Apart :
    (xs ys : List IndexItem) (x y : IndexItem)
    → Distinct (xs ++ ys)
    → Memᴰ x xs
    → Memᴰ y ys
    → ¬ (x.object ≡ y.object)
Distinct-Apart (z ∷ xs) ys x y d (Memᴰ.head e) n =
    subst (λ w. ¬ (w.object ≡ y.object)) (sym e)
      (All-Memᴰ (λ w. ¬ (z.object ≡ w.object)) {x = y} (xs ++ ys) d.0 (Memᴰ.append_right xs n))
Distinct-Apart (z ∷ xs) ys x y d (Memᴰ.tail m) n = Distinct-Apart xs ys x y d.1 m n
Distinct-Apart [] ys x y d m n = absurd (Memᴰ.not-nil m)
