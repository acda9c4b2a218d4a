-- ===== src/CanIDeploy/Summary/Answers.antt =====
-- The answer of a summary by its four obstacles, and tests of its reasons.
use pact_broker.Prelude.{
  ◌≡◌, ◌↔◌, refl, Bool, true, false, not, ◌&&◌, ◌||◌, Option, none, some, List, [], ◌∷◌, ◌++◌, any,
  any-append, arith, if◌then◌else◌, Bool-cases, inl, inr,
}
use pact_broker.CanIDeploy.Summary.{
  Reason, successful, no_dependencies_missing, ReasonType, error, warning, success, type_of,
}
use pact_broker.CanIDeploy.Summary.Lists.{has_any}

abbrev pub is_error_type : ReasonType → Bool
is_error_type t = elim t [ error ↦ true | _ ↦ false ]

abbrev pub is_success_type : ReasonType → Bool
is_success_type t = elim t [ success ↦ true | _ ↦ false ]

abbrev pub is_error : Reason → Bool
is_error r = is_error_type (type_of r)

abbrev pub is_success : Reason → Bool
is_success r = is_success_type (type_of r)

pub apart_types : (t : ReasonType) → is_error_type t ≡ true → is_success_type t ≡ true → ⊥
apart_types error h k = cc
apart_types warning h k = cc
apart_types success h k = cc

pub error-is_success : (r : Reason) → is_error r ≡ true → is_success r ≡ false
error-is_success r h = elim (Bool-cases (is_success r)) [
  | inl both ↦ absurd (apart_types (type_of r) h both)
  | inr other ↦ other
]

pub success-is_error : (r : Reason) → is_success r ≡ true → is_error r ≡ false
success-is_error r h = elim (Bool-cases (is_error r)) [
  | inl both ↦ absurd (apart_types (type_of r) both h)
  | inr other ↦ other
]

-- What a test finds among the reasons.
pub either :
    (o b : Bool) {w c x y z : Bool}
    → w ≡ false
    → c ≡ o
    → x ≡ b
    → y ≡ z
    → (w || (if c then x else y)) ≡ (if o then b else z)
either o b hw hc hx hy = rw (hw, hc, hx, hy) refl

pub all_of : (o : Bool) → (if o then o else false) ≡ o
all_of true = refl
all_of false = refl

-- The four obstacles.
unfoldable pub answer : (nonexistent missing failed unknown : Bool) → Option Bool
answer n m f u =
    if n then some false else if u then none else if m then none else some (not (u || f))

pub answer_true :
    (n m f u : Bool) → (answer n m f u ≡ some true) ↔ ((if n then true else m || (f || u)) ≡ false)
unfolding answer
answer_true n m f u = ground arith

pub shared : (b m f u : Bool) → (((b && m) || (b && f)) || (b && u)) ≡ (b && (m || (f || u)))
shared true true f u = refl
shared true false f u = refl
shared false m f u = refl

pub chosen :
    (b n w : Bool) {c x y : Bool}
    → c ≡ n
    → x ≡ (b && n)
    → y ≡ (b && w)
    → (if c then x else y) ≡ (b && (if n then true else w))
chosen b n w hc hx hy = ground arith

pub any-if :
    (p : Reason → Bool) (r : Reason) (b : Bool)
    → p r ≡ false
    → any p (if b then r ∷ [] else []) ≡ false
any-if p r true h = rw h refl
any-if p r false h = refl

pub any-told :
    (p : Reason → Bool) (b c d : Bool)
    → p successful ≡ b
    → p no_dependencies_missing ≡ b
    → any p (if c then (if d then successful ∷ [] else no_dependencies_missing ∷ []) else [])
      ≡ (b && c)
any-told p b c d h k = ground arith

pub any-second :
    (p : Reason → Bool) (errors warnings rest : List Reason)
    → any p (elim errors [ [] ↦ warnings ++ rest | m ∷ messages ↦ warnings ++ (m ∷ messages) ])
      ≡ (any p warnings || (if has_any errors then any p errors else any p rest))
any-second p [] warnings rest = any-append p warnings rest
any-second p (m ∷ messages) warnings rest = any-append p warnings (m ∷ messages)

pub answer_told :
    (n m f u : Bool)
    → (answer n m f u ≡ some true)
      ↔ ((if if n then true else m || (f || u) then false else not (u || f) && not m) ≡ true)
unfolding answer
answer_told n m f u = ground arith
