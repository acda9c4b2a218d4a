-- ===== src/Matrix/Selectors/Types.antt =====
-- Which field a type of the selector asks for.
use pact_broker.Prelude.{
  String, Bool, true, false, ◌||◌, Option, none, some, ◌≡◌, refl, sym, subst, str_eq, eq_iff,
  Bool-cases, inl, inr,
}
use pact_broker.Matrix.Form.{
  Field, version, branch, environment, tag, latest_flag, selectorizor, same_field,
}
use pact_broker.Matrix.Selectors.{applicable}

-- The types for which a field is meant.
abbrev pub applies : String → Field → Bool
applies type version = str_eq type "specify-version"
applies type branch = str_eq type "specify-latest-branch" || str_eq type "specify-all-branch"
applies type environment = str_eq type "specify-environment"
applies type tag = str_eq type "specify-latest-tag" || str_eq type "specify-all-tagged"
applies type latest_flag = false
applies type selectorizor = false

abbrev pub is_field : Option Field → Field → Bool
is_field none g = false
is_field (some f) g = same_field f g

exclusive : (t a b : String) → str_eq a b ≡ false → str_eq t a ≡ true → str_eq t b ≡ false
exclusive t a b h e = subst (λ s. str_eq s b ≡ false) (sym ((eq_iff t a).0 e)) h

abbrev Agrees : String → Type 0
Agrees type = (g : Field) → is_field (applicable type) g ≡ applies type g

meets : (type l : String) → Agrees l → str_eq type l ≡ true → Agrees type
meets type l h e = subst Agrees (sym ((eq_iff type l).0 e)) h

-- Two tests of a field agree if they do on each of the six.
agree :
    (a b : Field → Bool)
    → a version ≡ b version
    → a branch ≡ b branch
    → a environment ≡ b environment
    → a tag ≡ b tag
    → a latest_flag ≡ b latest_flag
    → a selectorizor ≡ b selectorizor
    → (g : Field) → a g ≡ b g
agree a b v r e t l s version = v
agree a b v r e t l s branch = r
agree a b v r e t l s environment = e
agree a b v r e t l s tag = t
agree a b v r e t l s latest_flag = l
agree a b v r e t l s selectorizor = s

at_version : Agrees "specify-version"
unfolding applicable
at_version = agree _ (applies "specify-version") refl refl refl refl refl refl

at_latest_tag : Agrees "specify-latest-tag"
unfolding applicable
at_latest_tag = agree _ (applies "specify-latest-tag") refl refl refl refl refl refl

at_all_tagged : Agrees "specify-all-tagged"
unfolding applicable
at_all_tagged = agree _ (applies "specify-all-tagged") refl refl refl refl refl refl

at_latest_branch : Agrees "specify-latest-branch"
unfolding applicable
at_latest_branch = agree _ (applies "specify-latest-branch") refl refl refl refl refl refl

at_all_branch : Agrees "specify-all-branch"
unfolding applicable
at_all_branch = agree _ (applies "specify-all-branch") refl refl refl refl refl refl

at_environment : Agrees "specify-environment"
unfolding applicable
at_environment = agree _ (applies "specify-environment") refl refl refl refl refl refl

otherwise :
    (type : String)
    → str_eq type "specify-version" ≡ false
    → str_eq type "specify-latest-tag" ≡ false
    → str_eq type "specify-all-tagged" ≡ false
    → str_eq type "specify-latest-branch" ≡ false
    → str_eq type "specify-all-branch" ≡ false
    → str_eq type "specify-environment" ≡ false
    → Agrees type
unfolding applicable
otherwise type a b c d e f version = rw (a, b, c, d, e, f)
otherwise type a b c d e f branch = rw (a, b, c, d, e, f)
otherwise type a b c d e f environment = rw (a, b, c, d, e, f)
otherwise type a b c d e f tag = rw (a, b, c, d, e, f)
otherwise type a b c d e f latest_flag = rw (a, b, c, d, e, f)
otherwise type a b c d e f selectorizor = rw (a, b, c, d, e, f)

pub is_field-applicable : (type : String) → Agrees type
is_field-applicable type = elim (Bool-cases (str_eq type "specify-version")) [
  | inl v ↦ meets type "specify-version" at_version v
  | inr n0 ↦ elim (Bool-cases (str_eq type "specify-latest-tag")) [
    | inl v ↦ meets type "specify-latest-tag" at_latest_tag v
    | inr n1 ↦ elim (Bool-cases (str_eq type "specify-all-tagged")) [
      | inl v ↦ meets type "specify-all-tagged" at_all_tagged v
      | inr n2 ↦ elim (Bool-cases (str_eq type "specify-latest-branch")) [
        | inl v ↦ meets type "specify-latest-branch" at_latest_branch v
        | inr n3 ↦ elim (Bool-cases (str_eq type "specify-all-branch")) [
          | inl v ↦ meets type "specify-all-branch" at_all_branch v
          | inr n4 ↦ elim (Bool-cases (str_eq type "specify-environment")) [
            | inl v ↦ meets type "specify-environment" at_environment v
            | inr n5 ↦ otherwise type n0 n1 n2 n3 n4 n5
          ]
        ]
      ]
    ]
  ]
]
