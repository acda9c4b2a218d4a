-- ===== src/Pagination/Pages/Fragments.antt =====
-- The fragments of the data, page after page, are the data.
use pact_broker.Prelude.{
  ℕ, zero, suc, ◌+◌, ◌-◌, ◌*◌, ◌≤◌, ◌≡◌, refl, ap, ◌∙◌, append-nil, Bool-cases, inl, inr, leb, min,
  some, List, [], ◌∷◌, ◌++◌, arith, take, drop, count_up, drop-drop, take-add,
}
use pact_broker.Pagination.Pages.{get_total_page, get_data_fragment}
use pact_broker.Pagination.Pages.Count.{get_total_page_iff}

fragment_size :
    (size total m : ℕ) → min (suc m * size) total - size * m ≡ min size (total - size * m)
fragment_size size total m = omega arith

module _ {ℓ} {A : Type ℓ} where
  -- A full part of `a` entries and then one of `b`, where only `r` are to be taken.
  take-min-rest :
      (a b r : ℕ) (xs : List A)
      → take (min a r) xs ++ take (min b (r - a)) (drop a xs) ≡ take (min (a + b) r) xs
  take-min-rest a b r xs = elim (Bool-cases (leb a r)) [
    | inl within ↦
        let whole : min a r ≡ a = ground arith in
        let rest : a + min b (r - a) ≡ min (a + b) r = ground arith in
        rw whole (take-add a (min b (r - a)) xs ∙ ap (λ k. take k xs) rest)
    | inr beyond ↦
        let short : min a r ≡ r = ground arith in
        let nothing : min b (r - a) ≡ 0 = ground arith in
        let rest : min (a + b) r ≡ r = ground arith in
        rw (short, nothing, rest) (append-nil (take r xs))
  ]

  -- The fragments of some pages, one after the other.
  abbrev pub fragments : ℕ → ℕ → List A → List ℕ → List A
  fragments size total source [] = []
  fragments size total source (n ∷ ns) =
      get_data_fragment size total source n ++ fragments size total source ns

  -- The fragment of a page: the entries behind those of the pages before it, up to a full page, and up to
  -- the total.
  get_data_fragment-take :
      (size total : ℕ) (source : List A) (m : ℕ)
      → get_data_fragment size total source (suc m)
        ≡ take (min size (total - size * m)) (drop (size * m) source)
  unfolding get_data_fragment
  get_data_fragment-take size total source m =
      let before : suc m - 1 ≡ m = omega arith in
      let skip : size * m + 1 - 1 ≡ size * m = omega arith in
      rw (before, skip, fragment_size size total m) refl

  -- The fragments of `n` pages after the first `m` are the entries from `size * m` on, up to the total.
  fragments-count_up :
      (size total m n : ℕ) (source : List A)
      → fragments size total source (count_up (suc m) n)
        ≡ take (min (size * n) (total - size * m)) (drop (size * m) source)
  fragments-count_up size total m zero source =
      let none_left : min (size * zero) (total - size * m) ≡ zero = omega arith in rw none_left
  fragments-count_up size total m (suc n) source =
      let next : size * suc m ≡ size * m + size = omega arith in
      let left : total - (size * m + size) ≡ total - size * m - size = omega arith in
      rw
        (
          get_data_fragment-take size total source m,
          fragments-count_up size total (suc m) n source,
          next,
          left,
          ← drop-drop size (size * m) source,
        )
        (take-min-rest size (size * n) (total - size * m) (drop (size * m) source)
          ∙ ap (λ k. take k (drop (size * m) source)) (omega arith))

  -- Where there is a number of pages for a total, the fragments of all of them, in order, are the first
  -- entries of the data, so many as the total says, or all where there are fewer.
  pub fragments_all :
      (size total : ℕ) (source : List A) {pages : ℕ}
      → get_total_page total size ≡ some pages
      → fragments size total source (count_up 1 pages) ≡ take total source
  fragments_all size total source {pages} h =
      let enough : total ≤ size * pages =
        omega (arith, (get_total_page_iff total size h pages).1 (omega arith)) in
      let start : size * 0 ≡ 0 = omega arith in
      let all : min (size * pages) (total - 0) ≡ total = omega arith in
      fragments-count_up size total 0 pages source ∙ rw (start, all) refl
