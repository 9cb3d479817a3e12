-- ===== src/Prelude/Compare.antt =====
-- Array.prototype.sort by a comparison function: stable, and NaN counts as zero. The result is what the
-- language prescribes where the comparison is a total preorder, which `first-sort_compare` asks for.
use mathlib.Core.Path.{◌≡◌, refl}
use mathlib.Core.Logic.{inl, inr}
use mathlib.Core.Bool.{true, false}
use mathlib.Core.List.{List, [], ◌∷◌}
use jsyxi_shipping.Prelude.Tests.{if◌then◌else◌, Bool-cases}
use jsyxi_shipping.Prelude.Lists.{All, All-both, All-weaken}
use jsyxi_shipping.Prelude.Int.{ℤ, pos, leb_ℤ}

module _ {ℓ} {A : Type ℓ} (compare : A → A → ℤ) where
  unfoldable pub insert_compare : A → List A → List A
  insert_compare x [] = x ∷ []
  insert_compare x (y ∷ ys) =
      let rest = insert_compare x ys in if leb_ℤ (compare x y) (pos 0) then x ∷ y ∷ ys else y ∷ rest

  unfoldable pub sort_compare : List A → List A
  unfolding insert_compare
  sort_compare [] = []
  sort_compare (x ∷ xs) = insert_compare x (sort_compare xs)

  module _ {κ} (P : A → Type κ) where
    All-insert_compare : (x : A) (xs : List A) → P x → All P xs → All P (insert_compare x xs)
    unfolding insert_compare
    All-insert_compare x [] p h = (p, tt)
    All-insert_compare x (y ∷ ys) p (q, h) = elim (Bool-cases (leb_ℤ (compare x y) (pos 0))) [
      | inl first ↦ rw first (p, (q, h))
      | inr later ↦ rw later (q, All-insert_compare x ys p h)
    ]

    pub All-sort_compare : (xs : List A) → All P xs → All P (sort_compare xs)
    unfolding sort_compare
    All-sort_compare [] h = tt
    All-sort_compare (x ∷ xs) (p, h) =
        All-insert_compare x (sort_compare xs) p (All-sort_compare xs h)

    All-of_insert_compare : (x : A) (xs : List A) → All P (insert_compare x xs) → P x × All P xs
    unfolding insert_compare
    All-of_insert_compare x [] h = h
    All-of_insert_compare x (y ∷ ys) h = elim (Bool-cases (leb_ℤ (compare x y) (pos 0))) [
      | inl first ↦ rw first at h
      | inr later ↦
          let h' : P y × All P (insert_compare x ys) = rw later at h in
          let (p, rest) = All-of_insert_compare x ys h'.1 in (p, (h'.0, rest))
    ]

    pub All-of_sort_compare : (xs : List A) → All P (sort_compare xs) → All P xs
    unfolding sort_compare
    All-of_sort_compare [] h = tt
    All-of_sort_compare (x ∷ xs) h =
        let (p, rest) = All-of_insert_compare x (sort_compare xs) h in
        (p, All-of_sort_compare xs rest)

  insert_compare-cons : (x : A) (xs : List A) → insert_compare x xs ≡ [] → ⊥
  unfolding insert_compare
  insert_compare-cons x [] e = cc
  insert_compare-cons x (y ∷ ys) e = elim (Bool-cases (leb_ℤ (compare x y) (pos 0))) [
    | inl first ↦ let e' : x ∷ y ∷ ys ≡ [] = rw first at e in cc
    | inr later ↦ let e' : y ∷ insert_compare x ys ≡ [] = rw later at e in cc
  ]

  -- Only the empty list sorts to the empty list.
  pub sort_compare-nil : (xs : List A) → sort_compare xs ≡ [] → xs ≡ []
  unfolding sort_compare
  sort_compare-nil [] e = refl
  sort_compare-nil (x ∷ xs) e = absurd (insert_compare-cons x (sort_compare xs) e)

  abbrev pub Before : A → A → Type 0
  Before x y = leb_ℤ (compare x y) (pos 0) ≡ true

  abbrev pub FirstIsLeast : List A → Type 0
  FirstIsLeast [] = Unit
  FirstIsLeast (y ∷ ys) = All (Before y) ys

  -- Where the comparison is a total preorder on the elements, the first of the sorted list is least.
  module _ (P : A → Type 0)
      (trans : (x y z : A) → P x → P y → P z → Before x y → Before y z → Before x z)
      (total : (x y : A) → P x → P y → leb_ℤ (compare x y) (pos 0) ≡ false → Before y x) where
    insert_compare-FirstIsLeast :
        (x : A) (ys : List A)
        → P x
        → All P ys
        → FirstIsLeast ys
        → FirstIsLeast (insert_compare x ys)
    unfolding insert_compare
    insert_compare-FirstIsLeast x [] p h least = tt
    insert_compare-FirstIsLeast x (y ∷ ys) p (q, h) least =
        elim (Bool-cases (leb_ℤ (compare x y) (pos 0))) [
          | inl first ↦ rw first (
            first,
            All-weaken _ _ ys (λ z (r, below). trans x y z p q r first below)
                (All-both P (Before y) ys h least),
          )
          | inr later ↦ rw later (All-insert_compare (Before y) x ys (total x y p q later) least)
        ]

    pub first-sort_compare : (xs : List A) → All P xs → FirstIsLeast (sort_compare xs)
    unfolding sort_compare
    first-sort_compare [] h = tt
    first-sort_compare (x ∷ xs) (p, h) =
        insert_compare-FirstIsLeast x (sort_compare xs) p (All-sort_compare P xs h)
          (first-sort_compare xs h)
