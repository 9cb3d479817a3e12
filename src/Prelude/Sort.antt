-- ===== src/Prelude/Sort.antt =====
-- Array.prototype.sort by a numeric key: stable, as the language specifies it.
use Prim.Native.Nat.{ℕ, ◌≤◌}
use mathlib.Core.Path.{◌≡◌, sym, subst, ◌∙◌}
use mathlib.Core.Logic.{inl, inr}
use mathlib.Core.Bool.{Bool, true, false, false≢true}
use mathlib.Core.Option.{none, some, some-injective}
use mathlib.Core.List.{List, [], ◌∷◌, Perm, Mem, mem-cons_self, mem-cons_of_mem}
use mathlib.Core.List.Perm
use mathlib.Core.List.Perm.{mem_iff}
use native.Mathlib.Omega.{arith}
use native.Mathlib.Nat.{le_refl, le_trans}
use jsyxi_shipping.Prelude.Tests.{leb, leb→le, if◌then◌else◌, Bool-cases}
use jsyxi_shipping.Prelude.Lists.{All, All-weaken, find}

module _ {ℓ} {A : Type ℓ} (key : A → ℕ) where
  unfoldable pub insert_by : A → List A → List A
  insert_by x [] = x ∷ []
  insert_by x (y ∷ ys) = if leb (key x) (key y) then x ∷ y ∷ ys else y ∷ insert_by x ys

  unfoldable pub sort_by : List A → List A
  unfolding insert_by
  sort_by [] = []
  sort_by (x ∷ xs) = insert_by x (sort_by xs)

  perm-insert_by : (x : A) (xs : List A) → Perm (insert_by x xs) (x ∷ xs)
  unfolding insert_by
  perm-insert_by x [] = Perm.refl (x ∷ [])
  perm-insert_by x (y ∷ ys) = elim (Bool-cases (leb (key x) (key y))) [
    | inl first ↦ rw first (Perm.refl (x ∷ y ∷ ys))
    | inr later ↦ rw later (Perm.trans (Perm.cons y (perm-insert_by x ys)) (Perm.swap x y ys))
  ]

  -- Sorting keeps the elements.
  pub perm-sort_by : (xs : List A) → Perm (sort_by xs) xs
  unfolding sort_by
  perm-sort_by [] = Perm.refl []
  perm-sort_by (x ∷ xs) = Perm.trans (perm-insert_by x (sort_by xs)) (Perm.cons x (perm-sort_by xs))

  All-insert_by : (P : A → Type 0) (x : A) (xs : List A) → P x → All P xs → All P (insert_by x xs)
  unfolding insert_by
  All-insert_by P x [] p h = (p, tt)
  All-insert_by P x (y ∷ ys) p (q, h) = elim (Bool-cases (leb (key x) (key y))) [
    | inl first ↦ rw first (p, (q, h))
    | inr later ↦ rw later (q, All-insert_by P x ys p h)
  ]

  All-of_insert_by :
      (P : A → Type 0) (x : A) (xs : List A) → All P (insert_by x xs) → P x × All P xs
  unfolding insert_by
  All-of_insert_by P x [] h = h
  All-of_insert_by P x (y ∷ ys) h = elim (Bool-cases (leb (key x) (key y))) [
    | inl first ↦ rw first at h
    | inr later ↦
        let h' : P y × All P (insert_by x ys) = rw later at h in
        let (p, rest) = All-of_insert_by P x ys h'.1 in (p, (h'.0, rest))
  ]

  pub All-of_sort_by : (P : A → Type 0) (xs : List A) → All P (sort_by xs) → All P xs
  unfolding sort_by
  All-of_sort_by P [] h = tt
  All-of_sort_by P (x ∷ xs) h =
      let (p, rest) = All-of_insert_by P x (sort_by xs) h in (p, All-of_sort_by P xs rest)

  pub All-sort_by : (P : A → Type 0) (xs : List A) → All P xs → All P (sort_by xs)
  unfolding sort_by
  All-sort_by P [] h = tt
  All-sort_by P (x ∷ xs) (p, h) = All-insert_by P x (sort_by xs) p (All-sort_by P xs h)

  -- The keys do not fall along the list.
  abbrev pub IsSorted : List A → Type 0
  IsSorted [] = Unit
  IsSorted (x ∷ xs) = All (λ y. key x ≤ key y) xs × IsSorted xs

  insert_by-IsSorted : (x : A) (xs : List A) → IsSorted xs → IsSorted (insert_by x xs)
  unfolding insert_by
  insert_by-IsSorted x [] h = (tt, tt)
  insert_by-IsSorted x (y ∷ ys) (below, h) = elim (Bool-cases (leb (key x) (key y))) [
    | inl first ↦
        let le : key x ≤ key y = leb→le (key x) (key y) first in
        rw first (
          (
            le,
            All-weaken (λ z. key y ≤ key z) (λ z. key x ≤ key z) ys (λ z k. le_trans le k) below,
          ),
          (below, h),
        )
    | inr later ↦ rw later (
      All-insert_by (λ z. key y ≤ key z) x ys (omega (arith, leb-false (key x) (key y) later))
          below,
      insert_by-IsSorted x ys h,
    )
  ]
    where
      leb-false : (a b : ℕ) → leb a b ≡ false → b ≤ a
      leb-false a b h = ground arith

  pub sort_by-IsSorted : (xs : List A) → IsSorted (sort_by xs)
  unfolding sort_by
  sort_by-IsSorted [] = tt
  sort_by-IsSorted (x ∷ xs) = insert_by-IsSorted x (sort_by xs) (sort_by-IsSorted xs)

  -- `r` is an element that passes the test, and none that passes has a smaller key.
  abbrev pub IsFirst : (A → Bool) → A → List A → Type ℓ
  IsFirst test r xs = Mem r xs × (test r ≡ true) × All (λ y. test y ≡ true → key r ≤ key y) xs

  find-IsFirst :
      (test : A → Bool) (xs : List A) (r : A)
      → IsSorted xs
      → find test xs ≡ some r
      → IsFirst test r xs
  find-IsFirst test [] r h e = cc
  find-IsFirst test (x ∷ xs) r (below, h) e = elim (Bool-cases (test x)) [
    | inl hit ↦
        let same : some x ≡ some r = rw hit at e in
        subst (λ z. IsFirst test z (x ∷ xs)) (some-injective _ _ same)
          (mem-cons_self, hit, ((λ _. le_refl (key x)), All-weaken _ _ xs (λ y k _. k) below))
    | inr miss ↦
        let (m, passes, least) = find-IsFirst test xs r h (rw miss at e) in
        (mem-cons_of_mem x m, passes, (λ hit. absurd (false≢true (sym miss ∙ hit)), least))
  ]

  find-none : (test : A → Bool) (xs : List A) → find test xs ≡ none → All (λ y. test y ≡ false) xs
  find-none test [] e = tt
  find-none test (x ∷ xs) e = elim (Bool-cases (test x)) [
    | inl hit ↦ let e' : some x ≡ none = rw hit at e in cc
    | inr miss ↦ (miss, find-none test xs (rw miss at e))
  ]

  -- The first match of the sorted list is a match of least key.
  pub find-sort_by :
      (test : A → Bool) (xs : List A) (r : A) → find test (sort_by xs) ≡ some r → IsFirst test r xs
  find-sort_by test xs r e =
      let (m, passes, least) = find-IsFirst test (sort_by xs) r (sort_by-IsSorted xs) e in
      ((mem_iff (perm-sort_by xs)).0 m, passes, All-of_sort_by _ xs least)

  pub find-sort_by-none :
      (test : A → Bool) (xs : List A) → find test (sort_by xs) ≡ none → All (λ y. test y ≡ false) xs
  find-sort_by-none test xs e = All-of_sort_by _ xs (find-none test (sort_by xs) e)
