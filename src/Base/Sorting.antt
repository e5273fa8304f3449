-- ===== src/Base/Sorting.antt =====
-- `sorted`, by keys that are texts, and sets of texts.
use mathlib.Core.Path.{◌≡◌, refl, ap, ◌∙◌}
use mathlib.Core.Logic.{inl, inr}
use mathlib.Core.Bool.{Bool, true, false, ◌&&◌}
use mathlib.Core.List.{List, [], ◌∷◌}
use native.Mathlib.Omega.{arith}
use whs_dynamic.Base.Tests.{
  ltb, eqb, ◌==◌, nat_eq, list_eq, list_beq_iff, contains, if◌then◌else◌, Bool-cases,
}
use whs_dynamic.Base.Lists.{All, any, filter_by, length}
use whs_dynamic.Base.Codes.{Text}

-- `s <= t`, by code points.
unfoldable pub text_leb : Text → Text → Bool
text_leb [] t = true
text_leb (c ∷ s) [] = false
text_leb (c ∷ s) (d ∷ t) = if ltb c d then true else eqb c d && text_leb s t

pub text_leb_refl : (s : Text) → text_leb s s ≡ true
unfolding text_leb
text_leb_refl [] = refl
text_leb_refl (c ∷ s) = ground (arith, text_leb_refl s)

pub text_leb_total : (s t : Text) → text_leb s t ≡ false → text_leb t s ≡ true
unfolding text_leb
text_leb_total [] t h = ground (arith, h)
text_leb_total (c ∷ s) [] h = refl
text_leb_total (c ∷ s) (d ∷ t) h = ground (arith, text_leb_total s t)

pub text_leb_trans :
    (s t u : Text) → text_leb s t ≡ true → text_leb t u ≡ true → text_leb s u ≡ true
unfolding text_leb
text_leb_trans [] t u h k = refl
text_leb_trans (c ∷ s) [] u h k = ground (arith, h)
text_leb_trans (c ∷ s) (d ∷ t) [] h k = ground (arith, k)
text_leb_trans (c ∷ s) (d ∷ t) (e ∷ u) h k = ground (arith, text_leb_trans s t u)

unfoldable pub add_distinct : Text → List Text → List Text
add_distinct s ss = if contains ss s then ss else s ∷ ss

-- The elements of a set of texts.
unfoldable pub distinct : List Text → List Text
unfolding add_distinct
distinct [] = []
distinct (s ∷ ss) = add_distinct s (distinct ss)

module _ {A : Type 0} (key : A → Text) where
  unfoldable insert : A → List A → List A
  insert x [] = x ∷ []
  insert x (y ∷ ys) =
      let rest = insert x ys in if text_leb (key x) (key y) then x ∷ y ∷ ys else y ∷ rest

  -- `sorted(xs, key=key)`, which keeps the order of equal keys.
  unfoldable pub sort_by : List A → List A
  unfolding insert
  sort_by [] = []
  sort_by (x ∷ xs) = insert x (sort_by xs)

  -- No later element has a smaller key.
  abbrev pub IsSorted : List A → Type 0
  IsSorted [] = Unit
  IsSorted (x ∷ xs) = All (λ y. text_leb (key x) (key y) ≡ true) xs × IsSorted xs

  above :
      (x y : A) (ys : List A)
      → text_leb (key x) (key y) ≡ true
      → All (λ z. text_leb (key y) (key z) ≡ true) ys
      → All (λ z. text_leb (key x) (key z) ≡ true) ys
  above x y [] le h = tt
  above x y (z ∷ ys) le (h, hs) = (text_leb_trans _ _ _ le h, above x y ys le hs)

  All-insert : (P : A → Type 0) (x : A) (ys : List A) → P x → All P ys → All P (insert x ys)
  unfolding insert
  All-insert P x [] p h = (p, tt)
  All-insert P x (y ∷ ys) p (q, h) = elim (Bool-cases (text_leb (key x) (key y))) [
    | inl le ↦ rw le (p, (q, h))
    | inr gt ↦ rw gt (q, All-insert P x ys p h)
  ]

  insert-IsSorted : (x : A) (ys : List A) → IsSorted ys → IsSorted (insert x ys)
  unfolding insert
  insert-IsSorted x [] h = (tt, tt)
  insert-IsSorted x (y ∷ ys) (le_y, h) = elim (Bool-cases (text_leb (key x) (key y))) [
    | inl le ↦ rw le ((le, above x y ys le le_y), (le_y, h))
    | inr gt ↦ rw gt (
      All-insert (λ z. text_leb (key y) (key z) ≡ true) x ys (text_leb_total _ _ gt) le_y,
      insert-IsSorted x ys h,
    )
  ]

  pub sort_by-IsSorted : (xs : List A) → IsSorted (sort_by xs)
  unfolding sort_by
  sort_by-IsSorted [] = tt
  sort_by-IsSorted (x ∷ xs) = insert-IsSorted x (sort_by xs) (sort_by-IsSorted xs)

  abbrev pub with_key : Text → List A → List A
  with_key t = filter_by (λ x. key x == t)

  same_keys : (t k j : Text) → (k == t) ≡ true → (j == t) ≡ true → text_leb k j ≡ false → ⊥
  same_keys t k j q r gt =
      ground (arith, list_beq_iff k t, list_beq_iff j t, q, r, gt, text_leb_refl t)

  with_key-insert :
      (t : Text) (x : A) (ys : List A) → with_key t (insert x ys) ≡ with_key t (x ∷ ys)
  unfolding insert
  with_key-insert t x [] = refl
  with_key-insert t x (y ∷ ys) = elim (Bool-cases (text_leb (key x) (key y))) [
    | inl le ↦ rw le refl
    | inr gt ↦ elim (Bool-cases (key x == t)) [
      | inl q ↦ elim (Bool-cases (key y == t)) [
        | inl r ↦ absurd (same_keys t (key x) (key y) q r gt)
        | inr r ↦ rw (insert, gt, r) (with_key-insert t x ys ∙ rw q refl)
      ]
      | inr q ↦
          let rest : with_key t (insert x ys) ≡ with_key t ys =
            with_key-insert t x ys ∙ rw q refl in
          rw (insert, gt, q, rest) refl
    ]
  ]

  -- The elements with a key are those that there were, in their order.
  pub with_key-sort_by : (t : Text) (xs : List A) → with_key t (sort_by xs) ≡ with_key t xs
  unfolding sort_by
  with_key-sort_by t [] = refl
  with_key-sort_by t (x ∷ xs) =
      with_key-insert t x (sort_by xs)
      ∙ ap (λ r. if key x == t then x ∷ r else r) (with_key-sort_by t xs)

  count-insert :
      (p : A → Bool) (x : A) (ys : List A)
      → length (filter_by p (insert x ys)) ≡ length (filter_by p (x ∷ ys))
  unfolding insert
  count-insert p x [] = refl
  count-insert p x (y ∷ ys) = ground (arith, count-insert p x ys)

  -- As many elements pass a test as before.
  pub count-sort_by :
      (p : A → Bool) (xs : List A) → length (filter_by p (sort_by xs)) ≡ length (filter_by p xs)
  unfolding sort_by
  count-sort_by p [] = refl
  count-sort_by p (x ∷ xs) = count-insert p x (sort_by xs) ∙ ground (arith, count-sort_by p xs)

  any-insert : (p : A → Bool) (x : A) (ys : List A) → any p (insert x ys) ≡ any p (x ∷ ys)
  unfolding insert
  any-insert p x [] = refl
  any-insert p x (y ∷ ys) = ground (arith, any-insert p x ys)

  -- An element passes a test exactly if one did before.
  pub any-sort_by : (p : A → Bool) (xs : List A) → any p (sort_by xs) ≡ any p xs
  unfolding sort_by
  any-sort_by p [] = refl
  any-sort_by p (x ∷ xs) = any-insert p x (sort_by xs) ∙ ground (arith, any-sort_by p xs)
