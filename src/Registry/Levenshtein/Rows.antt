-- ===== src/Registry/Levenshtein/Rows.antt =====
-- The rows that `_levenshtein` fills hold the distances between prefixes.
use native.Mathlib.Numerals.{add-one, sub-one}
use mathlib.Core.List.{reverse_aux, append_assoc}
use whs_dynamic.Base.{
  ℕ, suc, ◌+◌, ◌-◌, ◌≡◌, refl, ap, ap₂, ◌∙◌, sym, List, [], ◌∷◌, ◌++◌, some, Text, length,
  get_elem?, set, replicate, reverse, arith, get_elem?-append, length-append, Bool-cases, inl, inr,
  ◌==◌, nat_eq, list_eq, list_beq_iff,
}
use whs_dynamic.Registry.Levenshtein.{range_from, fill_row, rows, levenshtein}
use whs_dynamic.Registry.Levenshtein.Alignment.{dist, dist-nil, dist_self}

-- Distances from `xs` to the prefixes of a text, those longer than the prefix read so far. Prefixes
-- are reversed.
pub cells : Text → Text → Text → List ℕ
cells xs ys [] = []
cells xs ys (b ∷ bs) = dist xs (b ∷ ys) ∷ cells xs (b ∷ ys) bs

module _ {ℓ} {A : Type ℓ} where
  get_elem?-second :
      (xs : List A) (y z : A) (ys : List A)
      → get_elem? (xs ++ (y ∷ z ∷ ys)) (suc (length xs)) ≡ some z
  get_elem?-second [] y z ys = refl
  get_elem?-second (x ∷ xs) y z ys = get_elem?-second xs y z ys

  set-second :
      (xs : List A) (y z v : A) (ys : List A)
      → set (xs ++ (y ∷ z ∷ ys)) (suc (length xs)) v ≡ xs ++ (y ∷ v ∷ ys)
  set-second [] y z v ys = refl
  set-second (x ∷ xs) y z v ys = ap (λ t. x ∷ t) (set-second xs y z v ys)

  append_regroup : (xs : List A) (y : A) (ys : List A) → (xs ++ y ∷ []) ++ ys ≡ xs ++ (y ∷ ys)
  append_regroup xs y ys = append_assoc xs (y ∷ []) ys

-- The three reads and the write of one round.
module _ (above left : List ℕ) (j : ℕ) (same : length above ≡ length left)
    (here : j ≡ suc (length left)) where
  read_above : (d u : ℕ) (rest : List ℕ) → get_elem? (above ++ (d ∷ u ∷ rest)) j ≡ some u
  read_above d u rest = rw (here, ← same) (get_elem?-second above d u rest)

  read_left : (d : ℕ) (rest : List ℕ) → get_elem? (left ++ (d ∷ rest)) (j - 1) ≡ some d
  read_left d rest =
      let q : j - 1 ≡ length left = omega arith in rw q (get_elem?-append left d rest)

  read_diagonal : (d : ℕ) (rest : List ℕ) → get_elem? (above ++ (d ∷ rest)) (j - 1) ≡ some d
  read_diagonal d rest =
      let q : j - 1 ≡ length above = omega arith in rw q (get_elem?-append above d rest)

  write : (d z v : ℕ) (rest : List ℕ) → set (left ++ (d ∷ z ∷ rest)) j v ≡ left ++ (d ∷ v ∷ rest)
  write d z v rest = rw here (set-second left d z v rest)

fill_row-cells :
    (x : ℕ) (xs bs ys above left : List ℕ) (j : ℕ)
    → length above ≡ length left
    → j ≡ suc (length left)
    → fill_row x
        (above ++ (dist xs ys ∷ cells xs ys bs))
        j
        bs
        (left ++ (dist (x ∷ xs) ys ∷ replicate (length bs) 0))
      ≡ some (left ++ (dist (x ∷ xs) ys ∷ cells (x ∷ xs) ys bs))
unfolding fill_row cells dist
fill_row-cells x xs [] ys above left j e p = refl
fill_row-cells x xs (b ∷ bs) ys above left j e p =
    simp
      (
        read_above above left j e p,
        read_left above left j e p,
        read_diagonal above left j e p,
        write above left j e p,
      )
      (simp append_assoc at (
        fill_row-cells x xs bs (b ∷ ys) (above ++ (dist xs ys ∷ []))
          (left ++ (dist (x ∷ xs) ys ∷ [])) (j + 1)
          (omega (arith, length-append {0} above, length-append {0} left))
          (omega (arith, length-append {0} left))))

rows-cells :
    (as' b xs : List ℕ) (i : ℕ)
    → i ≡ suc (length xs)
    → rows i as' b (dist xs [] ∷ cells xs [] b)
      ≡ some (dist (reverse_aux as' xs) [] ∷ cells (reverse_aux as' xs) [] b)
unfolding rows
rows-cells [] b xs i p = refl
rows-cells (x ∷ as') b xs i p =
    let first : i ≡ dist (x ∷ xs) [] = p ∙ sym (dist-nil (x ∷ xs)) in
    simp (first, fill_row-cells x xs b [] [] [] 1 refl refl)
      (rows-cells as' b (x ∷ xs) (dist (x ∷ xs) [] + 1) (omega (arith, dist-nil (x ∷ xs))))

range_from-cells :
    (k : ℕ) (bs ys : Text) → k ≡ suc (length ys) → range_from k (length bs) ≡ cells [] ys bs
unfolding range_from cells dist
range_from-cells k [] ys e = refl
range_from-cells k (b ∷ bs) ys e =
    ap₂ (λ m t. m ∷ t) e (range_from-cells (k + 1) bs (b ∷ ys) (omega arith))

cells_last :
    (xs ys bs : Text)
    → get_elem? (dist xs ys ∷ cells xs ys bs) (length (cells xs ys bs))
      ≡ some (dist xs (reverse_aux bs ys))
unfolding cells
cells_last xs ys [] = refl
cells_last xs ys (b ∷ bs) = cells_last xs (b ∷ ys) bs

first_row : (b : Text) → range_from 0 (length b + 1) ≡ dist [] [] ∷ cells [] [] b
unfolding range_from dist
first_row b = rw add-one (ap (λ t. 0 ∷ t) (range_from-cells 1 b [] refl))

-- `_levenshtein` never leaves its rows, and returns the distance of the reversed texts.
pub levenshtein-dist : (a b : Text) → levenshtein a b ≡ some (dist (reverse a) (reverse b))
unfolding levenshtein
levenshtein-dist a b = elim (Bool-cases (a == b)) [
  | inl same ↦
      let e : a ≡ b = (list_beq_iff a b).0 same in
      rw (same, e) (ap some (sym (dist_self (reverse b))))
  | inr other ↦
      simp (other, first_row b, rows-cells a b [] 1 refl, sub-one) (cells_last (reverse a) [] b)
]
