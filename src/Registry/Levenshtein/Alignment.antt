-- ===== src/Registry/Levenshtein/Alignment.antt =====
-- Edit scripts between two texts, and the recursive distance that is the length of a shortest one.
use native.Mathlib.Decide.{dec_le}
use mathlib.Core.List.{reverse_aux}
use mathlib.Core.Path.{subst}
use whs_dynamic.Base.{
  ℕ, suc, ◌+◌, ◌≤◌, min, ◌≡◌, refl, [], ◌∷◌, Text, length, reverse, arith, Bool-cases, eqb, inl,
  inr,
}
use whs_dynamic.Registry.Levenshtein.{mismatch}

-- `Edits a b n`: `n` insertions, deletions and replacements of one character turn `a` into `b`.
pub data Edits : Text → Text → ℕ → Type 0 where
  done : Edits [] [] 0
  delete : {xs ys : Text} {n : ℕ} (x : ℕ) → Edits xs ys n → Edits (x ∷ xs) ys (suc n)
  insert : {xs ys : Text} {n : ℕ} (y : ℕ) → Edits xs ys n → Edits xs (y ∷ ys) (suc n)
  replace : {xs ys : Text} {n : ℕ} (x y : ℕ) → Edits xs ys n → Edits (x ∷ xs) (y ∷ ys) (suc n)
  keep : {xs ys : Text} {n : ℕ} (x y : ℕ) → x ≡ y → Edits xs ys n → Edits (x ∷ xs) (y ∷ ys) n

-- The distance by recursion on both texts.
unfoldable pub dist : Text → Text → ℕ
dist [] ys = length ys
dist (x ∷ xs) [] = suc (length xs)
dist (x ∷ xs) (y ∷ ys) =
    min (min (dist xs (y ∷ ys) + 1) (dist (x ∷ xs) ys + 1)) (dist xs ys + mismatch x y)

pub dist-nil : (xs : Text) → dist xs [] ≡ length xs
unfolding dist
dist-nil [] = refl
dist-nil (x ∷ xs) = refl

pub dist_self : (xs : Text) → dist xs xs ≡ 0
unfolding dist mismatch
dist_self [] = refl
dist_self (x ∷ xs) = ground (arith, dist_self xs)

dist-le_delete : (x : ℕ) (xs ys : Text) → dist (x ∷ xs) ys ≤ dist xs ys + 1
unfolding dist
dist-le_delete x xs [] = omega (arith, dist-nil xs)
dist-le_delete x xs (y ∷ ys) = omega arith

dist-le_insert : (y : ℕ) (xs ys : Text) → dist xs (y ∷ ys) ≤ dist xs ys + 1
unfolding dist
dist-le_insert y [] ys = omega arith
dist-le_insert y (x ∷ xs) ys = omega arith

mismatch-le-one : (x y : ℕ) → mismatch x y ≤ 1
unfolding mismatch
mismatch-le-one x y = ground arith

mismatch_same : (x y : ℕ) → x ≡ y → mismatch x y ≡ 0
unfolding mismatch
mismatch_same x y e = ground arith

-- No script is shorter than the distance.
pub dist-le : {xs ys : Text} {n : ℕ} → Edits xs ys n → dist xs ys ≤ n
unfolding dist
dist-le done = omega arith
dist-le (delete {xs} {ys} x e) = omega (arith, dist-le_delete x xs ys, dist-le e)
dist-le (insert {xs} {ys} y e) = omega (arith, dist-le_insert y xs ys, dist-le e)
dist-le (replace x y e) = omega (arith, mismatch-le-one x y, dist-le e)
dist-le (keep x y p e) = omega (arith, mismatch_same x y p, dist-le e)

recount : {xs ys : Text} {m n : ℕ} → Edits xs ys m → m ≡ n → Edits xs ys n
recount {xs} {ys} e p = subst (λ k. Edits xs ys k) p e

insert_all : (ys : Text) → Edits [] ys (length ys)
insert_all [] = done
insert_all (y ∷ ys) = insert y (insert_all ys)

delete_all : (xs : Text) → Edits xs [] (length xs)
delete_all [] = done
delete_all (x ∷ xs) = delete x (delete_all xs)

shorter : {xs ys : Text} (m n : ℕ) → Edits xs ys m → Edits xs ys n → Edits xs ys (min m n)
shorter m n e f = elim (dec_le m n) [
  | yes h ↦ recount e (omega arith)
  | no h ↦ recount f (omega arith)
]

match :
    {xs ys : Text} {n : ℕ} (x y : ℕ) → Edits xs ys n → Edits (x ∷ xs) (y ∷ ys) (n + mismatch x y)
unfolding mismatch
match x y e = elim (Bool-cases (eqb x y)) [
  | inl same ↦ recount (keep x y (ground arith) e) (ground arith)
  | inr other ↦ recount (replace x y e) (ground arith)
]

-- Some script has the length of the distance.
pub dist-Edits : (xs ys : Text) → Edits xs ys (dist xs ys)
unfolding dist
dist-Edits [] ys = insert_all ys
dist-Edits (x ∷ xs) [] = delete_all (x ∷ xs)
dist-Edits (x ∷ xs) (y ∷ ys) =
    shorter _ _
      (shorter _ _ (recount (delete x (dist-Edits xs (y ∷ ys))) (omega arith))
        (recount (insert y (dist-Edits (x ∷ xs) ys)) (omega arith)))
      (match x y (dist-Edits xs ys))

Edits-reverse_aux :
    {xs ys us vs : Text} {m n : ℕ}
    → Edits xs ys m
    → Edits us vs n
    → Edits (reverse_aux xs us) (reverse_aux ys vs) (m + n)
Edits-reverse_aux done f = recount f (omega arith)
Edits-reverse_aux (delete x e) f = recount (Edits-reverse_aux e (delete x f)) (omega arith)
Edits-reverse_aux (insert y e) f = recount (Edits-reverse_aux e (insert y f)) (omega arith)
Edits-reverse_aux (replace x y e) f = recount (Edits-reverse_aux e (replace x y f)) (omega arith)
Edits-reverse_aux (keep x y p e) f = Edits-reverse_aux e (keep x y p f)

-- A script can be read from the other end.
pub Edits-reverse : {xs ys : Text} {n : ℕ} → Edits xs ys n → Edits (reverse xs) (reverse ys) n
Edits-reverse e = recount (Edits-reverse_aux e done) (omega arith)
