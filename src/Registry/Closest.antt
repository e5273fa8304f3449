-- ===== src/Registry/Closest.antt =====
-- What `typosquat_check` of backend/app/registry.py finds.
use whs_dynamic.Base.{
  ℕ, ◌≤◌, ◌<◌, ◌≡◌, refl, sym, ◌⊎◌, inl, inr, List, [], ◌∷◌, ◌++◌, Option, none, some, true, false,
  Text, arith, All, All-append, Bool-cases, ◌==◌, list_eq, nat_eq, list_beq_iff, ap, ◌∙◌, any, eqb,
  leb, ltb, leb→le, ◌&&◌, if◌then◌else◌, All-map,
}
use mathlib.Core.List.{append_assoc, append-nil}
use whs_dynamic.Registry.{success, normalize, better, after_loop, typosquat_loop, typosquat_check}
use whs_dynamic.Registry.Levenshtein.{levenshtein}
use whs_dynamic.Registry.Levenshtein.Minimal.{levenshtein_minimal, levenshtein-eq_zero}

-- `c` stands in the list.
abbrev pub In : Text → List Text → Type 0
In c [] = ⊥
In c (x ∷ xs) = (c ≡ x) ⊎ In c xs

module _ (norm : Text) where
  -- The number that `_levenshtein` returns for a popular name.
  abbrev pub gap : Text → ℕ
  gap c = (levenshtein_minimal norm (normalize c)).0

  levenshtein-gap : (c : Text) → levenshtein norm (normalize c) ≡ some (gap c)
  levenshtein-gap c = (levenshtein_minimal norm (normalize c)).1

  -- The nearest name within distance 2 among those seen, if there is one.
  abbrev pub IsNearest : List Text → Option (Text × ℕ) → Type 0
  IsNearest seen none = All (λ c. 2 < gap c) seen
  IsNearest seen (some (c, d)) =
      In c seen × (d ≡ gap c) × (0 < d) × (d ≤ 2) × All (λ c'. d ≤ gap c') seen

  In-left : (c : Text) (xs ys : List Text) → In c xs → In c (xs ++ ys)
  In-left c (x ∷ xs) ys (inl e) = inl e
  In-left c (x ∷ xs) ys (inr m) = inr (In-left c xs ys m)
  In-left c [] ys m = absurd m

  In-right : (c : Text) (xs : List Text) → In c (xs ++ c ∷ [])
  In-right c [] = inl refl
  In-right c (x ∷ xs) = inr (In-right c xs)

  module _ (c : Text) (other : (normalize c == norm) ≡ false) where
    gap-pos : 0 < gap c
    gap-pos = elim (Bool-cases (eqb (gap c) 0)) [
      | inl z ↦
          let e : gap c ≡ 0 = ground arith in
          let same : norm ≡ normalize c =
            levenshtein-eq_zero norm (normalize c) (levenshtein-gap c ∙ ap some e) in
          cc ((list_beq_iff (normalize c) norm).1 (sym same))
      | inr n ↦ ground arith
    ]

    -- One round keeps the invariant.
    round-IsNearest :
        (seen : List Text) (best : Option (Text × ℕ))
        → IsNearest seen best
        → IsNearest (seen ++ c ∷ []) (if better best (gap c) then some (c, gap c) else best)
    unfolding better
    round-IsNearest seen none h = elim (Bool-cases (leb (gap c) 2)) [
      | inl near ↦ rw near (
        In-right c seen,
        refl,
        gap-pos,
        leb→le (gap c) 2 near,
        All-append _ seen (c ∷ [])
            (All-map _ _ seen (λ x p. omega (arith, leb→le (gap c) 2 near)) h) (omega arith),
      )
      | inr far ↦ rw far (All-append _ seen (c ∷ []) h (ground arith, tt))
    ]
    round-IsNearest seen (some (b, d)) (member, e, pos, le, least) =
        elim (Bool-cases (leb (gap c) 2 && ltb (gap c) d)) [
          | inl near ↦
              let closer : gap c < d = ground arith in
              rw near (
                In-right c seen,
                refl,
                gap-pos,
                omega arith,
                All-append _ seen (c ∷ []) (All-map _ _ seen (λ x p. omega arith) least)
                    (omega arith),
              )
          | inr far ↦ rw far (
            In-left b seen (c ∷ []) member,
            e,
            pos,
            le,
            All-append _ seen (c ∷ []) least (ground arith, tt),
          )
        ]

  loop-IsNearest :
      (cs seen : List Text) (best : Option (Text × ℕ))
      → IsNearest seen best
      → any (λ c. normalize c == norm) cs ≡ false
      → (r : Option (Text × ℕ)) × (typosquat_loop norm best cs ≡ some (after_loop r))
        × IsNearest (seen ++ cs) r
  unfolding typosquat_loop
  loop-IsNearest [] seen best h none_exact = (best, refl, rw append-nil h)
  loop-IsNearest (c ∷ cs) seen best h none_exact =
      let other : (normalize c == norm) ≡ false = ground arith in
      let (r, e, near) =
        loop-IsNearest cs (seen ++ c ∷ []) (if better best (gap c) then some (c, gap c) else best)
          (round-IsNearest c other seen best h) (ground arith) in
      (r, rw (other, levenshtein-gap c) e, rw append_assoc at near)

  loop_exact :
      (cs : List Text) (best : Option (Text × ℕ))
      → any (λ c. normalize c == norm) cs ≡ true
      → typosquat_loop norm best cs ≡ some (success true none (some 0))
  unfolding typosquat_loop
  loop_exact [] best h = cc
  loop_exact (c ∷ cs) best h = elim (Bool-cases (normalize c == norm)) [
    | inl same ↦ rw same
    | inr other ↦ rw (other, levenshtein-gap c) (loop_exact cs _ (ground arith))
  ]

-- If a popular name is the same after normalisation, the check reports an exact match and no
-- candidate. If none is, it reports as candidate a popular name whose distance is 1 or 2 and least
-- among all popular names, with that distance, or no candidate if all popular names are further
-- away than 2. In both cases it returns without an exception.
pub typosquat_check-IsNearest :
    (name : Text) (popular : List Text)
    → (any (λ c. normalize c == normalize name) popular ≡ true)
        × (typosquat_check name (popular, none) ≡ some (success true none (some 0)))
      ⊎ (any (λ c. normalize c == normalize name) popular ≡ false)
        × ((r : Option (Text × ℕ)) × (typosquat_check name (popular, none) ≡ some (after_loop r))
            × IsNearest (normalize name) popular r)
unfolding typosquat_check
typosquat_check-IsNearest name popular =
    elim (Bool-cases (any (λ c. normalize c == normalize name) popular)) [
      | inl exact ↦ inl (exact, loop_exact (normalize name) popular none exact)
      | inr other ↦ inr (other, loop-IsNearest (normalize name) popular [] none tt other)
    ]
