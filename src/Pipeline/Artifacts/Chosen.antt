-- ===== src/Pipeline/Artifacts/Chosen.antt =====
-- Which artifact is chosen, and the name that a file name gives.
use mathlib.Core.List.{append_assoc, reverse-append}
use whs_dynamic.Base.{
  eqb, leb, ◌||◌, ◌&&◌, false, Bool, ℕ, ◌-◌, List, [], ◌∷◌, ◌++◌, Option, none, some, true, ◌≡◌,
  ◌∙◌, sym, ap, refl, ◌⊎◌, inl, inr, Text, codes, length, length-append, take-append, reverse,
  starts_with, any, contains, filter_by, ◌==◌, nat_eq, list_eq, Bool-cases, arith, beq_refl,
  list_beq_iff,
}
use whs_dynamic.Pipeline.Artifacts.{
  is_candidate, is_kind, next_or, first_file, select_artifact, strip_suffix, upload_suffixes,
  before_version, or_stem, guess_package_name, ends_in, is_digit,
}

-- The result of a search: the first that passes the test, or the default where none does.
next_or_lem :
    (test : Text → Bool) (files : List Text) (default : Option Text)
    → ((any test files ≡ false) × (next_or test files default ≡ default))
      ⊎ ((p : Text) × (next_or test files default ≡ some p)
          × (test p ≡ true)
          × (contains files p ≡ true))
unfolding next_or
next_or_lem test [] default = inl (refl, refl)
next_or_lem test (p ∷ files) default = elim (Bool-cases (test p)) [
  | inl q ↦ inr (p, rw q refl, q, ground (arith, beq_refl p))
  | inr q ↦ elim (next_or_lem test files default) [
    | inl (r, e) ↦ inl (rw q r, rw q e)
    | inr (f, e, r, c) ↦ inr (f, rw q e, r, ground (arith, c))
  ]
]

contains-filter_by :
    (test : Text → Bool) (files : List Text) (p : Text)
    → contains (filter_by test files) p ≡ true
    → (test p ≡ true) × (contains files p ≡ true)
contains-filter_by test [] p h = ground (arith, h)
contains-filter_by test (f ∷ files) p h = elim (Bool-cases (test f)) [
  | inl q ↦ elim (Bool-cases (p == f)) [
    | inl r ↦ let same : p ≡ f = (list_beq_iff p f).0 r in (rw same q, ground (arith, r))
    | inr r ↦ ground (arith, contains-filter_by test files p, h, q, r)
  ]
  | inr q ↦ ground (arith, contains-filter_by test files p, h, q)
]

first_file_lem :
    (files : List Text)
    → ((files ≡ []) × (first_file files ≡ none))
      ⊎ ((p : Text) × (first_file files ≡ some p) × (contains files p ≡ true))
unfolding first_file
first_file_lem [] = inl (refl, refl)
first_file_lem (p ∷ files) = inr (p, refl, ground (arith, beq_refl p))

-- The chosen artifact is one of the files, its name is that of the package followed by a version, and it
-- is of the kind that was asked for unless no such file is. Nothing is chosen only if no file has that
-- name.
pub select_artifact_lem :
    (files : List Text) (package_name artifact : Text)
    → ((select_artifact files package_name artifact ≡ none)
        × (filter_by (is_candidate package_name) files ≡ []))
      ⊎ ((p : Text) × (select_artifact files package_name artifact ≡ some p)
          × (is_candidate package_name p ≡ true)
          × (contains files p ≡ true)
          × ((is_kind artifact p ≡ true)
              ⊎ (any (is_kind artifact) (filter_by (is_candidate package_name) files) ≡ false)))
unfolding select_artifact
select_artifact_lem files package_name artifact =
    let candidates = filter_by (is_candidate package_name) files in
    elim (next_or_lem (is_kind artifact) candidates (first_file candidates)) [
      | inr (p, e, kind, c) ↦
          let (named, in') = contains-filter_by (is_candidate package_name) files p c in
          inr (p, e, named, in', inl kind)
      | inl (no_kind, e) ↦ elim (first_file_lem candidates) [
        | inl (empty, f) ↦ inl (e ∙ f, empty)
        | inr (p, f, c) ↦
            let (named, in') = contains-filter_by (is_candidate package_name) files p c in
            inr (p, e ∙ f, named, in', inr no_kind)
      ]
    ]

starts_with-append : (p s : Text) → starts_with (p ++ s) p ≡ true
unfolding starts_with
starts_with-append [] s = refl
starts_with-append (c ∷ p) s = ground (arith, starts_with-append p s)

-- A dash with a digit behind it.
abbrev pub has_dash_digit : Text → Bool
has_dash_digit [] = false
has_dash_digit (c ∷ []) = false
has_dash_digit (c ∷ d ∷ s) = eqb c b'-' && leb b'0' d && leb d b'9' || has_dash_digit (d ∷ s)

before_version-append :
    (name rest : Text) (d : ℕ)
    → is_digit d ≡ true
    → has_dash_digit name ≡ false
    → before_version (name ++ b'-' ∷ d ∷ rest) ≡ name
unfolding before_version
before_version-append [] rest d digit h = ground (arith, digit)
before_version-append (c ∷ []) rest d digit h = ground (arith, digit)
before_version-append (c ∷ e ∷ name) rest d digit h =
    ground (arith, h, before_version-append (e ∷ name) rest d digit (ground (arith, h)))

ends_in-append : (s p : Text) → ends_in (s ++ p) p ≡ true
unfolding ends_in
ends_in-append s p = rw (reverse-append s p) (starts_with-append (reverse p) (reverse s))

strip_suffix-wheel : (stem : Text) → strip_suffix upload_suffixes (stem ++ codes ".whl") ≡ stem
unfolding strip_suffix ends_in starts_with
strip_suffix-wheel stem =
    let size : length (stem ++ codes ".whl") - 4 ≡ length stem =
      omega (arith, length-append stem (codes ".whl")) in
    rw (reverse-append stem (codes ".whl"), size) (take-append stem (codes ".whl"))

-- The name that is guessed of a wheel's file name is the name that was put into it, in front of a dash and
-- a version that starts with a digit, if the name is not empty and has no dash before a digit itself.
pub guess_package_name-wheel :
    (c d : ℕ) (name rest : Text)
    → is_digit d ≡ true
    → has_dash_digit (c ∷ name) ≡ false
    → guess_package_name ((c ∷ name) ++ b'-' ∷ d ∷ (rest ++ codes ".whl")) ≡ c ∷ name
unfolding guess_package_name
guess_package_name-wheel c d name rest digit h =
    let stem = (c ∷ name) ++ b'-' ∷ d ∷ rest in
    let whole : (c ∷ name) ++ b'-' ∷ d ∷ (rest ++ codes ".whl") ≡ stem ++ codes ".whl" =
      sym (append_assoc (c ∷ name) (b'-' ∷ d ∷ rest) (codes ".whl")) in
    let stripped = ap (strip_suffix upload_suffixes) whole ∙ strip_suffix-wheel stem in
    ap (λ t. or_stem (before_version t) t) stripped
    ∙ ap (λ t. or_stem t stem) (before_version-append (c ∷ name) rest d digit h)
