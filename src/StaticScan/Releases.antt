-- ===== src/StaticScan/Releases.antt =====
-- What the difference to the previous release reports.
use whs_dynamic.Base.{
  sym, List, [], ◌∷◌, Bool, ◌&&◌, not, ◌≡◌, ◌∙◌, refl, Text, ◌==◌, nat_eq, list_eq, filter_by, any,
  map, sort_by, any-sort_by, any-filter_by, find, inl, inr, list_beq_iff, beq_refl, Bool-cases,
  arith, none, some, true, false, Option-cases, if◌then◌else◌,
}
use whs_dynamic.StaticScan.{Hashes, has_file, hash_differs, diff_trees}

-- `name` is one of the list.
abbrev pub lists : Text → List Text → Bool
lists name = any (λ n. n == name)

any-keys :
    (test : Text → Bool) (name : Text) (files : Hashes)
    → any (λ n. test n && n == name) (map (λ e. e.0) files) ≡ (has_file files name && test name)
unfolding has_file find
any-keys test name [] = refl
any-keys test name ((k, h) ∷ files) = elim (Bool-cases (k == name)) [
  | inl q ↦
      let same : k ≡ name = (list_beq_iff k name).0 q in
      rw same (ground (arith, beq_refl name, any-keys test name files))
  | inr q ↦ ground (arith, q, any-keys test name files)
]

reported :
    (test : Text → Bool) (name : Text) (files : Hashes)
    → lists name (sort_by (λ n. n) (filter_by test (map (λ e. e.0) files)))
      ≡ (has_file files name && test name)
reported test name files =
    any-sort_by (λ n. n) (λ n. n == name) (filter_by test (map (λ e. e.0) files))
    ∙ any-filter_by test (λ n. n == name) (map (λ e. e.0) files)
    ∙ any-keys test name files

differs_in :
    (prev cur : Hashes) (name : Text)
    → (has_file cur name && hash_differs prev cur name) ≡ hash_differs prev cur name
unfolding has_file hash_differs
differs_in prev cur name = ground arith

-- Both have the file, and not with the same hash.
abbrev pub is_changed : Hashes → Hashes → Text → Bool
is_changed prev cur name = elim (find name prev) [
  | none ↦ false
  | some before ↦ elim (find name cur) [
    | none ↦ false
    | some now ↦ if before == now then false else true
  ]
]

same_hash : (g h : Text) → not (h == g) ≡ (if g == h then false else true)
same_hash g h = elim (Bool-cases (g == h)) [
  | inl q ↦ let same : g ≡ h = (list_beq_iff g h).0 q in rw same (ground (arith, beq_refl h))
  | inr q ↦ elim (Bool-cases (h == g)) [
    | inl r ↦
        let same : h ≡ g = (list_beq_iff h g).0 r in
        absurd (ground (arith, q, (list_beq_iff g h).1 (sym same)))
    | inr r ↦ rw (q, r) refl
  ]
]

hash_differs-is_changed :
    (prev cur : Hashes) (name : Text) → hash_differs prev cur name ≡ is_changed prev cur name
unfolding hash_differs
hash_differs-is_changed prev cur name = elim (Option-cases (find name prev)) [
  | inl q ↦ ground (arith, q)
  | inr (g, q) ↦ elim (Option-cases (find name cur)) [
    | inl r ↦ ground (arith, q, r)
    | inr (h, r) ↦ rw (hash_differs, is_changed, r, q, r) (same_hash g h)
  ]
]

-- A file is reported as added exactly if only the analysed release has it, as removed exactly if only the
-- previous one has it, and as changed exactly if both have it with different hashes.
pub diff_trees_lem :
    (version : Text) (prev cur : Hashes) (name : Text)
    → (lists name (diff_trees version prev cur).files_added
        ≡ (has_file cur name && not (has_file prev name)))
      × (lists name (diff_trees version prev cur).files_removed
          ≡ (has_file prev name && not (has_file cur name)))
      × (lists name (diff_trees version prev cur).files_changed ≡ is_changed prev cur name)
unfolding diff_trees
diff_trees_lem version prev cur name = (
  reported (λ n. not (has_file prev n)) name cur,
  reported (λ n. not (has_file cur n)) name prev,
  reported (hash_differs prev cur) name cur
      ∙ (differs_in prev cur name ∙ hash_differs-is_changed prev cur name),
)
