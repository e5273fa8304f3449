-- ===== src/Signals/Tree/Depths.antt =====
-- `_tree_depths` ends on every tree, cyclic ones too, and what its depths are.
use whs_dynamic.Base.{
  ℕ, zero, suc, ◌≤◌, ◌<◌, List, [], ◌∷◌, Option, none, some, true, false, not, ◌≡◌, ◌⊎◌, inl, inr,
  refl, nat_eq, contains, find, put, find-put, find-put_other, ◌∙◌, sym, map, length, filter_by,
  Bool-cases, Option-cases, arith, eqb, All, All-map, eqb_iff,
}
use whs_dynamic.Signals.Tree.{
  Tree, Depths, parent_of, in_tree, next_pid, resolve, resolve_all, tree_depths,
}

module _ (tree : Tree) where
  -- From a pid to one of its ancestors, by parents.
  pub data Reaches : ℕ → ℕ → Type 0 where
    here : {x : ℕ} → Reaches x x
    up : {x y : ℕ} (p : ℕ) → parent_of tree x ≡ some p → Reaches p y → Reaches x y

  Reaches-step : {x y : ℕ} (p : ℕ) → Reaches x y → parent_of tree y ≡ some p → Reaches x p
  Reaches-step p here e = up p e here
  Reaches-step p (up q f r) e = up q f (Reaches-step p r e)

  -- The parent is unknown or not a node, or the pid is its own ancestor.
  abbrev pub IsRoot : ℕ → Type 0
  IsRoot pid =
      (parent_of tree pid ≡ none)
      ⊎ ((p : ℕ) × (parent_of tree pid ≡ some p) × (in_tree tree p ≡ false))
      ⊎ ((p : ℕ) × (parent_of tree pid ≡ some p) × Reaches p pid)

  -- The depth of a root is 0, any other is one more than the parent's.
  abbrev pub IsDepth : Depths → ℕ → ℕ → Type 0
  IsDepth depth pid zero = IsRoot pid
  IsDepth depth pid (suc n) =
      (p : ℕ) × (parent_of tree pid ≡ some p) × (in_tree tree p ≡ true) × (find p depth ≡ some n)

  abbrev pub AreDepths : Depths → Type 0
  AreDepths depth = (pid d : ℕ) → find pid depth ≡ some d → IsDepth depth pid d

  -- The nodes that a search has not seen.
  abbrev unseen : List ℕ → Tree → ℕ
  unseen seen t = length (filter_by (λ e. not (contains seen e.0)) t)

  unseen_le : (seen : List ℕ) (p : ℕ) (t : Tree) → unseen (p ∷ seen) t ≤ unseen seen t
  unseen_le seen p [] = omega arith
  unseen_le seen p ((k, node) ∷ t) = ground (arith, unseen_le seen p t)

  unseen_all : (seen : List ℕ) (t : Tree) → unseen seen t ≤ length t
  unseen_all seen [] = omega arith
  unseen_all seen ((k, node) ∷ t) = ground (arith, unseen_all seen t)

  unseen_lt :
      (seen : List ℕ) (p : ℕ) (t : Tree)
      → in_tree t p ≡ true
      → contains seen p ≡ false
      → unseen (p ∷ seen) t < unseen seen t
  unfolding in_tree find
  unseen_lt seen p [] h e = ground (arith, h)
  unseen_lt seen p ((k, node) ∷ t) h e = elim (Bool-cases (eqb k p)) [
    | inl q ↦ let same : k ≡ p = (eqb_iff k p).0 q in ground (arith, unseen_le seen p t)
    | inr q ↦ ground (arith, unseen_lt seen p t)
  ]

  All-contains :
      (P : ℕ → Type 0) (seen : List ℕ) (p : ℕ) → All P seen → contains seen p ≡ true → P p
  All-contains P [] p h e = ground (arith, e)
  All-contains P (k ∷ seen) p (q, h) e = elim (Bool-cases (eqb p k)) [
    | inl same ↦ rw ((eqb_iff p k).0 same) q
    | inr other ↦ All-contains P seen p h (ground (arith, other, e))
  ]

  next_pid-none :
      (seen : List ℕ) (pid : ℕ)
      → All (λ k. Reaches k pid) seen
      → next_pid tree seen pid ≡ none
      → IsRoot pid
  unfolding next_pid
  next_pid-none seen pid h e = elim (Option-cases (parent_of tree pid)) [
    | inl q ↦ inl q
    | inr (p, q) ↦ elim (Bool-cases (in_tree tree p)) [
      | inr out ↦ inr (inl (p, q, out))
      | inl in' ↦ elim (Bool-cases (contains seen p)) [
        | inl old ↦ inr (inr (p, q, All-contains (λ k. Reaches k pid) seen p h old))
        | inr new ↦ absurd (ground (arith, q, in', new, e))
      ]
    ]
  ]

  next_pid-some :
      (seen : List ℕ) (pid p : ℕ)
      → next_pid tree seen pid ≡ some p
      → (parent_of tree pid ≡ some p) × (in_tree tree p ≡ true) × (contains seen p ≡ false)
  unfolding next_pid
  next_pid-some seen pid p e = elim (Option-cases (parent_of tree pid)) [
    | inl q ↦ absurd (ground (arith, q, e))
    | inr (p', q) ↦ ground (arith, q, e)
  ]

  -- What a search of `pid` gives: its depth is in the table, which grew, and the other pids that it
  -- had seen are untouched.
  abbrev Resolves : List ℕ → ℕ → Depths → Option (ℕ × Depths) → Type 0
  Resolves seen pid depth result =
      (d : ℕ) × (depth' : Depths) × (result ≡ some (d, depth'))
      × (find pid depth' ≡ some d)
      × AreDepths depth'
      × ((k n : ℕ) → find k depth ≡ some n → find k depth' ≡ some n)
      × ((k : ℕ) → contains seen k ≡ true → eqb pid k ≡ false → find k depth' ≡ find k depth)

  put_extends :
      (pid d : ℕ) (depth : Depths)
      → find pid depth ≡ none
      → (k n : ℕ) → find k depth ≡ some n
      → find k (put pid d depth) ≡ some n
  put_extends pid d depth new k n e = elim (Bool-cases (eqb pid k)) [
    | inl q ↦ let same : pid ≡ k = (eqb_iff pid k).0 q in cc
    | inr q ↦ find-put_other k pid d depth q ∙ e
  ]

  IsDepth-grown :
      (depth depth' : Depths)
      → ((k n : ℕ) → find k depth ≡ some n → find k depth' ≡ some n)
      → (pid d : ℕ) → IsDepth depth pid d
      → IsDepth depth' pid d
  IsDepth-grown depth depth' grows pid zero h = h
  IsDepth-grown depth depth' grows pid (suc n) (p, q, in', e) = (p, q, in', grows p n e)

  -- A new entry of a right depth.
  put-AreDepths :
      (pid d : ℕ) (depth : Depths)
      → AreDepths depth
      → find pid depth ≡ none
      → IsDepth depth pid d
      → AreDepths (put pid d depth)
  put-AreDepths pid d depth h new g = λ k n e.
      IsDepth-grown depth (put pid d depth) (put_extends pid d depth new) k n
        (elim (Bool-cases (eqb pid k)) [
          | inl q ↦
              let same : pid ≡ k = (eqb_iff pid k).0 q in
              let value : d ≡ n = ground (arith, find-put pid d depth, e, same) in
              rw (← same, ← value) g
          | inr q ↦ h k n (sym (find-put_other k pid d depth q) ∙ e)
        ])

  fresh_ne :
      (seen : List ℕ) (p k : ℕ) → contains seen k ≡ true → contains seen p ≡ false → eqb p k ≡ false
  fresh_ne seen p k old fresh = elim (Bool-cases (eqb p k)) [
    | inl q ↦ let same : p ≡ k = (eqb_iff p k).0 q in absurd (ground (arith, old, fresh, same))
    | inr q ↦ q
  ]

  resolve_next :
      (fuel pid p : ℕ) (seen : List ℕ) (depth : Depths)
      → contains seen pid ≡ true
      → find pid depth ≡ none
      → next_pid tree seen pid ≡ some p
      → (parent_of tree pid ≡ some p) × (in_tree tree p ≡ true) × (contains seen p ≡ false)
      → Resolves (p ∷ seen) p depth (resolve fuel tree p (p ∷ seen) depth)
      → Resolves seen pid depth (resolve (suc fuel) tree pid seen depth)
  unfolding resolve
  resolve_next fuel pid p seen depth own new go (parent, in', fresh)
        (d, depth', r, f, h', grows, kept) =
      let new' : find pid depth' ≡ none =
        kept pid (ground (arith, own)) (fresh_ne seen p pid own fresh) ∙ new in
      rw (resolve, new, go, r)
        (
          suc d,
          put pid (suc d) depth',
          refl,
          find-put pid (suc d) depth',
          put-AreDepths pid (suc d) depth' h' new' (p, parent, in', f),
          (λ k n e. put_extends pid (suc d) depth' new' k n (grows k n e)),
          λ k s ne.
              find-put_other k pid (suc d) depth' ne
              ∙ kept k (ground (arith, s)) (fresh_ne seen p k s fresh),
        )

  resolve_lem :
      (fuel pid : ℕ) (seen : List ℕ) (depth : Depths)
      → unseen seen tree < fuel
      → contains seen pid ≡ true
      → All (λ k. Reaches k pid) seen
      → AreDepths depth
      → Resolves seen pid depth (resolve fuel tree pid seen depth)
  unfolding resolve
  resolve_lem zero pid seen depth enough own reach h = absurd (omega arith)
  resolve_lem (suc fuel) pid seen depth enough own reach h = elim (Option-cases (find pid depth)) [
    | inr (d, q) ↦ rw (resolve, q) (d, depth, refl, q, h, (λ k n e. e), λ k s ne. refl)
    | inl new ↦ elim (Option-cases (next_pid tree seen pid)) [
      | inl stop ↦
          rw (resolve, new, stop)
            (
              0,
              put pid 0 depth,
              refl,
              find-put pid 0 depth,
              put-AreDepths pid 0 depth h new (next_pid-none seen pid reach stop),
              put_extends pid 0 depth new,
              λ k s ne. find-put_other k pid 0 depth ne,
            )
      | inr (p, go) ↦
          let step = next_pid-some seen pid p go in
          let inner =
            resolve_lem fuel p (p ∷ seen) depth
              (omega (arith, enough, unseen_lt seen p tree step.1 step.2))
              (ground (arith, eqb_iff p p))
              (
                here,
                All-map (λ k. Reaches k pid) (λ k. Reaches k p) seen
                    (λ k r. Reaches-step p r step.0) reach,
              )
              h in
          resolve_next fuel pid p seen depth own new go step inner
    ]
  ]

  abbrev HasDepth : Depths → ℕ → Type 0
  HasDepth depth pid = (d : ℕ) × (find pid depth ≡ some d)

  resolve_all_lem :
      (fuel : ℕ) (pids : List ℕ) (depth : Depths)
      → length tree < fuel
      → AreDepths depth
      → (depth' : Depths) × (resolve_all fuel tree pids depth ≡ some depth')
        × AreDepths depth'
        × ((k n : ℕ) → find k depth ≡ some n → find k depth' ≡ some n)
        × All (HasDepth depth') pids
  unfolding resolve_all
  resolve_all_lem fuel [] depth enough h = (depth, refl, h, (λ k n e. e), tt)
  resolve_all_lem fuel (pid ∷ pids) depth enough h =
      let own : contains (pid ∷ []) pid ≡ true = ground (arith, eqb_iff pid pid) in
      let (d, depth', r, f, h', grows, kept) =
        resolve_lem fuel pid (pid ∷ []) depth (omega (arith, unseen_all (pid ∷ []) tree)) own
          (here, tt) h in
      let (depths, rs, hs, grow, found) = resolve_all_lem fuel pids depth' enough h' in
      (
        depths,
        rw (resolve_all, r) rs,
        hs,
        (λ k n e. grow k n (grows k n e)),
        ((d, grow pid d f), found),
      )

-- The memoised search ends on every process tree, with cycles too: its rounds are never used up. It
-- gives each pid of the tree a depth. A depth of 0 is given only to a pid whose parent is unknown or is
-- not in the tree, or which is its own ancestor; any other depth is one more than that of the pid's
-- parent, which is in the tree.
pub tree_depths_lem :
    (tree : Tree)
    → (depths : Depths) × (tree_depths tree ≡ some depths)
      × AreDepths tree depths
      × All (λ pid. (d : ℕ) × (find pid depths ≡ some d)) (map (λ e. e.0) tree)
unfolding tree_depths find
tree_depths_lem tree =
    let (depths, r, h, grows, found) =
      resolve_all_lem tree (suc (length tree)) (map (λ e. e.0) tree) [] (omega arith)
        (λ pid d e. absurd (ground (arith, e))) in
    (depths, r, h, found)
