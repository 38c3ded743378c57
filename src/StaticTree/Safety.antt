-- ===== src/StaticTree/Safety.antt =====
-- src/statictree.rs: the trees that `build_tree` makes, where every branch points behind itself and
-- inside the tree.
use rust_delharc.Prelude.{
  ℕ, zero, suc, ◌+◌, ◌-◌, ◌*◌, ◌/◌, ◌≤◌, ◌<◌, ◌≡◌, refl, inl, inr, Bool-cases, ltb-false→≤, ==_iff,
  Option-cases, Option, some, List, [], ◌∷◌, ◌++◌, length, length-append, get_elem?, ltb, ◌==◌,
  arith,
}
use rust_delharc.StaticTree.{
  HuffTree, built, add_branches, leaves_at, more_leaves, finish, build_levels, build_tree,
  set_single,
}
use rust_delharc.StaticTree.Entry.{
  TreeEntry, NodeType, leaf, branch, max_index, new_branch, as_type,
}
use rust_delharc.StaticTree.Nodes.{as_type-new_leaf, new_branch-inv, as_type-branch}

pub some_pair-inv {ℓ κ} :
    {A : Type ℓ} {B : Type κ} {a c : A} {b d : B}
    → ◌≡◌ {A = Option (A × B)} (some (a, b)) (some (c, d))
    → (a ≡ c) × (b ≡ d)
some_pair-inv e = (cc, cc)

-- The leaves of a tree stand for values below `bound`.
module _ (bound : ℕ) where
  -- A node at index `i` of a tree with `limit` indices allocated.
  abbrev pub PointsAhead : ℕ → ℕ → NodeType → Type 0
  PointsAhead limit i (leaf v) = v < bound
  PointsAhead limit i (branch c) = (i < c) × (c + 1 < limit)

  -- The nodes from index `i` on.
  abbrev pub AllAhead : ℕ → ℕ → List TreeEntry → Type 0
  AllAhead limit i [] = Unit
  AllAhead limit i (e ∷ es) = PointsAhead limit i (as_type e) × AllAhead limit (i + 1) es

  PointsAhead-mono : (l m i : ℕ) (t : NodeType) → l ≤ m → PointsAhead l i t → PointsAhead m i t
  PointsAhead-mono l m i (leaf v) h p = p
  PointsAhead-mono l m i (branch c) h p = omega arith

  AllAhead-mono : (l m i : ℕ) (es : List TreeEntry) → l ≤ m → AllAhead l i es → AllAhead m i es
  AllAhead-mono l m i [] h p = tt
  AllAhead-mono l m i (e ∷ es) h (p, ps) =
      (PointsAhead-mono l m i (as_type e) h p, AllAhead-mono l m (i + 1) es h ps)

  AllAhead-append :
      (l i j : ℕ) (es fs : List TreeEntry)
      → i + length es ≡ j
      → AllAhead l i es
      → AllAhead l j fs
      → AllAhead l i (es ++ fs)
  AllAhead-append l i j [] fs e p q = let e' : i ≡ j = omega arith in rw e' q
  AllAhead-append l i j (x ∷ es) fs e (p, ps) q =
      (p, AllAhead-append l (i + 1) j es fs (omega arith) ps q)

  AllAhead-get_elem? :
      (l i k : ℕ) (es : List TreeEntry)
      → AllAhead l i es
      → k < length es
      → (e : TreeEntry) × (get_elem? es k ≡ some e) × PointsAhead l (i + k) (as_type e)
  AllAhead-get_elem? l i k [] p h = absurd (omega arith)
  AllAhead-get_elem? l i zero (x ∷ es) (p, ps) h =
      let e : i ≡ i + 0 = omega arith in (x, refl, rw (← e) p)
  AllAhead-get_elem? l i (suc k) (x ∷ es) (p, ps) h =
      let (y, found, ahead) = AllAhead-get_elem? l (i + 1) k es ps (omega arith) in
      let e : i + suc k ≡ i + 1 + k = omega arith in (y, found, rw e ahead)

  -- The node at an index of a whole list of nodes.
  pub AllAhead-node :
      (l k : ℕ) (es : List TreeEntry)
      → AllAhead l 0 es
      → k < length es
      → (e : TreeEntry) × (get_elem? es k ≡ some e) × PointsAhead l k (as_type e)
  AllAhead-node l k es p h =
      let (e, found, ahead) = AllAhead-get_elem? l 0 k es p h in
      let same : k ≡ 0 + k = omega arith in (e, found, rw same ahead)

  -- What `add_branches` leaves: `n` branches more, and two indices for each.
  pub record Grown (n : ℕ) (tree : List TreeEntry) (alloc : ℕ) (t : List TreeEntry) (a : ℕ)
      : Type 0 where
    pub nodes : length t ≡ length tree + n
    pub indices : a ≡ alloc + 2 * n
    pub ahead : AllAhead a 0 t

  push_branch :
      (tree : List TreeEntry) (alloc : ℕ)
      → length tree < alloc
      → alloc ≤ max_index
      → AllAhead alloc 0 tree
      → AllAhead (alloc + 2) 0 (tree ++ alloc ∷ [])
  push_branch tree alloc h m p =
      AllAhead-append (alloc + 2) 0 (length tree) tree (alloc ∷ []) (omega arith)
        (AllAhead-mono alloc (alloc + 2) 0 tree (omega arith) p)
        (rw (as_type-branch alloc m) (omega arith), tt)

  pub add_branches-Grown :
      (n : ℕ) (tree : List TreeEntry) (alloc : ℕ) {t : List TreeEntry} {a : ℕ}
      → length tree + n ≤ alloc
      → AllAhead alloc 0 tree
      → add_branches n tree alloc ≡ some (t, a)
      → Grown n tree alloc t a
  unfolding add_branches
  add_branches-Grown zero tree alloc h p e =
      let (nodes, indices) = some_pair-inv e in
      rw (← nodes, ← indices) (record { nodes = omega arith; indices = omega arith; ahead = p })
  add_branches-Grown (suc n) tree alloc h p e = elim (Option-cases (new_branch alloc)) [
    | inl none_left ↦ cc (rw (none_left, add_branches) at e)
    | inr (entry, made) ↦
        let (same, m) = new_branch-inv alloc made in
        let ih =
          add_branches-Grown n (tree ++ entry ∷ []) (alloc + 2)
            (omega (arith, length-append tree (entry ∷ [])))
            (rw same (push_branch tree alloc (omega arith) m p)) (rw (made, add_branches) at e) in
        record {
          nodes = omega (arith, ih.nodes, length-append tree (entry ∷ []));
          indices = omega (arith, ih.indices);
          ahead = ih.ahead;
        }
  ]

  leaves_at-AllAhead :
      (l i len : ℕ) (lens : List ℕ) (value : ℕ)
      → value + length lens ≤ bound
      → bound ≤ max_index
      → AllAhead l i (leaves_at len lens value)
  unfolding leaves_at
  leaves_at-AllAhead l i len [] value h b = tt
  leaves_at-AllAhead l i len (x ∷ lens) value h b = elim (Bool-cases (x == len)) [
    | inl here ↦ rw here (
      rw (as_type-new_leaf value (omega arith)) (omega arith),
      leaves_at-AllAhead l (i + 1) len lens (value + 1) (omega arith) b,
    )
    | inr other ↦ rw other (leaves_at-AllAhead l i len lens (value + 1) (omega arith) b)
  ]

  -- A whole tree: it has a root, and every branch points behind itself and inside.
  pub record IsWhole (tree : List TreeEntry) : Type 0 where
    pub rooted : 0 < length tree
    pub ahead : AllAhead (length tree) 0 tree

  finish-IsWhole :
      (tree : List TreeEntry) (alloc : ℕ) {t : HuffTree}
      → 0 < alloc
      → AllAhead alloc 0 tree
      → finish tree alloc ≡ built t
      → IsWhole t.tree
  finish-IsWhole tree alloc {t} h p e = elim (Bool-cases (length tree == alloc)) [
    | inl same ↦
        let n : length tree ≡ alloc = (==_iff _ _).0 same in
        let here : tree ≡ t.tree = built-inv (rw same at e) in
        rw (← here) (record { rooted = omega arith; ahead = rw n p })
    | inr other ↦ cc (rw other at e)
  ]
    where
      built-inv : {x : List TreeEntry} → built (record { tree = x }) ≡ built t → x ≡ t.tree
      built-inv q = cc

  -- One level: the branches that are missing, then the leaves of the current length.
  level-AllAhead :
      (n len alloc a : ℕ) (lens : List ℕ) (tree t : List TreeEntry)
      → length lens ≤ bound
      → bound ≤ max_index
      → Grown n tree alloc t a
      → AllAhead a 0 (t ++ leaves_at len lens 0)
  level-AllAhead n len alloc a lens tree t f b g =
      AllAhead-append a 0 (length t) t (leaves_at len lens 0) (omega arith) g.ahead
        (leaves_at-AllAhead a (length t) len lens 0 (omega arith) b)

  build_levels-IsWhole :
      (rounds len : ℕ) (lens : List ℕ) (tree : List TreeEntry) (alloc : ℕ) {t : HuffTree}
      → length lens ≤ bound
      → bound ≤ max_index
      → 0 < alloc
      → length tree ≤ alloc
      → AllAhead alloc 0 tree
      → build_levels rounds len lens tree alloc ≡ built t
      → IsWhole t.tree
  unfolding build_levels
  build_levels-IsWhole zero len lens tree alloc f b a h p e = finish-IsWhole tree alloc a p e
  build_levels-IsWhole (suc rounds) len lens tree alloc {t} f b a h p e =
      elim (Option-cases (add_branches (alloc - length tree) tree alloc)) [
        | inl full ↦ cc (rw (full, build_levels) at e)
        | inr ((branches, allocated), made) ↦
            let g = add_branches-Grown (alloc - length tree) tree alloc (omega arith) p made in
            let q = level-AllAhead _ len alloc allocated lens tree branches f b g in
            let pos : 0 < allocated = omega (arith, g.indices) in
            let e' = rw (made, build_levels) at e in
            elim (Bool-cases (ltb allocated (length (branches ++ leaves_at len lens 0)))) [
              | inl over ↦ cc (rw over at e')
              | inr fit ↦
                  let e'' = rw fit at e' in
                  elim (Bool-cases (more_leaves len lens)) [
                    | inl more ↦
                        build_levels-IsWhole rounds (len + 1) lens
                          (branches ++ leaves_at len lens 0) allocated f b pos (ltb-false→≤ _ _ fit)
                          q (rw more at e'')
                    | inr last ↦
                        finish-IsWhole (branches ++ leaves_at len lens 0) allocated pos q
                          (rw last at e'')
                  ]
            ]
      ]

-- Whatever code lengths `build_tree` accepts, the tree that it makes has a root, each branch points
-- to two nodes behind itself and inside the tree, and each leaf has the index of a code length.
pub build_tree-IsWhole :
    (old : HuffTree) (lens : List ℕ) {t : HuffTree}
    → build_tree old lens ≡ built t
    → IsWhole (length lens) t.tree
unfolding build_tree
build_tree-IsWhole old lens {t} e = elim (Bool-cases (ltb (max_index / 2) (length lens))) [
  | inl over ↦ cc (rw over at e)
  | inr fit ↦
      let few = ltb-false→≤ _ _ fit in
      build_levels-IsWhole (length lens) 255 1 lens [] 1 (omega arith) (omega arith) (omega arith)
        (omega arith) tt (rw (fit, build_tree) at e)
]

pub set_single-IsWhole :
    (bound v : ℕ) → v < bound → v ≤ max_index → IsWhole bound (set_single v).tree
unfolding set_single
set_single-IsWhole bound v h g = record {
  rooted = omega arith;
  ahead = (rw (as_type-new_leaf v g) h, tt);
}

pub IsWhole-mono : (b c : ℕ) (tree : List TreeEntry) → b ≤ c → IsWhole b tree → IsWhole c tree
IsWhole-mono b c tree h w = record {
  rooted = w.rooted;
  ahead = ahead_mono (length tree) 0 tree w.ahead;
}
  where
    node_mono : (l i : ℕ) (t : NodeType) → PointsAhead b l i t → PointsAhead c l i t
    node_mono l i (leaf v) p = omega arith
    node_mono l i (branch d) p = p

    ahead_mono : (l i : ℕ) (es : List TreeEntry) → AllAhead b l i es → AllAhead c l i es
    ahead_mono l i [] p = tt
    ahead_mono l i (e ∷ es) (p, ps) = (node_mono l i (as_type e) p, ahead_mono l (i + 1) es ps)
