-- ===== src/StaticTree/Levels.antt =====
-- src/statictree.rs: what a round of `build_tree` adds to the tree, and where. The entries only
-- grow, so what a round adds is found at the same index in the tree at the end.
use rust_delharc.Prelude.{
  ℕ, zero, suc, ◌+◌, ◌-◌, ◌*◌, ◌≤◌, ◌<◌, ◌≡◌, refl, true, false, ◌⊎◌, inl, inr, Bool-cases,
  Option-cases, ltb-false→≤, some, List, [], ◌∷◌, ◌++◌, length, length-append, get_elem?,
  get_elem?-append_left, get_elem?-append_right, get_or, take, ltb, ◌==◌, ==_iff, arith,
}
use rust_delharc.StaticTree.{
  HuffTree, built, add_branches, leaves_at, more_leaves, finish, build_levels,
}
use rust_delharc.StaticTree.Entry.{TreeEntry, max_index, new_branch, new_leaf}
use rust_delharc.StaticTree.Nodes.{new_branch-inv}
use rust_delharc.StaticTree.Safety.{some_pair-inv}
use rust_delharc.StaticTree.Canonical.{codes_of_length}

pub length-leaves_at :
    (l : ℕ) (lens : List ℕ) (v : ℕ) → length (leaves_at l lens v) ≡ codes_of_length l lens
unfolding leaves_at codes_of_length
length-leaves_at l [] v = refl
length-leaves_at l (x ∷ lens) v = elim (Bool-cases (x == l)) [
  | inl here ↦ rw here (omega (arith, length-leaves_at l lens (v + 1)))
  | inr other ↦ rw other (length-leaves_at l lens (v + 1))
]

-- The leaves of a length stand in the order of their values.
pub get_elem?-leaves_at :
    (lens : List ℕ) (v base : ℕ)
    → v < length lens
    → get_elem?
        (leaves_at (get_or lens v 0) lens base)
        (codes_of_length (get_or lens v 0) (take v lens))
      ≡ some (new_leaf (base + v))
unfolding leaves_at codes_of_length
get_elem?-leaves_at [] v base h = absurd (omega arith)
get_elem?-leaves_at (x ∷ lens) zero base h =
    let e = (==_iff x x).1 refl in let e' : base + 0 ≡ base = omega arith in rw (e, e') refl
get_elem?-leaves_at (x ∷ lens) (suc v) base h =
    let ih = get_elem?-leaves_at lens v (base + 1) (omega arith) in
    let e' : base + suc v ≡ base + 1 + v = omega arith in
    elim (Bool-cases (x == get_or lens v 0)) [
      | inl same ↦ rw (same, e') ih
      | inr other ↦ rw (other, e') ih
    ]

pub more_leaves-true :
    (d : ℕ) (lens : List ℕ) (v : ℕ)
    → v < length lens
    → d < get_or lens v 0
    → more_leaves d lens ≡ true
unfolding more_leaves
more_leaves-true d [] v h g = absurd (omega arith)
more_leaves-true d (x ∷ lens) zero h g = ground arith
more_leaves-true d (x ∷ lens) (suc v) h g =
    let ih = more_leaves-true d lens v (omega arith) g in
    elim (Bool-cases (ltb d x)) [ inl e ↦ rw e refl | inr e ↦ rw e ih ]

-- What is found in a tree is found in another one.
abbrev pub Within : List TreeEntry → List TreeEntry → Type 0
Within xs ys = (i : ℕ) (e : TreeEntry) → get_elem? xs i ≡ some e → get_elem? ys i ≡ some e

-- What `add_branches` adds: branches whose children are numbered one behind the other.
pub record Branches (n : ℕ) (tree : List TreeEntry) (alloc : ℕ) (t : List TreeEntry) (a : ℕ)
    : Type 0 where
  pub nodes : length t ≡ length tree + n
  pub indices : a ≡ alloc + 2 * n
  pub keeps : Within tree t
  pub slot :
      (i : ℕ)
      → i < n
      → (get_elem? t (length tree + i) ≡ some (alloc + 2 * i)) × (alloc + 2 * i ≤ max_index)

pub add_branches-Branches :
    (n : ℕ) (tree : List TreeEntry) (alloc : ℕ) {t : List TreeEntry} {a : ℕ}
    → add_branches n tree alloc ≡ some (t, a)
    → Branches n tree alloc t a
unfolding add_branches
add_branches-Branches zero tree alloc e =
    let (same, size) = some_pair-inv e in
    rw (← same, ← size)
      (record {
        nodes = omega arith;
        indices = omega arith;
        keeps = λ i x f. f;
        slot = λ i h. absurd (omega arith);
      })
add_branches-Branches (suc n) tree alloc {t} e = elim (Option-cases (new_branch alloc)) [
  | inl none_left ↦ cc (rw (none_left, add_branches) at e)
  | inr (entry, made) ↦
      let (same, m) = new_branch-inv alloc made in
      let ih =
        add_branches-Branches n (tree ++ entry ∷ []) (alloc + 2) (rw (made, add_branches) at e) in
      let size : length (tree ++ entry ∷ []) ≡ suc (length tree) =
        omega (arith, length-append tree (entry ∷ [])) in
      let first : get_elem? (tree ++ entry ∷ []) (length tree) ≡ some entry =
        get_elem?-append_right tree (entry ∷ []) (length tree) 0 (omega arith) in
      let slot : (i : ℕ)
          → i < suc n
          → (get_elem? t (length tree + i) ≡ some (alloc + 2 * i)) × (alloc + 2 * i ≤ max_index) =
        λ i h. elim (zero-or-suc i) [
          | inl z ↦
              let e₀ : length tree + 0 ≡ length tree = omega arith in
              let e₁ : alloc + 2 * 0 ≡ entry = omega arith in
              rw (z, e₀, e₁) (ih.keeps (length tree) entry first, omega arith)
          | inr (j, s) ↦
              let e₀ : length tree + i ≡ length (tree ++ entry ∷ []) + j = omega arith in
              let e₁ : alloc + 2 * i ≡ alloc + 2 + 2 * j = omega arith in
              rw (e₀, e₁) (ih.slot j (omega arith))
        ] in
      record {
        nodes = omega (arith, ih.nodes, size);
        indices = omega (arith, ih.indices);
        keeps = λ i x f. ih.keeps i x (get_elem?-append_left tree (entry ∷ []) i f);
        slot = slot;
      }
]
  where
    zero-or-suc : (i : ℕ) → (i ≡ 0) ⊎ ((j : ℕ) × (i ≡ suc j))
    zero-or-suc zero = inl refl
    zero-or-suc (suc j) = inr (j, refl)

-- A round of an accepted build: it goes on when longer lengths are left, and the tree is whole when
-- it ends.
pub record Round (rounds d : ℕ) (lens : List ℕ) (tree : List TreeEntry) (alloc : ℕ) (t : HuffTree)
    : Type 0 where
  pub branches : List TreeEntry
  pub allocated : ℕ
  pub made : add_branches (alloc - length tree) tree alloc ≡ some (branches, allocated)
  pub fits : length (branches ++ leaves_at d lens 0) ≤ allocated
  pub goes :
      ((more_leaves d lens ≡ true)
        × (build_levels rounds (d + 1) lens (branches ++ leaves_at d lens 0) allocated ≡ built t))
      ⊎ ((more_leaves d lens ≡ false)
          × (branches ++ leaves_at d lens 0 ≡ t.tree)
          × (length (branches ++ leaves_at d lens 0) ≡ allocated))

pub finish-inv :
    (tree : List TreeEntry) (alloc : ℕ) {t : HuffTree}
    → finish tree alloc ≡ built t
    → (tree ≡ t.tree) × (length tree ≡ alloc)
finish-inv tree alloc {t} e = elim (Bool-cases (length tree == alloc)) [
  | inl same ↦ (built-inv (rw same at e), (==_iff _ _).0 same)
  | inr other ↦ cc (rw other at e)
]
  where
    built-inv : {x : List TreeEntry} → built (record { tree = x }) ≡ built t → x ≡ t.tree
    built-inv q = cc

pub build_levels-Round :
    (rounds d : ℕ) (lens : List ℕ) (tree : List TreeEntry) (alloc : ℕ) {t : HuffTree}
    → build_levels (suc rounds) d lens tree alloc ≡ built t
    → Round rounds d lens tree alloc t
unfolding build_levels
build_levels-Round rounds d lens tree alloc e =
    elim (Option-cases (add_branches (alloc - length tree) tree alloc)) [
      | inl full ↦ cc (rw (full, build_levels) at e)
      | inr ((branches, allocated), made) ↦
          let grown = branches ++ leaves_at d lens 0 in
          let e' = rw (made, build_levels) at e in
          elim (Bool-cases (ltb allocated (length grown))) [
            | inl over ↦ cc (rw over at e')
            | inr fit ↦
                let e'' = rw fit at e' in
                record {
                  branches = branches;
                  allocated = allocated;
                  made = made;
                  fits = ltb-false→≤ _ _ fit;
                  goes = elim (Bool-cases (more_leaves d lens)) [
                    | inl more ↦ inl (more, rw more at e'')
                    | inr last ↦
                        let (same, size) = finish-inv grown allocated (rw last at e'') in
                        inr (last, same, size)
                  ];
                }
          ]
    ]

-- The branches and the leaves of a round are found in the tree at the end, when they stay through the
-- rounds that follow.
module _ (rounds d : ℕ) (lens : List ℕ) (tree : List TreeEntry) (alloc : ℕ) {t : HuffTree} where
  stays-Within :
      (r : Round rounds d lens tree alloc t)
      → (build_levels rounds (d + 1) lens (r.branches ++ leaves_at d lens 0) r.allocated ≡ built t
          → Within (r.branches ++ leaves_at d lens 0) t.tree)
      → Within (r.branches ++ leaves_at d lens 0) t.tree
  stays-Within r stays = elim r.goes [
    | inl (more, next) ↦ stays next
    | inr (last, same, n) ↦ rw same (λ i x f. f)
  ]

build_levels-Within :
    (rounds d : ℕ) (lens : List ℕ) (tree : List TreeEntry) (alloc : ℕ) {t : HuffTree}
    → build_levels rounds d lens tree alloc ≡ built t
    → Within tree t.tree
unfolding build_levels
build_levels-Within zero d lens tree alloc e = rw ((finish-inv tree alloc e).0) (λ i x f. f)
build_levels-Within (suc rounds) d lens tree alloc {t} e =
    let r = build_levels-Round rounds d lens tree alloc e in
    let keeps = (add_branches-Branches (alloc - length tree) tree alloc r.made).keeps in
    let leaves = leaves_at d lens 0 in
    let rest =
      stays-Within rounds d lens tree alloc r
        (build_levels-Within rounds (d + 1) lens (r.branches ++ leaves) r.allocated) in
    λ i x f. rest i x (get_elem?-append_left r.branches leaves i (keeps i x f))

pub Round-Within :
    (rounds d : ℕ) (lens : List ℕ) (tree : List TreeEntry) (alloc : ℕ) {t : HuffTree}
    → (r : Round rounds d lens tree alloc t) → Within (r.branches ++ leaves_at d lens 0) t.tree
Round-Within rounds d lens tree alloc r =
    stays-Within rounds d lens tree alloc r
      (build_levels-Within rounds (d + 1) lens (r.branches ++ leaves_at d lens 0) r.allocated)

pub length-Round :
    (rounds d : ℕ) (lens : List ℕ) (tree : List TreeEntry) (alloc : ℕ) {t : HuffTree}
    → (r : Round rounds d lens tree alloc t) → length tree ≤ alloc
    → (length (r.branches ++ leaves_at d lens 0) ≡ alloc + codes_of_length d lens)
      × (r.allocated ≡ alloc + 2 * (alloc - length tree))
length-Round rounds d lens tree alloc r room =
    let a = add_branches-Branches (alloc - length tree) tree alloc r.made in
    (
      omega (
        arith,
        a.nodes,
        length-append r.branches (leaves_at d lens 0),
        length-leaves_at d lens 0,
      ),
      a.indices,
    )
