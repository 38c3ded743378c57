-- ===== src/StaticTree/Places.antt =====
-- src/statictree.rs: where an accepted tree has the leaf of a value, and how many codes a level has
-- room for.
use rust_delharc.Prelude.{
  ℕ, zero, suc, ◌+◌, ◌-◌, ◌/◌, ◌*◌, ◌^◌, ◌≤◌, ◌<◌, ◌≡◌, refl, ◌∙◌, inl, inr, Bool-cases,
  ltb-false→≤, ltb→lt, some, List, [], ◌++◌, length, get_elem?, get_elem?-append_left,
  get_elem?-append_right, get_or, take, ltb, arith,
}
use rust_delharc.StaticTree.{HuffTree, built, leaves_at, build_levels, build_tree}
use rust_delharc.StaticTree.Entry.{TreeEntry, max_index, new_leaf}
use rust_delharc.StaticTree.Canonical.{codes_of_length, codes_of_length-take, first_code, code}
use rust_delharc.StaticTree.Levels.{
  get_elem?-leaves_at, more_leaves-true, add_branches-Branches, Round, build_levels-Round,
  Round-Within, length-Round,
}

module _ (lens : List ℕ) (v : ℕ) (inside : v < length lens) where
  -- Where a round puts the branch of a slot.
  module _ (rounds d : ℕ) (tree : List TreeEntry) (alloc i : ℕ) {t : HuffTree}
      (r : Round rounds d lens tree alloc t) (room : length tree + i < alloc) where
    pub slot-found :
        (get_elem? t.tree (length tree + i) ≡ some (alloc + 2 * i)) × (alloc + 2 * i ≤ max_index)
    slot-found =
        let a = add_branches-Branches (alloc - length tree) tree alloc r.made in
        let (slot, small) = a.slot i (omega arith) in
        let leaves = leaves_at d lens 0 in
        let grown = get_elem?-append_left r.branches leaves (length tree + i) slot in
        (Round-Within rounds d lens tree alloc r (length tree + i) (alloc + 2 * i) grown, small)

    pub leaf-found :
        get_or lens v 0 ≡ d
        → get_elem? t.tree (alloc + codes_of_length d (take v lens)) ≡ some (new_leaf v)
    leaf-found same =
        let a = add_branches-Branches (alloc - length tree) tree alloc r.made in
        let k = codes_of_length d (take v lens) in
        let zero_left : 0 + v ≡ v = omega arith in
        let at_end =
          get_elem?-append_right r.branches (leaves_at d lens 0) (alloc + k) k
            (omega (arith, a.nodes)) in
        Round-Within rounds d lens tree alloc r (alloc + k) (new_leaf v)
          (at_end ∙ rw (same, zero_left) at (get_elem?-leaves_at lens v 0 inside))

  -- In an accepted tree the codes of a length fit in it.
  fill-lt :
      (rounds d x : ℕ) (tree : List TreeEntry) (alloc : ℕ) (t : HuffTree)
      → build_levels rounds (suc d) lens tree alloc ≡ built t
      → get_or lens v 0 < 256
      → rounds + d ≡ 255
      → length tree ≤ alloc
      → first_code lens (suc d) ≡ 2 * x
      → x + (alloc - length tree) ≡ 2 ^ d
      → suc d ≤ get_or lens v 0
      → code lens v < 2 ^ get_or lens v 0
  unfolding build_levels first_code code
  fill-lt zero d x tree alloc t e short full room first fills deep = absurd (omega arith)
  fill-lt (suc rounds) d x tree alloc t e short full room first fills deep =
      let r = build_levels-Round rounds (suc d) lens tree alloc e in
      let n = codes_of_length (suc d) lens in
      let (size, indices) = length-Round rounds (suc d) lens tree alloc r room in
      let fits = r.fits in
      elim (Bool-cases (ltb (suc d) (get_or lens v 0))) [
        | inl more ↦ elim r.goes [
          | inl (longer, next) ↦
              let deeper : suc d + 1 ≡ suc (suc d) = omega arith in
              fill-lt rounds (suc d) (2 * x + n) (r.branches ++ leaves_at (suc d) lens 0)
                r.allocated t (rw deeper at next) short (omega arith) r.fits (omega (arith, first))
                (omega arith) (omega (arith, ltb→lt _ _ more))
          | inr (longer, ended, whole) ↦
              cc (longer, more_leaves-true (suc d) lens v inside (ltb→lt _ _ more))
        ]
        | inr last ↦
            let same : get_or lens v 0 ≡ suc d = omega (arith, ltb-false→≤ _ _ last) in
            let rank = codes_of_length-take lens v inside in
            let rank' = rw same at rank in rw same (omega arith)
      ]

pub build_tree-inv :
    (old t : HuffTree) (lens : List ℕ)
    → build_tree old lens ≡ built t
    → (length lens ≤ max_index) × (build_levels 255 1 lens [] 1 ≡ built t)
unfolding build_tree
build_tree-inv old t lens e = elim (Bool-cases (ltb (max_index / 2) (length lens))) [
  | inl over ↦ cc (rw over at e)
  | inr fit ↦ let small = ltb-false→≤ _ _ fit in (omega arith, rw (fit, build_tree) at e)
]

-- The code of a value of an accepted tree has as many bits as its length says.
pub code_lt :
    (old t : HuffTree) (lens : List ℕ)
    → build_tree old lens ≡ built t
    → (v : ℕ) → v < length lens
    → 0 < get_or lens v 0
    → get_or lens v 0 < 256
    → code lens v < 2 ^ get_or lens v 0
unfolding first_code
code_lt old t lens e v inside used short =
    let (few, levels) = build_tree-inv old t lens e in
    fill-lt lens v inside 255 0 0 [] 1 t levels short refl (omega arith) refl refl used
