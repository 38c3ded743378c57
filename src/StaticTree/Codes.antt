-- ===== src/StaticTree/Codes.antt =====
-- src/statictree.rs: `read_entry` on an accepted tree reads the canonical codes of the lengths.
use rust_delharc.Prelude.{
  ℕ, zero, suc, ◌+◌, ◌-◌, ◌*◌, ◌≤◌, ◌<◌, ◌≡◌, refl, ◌∙◌, inl, inr, some, List, [], ◌∷◌, ◌++◌,
  length, All, get_elem?, get_elem?-lt, get_or, take, arith,
}
use rust_delharc.Outcome.{ok, Prog}
use rust_delharc.StaticTree.{HuffTree, built, leaves_at, build_levels, build_tree, walk, read_entry}
use rust_delharc.StaticTree.Entry.{TreeEntry, max_index, new_leaf}
use rust_delharc.StaticTree.Nodes.{as_type-branch, as_type-new_leaf}
use rust_delharc.StaticTree.Canonical.{
  codes_of_length, first_code, code, code_bits, code-behind, with_bits, with_bits-low_bits,
  length-low_bits,
}
use rust_delharc.StaticTree.Places.{slot-found, leaf-found, build_tree-inv, code_lt}
use rust_delharc.StaticTree.Levels.{more_leaves-true, build_levels-Round, length-Round}

-- A source of single bits gives these bits, one after the other, and is left in the state `t`.
abbrev pub Gives : {E S : Type 0} → Prog E S ℕ → List ℕ → S → S → Type 0
Gives read_bit [] s t = s ≡ t
Gives {S = S} read_bit (b ∷ bits) s t =
    (u : S) × (read_bit s ≡ ok b u) × (b < 2) × Gives read_bit bits u t

Gives-All :
    {E S : Type 0} (read_bit : Prog E S ℕ) (bits : List ℕ) (s t : S)
    → Gives read_bit bits s t
    → All (λ b. b < 2) bits
Gives-All read_bit [] s t g = tt
Gives-All read_bit (b ∷ bits) s t (u, got, small, rest) = (small, Gives-All read_bit bits u t rest)

-- One step of the walk.
module _ {E S : Type 0} (read_bit : Prog E S ℕ) (tree : List TreeEntry) where
  walk-leaf :
      (fuel v : ℕ) (s u : S)
      → v ≤ max_index
      → 0 < fuel
      → s ≡ u
      → walk read_bit tree fuel (new_leaf v) s ≡ ok v u
  unfolding walk
  walk-leaf zero v s u h pos e = absurd (omega arith)
  walk-leaf (suc fuel) v s u h pos e = rw (walk, as_type-new_leaf v h, e) refl

  walk-branch :
      (fuel c b : ℕ) (child : TreeEntry) (s u : S)
      → c ≤ max_index
      → read_bit s ≡ ok b u
      → get_elem? tree (c + b) ≡ some child
      → walk read_bit tree (suc fuel) c s ≡ walk read_bit tree fuel child u
  unfolding walk
  walk-branch fuel c b child s u h e f = rw (walk, as_type-branch c h, e, f) refl

module _ {E S : Type 0} (read_bit : Prog E S ℕ) (lens : List ℕ) (v : ℕ) (inside : v < length lens)
    (few : length lens ≤ max_index) (short : get_or lens v 0 < 256) where
  -- From a branch of a level, the bits that complete the code of a value lead to its leaf.
  descend :
      (rounds d x : ℕ) (tree : List TreeEntry) (alloc i : ℕ) (t : HuffTree)
      → build_levels rounds (suc d) lens tree alloc ≡ built t
      → rounds + d ≡ 255
      → length tree + i < alloc
      → first_code lens (suc d) ≡ 2 * x
      → (b : ℕ) (bits : List ℕ) → suc d + length bits ≡ get_or lens v 0
      → with_bits (x + i) (b ∷ bits) ≡ code lens v
      → (s u : S) → Gives read_bit (b ∷ bits) s u
      → (fuel : ℕ) → length t.tree ≤ fuel + (length tree + i)
      → (get_elem? t.tree (length tree + i) ≡ some (alloc + 2 * i))
        × (walk read_bit t.tree fuel (alloc + 2 * i) s ≡ ok v u)
  unfolding build_levels with_bits first_code code
  descend zero d x tree alloc i t e full room first b bits len whole s u g fuel enough =
      absurd (omega arith)
  descend (suc rounds) d x tree alloc i t e full room first b bits len whole s u g zero enough =
      let r = build_levels-Round rounds (suc d) lens tree alloc e in
      let (here, small) = slot-found lens v inside rounds (suc d) tree alloc i r room in
      absurd (omega (arith, get_elem?-lt t.tree (length tree + i) here))
  descend (suc rounds) d x tree alloc i t e full room first b [] len whole s u (w, got, bit, done)
        (suc fuel) enough =
      let r = build_levels-Round rounds (suc d) lens tree alloc e in
      let (here, small) = slot-found lens v inside rounds (suc d) tree alloc i r room in
      let k = codes_of_length (suc d) (take v lens) in
      let same : get_or lens v 0 ≡ suc d = omega arith in
      let at : alloc + 2 * i + b ≡ alloc + k = omega (arith, first, rw same at whole) in
      let child = leaf-found lens v inside rounds (suc d) tree alloc i r room same in
      let leaf_at = rw (← at) at child in
      let step =
        walk-branch read_bit t.tree fuel (alloc + 2 * i) b (new_leaf v) s w small got leaf_at in
      let more = get_elem?-lt t.tree (alloc + 2 * i + b) leaf_at in
      (here, step ∙ walk-leaf read_bit t.tree fuel v w u (omega arith) (omega arith) done)
  descend (suc rounds) d x tree alloc i t e full room first b (c ∷ bits) len whole s u
        (w, got, bit, rest) (suc fuel) enough =
      let r = build_levels-Round rounds (suc d) lens tree alloc e in
      let (here, small) = slot-found lens v inside rounds (suc d) tree alloc i r room in
      let n = codes_of_length (suc d) lens in
      let behind =
        code-behind lens bits d (2 * (x + i) + b) v c (Gives-All read_bit (c ∷ bits) w u rest)
          (omega arith) whole in
      let sizes = length-Round rounds (suc d) lens tree alloc r (omega arith) in
      elim r.goes [
        | inl (more, next) ↦
            let j = 2 * i + b - n in
            let deeper : suc d + 1 ≡ suc (suc d) = omega arith in
            let reached : 2 * x + n + j ≡ 2 * (x + i) + b = omega (arith, first) in
            let ih =
              descend rounds (suc d) (2 * x + n) (r.branches ++ leaves_at (suc d) lens 0)
                r.allocated j t (rw deeper at next) (omega arith) (omega (arith, sizes))
                (omega (arith, first)) c bits (omega arith) (rw reached whole) w u rest fuel
                (omega (arith, sizes)) in
            let size = sizes.0 in
            let child : alloc + 2 * i + b ≡ length (r.branches ++ leaves_at (suc d) lens 0) + j =
              omega (arith, first) in
            let found = rw (← child) at (ih.0) in
            (
              here,
              walk-branch read_bit t.tree fuel (alloc + 2 * i) b (r.allocated + 2 * j) s w small got
                    found
                  ∙ ih.1,
            )
        | inr (last, ended, size) ↦ cc (last, more_leaves-true (suc d) lens v inside (omega arith))
      ]

  start :
      (bits : List ℕ) (t : HuffTree)
      → build_levels 255 1 lens [] 1 ≡ built t
      → 0 < get_or lens v 0
      → length bits ≡ get_or lens v 0
      → with_bits 0 bits ≡ code lens v
      → (s u : S) → Gives read_bit bits s u
      → read_entry read_bit t s ≡ ok v u
  unfolding read_entry first_code
  start [] t e used len whole s u g = absurd (omega arith)
  start (b ∷ bits) t e used len whole s u g =
      let (root, path) =
        descend 255 0 0 [] 1 0 t e refl (omega arith) refl b bits (omega arith) whole s u g
          (length t.tree) (omega arith) in
      rw (read_entry, root) path

-- In the tree that `build_tree` makes of code lengths up to 255, a value with a length that is not
-- zero has the canonical code of its length: where the source of bits gives that code, highest bit
-- first, `read_entry` returns the value, and takes no bit more.
pub read_entry-code :
    {E S : Type 0} (read_bit : Prog E S ℕ) (old t : HuffTree) (lens : List ℕ)
    → build_tree old lens ≡ built t
    → (v : ℕ) → v < length lens
    → 0 < get_or lens v 0
    → get_or lens v 0 < 256
    → (s u : S) → Gives read_bit (code_bits lens v) s u
    → read_entry read_bit t s ≡ ok v u
unfolding code_bits
read_entry-code read_bit old t lens e v inside used short s u g =
    let (few, levels) = build_tree-inv old t lens e in
    let fits = code_lt old t lens e v inside used short in
    start read_bit lens v inside few short (code_bits lens v) t levels used
      (length-low_bits (get_or lens v 0) (code lens v))
      (with_bits-low_bits (get_or lens v 0) (code lens v) fits) s u g
