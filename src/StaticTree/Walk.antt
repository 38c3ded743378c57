-- ===== src/StaticTree/Walk.antt =====
-- src/statictree.rs: `read_entry` on a tree where every branch points behind itself and inside.
use rust_delharc.Prelude.{ℕ, zero, suc, ◌+◌, ◌≤◌, ◌<◌, none, some, List, get_elem?, length, arith}
use rust_delharc.Outcome.{Outcome, ok, err, panic, out_of_fuel, Prog, Keeps, Post}
use rust_delharc.StaticTree.{HuffTree, walk, read_entry}
use rust_delharc.StaticTree.Entry.{TreeEntry, NodeType, leaf, branch, as_type}
use rust_delharc.StaticTree.Safety.{PointsAhead, AllAhead, AllAhead-node, IsWhole}

module _ {E S : Type 0} (bound : ℕ) (Valid : S → Type 0) (read_bit : Prog E S ℕ)
    (bits : (s : S) → Valid s → Keeps Valid (λ b. b < 2) (read_bit s)) (tree : List TreeEntry)
    (whole : AllAhead bound (length tree) 0 tree) where
  -- The child of a branch, when the walk is safe from every node behind.
  child-Safe :
      (next : TreeEntry → Prog E S ℕ) (i c : ℕ)
      → ((j : ℕ) (e : TreeEntry) (t : S)
          → Valid t
          → i < j
          → j < length tree
          → PointsAhead bound (length tree) j (as_type e)
          → Keeps Valid (λ v. v < bound) (next e t))
      → i < c
      → c + 1 < length tree
      → (o : Outcome E S ℕ) → Keeps Valid (λ b. b < 2) o
      → Keeps Valid
          (λ v. v < bound)
          (elim o as (λ x. Outcome E S ℕ) [
            | ok bit t ↦ elim (get_elem? tree (c + bit)) as (λ x. Outcome E S ℕ) [
              | some e ↦ next e t
              | none ↦ panic
            ]
            | err e t ↦ err e t
            | panic ↦ panic
            | out_of_fuel ↦ out_of_fuel
          ])
  child-Safe next i c rest a b (ok bit t) d =
      let small = d.0 in
      let (e, found, ahead) =
        AllAhead-node bound (length tree) (c + bit) tree whole (omega arith) in
      rw (found, Keeps, Post) (rest (c + bit) e t d.1 (omega arith) (omega arith) ahead)
  child-Safe next i c rest a b (err e t) d = d
  child-Safe next i c rest a b panic d = d
  child-Safe next i c rest a b out_of_fuel d = d

  -- A walk from a node stays inside, and gets to a leaf within the nodes behind.
  walk-Safe :
      (fuel i : ℕ) (node : TreeEntry) (s : S)
      → Valid s
      → i < length tree
      → length tree ≤ fuel + i
      → PointsAhead bound (length tree) i (as_type node)
      → Keeps Valid (λ v. v < bound) (walk read_bit tree fuel node s)
  unfolding walk
  walk-Safe zero i node s ok_s h f p = absurd (omega arith)
  walk-Safe (suc fuel) i node s ok_s h f p =
      kind (as_type node)
        (λ j e t ok_t before inside ahead. walk-Safe fuel j e t ok_t inside (omega arith) ahead) p
    where
      kind :
          (k : NodeType)
          → ((j : ℕ) (e : TreeEntry) (t : S)
              → Valid t
              → i < j
              → j < length tree
              → PointsAhead bound (length tree) j (as_type e)
              → Keeps Valid (λ v. v < bound) (walk read_bit tree fuel e t))
          → PointsAhead bound (length tree) i k
          → Keeps Valid
              (λ v. v < bound)
              (elim k as (λ x. Outcome E S ℕ) [
                | leaf code ↦ ok code s
                | branch index ↦ elim (read_bit s) as (λ x. Outcome E S ℕ) [
                  | ok bit t ↦ elim (get_elem? tree (index + bit)) as (λ x. Outcome E S ℕ) [
                    | some e ↦ walk read_bit tree fuel e t
                    | none ↦ panic
                  ]
                  | err e t ↦ err e t
                  | panic ↦ panic
                  | out_of_fuel ↦ out_of_fuel
                ]
              ])
      kind (leaf v) rest q = (q, ok_s)
      kind (branch c) rest (a, b) =
          child-Safe (walk read_bit tree fuel) i c rest a b (read_bit s) (bits s ok_s)

-- On a tree with a root whose branches point behind themselves and inside and whose leaves are
-- below a bound, and with a source of single bits that keeps an invariant of its state,
-- `read_entry` from a state with that invariant returns a value below the bound or an error of the
-- source, with the invariant: it never indexes out of bounds and always ends.
pub read_entry-Safe :
    {E S : Type 0} (bound : ℕ) (Valid : S → Type 0) (read_bit : Prog E S ℕ)
    → ((s : S) → Valid s → Keeps Valid (λ b. b < 2) (read_bit s))
    → (t : HuffTree) → IsWhole bound t.tree
    → (s : S) → Valid s
    → Keeps Valid (λ v. v < bound) (read_entry read_bit t s)
unfolding read_entry
read_entry-Safe bound Valid read_bit bits t w s v =
    let (e, found, p) = AllAhead-node bound (length t.tree) 0 t.tree w.ahead w.rooted in
    rw (found, Keeps, Post)
      (walk-Safe bound Valid read_bit bits t.tree w.ahead (length t.tree) 0 e s v w.rooted
        (omega arith) p)
