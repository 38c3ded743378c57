-- ===== src/Decode/Lhv1/Links.antt =====
-- src/decode/lhv1/dyntree.rs: how the nodes of a dynamic tree point to each other, and the operations
-- that change it.
use rust_delharc.Prelude.{
  ℕ, ◌+◌, ◌-◌, ◌<◌, ◌≡◌, refl, sym, ap, ◌∙◌, ◌≢◌, ◌⊎◌, inl, inr, length, get_or, set,
  get_elem?-eq-get_or, length-set, get_or-set_self, get_or-set_ne, Bool-cases, ltb, lt→ltb, ◌==◌,
  ==_iff, arith,
}
use rust_delharc.Outcome.{Outcome, ok, err, panic, out_of_fuel, Prog, ◌>>=◌, assert}
use rust_delharc.StaticTree.Entry.{TreeEntry, NodeType, leaf, branch, as_type}
use rust_delharc.Decode.Lhv1.Nodes.{
  num_nodes, num_leaves, TreeNode, default_node, DynHuffTree, load, store, get_node, put_node,
  set_leaf_node_index, get_leader_index,
}
use rust_delharc.Decode.Lhv1.DynTree.{set_as_parent, relink}

-- The node at an index, and the index of the leaf of a value.
abbrev pub node : DynHuffTree → ℕ → TreeNode
node t i = get_or t.nodes i default_node

abbrev pub leaf_index : DynHuffTree → ℕ → ℕ
leaf_index t v = get_or t.leaves v 0

abbrev pub entry_type : DynHuffTree → ℕ → NodeType
entry_type t i = as_type (node t i).entry

-- The arrays have their lengths.
pub record IsSized (t : DynHuffTree) : Type 0 where
  pub nodes : length t.nodes ≡ num_nodes
  pub leaves : length t.leaves ≡ num_leaves
  pub groups : length t.groups.groups ≡ num_nodes
  pub leaders : length t.groups.leaders ≡ num_nodes

-- What the entry of a node at an index points to points back.
abbrev pub Aims : DynHuffTree → ℕ → NodeType → Type 0
Aims t i (leaf v) = leaf_index t v ≡ i
Aims t i (branch c) = ((node t (c - 1)).parent ≡ i) × ((node t c).parent ≡ i)

-- The children of a branch stand behind it, the right one at the branch's index.
abbrev pub Behind : ℕ → NodeType → Type 0
Behind i (leaf v) = v < num_leaves
Behind i (branch c) = (i + 1 < c) × (c < num_nodes)

pub record IsLinked (t : DynHuffTree) : Type 0 where
  pub down : (i : ℕ) → i < num_nodes → Behind i (entry_type t i) × Aims t i (entry_type t i)
  pub up :
      (i : ℕ)
      → 0 < i
      → i < num_nodes
      → (c : ℕ) × ((node t i).parent < i)
        × (entry_type t (node t i).parent ≡ branch c)
        × ((c ≡ i) ⊎ (c ≡ i + 1))
  pub found :
      (v : ℕ)
      → v < num_leaves
      → (leaf_index t v < num_nodes) × (entry_type t (leaf_index t v) ≡ leaf v)

pub bind-ok :
    {E S A B : Type 0} (m : Prog E S A) (f : A → Prog E S B) (s : S) (a : A) (t : S)
    → m s ≡ ok a t
    → (m >>= f) s ≡ f a t
bind-ok {E} {S} {A} {B} m f s a t e =
    ap
      (λ (o : Outcome E S A). elim o as (λ x. Outcome E S B) [
        | ok b u ↦ f b u
        | err x u ↦ err x u
        | panic ↦ panic
        | out_of_fuel ↦ out_of_fuel
      ])
      e

module _ {E : Type 0} (t : DynHuffTree) (sized : IsSized t) where
  pub get_node-ok : (i : ℕ) → i < num_nodes → get_node {E = E} i t ≡ ok (node t i) t
  unfolding get_node load
  get_node-ok i h =
      rw (get_node, load, get_elem?-eq-get_or t.nodes i default_node (omega (arith, sized.nodes)))
        refl

  pub put_node-ok :
      (i : ℕ) (n : TreeNode)
      → i < num_nodes
      → put_node {E = E} i n t ≡ ok tt (record t { nodes = set t.nodes i n })
  unfolding put_node store
  put_node-ok i n h =
      rw (put_node, store, get_elem?-eq-get_or t.nodes i default_node (omega (arith, sized.nodes)))
        refl

  set_leaf_node_index-ok :
      (v i : ℕ)
      → v < num_leaves
      → i < num_nodes
      → set_leaf_node_index {E = E} v i t ≡ ok tt (record t { leaves = set t.leaves v i })
  unfolding set_leaf_node_index store
  set_leaf_node_index-ok v i h g =
      bind-ok (assert (ltb i num_nodes)) _ t tt t (rw (lt→ltb i num_nodes g) refl)
      ∙ rw (store, get_elem?-eq-get_or t.leaves v 0 (omega (arith, sized.leaves))) refl

  pub get_leader_index-ok :
      (g : ℕ) → g < num_nodes → get_leader_index {E = E} g t ≡ ok (get_or t.groups.leaders g 0) t
  unfolding get_leader_index load
  get_leader_index-ok g h =
      rw
        (
          get_leader_index,
          load,
          get_elem?-eq-get_or t.groups.leaders g 0 (omega (arith, sized.leaders)),
        )
        refl

module _ (t : DynHuffTree) (sized : IsSized t) where
  pub put-IsSized : (i : ℕ) (n : TreeNode) → IsSized (record t { nodes = set t.nodes i n })
  put-IsSized i n = record {
    nodes = length-set t.nodes i n ∙ sized.nodes;
    leaves = sized.leaves;
    groups = sized.groups;
    leaders = sized.leaders;
  }

  pub put_self :
      (i : ℕ) (n : TreeNode) → i < num_nodes → node (record t { nodes = set t.nodes i n }) i ≡ n
  put_self i n h = get_or-set_self t.nodes i n default_node (omega (arith, sized.nodes))

  pub put_other :
      (i j : ℕ) (n : TreeNode) → i ≢ j → node (record t { nodes = set t.nodes i n }) j ≡ node t j
  put_other i j n h = get_or-set_ne t.nodes i j n default_node h

module _ (t : DynHuffTree) (sized : IsSized t) (j : ℕ) (n : TreeNode) (inside : j < num_nodes) where
  -- A field that the write leaves alone.
  pub put-field :
      {A : Type 0} (f : TreeNode → A)
      → f n ≡ f (node t j)
      → (i : ℕ) → f (node (record t { nodes = set t.nodes j n }) i) ≡ f (node t i)
  put-field f keeps i = elim (Bool-cases (j == i)) [
    | inl same ↦
        let e = (==_iff j i).0 same in rw (← e) (ap f (put_self t sized j n inside) ∙ keeps)
    | inr other ↦ ap f (put_other t sized j i n (λ e. cc (other, (==_iff j i).1 e)))
  ]

-- The nodes and the leaves that an entry does not point to.
abbrev pub Away : NodeType → ℕ → Type 0
Away (leaf v) j = Unit
Away (branch c) j = (j ≢ c - 1) × (j ≢ c)

abbrev pub AwayLeaf : NodeType → ℕ → Type 0
AwayLeaf (leaf w) v = v ≢ w
AwayLeaf (branch c) v = Unit

abbrev pub Inside : NodeType → Type 0
Inside (leaf v) = v < num_leaves
Inside (branch c) = (0 < c) × (c < num_nodes)

-- Only what the entry points to is changed, and points back.
pub record Relinked (k : NodeType) (q : ℕ) (t u : DynHuffTree) : Type 0 where
  pub sized : IsSized u
  pub groups : u.groups ≡ t.groups
  pub entries : (j : ℕ) → (node u j).entry ≡ (node t j).entry
  pub freqs : (j : ℕ) → (node u j).freq ≡ (node t j).freq
  pub node_groups : (j : ℕ) → (node u j).group ≡ (node t j).group
  pub aims : Aims u q k
  pub parents : (j : ℕ) → Away k j → (node u j).parent ≡ (node t j).parent
  pub leaf_indices : (v : ℕ) → AwayLeaf k v → leaf_index u v ≡ leaf_index t v

-- A node gets its parent.
abbrev pub with_parent : ℕ → DynHuffTree → ℕ → DynHuffTree
with_parent q t j = record t { nodes = set t.nodes j (record (node t j) { parent = q }) }

module _ (t : DynHuffTree) (sized : IsSized t) (q j : ℕ) (inside : j < num_nodes) where
  with_parent-field :
      {A : Type 0} (f : TreeNode → A)
      → f (record (node t j) { parent = q }) ≡ f (node t j)
      → (i : ℕ) → f (node (with_parent q t j) i) ≡ f (node t i)
  with_parent-field = put-field t sized j (record (node t j) { parent = q }) inside

  with_parent_self : (node (with_parent q t j) j).parent ≡ q
  with_parent_self =
      ap (λ (n : TreeNode). n.parent) (put_self t sized j (record (node t j) { parent = q }) inside)

  with_parent-other : (i : ℕ) → i ≢ j → (node (with_parent q t j) i).parent ≡ (node t i).parent
  with_parent-other i h =
      ap (λ (n : TreeNode). n.parent)
        (put_other t sized j i (record (node t j) { parent = q }) (λ e. h (sym e)))

  with_parent-IsSized : IsSized (with_parent q t j)
  with_parent-IsSized = put-IsSized t sized j (record (node t j) { parent = q })

module _ (t : DynHuffTree) (sized : IsSized t) (q c : ℕ) (h : 0 < c) (g : c < num_nodes) where
  abbrev left : DynHuffTree
  left = with_parent q t (c - 1)

  left-IsSized : IsSized left
  left-IsSized = with_parent-IsSized t sized q (c - 1) (omega arith)

  set_as_parent-ok :
      {E : Type 0} → q < num_nodes → set_as_parent {E = E} c q t ≡ ok tt (with_parent q left c)
  unfolding set_as_parent
  set_as_parent-ok k =
      rw (lt→ltb q num_nodes k, lt→ltb 0 c h)
        (bind-ok (get_node (c - 1)) _ t (node t (c - 1)) t
            (get_node-ok t sized (c - 1) (omega arith))
          ∙ bind-ok (put_node (c - 1) (record (node t (c - 1)) { parent = q })) _ t tt left
              (put_node-ok t sized (c - 1) (record (node t (c - 1)) { parent = q }) (omega arith))
          ∙ bind-ok (get_node c) _ left (node left c) left (get_node-ok left left-IsSized c g)
          ∙ put_node-ok left left-IsSized c (record (node left c) { parent = q }) g)

  children-Relinked : Relinked (branch c) q t (with_parent q left c)
  children-Relinked =
      let l = with_parent-field t sized q (c - 1) (omega arith) in
      let r = with_parent-field left left-IsSized q c g in
      record {
        sized = with_parent-IsSized left left-IsSized q c g;
        groups = refl;
        entries = λ j. r (λ (n : TreeNode). n.entry) refl j ∙ l (λ (n : TreeNode). n.entry) refl j;
        freqs = λ j. r (λ (n : TreeNode). n.freq) refl j ∙ l (λ (n : TreeNode). n.freq) refl j;
        node_groups =
            λ j. r (λ (n : TreeNode). n.group) refl j ∙ l (λ (n : TreeNode). n.group) refl j;
        aims = (
          with_parent-other left left-IsSized q c g (c - 1) (λ e. absurd (omega arith))
              ∙ with_parent_self t sized q (c - 1) (omega arith),
          with_parent_self left left-IsSized q c g,
        );
        parents = λ j (a, b).
            with_parent-other left left-IsSized q c g j b
            ∙ with_parent-other t sized q (c - 1) (omega arith) j a;
        leaf_indices = λ v a. refl;
      }

module _ (t : DynHuffTree) (sized : IsSized t) (q v : ℕ) (h : v < num_leaves) where
  abbrev with_leaf : DynHuffTree
  with_leaf = record t { leaves = set t.leaves v q }

  leaf-Relinked : Relinked (leaf v) q t with_leaf
  leaf-Relinked = record {
    sized = record {
      nodes = sized.nodes;
      leaves = length-set t.leaves v q ∙ sized.leaves;
      groups = sized.groups;
      leaders = sized.leaders;
    };
    groups = refl;
    entries = λ j. refl;
    freqs = λ j. refl;
    node_groups = λ j. refl;
    aims = get_or-set_self t.leaves v q 0 (omega (arith, sized.leaves));
    parents = λ j a. refl;
    leaf_indices = λ w a. get_or-set_ne t.leaves v w q 0 (λ e. a (sym e));
  }

-- What `relink` does for an entry of a kind.
pub relink-Relinked :
    {E : Type 0} (t : DynHuffTree) (sized : IsSized t) (entry : TreeEntry) (q : ℕ) (k : NodeType)
    → as_type entry ≡ k
    → Inside k
    → q < num_nodes
    → (u : DynHuffTree) × (relink {E = E} entry q t ≡ ok tt u) × Relinked k q t u
unfolding relink
relink-Relinked t sized entry q (leaf v) e h i = (
  with_leaf t sized q v h,
  rw (relink, e) (set_leaf_node_index-ok t sized v q h i),
  leaf-Relinked t sized q v h,
)
relink-Relinked t sized entry q (branch c) e (h, g) i = (
  with_parent q (left t sized q c h g) c,
  rw (relink, e) (set_as_parent-ok t sized q c h g i),
  children-Relinked t sized q c h g,
)
