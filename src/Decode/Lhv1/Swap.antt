-- ===== src/Decode/Lhv1/Swap.antt =====
-- src/decode/lhv1/dyntree.rs: the links of a tree when two entries are swapped, as in `promote_to_leader`.
use rust_delharc.Prelude.{
  ℕ, ◌+◌, ◌-◌, ◌<◌, ◌≡◌, refl, sym, ap, ◌∙◌, ◌≢◌, ◌⊎◌, inl, inr, List, get_or, set, Bool-cases,
  ◌==◌, ==_iff, arith,
}
use rust_delharc.StaticTree.Entry.{NodeType, leaf, branch, as_type}
use rust_delharc.Decode.Lhv1.Nodes.{num_nodes, TreeNode, DynHuffTree}
use rust_delharc.Decode.Lhv1.Links.{
  node, leaf_index, entry_type, IsSized, Aims, Behind, IsLinked, Away, AwayLeaf, Inside, Relinked,
  put-IsSized, put_self, put_other, put-field,
}

-- What an entry of one kind points to is not what one of the other kind points to.
abbrev Foreign : NodeType → NodeType → Type 0
Foreign (leaf v) k = AwayLeaf k v
Foreign (branch c) k = Away k (c - 1) × Away k c

foreign :
    (t : DynHuffTree) (i q : ℕ) (k l : NodeType)
    → i ≢ q
    → Behind i k
    → Aims t i k
    → Aims t q l
    → Foreign k l
foreign t i q (leaf v) (leaf w) h b a a' = λ e. h (sym a ∙ ap (leaf_index t) e ∙ a')
foreign t i q (leaf v) (branch d) h b a a' = tt
foreign t i q (branch c) (leaf w) h b a a' = (tt, tt)
foreign t i q (branch c) (branch d) h b (a, a₂) (a', a₂') = (
  (
    (λ e. h (sym a ∙ ap (λ (x : ℕ). (node t x).parent) e ∙ a')),
    λ e. h (sym a ∙ ap (λ (x : ℕ). (node t x).parent) e ∙ a₂'),
  ),
  (
    (λ e. h (sym a₂ ∙ ap (λ (x : ℕ). (node t x).parent) e ∙ a')),
    λ e. h (sym a₂ ∙ ap (λ (x : ℕ). (node t x).parent) e ∙ a₂'),
  ),
)

keeps_aims :
    (k l : NodeType) (i q : ℕ) (t u : DynHuffTree)
    → Relinked l q t u
    → Foreign k l
    → Aims t i k
    → Aims u i k
keeps_aims (leaf v) l i q t u r f a = r.leaf_indices v f ∙ a
keeps_aims (branch c) l i q t u r (f, g) (a, b) = (r.parents (c - 1) f ∙ a, r.parents c g ∙ b)

pub behind-Inside : (i : ℕ) (k : NodeType) → Behind i k → Inside k
behind-Inside i (leaf v) h = h
behind-Inside i (branch c) h = (omega arith, omega arith)

-- Two nodes with their entries swapped.
pub record Swapped (p l : ℕ) (t u : DynHuffTree) : Type 0 where
  pub sized : IsSized u
  pub leaves : u.leaves ≡ t.leaves
  pub groups : u.groups ≡ t.groups
  pub at_p : (node u p).entry ≡ (node t l).entry
  pub at_l : (node u l).entry ≡ (node t p).entry
  pub others : (j : ℕ) → j ≢ p → j ≢ l → (node u j).entry ≡ (node t j).entry
  pub freqs : (j : ℕ) → (node u j).freq ≡ (node t j).freq
  pub node_groups : (j : ℕ) → (node u j).group ≡ (node t j).group
  pub parents : (j : ℕ) → (node u j).parent ≡ (node t j).parent

-- The state behind the two writes of the entries.
abbrev pub swap : ℕ → ℕ → DynHuffTree → DynHuffTree
swap p l t = record t {
  nodes =
      set (set t.nodes p (record (node t p) { entry = (node t l).entry })) l
        (record (node t l) { entry = (node t p).entry });
}

module _ (t : DynHuffTree) (sized : IsSized t) (p l : ℕ) (hp : p < num_nodes) (hl : l < num_nodes)
    (ne : p ≢ l) where
  abbrev pub first : TreeNode
  first = record (node t p) { entry = (node t l).entry }

  abbrev pub second : TreeNode
  second = record (node t l) { entry = (node t p).entry }

  abbrev pub half : DynHuffTree
  half = record t { nodes = set t.nodes p first }

  pub half-IsSized : IsSized half
  half-IsSized = put-IsSized t sized p first

  half-l : node half l ≡ node t l
  half-l = put_other t sized p l first ne

  swap-field :
      {A : Type 0} (f : TreeNode → A)
      → f first ≡ f (node t p)
      → f second ≡ f (node t l)
      → (j : ℕ) → f (node (swap p l t) j) ≡ f (node t j)
  swap-field f a b j =
      put-field half half-IsSized l second hl f (b ∙ ap f (sym half-l)) j
      ∙ put-field t sized p first hp f a j

  pub swap-Swapped : Swapped p l t (swap p l t)
  swap-Swapped = record {
    sized = put-IsSized half half-IsSized l second;
    leaves = refl;
    groups = refl;
    at_p =
        ap (λ (n : TreeNode). n.entry)
          (put_other half half-IsSized l p second (λ e. ne (sym e)) ∙ put_self t sized p first hp);
    at_l = ap (λ (n : TreeNode). n.entry) (put_self half half-IsSized l second hl);
    others = λ j a b.
        ap (λ (n : TreeNode). n.entry)
          (put_other half half-IsSized l j second (λ e. b (sym e))
            ∙ put_other t sized p j first (λ e. a (sym e)));
    freqs = swap-field (λ (n : TreeNode). n.freq) refl refl;
    node_groups = swap-field (λ (n : TreeNode). n.group) refl refl;
    parents = swap-field (λ (n : TreeNode). n.parent) refl refl;
  }

swapped_aims :
    (p l : ℕ) (t u : DynHuffTree) (i : ℕ) (k : NodeType) → Swapped p l t u → Aims t i k → Aims u i k
swapped_aims p l t u i (leaf v) s a = ap (λ (xs : List ℕ). get_or xs v 0) s.leaves ∙ a
swapped_aims p l t u i (branch c) s (a, b) = (s.parents (c - 1) ∙ a, s.parents c ∙ b)

-- A tree `t` whose entries at `p` and `l` are swapped, in `v` behind the first `relink` and in `u`
-- behind the second.
module _ (t s v u : DynHuffTree) (linked : IsLinked t) (p l : ℕ) (hp : p < num_nodes)
    (hl : l < num_nodes) (before : l < p) (behind : Behind p (entry_type t l))
    (swapped : Swapped p l t s) (r : Relinked (entry_type t l) p s v)
    (r' : Relinked (entry_type t p) l v u) where
  -- The entry of the node at `q` has come to `x`, and its links with it.
  record HasMoved (q x : ℕ) : Type 0 where
    inside : x < num_nodes
    entry : (node u x).entry ≡ (node t q).entry
    behind' : Behind x (entry_type t q)
    aims : Aims u x (entry_type t q)

  entries : (j : ℕ) → (node u j).entry ≡ (node s j).entry
  entries j = r'.entries j ∙ r.entries j

  aims_at : (q : ℕ) → q < num_nodes → Aims t q (entry_type t q)
  aims_at q h = (linked.down q h).1

  apart :
      (q x : ℕ) → q < num_nodes → x < num_nodes → q ≢ x → Foreign (entry_type t q) (entry_type t x)
  apart q x h g ne =
      foreign t q x (entry_type t q) (entry_type t x) ne (linked.down q h).0 (aims_at q h)
        (aims_at x g)

  moved_p : HasMoved p l
  moved_p = record {
    inside = hl;
    entry = entries l ∙ swapped.at_l;
    behind' = nearer (entry_type t p) (linked.down p hp).0;
    aims = r'.aims;
  }
    where
      nearer : (k : NodeType) → Behind p k → Behind l k
      nearer (leaf w) b = b
      nearer (branch c) (a, b) = (omega arith, b)

  moved_l : HasMoved l p
  moved_l = record {
    inside = hp;
    entry = entries p ∙ swapped.at_p;
    behind' = behind;
    aims =
        keeps_aims (entry_type t l) (entry_type t p) p l v u r'
          (apart l p hl hp (λ e. absurd (omega arith))) r.aims;
  }

  moved_other : (q : ℕ) → q < num_nodes → q ≢ p → q ≢ l → HasMoved q q
  moved_other q h a b =
      let k = entry_type t q in
      record {
        inside = h;
        entry = entries q ∙ swapped.others q a b;
        behind' = (linked.down q h).0;
        aims = keeps_aims k (entry_type t p) q l v u r' (apart q p h hp a) (
            keeps_aims k (entry_type t l) q p s v r (apart q l h hl b)
              (swapped_aims p l t s q k swapped (aims_at q h)));
      }

  moved : (q : ℕ) → q < num_nodes → (x : ℕ) × HasMoved q x
  moved q h = elim (Bool-cases (q == p)) [
    | inl is_p ↦ let e = (==_iff q p).0 is_p in rw e (l, moved_p)
    | inr not_p ↦ elim (Bool-cases (q == l)) [
      | inl is_l ↦ let e = (==_iff q l).0 is_l in rw e (p, moved_l)
      | inr not_l ↦ (
        q,
        moved_other q h (λ e. cc (not_p, (==_iff q p).1 e)) (λ e. cc (not_l, (==_iff q l).1 e)),
      )
    ]
  ]

  -- The entry that has come to a node.
  came : (x : ℕ) → x < num_nodes → (q : ℕ) × HasMoved q x
  came x h = elim (Bool-cases (x == p)) [
    | inl is_p ↦ let e = (==_iff x p).0 is_p in rw e (l, moved_l)
    | inr not_p ↦ elim (Bool-cases (x == l)) [
      | inl is_l ↦ let e = (==_iff x l).0 is_l in rw e (p, moved_p)
      | inr not_l ↦ (
        x,
        moved_other x h (λ e. cc (not_p, (==_iff x p).1 e)) (λ e. cc (not_l, (==_iff x l).1 e)),
      )
    ]
  ]

  child :
      (j c x : ℕ)
      → (c ≡ j) ⊎ (c ≡ j + 1)
      → Behind x (branch c)
      → Aims u x (branch c)
      → ((node u j).parent ≡ x) × (x < j)
  child j c x (inl e) (b, b') (a, a') = (rw (← e) a', omega arith)
  child j c x (inr e) (b, b') (a, a') =
      let same : j ≡ c - 1 = omega arith in (rw same a, omega arith)

  pub swapped-IsLinked : IsLinked u
  swapped-IsLinked = record {
    down = λ x h. let (q, m) = came x h in let e = ap as_type m.entry in rw e (m.behind', m.aims);
    up = λ j h g.
        let (c, lt, e, which) = linked.up j h g in
        let (x, m) = moved (node t j).parent (omega arith) in
        let (parent, below) = child j c x which (rw e at m.behind') (rw e at m.aims) in
        rw parent (c, below, ap as_type m.entry ∙ e, which);
    found = λ w h.
        let (inside, e) = linked.found w h in
        let (x, m) = moved (leaf_index t w) inside in
        let leaf_at : leaf_index u w ≡ x = rw e at m.aims in
        rw leaf_at (m.inside, ap as_type m.entry ∙ e);
  }
