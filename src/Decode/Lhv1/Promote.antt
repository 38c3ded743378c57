-- ===== src/Decode/Lhv1/Promote.antt =====
-- src/decode/lhv1/dyntree.rs: the links of a tree across `promote_to_leader`.
use rust_delharc.Prelude.{
  ℕ, ◌<◌, ◌≡◌, refl, sym, ap, ◌∙◌, ◌≢◌, get_or, false, lt→ltb, ◌==◌, ==_iff, arith,
}
use rust_delharc.Outcome.{ok, Prog, ◌>>=◌}
use rust_delharc.Decode.Lhv1.Nodes.{
  num_nodes, TreeNode, DynHuffTree, get_node, put_node, get_leader_index,
}
use rust_delharc.Decode.Lhv1.Links.{
  get_leader_index-ok, node, entry_type, IsSized, Behind, IsLinked, relink-Relinked, get_node-ok,
  put_node-ok, bind-ok,
}
use rust_delharc.Decode.Lhv1.DynTree.{relink, promote_to_leader}
use rust_delharc.Decode.Lhv1.Swap.{
  swap, first, second, half, half-IsSized, swap-Swapped, swapped-IsLinked, behind-Inside,
}

-- The index of the leader of a node's group.
abbrev pub leader : DynHuffTree → ℕ → ℕ
leader t i = get_or t.groups.leaders (node t i).group 0

-- What promoting the node at `p` to the leader of its group, at `l`, leaves: the entries of the two
-- are swapped, with their links.
pub record IsPromoted (p l : ℕ) (t u : DynHuffTree) : Type 0 where
  pub sized : IsSized u
  pub linked : IsLinked u
  pub groups : u.groups ≡ t.groups
  pub freqs : (j : ℕ) → (node u j).freq ≡ (node t j).freq
  pub node_groups : (j : ℕ) → (node u j).group ≡ (node t j).group
  pub at_p : (node u p).entry ≡ (node t l).entry
  pub at_l : (node u l).entry ≡ (node t p).entry
  pub others : (j : ℕ) → j ≢ p → j ≢ l → (node u j).entry ≡ (node t j).entry

module _ {E : Type 0} (t : DynHuffTree) (sized : IsSized t) (linked : IsLinked t) (p l : ℕ)
    (hp : p < num_nodes) (in_group : (node t p).group < num_nodes) (leads : leader t p ≡ l) where
  leader_read :
      {A : Type 0} (f : TreeNode → ℕ → Prog E DynHuffTree A)
      → (get_node p >>= λ n. get_leader_index n.group >>= f n) t ≡ f (node t p) l t
  leader_read f =
      bind-ok (get_node p) _ t (node t p) t (get_node-ok t sized p hp)
      ∙ bind-ok (get_leader_index (node t p).group) _ t l t
          (get_leader_index-ok t sized (node t p).group in_group ∙ ap (λ (x : ℕ). ok x t) leads)

  pub promote_to_leader_self : l ≡ p → (promote_to_leader {E = E} p t ≡ ok l t) × IsPromoted p l t t
  unfolding promote_to_leader
  promote_to_leader_self e = (
    leader_read _ ∙ (rw ((==_iff l p).1 e) (ap (λ (x : ℕ). ok x t) (sym e))),
    record {
      sized = sized;
      linked = linked;
      groups = refl;
      freqs = λ j. refl;
      node_groups = λ j. refl;
      at_p = ap (λ (x : ℕ). (node t x).entry) (sym e);
      at_l = ap (λ (x : ℕ). (node t x).entry) e;
      others = λ j a b. refl;
    },
  )

  pub promote_to_leader-swap :
      l < p
      → Behind p (entry_type t l)
      → (u : DynHuffTree) × (promote_to_leader {E = E} p t ≡ ok l u) × IsPromoted p l t u
  unfolding promote_to_leader
  promote_to_leader-swap before behind =
      let other : (l == p) ≡ false = ground arith in
      let hl : l < num_nodes = omega arith in
      let ne : p ≢ l = λ e. absurd (omega arith) in
      let s = swap-Swapped t sized p l hp hl ne in
      let (v, relinked, r) =
        relink-Relinked {E = E} (swap p l t) s.sized (node t l).entry p (entry_type t l) refl
          (behind-Inside p (entry_type t l) behind) hp in
      let (u, relinked', r') =
        relink-Relinked {E = E} v r.sized (node t p).entry l (entry_type t p) refl
          (behind-Inside p (entry_type t p) (linked.down p hp).0) hl in
      let n = first t sized p l hp hl ne in
      (
        u,
        leader_read _
            ∙ (rw (other, lt→ltb l p before)
                (bind-ok (get_node l) _ t (node t l) t (get_node-ok t sized l hl)
                  ∙ bind-ok (put_node p n) _ t tt (half t sized p l hp hl ne)
                      (put_node-ok t sized p n hp)
                  ∙ bind-ok (put_node l (second t sized p l hp hl ne)) _ (half t sized p l hp hl ne)
                      tt (swap p l t)
                      (put_node-ok (half t sized p l hp hl ne) (half-IsSized t sized p l hp hl ne) l
                        (second t sized p l hp hl ne) hl)
                  ∙ bind-ok (relink (node t l).entry p) _ (swap p l t) tt v relinked
                  ∙ bind-ok (relink (node t p).entry l) _ v tt u relinked')),
        record {
          sized = r'.sized;
          linked = swapped-IsLinked t (swap p l t) v u linked p l hp hl before behind s r r';
          groups = r'.groups ∙ r.groups ∙ s.groups;
          freqs = λ j. r'.freqs j ∙ r.freqs j ∙ s.freqs j;
          node_groups = λ j. r'.node_groups j ∙ r.node_groups j ∙ s.node_groups j;
          at_p = r'.entries p ∙ r.entries p ∙ s.at_p;
          at_l = r'.entries l ∙ r.entries l ∙ s.at_l;
          others = λ j a b. r'.entries j ∙ r.entries j ∙ s.others j a b;
        },
      )
