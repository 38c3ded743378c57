-- ===== src/Decode/Lhv1/Tree.antt =====
-- src/decode/lhv1/dyntree.rs: the invariant of a dynamic tree while the frequencies of the nodes from
-- a leaf up to the root grow, and `promote_to_leader` within it.
use rust_delharc.Prelude.{
  ℕ, ◌+◌, ◌-◌, ◌≤◌, ◌<◌, ◌≡◌, refl, sym, ap, ◌∙◌, ◌≢◌, ◌⊎◌, inl, inr, get_or, fun_ext, subst,
  Bool-cases, ltb, ltb→lt, ltb-false→≤, ◌==◌, ==_iff, if◌then◌else◌, arith,
}
use rust_delharc.Outcome.{ok}
use rust_delharc.StaticTree.Entry.{NodeType, leaf, branch, as_type}
use rust_delharc.Decode.Lhv1.Nodes.{num_nodes, Groups, DynHuffTree}
use rust_delharc.Decode.Lhv1.Links.{node, entry_type, IsSized, Behind, IsLinked}
use rust_delharc.Decode.Lhv1.Ranks.{same_or_not, IsRanked}
use rust_delharc.Decode.Lhv1.Promote.{
  leader, IsPromoted, promote_to_leader_self, promote_to_leader-swap,
}
use rust_delharc.Decode.Lhv1.DynTree.{promote_to_leader}

abbrev pub freq : DynHuffTree → ℕ → ℕ
freq t i = (node t i).freq

abbrev pub group : DynHuffTree → ℕ → ℕ
group t i = (node t i).group

abbrev pub free_group : DynHuffTree → ℕ → ℕ
free_group t k = get_or t.groups.groups k 0

abbrev pub lead : DynHuffTree → ℕ → ℕ
lead t g = get_or t.groups.leaders g 0

abbrev pub mark : ℕ → ℕ → ℕ
mark i j = if i == j then 1 else 0

-- The frequency of a branch is the sum of its children's; the root is ahead by one while the node
-- `p` is behind by one.
abbrev pub HasSums : ℕ → DynHuffTree → Type 0
HasSums p t =
    (i c : ℕ)
    → i < num_nodes
    → entry_type t i ≡ branch c
    → freq t (c - 1) + freq t c + mark i 0 ≡ freq t i + mark i p

-- The ranks of given frequencies and groups.
abbrev Ranks : (ℕ → ℕ) → (ℕ → ℕ) → Groups → Type 0
Ranks f g s =
    IsRanked f g (λ (k : ℕ). get_or s.groups k 0) (λ (k : ℕ). get_or s.leaders k 0) s.ngroups

pub record IsTree (p : ℕ) (t : DynHuffTree) : Type 0 where
  pub sized : IsSized t
  pub linked : IsLinked t
  pub ranked : IsRanked (freq t) (group t) (free_group t) (lead t) t.groups.ngroups
  pub sums : HasSums p t

mark-other : (i j : ℕ) → i ≢ j → mark i j ≡ 0
mark-other i j h = elim (Bool-cases (i == j)) [
  | inl e ↦ absurd (h ((==_iff i j).0 e))
  | inr e ↦ rw e refl
]

mark_self : (i : ℕ) → mark i i ≡ 1
mark_self i = rw ((==_iff i i).1 refl) refl

module _ (t : DynHuffTree) (p : ℕ) (v : IsTree p t) (pos : 0 < p) (hp : p < num_nodes) where
  abbrev l : ℕ
  l = leader t p

  l-le : l ≤ p
  l-le = (v.ranked.leads p hp).0

  l-freq : freq t l ≡ freq t p
  l-freq = (v.ranked.leads p hp).1

  -- The root is more frequent than any other node, so that it is not the leader.
  root_above : freq t p < freq t 0
  root_above =
      let (c, lt, e, which) = v.linked.up 1 (omega arith) (omega arith) in
      let root : (node t 1).parent ≡ 0 = omega arith in
      let sum = v.sums 0 c (omega arith) (rw root at e) in
      let none_here = mark-other 0 p (λ e. absurd (omega arith)) in
      let down = (v.linked.down 0 (omega arith)).0 in
      let (behind, inside) = rw (rw root at e) at down in
      let at : c ≡ 2 = two c which behind in
      let right = v.ranked.positive c inside in
      let first : freq t p ≤ freq t 1 = at_most 1 p (omega arith) hp in
      let back : c - 1 ≡ 1 = omega arith in
      let sum' = rw back at sum in let top = mark_self 0 in omega arith
    where
      two : (c : ℕ) → (c ≡ 1) ⊎ (c ≡ 1 + 1) → 0 + 1 < c → c ≡ 2
      two c (inl e) h = absurd (omega arith)
      two c (inr e) h = omega arith

      at_most : (i j : ℕ) → i ≤ j → j < num_nodes → freq t j ≤ freq t i
      at_most i j h g = elim (Bool-cases (ltb i j)) [
        | inl less ↦ v.ranked.sorted i j (ltb→lt _ _ less) g
        | inr same ↦
            let e : i ≡ j = omega (arith, ltb-false→≤ _ _ same) in omega (arith, ap (freq t) e)
      ]

  not_root : l ≢ 0
  not_root e =
      let same = ap (freq t) e in let above = root_above in let at = l-freq in absurd (omega arith)

  -- The children of a branch before `p` with the frequency of `p` stand behind `p`.
  behind_leader : l < p → (k : NodeType) → entry_type t l ≡ k → Behind p k
  behind_leader before (leaf v') e = let down = (v.linked.down l (omega arith)).0 in rw e at down
  behind_leader before (branch c) e =
      let down = (v.linked.down l (omega arith)).0 in
      let (below, inside) = rw e at down in
      let sum = v.sums l c (omega arith) e in
      let at = l-freq in
      let right = v.ranked.positive c inside in
      let no_root = mark-other l 0 not_root in
      let no_p = mark-other l p (λ x. absurd (omega arith)) in
      let less : freq t (c - 1) < freq t p = omega arith in
      let far : p < c - 1 = later (c - 1) (omega arith) less in (omega arith, inside)
    where
      later : (i : ℕ) → i < num_nodes → freq t i < freq t p → p < i
      later i h less = elim (Bool-cases (ltb p i)) [
        | inl more ↦ ltb→lt _ _ more
        | inr other ↦ elim (same_or_not i p) [
          | inl same ↦ let e = ap (freq t) same in absurd (omega arith)
          | inr ne ↦ elim (Bool-cases (ltb i p)) [
            | inl is_before ↦
                let order = v.ranked.sorted i p (ltb→lt _ _ is_before) hp in absurd (omega arith)
            | inr behind ↦
                absurd (ne (omega (arith, ltb-false→≤ _ _ other, ltb-false→≤ _ _ behind)))
          ]
        ]
      ]

  -- The entries of `p` and of its leader are swapped: the branch that was at `p` is at the leader.
  promoted_sums : l < p → (u : DynHuffTree) → IsPromoted p l t u → HasSums l u
  promoted_sums before u m i c h e =
      let left = m.freqs (c - 1) in
      let right = m.freqs c in
      let here = m.freqs i in
      let sum : freq t (c - 1) + freq t c + mark i 0 ≡ freq t i + mark i l =
        elim (same_or_not i p) [
          | inl at_p ↦ moved_p at_p
          | inr not_p ↦ elim (same_or_not i l) [
            | inl at_l ↦ moved_l at_l
            | inr not_l ↦
                let old = v.sums i c h (sym (ap as_type (m.others i not_p not_l)) ∙ e) in
                let a = mark-other i p not_p in let b = mark-other i l not_l in omega arith
          ]
        ] in
      omega arith
    where
      moved_p : i ≡ p → freq t (c - 1) + freq t c + mark i 0 ≡ freq t i + mark i l
      moved_p at =
          let old =
            v.sums l c (omega arith)
              (sym (ap as_type m.at_p) ∙ ap (λ (x : ℕ). entry_type u x) (sym at) ∙ e) in
          let a = mark-other l 0 not_root in
          let b = mark-other l p (λ x. absurd (omega arith)) in
          let a' = mark-other i 0 (λ x. absurd (omega arith)) in
          let b' = mark-other i l (λ x. absurd (omega arith)) in
          let f = ap (freq t) at in let same = l-freq in omega arith

      moved_l : i ≡ l → freq t (c - 1) + freq t c + mark i 0 ≡ freq t i + mark i l
      moved_l at =
          let old =
            v.sums p c hp (sym (ap as_type m.at_l) ∙ ap (λ (x : ℕ). entry_type u x) (sym at) ∙ e) in
          let a = mark-other p 0 (λ x. absurd (omega arith)) in
          let b = mark_self p in
          let a' = mark-other i 0 (λ x. not_root (sym at ∙ x)) in
          let b' : mark i l ≡ 1 = ap (λ (x : ℕ). mark x l) at ∙ mark_self l in
          let f = ap (freq t) at in let same = l-freq in omega arith

  promoted_ranks :
      (u : DynHuffTree)
      → IsPromoted p l t u
      → IsRanked (freq u) (group u) (free_group u) (lead u) u.groups.ngroups
  promoted_ranks u m = subst (Ranks (freq u) (group u)) (sym m.groups) (
      subst (λ (g : ℕ → ℕ). Ranks (freq u) g t.groups) (sym (fun_ext m.node_groups))
        (subst (λ (f : ℕ → ℕ). Ranks f (group t) t.groups) (sym (fun_ext m.freqs)) v.ranked))

  kept-IsTree : l < p → (u : DynHuffTree) → IsPromoted p l t u → IsTree l u
  kept-IsTree before u m = record {
    sized = m.sized;
    linked = m.linked;
    ranked = promoted_ranks u m;
    sums = promoted_sums before u m;
  }

  -- On a tree whose frequencies have grown up to but not including the node at `p`, other than the
  -- root, `promote_to_leader` returns the leader of the group of `p`, and leaves a tree whose
  -- frequencies have grown up to but not including the node at the leader.
  promote_to_leader-IsTree :
      {E : Type 0} → (u : DynHuffTree) × (promote_to_leader {E = E} p t ≡ ok l u) × IsTree l u
  promote_to_leader-IsTree {E} =
      let in_group = v.ranked.grouped p hp in
      elim (same_or_not l p) [
        | inl e ↦
            let (runs, m) =
              promote_to_leader_self {E = E} t v.sized v.linked p l hp in_group refl e in
            (t, runs, subst (λ (x : ℕ). IsTree x t) (sym e) v)
        | inr ne ↦
            let before : l < p = less l p l-le ne in
            let (u, runs, m) =
              promote_to_leader-swap {E = E} t v.sized v.linked p l hp in_group refl before
                (behind_leader before (entry_type t l) refl) in
            (u, runs, kept-IsTree before u m)
      ]
    where
      less : (a b : ℕ) → a ≤ b → a ≢ b → a < b
      less a b h ne = elim (Bool-cases (ltb a b)) [
        | inl x ↦ ltb→lt _ _ x
        | inr x ↦ absurd (ne (omega (arith, ltb-false→≤ _ _ x)))
      ]
