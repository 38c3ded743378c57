-- ===== src/Decode/Lhv1/Grown.antt =====
-- src/decode/lhv1/dyntree.rs: the four ways in which `increment_frequency` changes the groups.
use rust_delharc.Prelude.{
  ℕ, suc, ◌+◌, ◌-◌, ◌≤◌, ◌<◌, ◌≡◌, refl, sym, ap, ◌∙◌, ◌≢◌, inl, inr, Bool-cases, ltb, ltb→lt,
  ltb-false→≤, arith,
}
use rust_delharc.Decode.Lhv1.Nodes.{num_nodes}
use rust_delharc.Decode.Lhv1.Ranks.{same_or_not, runs, bump, IsRanked, bump-other, runs-lt}
use rust_delharc.Decode.Lhv1.Grow.{
  put, put_self, put-other, new-sorted, new-positive, alone, leads-other, joined-same_freq,
  joined-same_group, before-other, joined-leads, leads-left, counted_left, counted_taken,
  starts-joined, starts-apart, group_alone,
}

count_same : (m a b c : ℕ) → m ≡ a → b ≡ a + c → c ≡ 0 → m ≡ b
count_same m a b c e f g = omega arith

count_down : (m a b c : ℕ) → m ≡ a → b + 1 ≡ a + c → c ≡ 0 → (0 < m) × (m - 1 ≡ b)
count_down m a b c e f g = (omega arith, omega arith)

count_up : (m a b c : ℕ) → m ≡ a → b ≡ a + c → c ≡ 1 → m + 1 ≡ b
count_up m a b c e f g = omega arith

count_stay : (m a b c : ℕ) → m ≡ a → b + 1 ≡ a + c → c ≡ 1 → m ≡ b
count_stay m a b c e f g = omega arith

module _ (freq group free lead : ℕ → ℕ) (n : ℕ) (r : IsRanked freq group free lead n) (l : ℕ)
    (pos : 0 < l) (hl : l < num_nodes) (first : lead (group l) ≡ l) where
  abbrev new : ℕ → ℕ
  new = bump l freq

  -- That the leader of a group is its first node, for one node.
  abbrev HasLeader : (ℕ → ℕ) → (ℕ → ℕ) → ℕ → Type 0
  HasLeader group' lead' i =
      (lead' (group' i) ≤ i)
      × (new (lead' (group' i)) ≡ new i)
      × ((j : ℕ) → j < lead' (group' i) → new i < new j)

  module _ (group' lead' : ℕ → ℕ) (others : (i : ℕ) → i ≢ l → group' i ≡ group i)
      (kept : (i : ℕ) → i < num_nodes → group i ≢ group l → lead' (group i) ≡ lead (group i))
      (handed : (i : ℕ) → i < num_nodes → i ≢ l → group i ≡ group l → lead' (group l) ≡ l + 1)
      (own : HasLeader group' lead' l) where
    leads_all : (i : ℕ) → i < num_nodes → HasLeader group' lead' i
    leads_all i h = elim (same_or_not i l) [
      | inl at ↦ rw at own
      | inr off ↦ elim (same_or_not (group i) (group l)) [
        | inl left ↦
            let e = handed i h off left in
            let at : lead' (group' i) ≡ l + 1 = ap lead' (others i off ∙ left) ∙ e in
            rw at (leads-left freq group free lead n r l pos hl first i h off left)
        | inr other ↦
            let at : lead' (group' i) ≡ lead (group i) = ap lead' (others i off) ∙ kept i h other in
            rw at (
              leads-other freq group free lead n r l pos hl first i h other
                (sym (bump-other l freq i off)))
      ]
    ]

    assemble :
        (free' : ℕ → ℕ) (n' : ℕ)
        → group' l < num_nodes
        → ((i j : ℕ) → i < num_nodes → j < num_nodes → group' i ≡ group' j → new i ≡ new j)
        → ((i j : ℕ) → i < num_nodes → j < num_nodes → new i ≡ new j → group' i ≡ group' j)
        → ((k : ℕ) → n' ≤ k → k < num_nodes → free' k < num_nodes)
        → ((k i : ℕ) → n' ≤ k → k < num_nodes → i < num_nodes → group' i ≢ free' k)
        → ((j k : ℕ) → n' ≤ j → j < k → k < num_nodes → free' j ≢ free' k)
        → n' ≡ runs new num_nodes
        → IsRanked new group' free' lead' n'
    assemble free' n' grouped same_freq same_group free_small unused apart counted = record {
      sorted = new-sorted freq group free lead n r l pos hl first;
      positive = new-positive freq group free lead n r l pos hl first;
      grouped = λ i h. elim (same_or_not i l) [
        | inl at ↦ rw at grouped
        | inr off ↦ rw (others i off) (r.grouped i h)
      ];
      same_freq = same_freq;
      same_group = same_group;
      leads = leads_all;
      free_small = free_small;
      unused = unused;
      apart = apart;
      counted = counted;
    }

  lt_of : (a b : ℕ) → a ≤ b → a ≢ b → a < b
  lt_of a b h ne = elim (Bool-cases (ltb a b)) [
    | inl less ↦ ltb→lt _ _ less
    | inr more ↦ let g = ltb-false→≤ _ _ more in absurd (ne (omega arith))
  ]

  -- A node that joins the group before it.
  module _ (joins : freq (l - 1) ≡ freq l + 1) where
    abbrev pub into_before : ℕ → ℕ
    into_before = put l (group (l - 1)) group

    joins_grouped : into_before l < num_nodes
    joins_grouped = rw (put_self l (group (l - 1)) group) (r.grouped (l - 1) (omega arith))

    joins_unused :
        (x : ℕ)
        → ((i : ℕ) → i < num_nodes → i ≢ l → group i ≢ x)
        → (i : ℕ) → i < num_nodes
        → into_before i ≢ x
    joins_unused x fresh i h = elim (same_or_not i l) [
      | inl at ↦
          rw (at, put_self l (group (l - 1)) group)
            (fresh (l - 1) (omega arith) (λ e. absurd (omega arith)))
      | inr off ↦ rw (put-other l (group (l - 1)) group i off) (fresh i h off)
    ]

    joins_leads :
        (lead' : ℕ → ℕ)
        → lead' (group (l - 1)) ≡ lead (group (l - 1))
        → HasLeader into_before lead' l
    joins_leads lead' e =
        let at : lead' (into_before l) ≡ lead (group (l - 1)) =
          ap lead' (put_self l (group (l - 1)) group) ∙ e in
        rw at (joined-leads freq group free lead n r l pos hl first joins)

    -- The next node stays behind in the group.
    pub leaves_joins :
        l + 1 < num_nodes
        → freq (l + 1) ≡ freq l
        → IsRanked new into_before free (put (group l) (l + 1) lead) n
    leaves_joins h e =
        assemble into_before (put (group l) (l + 1) lead) (put-other l (group (l - 1)) group)
          (λ i g other. put-other (group l) (l + 1) lead (group i) other)
          (λ i g off left. put_self (group l) (l + 1) lead)
          (joins_leads (put (group l) (l + 1) lead) (
            put-other (group l) (l + 1) lead (group (l - 1))
              (before-other freq group free lead n r l pos hl first joins)))
          free n joins_grouped (joined-same_freq freq group free lead n r l pos hl first joins)
          (joined-same_group freq group free lead n r l pos hl first joins) r.free_small
          (λ k i a b g. joins_unused (free k) (λ x y z. r.unused k x a b y) i g) r.apart
          (count_same _ _ _ _ r.counted (counted_left freq group free lead n r l pos hl first h e)
            (starts-joined freq group free lead n r l pos hl first joins))

    -- The group of the node alone is free again.
    pub gives_up :
        (l + 1 < num_nodes → freq (l + 1) ≢ freq l)
        → (0 < n) × IsRanked new into_before (put (n - 1) (group l) free) lead (n - 1)
    gives_up apart =
        let count =
          count_down _ _ _ _ r.counted (counted_taken freq group free lead n r l pos hl first apart)
            (starts-joined freq group free lead n r l pos hl first joins) in
        let lonely = group_alone freq group free lead n r l pos hl first apart in
        (
          count.0,
          assemble into_before lead (put-other l (group (l - 1)) group) (λ i g other. refl)
              (λ i g off left. absurd (lonely i g off left)) (joins_leads lead refl)
              (put (n - 1) (group l) free) (n - 1) joins_grouped
              (joined-same_freq freq group free lead n r l pos hl first joins)
              (joined-same_group freq group free lead n r l pos hl first joins)
              (λ k a b. elim (same_or_not k (n - 1)) [
                | inl at ↦ rw (at, put_self (n - 1) (group l) free) (r.grouped l hl)
                | inr off ↦
                    rw (put-other (n - 1) (group l) free k off)
                      (r.free_small k (next_le count.0 a off) b)
              ])
              (λ k i a b g. elim (same_or_not k (n - 1)) [
                | inl at ↦
                    rw (at, put_self (n - 1) (group l) free) (joins_unused (group l) lonely i g)
                | inr off ↦
                    rw (put-other (n - 1) (group l) free k off) (
                      joins_unused (free k) (λ x y z. r.unused k x (next_le count.0 a off) b y) i g)
              ])
              (λ j k a b g.
                let after : k ≢ n - 1 = λ e. absurd (omega arith) in
                elim (same_or_not j (n - 1)) [
                  | inl at ↦
                      rw
                        (
                          at,
                          put_self (n - 1) (group l) free,
                          put-other (n - 1) (group l) free k after,
                        )
                        (r.unused k l (omega arith) g hl)
                  | inr off ↦
                      rw
                        (
                          put-other (n - 1) (group l) free j off,
                          put-other (n - 1) (group l) free k after,
                        )
                        (r.apart j k (next_le count.0 a off) b g)
                ])
              count.1,
        )
      where
        next_le : {k : ℕ} → 0 < n → n - 1 ≤ k → k ≢ n - 1 → n ≤ k
        next_le {k} h a off = elim (Bool-cases (ltb k n)) [
          | inl less ↦ let b = ltb→lt _ _ less in absurd (off (omega arith))
          | inr more ↦ ltb-false→≤ _ _ more
        ]

  -- A node with a frequency of its own.
  module _ (apart : freq (l - 1) ≢ freq l + 1) (group' : ℕ → ℕ)
      (others : (i : ℕ) → i ≢ l → group' i ≡ group i)
      (fresh : (i : ℕ) → i < num_nodes → i ≢ l → group i ≢ group' l) where
    own_same_freq : (i j : ℕ) → i < num_nodes → j < num_nodes → group' i ≡ group' j → new i ≡ new j
    own_same_freq i j h g e = elim (same_or_not i l) [
      | inl at_i ↦ elim (same_or_not j l) [
        | inl at_j ↦ ap new (at_i ∙ sym at_j)
        | inr off_j ↦ absurd (fresh j g off_j (sym (others j off_j) ∙ sym e ∙ ap group' at_i))
      ]
      | inr off_i ↦ elim (same_or_not j l) [
        | inl at_j ↦ absurd (fresh i h off_i (sym (others i off_i) ∙ e ∙ ap group' at_j))
        | inr off_j ↦
            bump-other l freq i off_i
            ∙ r.same_freq i j h g (sym (others i off_i) ∙ e ∙ others j off_j)
            ∙ sym (bump-other l freq j off_j)
      ]
    ]

    own_same_group : (i j : ℕ) → i < num_nodes → j < num_nodes → new i ≡ new j → group' i ≡ group' j
    own_same_group i j h g e = elim (same_or_not i l) [
      | inl at_i ↦ elim (same_or_not j l) [
        | inl at_j ↦ ap group' (at_i ∙ sym at_j)
        | inr off_j ↦
            absurd (
              alone freq group free lead n r l pos hl first apart j g off_j (ap new (sym at_i) ∙ e))
      ]
      | inr off_i ↦ elim (same_or_not j l) [
        | inl at_j ↦ absurd (
            alone freq group free lead n r l pos hl first apart i h off_i
              (ap new (sym at_j) ∙ sym e))
        | inr off_j ↦
            others i off_i
            ∙ r.same_group i j h g (sym (bump-other l freq i off_i) ∙ e ∙ bump-other l freq j off_j)
            ∙ sym (others j off_j)
      ]
    ]

    own_leads : (lead' : ℕ → ℕ) → lead' (group' l) ≡ l → HasLeader group' lead' l
    own_leads lead' e = rw e (
      omega arith,
      refl,
      λ j h. lt_of (new l) (new j) (new-sorted freq group free lead n r l pos hl first j l h hl) (
          alone freq group free lead n r l pos hl first apart j (omega arith)
            (λ e. absurd (omega arith))),
    )

  module _ (apart : freq (l - 1) ≢ freq l + 1) where
    -- The node takes a new group and leaves its own to the next.
    pub leaves_alone :
        (h : l + 1 < num_nodes)
        → freq (l + 1) ≡ freq l
        → (n < num_nodes)
          × IsRanked new
              (put l (free n) group)
              free
              (put (free n) l (put (group l) (l + 1) lead))
              (n + 1)
    leaves_alone h e =
        let room = room_left h e in
        let g = free n in
        let group' = put l g group in
        let lead' = put g l (put (group l) (l + 1) lead) in
        let here = put_self l g group in
        let fresh : (i : ℕ) → i < num_nodes → i ≢ l → group i ≢ group' l =
          λ i a off. rw here (r.unused n i (omega arith) room a) in
        (
          room,
          assemble group' lead' (put-other l g group)
              (λ i a other.
                put-other g l (put (group l) (l + 1) lead) (group i)
                  (r.unused n i (omega arith) room a)
                ∙ put-other (group l) (l + 1) lead (group i) other)
              (λ i a off left.
                put-other g l (put (group l) (l + 1) lead) (group l)
                  (r.unused n l (omega arith) room hl)
                ∙ put_self (group l) (l + 1) lead)
              (own_leads apart group' (put-other l g group) fresh lead'
                (ap lead' here ∙ put_self g l (put (group l) (l + 1) lead)))
              free (n + 1) (rw here (r.free_small n (omega arith) room))
              (own_same_freq apart group' (put-other l g group) fresh)
              (own_same_group apart group' (put-other l g group) fresh)
              (λ k a b. r.free_small k (omega arith) b)
              (λ k i a b c. elim (same_or_not i l) [
                | inl at ↦ rw (at, here) (r.apart n k (omega arith) (omega arith) b)
                | inr off ↦ rw (put-other l g group i off) (r.unused k i (omega arith) b c)
              ])
              (λ j k a b c. r.apart j k (omega arith) b c)
              (count_up _ _ _ _ r.counted (counted_left freq group free lead n r l pos hl first h e)
                (starts-apart freq group free lead n r l pos hl first apart)),
        )
      where
        room_left : l + 1 < num_nodes → freq (l + 1) ≡ freq l → n < num_nodes
        room_left h e =
            let next : l + 1 ≡ suc l = omega arith in
            rw (r.counted) (runs-lt freq num_nodes l (omega arith) (ap freq (sym next) ∙ e))

    -- The node keeps the group that it has alone.
    pub stays : (l + 1 < num_nodes → freq (l + 1) ≢ freq l) → IsRanked new group free lead n
    stays next_apart =
        let fresh = group_alone freq group free lead n r l pos hl first next_apart in
        assemble group lead (λ i off. refl) (λ i a other. refl)
          (λ i a off left. absurd (fresh i a off left))
          (own_leads apart group (λ i off. refl) fresh lead first) free n (r.grouped l hl)
          (own_same_freq apart group (λ i off. refl) fresh)
          (own_same_group apart group (λ i off. refl) fresh) r.free_small r.unused r.apart
          (count_stay _ _ _ _ r.counted
            (counted_taken freq group free lead n r l pos hl first next_apart)
            (starts-apart freq group free lead n r l pos hl first apart))
