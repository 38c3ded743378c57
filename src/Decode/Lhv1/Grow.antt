-- ===== src/Decode/Lhv1/Grow.antt =====
-- src/decode/lhv1/dyntree.rs: the groups after the frequency of a leader has grown by one. It joins
-- the group before it or not, and leaves its group to the next node or takes it along.
use rust_delharc.Prelude.{
  ℕ, zero, suc, ◌+◌, ◌-◌, ◌≤◌, ◌<◌, ◌≡◌, refl, sym, ap, ◌∙◌, ◌≢◌, inl, inr, Bool-cases, ltb, ltb→lt,
  ltb-false→≤, ◌==◌, ==_iff, if◌then◌else◌, arith,
}
use rust_delharc.Decode.Lhv1.Nodes.{num_nodes}
use rust_delharc.Decode.Lhv1.Ranks.{
  same_or_not, starts, runs, bump, IsRanked, bump_self, bump-other, bump-ge, runs-at, runs-behind,
}

-- Another value at an index.
abbrev pub put : ℕ → ℕ → (ℕ → ℕ) → ℕ → ℕ
put i v f j = if j == i then v else f j

pub put_self : (i v : ℕ) (f : ℕ → ℕ) → put i v f i ≡ v
put_self i v f = rw ((==_iff i i).1 refl) refl

pub put-other : (i v : ℕ) (f : ℕ → ℕ) (j : ℕ) → j ≢ i → put i v f j ≡ f j
put-other i v f j h = elim (Bool-cases (j == i)) [
  | inl e ↦ absurd (h ((==_iff j i).0 e))
  | inr e ↦ rw e refl
]

starts-one : (freq : ℕ → ℕ) (i : ℕ) → 0 < i → freq i ≢ freq (i - 1) → starts freq i ≡ 1
starts-one freq zero h ne = absurd (omega arith)
starts-one freq (suc i) h ne =
    let back : suc i - 1 ≡ i = omega arith in
    elim (Bool-cases (freq (suc i) == freq i)) [
      | inl e ↦ absurd (ne ((==_iff _ _).0 e ∙ ap freq (sym back)))
      | inr e ↦ rw e refl
    ]

starts-none : (freq : ℕ → ℕ) (i : ℕ) → 0 < i → freq i ≡ freq (i - 1) → starts freq i ≡ 0
starts-none freq zero h e = absurd (omega arith)
starts-none freq (suc i) h e =
    let back : suc i - 1 ≡ i = omega arith in
    rw ((==_iff (freq (suc i)) (freq i)).1 (e ∙ ap freq back)) refl

left_sum : (a b c d m n : ℕ) → m + a + b ≡ n + c + d → a ≡ 1 → b ≡ 0 → d ≡ 1 → m ≡ n + c
left_sum a b c d m n e f g h = omega arith

taken_sum : (a b c d m n : ℕ) → m + a + b ≡ n + c + d → a ≡ 1 → b ≡ 1 → d ≡ 1 → m + 1 ≡ n + c
taken_sum a b c d m n e f g h = omega arith

last_sum : (a c m n : ℕ) → m + a ≡ n + c → a ≡ 1 → m + 1 ≡ n + c
last_sum a c m n e f = omega arith

module _ (freq group free lead : ℕ → ℕ) (n : ℕ) (r : IsRanked freq group free lead n) (l : ℕ)
    (pos : 0 < l) (hl : l < num_nodes) (first : lead (group l) ≡ l) where
  abbrev pub new : ℕ → ℕ
  new = bump l freq

  pub above : (j : ℕ) → j < l → freq l < freq j
  above j h = (r.leads l hl).2 j (rw first h)

  pub new-sorted : (i j : ℕ) → i < j → j < num_nodes → new j ≤ new i
  new-sorted i j h g = elim (same_or_not j l) [
    | inl at ↦
        let i_lt : i < l = omega arith in
        let a = above i i_lt in
        let b = bump-other l freq i (λ e. absurd (omega arith)) in
        let c = bump_self l freq in rw at (omega arith)
    | inr off ↦
        let a = r.sorted i j h g in
        let b = bump-other l freq j off in let c = bump-ge l freq i in omega arith
  ]

  pub new-positive : (i : ℕ) → i < num_nodes → 0 < new i
  new-positive i h = let a = r.positive i h in let b = bump-ge l freq i in omega arith

  sorted_le : (i j : ℕ) → i ≤ j → j < num_nodes → freq j ≤ freq i
  sorted_le i j h g = elim (Bool-cases (ltb i j)) [
    | inl less ↦ r.sorted i j (ltb→lt _ _ less) g
    | inr same ↦ let e : i ≡ j = omega (arith, ltb-false→≤ _ _ same) in omega (arith, ap freq e)
  ]

  -- No other node has the grown frequency, if the node before has not.
  pub alone : freq (l - 1) ≢ freq l + 1 → (j : ℕ) → j < num_nodes → j ≢ l → new l ≢ new j
  alone apart j h ne e =
      let b = bump-other l freq j ne in
      let c = bump_self l freq in
      elim (Bool-cases (ltb j l)) [
        | inl before ↦
            let j_lt = ltb→lt _ _ before in
            let a = above (l - 1) (omega arith) in
            let d = sorted_le j (l - 1) (omega arith) (omega arith) in absurd (apart (omega arith))
        | inr behind ↦ let d = sorted_le l j (ltb-false→≤ _ _ behind) h in absurd (omega arith)
      ]

  -- A leader that is not at `l`, with its frequency as before.
  module _ (i : ℕ) (hi : i < num_nodes) (other : group i ≢ group l) where
    leader_off : lead (group i) ≢ l
    leader_off e =
        let same = (r.leads i hi).1 in other (r.same_group i l hi hl (sym same ∙ ap freq e))

    pub leads-other :
        (freq i ≡ new i)
        → (lead (group i) ≤ i)
          × (new (lead (group i)) ≡ new i)
          × ((j : ℕ) → j < lead (group i) → new i < new j)
    leads-other e =
        let (low, same, before) = r.leads i hi in
        (
          low,
          bump-other l freq (lead (group i)) leader_off ∙ same ∙ e,
          λ j h. let a = before j h in let b = bump-ge l freq j in omega arith,
        )

  -- The node `l` joins the group of the node before.
  module _ (joins : freq (l - 1) ≡ freq l + 1) where
    abbrev pub joined : ℕ → ℕ
    joined = put l (group (l - 1)) group

    abbrev source : ℕ → ℕ
    source = put l (l - 1) (λ (i : ℕ). i)

    joined-source : (i : ℕ) → (joined i ≡ group (source i)) × (new i ≡ freq (source i))
    joined-source i = elim (same_or_not i l) [
      | inl e ↦ rw e (
        put_self l (group (l - 1)) group ∙ ap group (sym (put_self l (l - 1) (λ (i : ℕ). i))),
        bump_self l freq ∙ sym joins ∙ ap freq (sym (put_self l (l - 1) (λ (i : ℕ). i))),
      )
      | inr ne ↦ (
        put-other l (group (l - 1)) group i ne
            ∙ ap group (sym (put-other l (l - 1) (λ (i : ℕ). i) i ne)),
        bump-other l freq i ne ∙ ap freq (sym (put-other l (l - 1) (λ (i : ℕ). i) i ne)),
      )
    ]

    source-lt : (i : ℕ) → i < num_nodes → source i < num_nodes
    source-lt i h = elim (same_or_not i l) [
      | inl e ↦ rw (e, put_self l (l - 1) (λ (i : ℕ). i)) (omega arith)
      | inr ne ↦ rw (put-other l (l - 1) (λ (i : ℕ). i) i ne) h
    ]

    pub joined-same_freq :
        (i j : ℕ) → i < num_nodes → j < num_nodes → joined i ≡ joined j → new i ≡ new j
    joined-same_freq i j h g e =
        (joined-source i).1
        ∙ r.same_freq (source i) (source j) (source-lt i h) (source-lt j g)
            (sym (joined-source i).0 ∙ e ∙ (joined-source j).0)
        ∙ sym (joined-source j).1

    pub joined-same_group :
        (i j : ℕ) → i < num_nodes → j < num_nodes → new i ≡ new j → joined i ≡ joined j
    joined-same_group i j h g e =
        (joined-source i).0
        ∙ r.same_group (source i) (source j) (source-lt i h) (source-lt j g)
            (sym (joined-source i).1 ∙ e ∙ (joined-source j).1)
        ∙ sym (joined-source j).0

    -- The group of the node before is another one, whose leader stays.
    pub before-other : group (l - 1) ≢ group l
    before-other e =
        let same = r.same_freq (l - 1) l (omega arith) hl e in
        let a = above (l - 1) (omega arith) in absurd (omega arith)

    pub joined-leads :
        (lead (group (l - 1)) ≤ l)
        × (new (lead (group (l - 1))) ≡ new l)
        × ((j : ℕ) → j < lead (group (l - 1)) → new l < new j)
    joined-leads =
        let (low, same, before) = r.leads (l - 1) (omega arith) in
        let ne : lead (group (l - 1)) ≢ l = λ e. absurd (omega arith) in
        let grown = bump_self l freq in
        (
          omega arith,
          bump-other l freq (lead (group (l - 1))) ne ∙ same ∙ joins ∙ sym grown,
          λ j h. let a = before j h in let b = bump-ge l freq j in omega arith,
        )

  -- A node of the group that `l` leaves stands behind it, and the next node becomes its leader.
  pub leads-left :
      (i : ℕ)
      → i < num_nodes
      → i ≢ l
      → group i ≡ group l
      → (l + 1 ≤ i) × (new (l + 1) ≡ new i) × ((j : ℕ) → j < l + 1 → new i < new j)
  leads-left i h ne e =
      let same = r.same_freq i l h hl e in
      let behind : l + 1 ≤ i = elim (Bool-cases (ltb i l)) [
        | inl before ↦ let a = above i (ltb→lt _ _ before) in absurd (omega arith)
        | inr after ↦ elim (Bool-cases (ltb l i)) [
          | inl more ↦ let a = ltb→lt _ _ more in omega arith
          | inr last ↦
              let a = ltb-false→≤ _ _ after in
              let b = ltb-false→≤ _ _ last in absurd (ne (omega arith))
        ]
      ] in
      let a = sorted_le l (l + 1) (omega arith) (omega arith) in
      let b = sorted_le (l + 1) i behind h in
      let at_i = bump-other l freq i ne in
      let at_next = bump-other l freq (l + 1) (λ e. absurd (omega arith)) in
      let grown = bump_self l freq in
      (
        behind,
        omega arith,
        λ j g. elim (same_or_not j l) [
          | inl at ↦ rw at (omega arith)
          | inr off ↦ let c = above j (lt_of j g off) in let d = bump-ge l freq j in omega arith
        ],
      )
    where
      lt_of : (j : ℕ) → j < l + 1 → j ≢ l → j < l
      lt_of j g off = elim (Bool-cases (ltb j l)) [
        | inl less ↦ ltb→lt _ _ less
        | inr more ↦ let a = ltb-false→≤ _ _ more in absurd (off (omega arith))
      ]

  -- How the number of groups changes.
  starts-new : (l + 1 < num_nodes) → starts new (l + 1) ≡ 1
  starts-new h =
      let a = sorted_le l (l + 1) (omega arith) h in
      starts-one new (l + 1) (omega arith) (λ e.
        let back : l + 1 - 1 ≡ l = omega arith in
        let b = bump-other l freq (l + 1) (λ q. absurd (omega arith)) in
        let c = bump_self l freq in let d = e ∙ ap new back in absurd (omega arith))

  pub starts-leader : starts freq l ≡ 1
  starts-leader =
      starts-one freq l pos (λ e. let a = above (l - 1) (omega arith) in absurd (omega arith))

  pub counted_left :
      l + 1 < num_nodes
      → freq (l + 1) ≡ freq l
      → runs new num_nodes ≡ runs freq num_nodes + starts new l
  counted_left h e =
      let back : l + 1 - 1 ≡ l = omega arith in
      let same = starts-none freq (l + 1) (omega arith) (e ∙ ap freq (sym back)) in
      left_sum _ _ _ _ _ _ (runs-behind freq l pos num_nodes h) starts-leader same (starts-new h)

  pub counted_taken :
      (l + 1 < num_nodes → freq (l + 1) ≢ freq l)
      → runs new num_nodes + 1 ≡ runs freq num_nodes + starts new l
  counted_taken apart = elim (Bool-cases (ltb (l + 1) num_nodes)) [
    | inl more ↦
        let h = ltb→lt _ _ more in
        let back : l + 1 - 1 ≡ l = omega arith in
        let other = starts-one freq (l + 1) (omega arith) (λ e. apart h (e ∙ ap freq back)) in
        taken_sum _ _ _ _ _ _ (runs-behind freq l pos num_nodes h) starts-leader other
          (starts-new h)
    | inr last ↦
        let e : num_nodes ≡ l + 1 = omega (arith, ltb-false→≤ _ _ last) in
        last_sum _ _ _ _ (runs-at freq l pos num_nodes e) starts-leader
  ]

  new-before : new (l - 1) ≡ freq (l - 1)
  new-before = bump-other l freq (l - 1) (λ e. absurd (omega arith))

  pub starts-joined : freq (l - 1) ≡ freq l + 1 → starts new l ≡ 0
  starts-joined e = starts-none new l pos (bump_self l freq ∙ sym e ∙ sym new-before)

  pub starts-apart : freq (l - 1) ≢ freq l + 1 → starts new l ≡ 1
  starts-apart h = starts-one new l pos (λ e. h (sym new-before ∙ sym e ∙ bump_self l freq))

  -- The node is alone in its group, unless the next one is in it.
  module _ (next_apart : l + 1 < num_nodes → freq (l + 1) ≢ freq l) where
    pub group_alone : (i : ℕ) → i < num_nodes → i ≢ l → group i ≢ group l
    group_alone i h ne e =
        let (behind, same, before) = leads-left i h ne e in
        let a = r.same_freq i l h hl e in
        let b = sorted_le (l + 1) i behind h in
        let c = sorted_le l (l + 1) (omega arith) (omega arith) in
        next_apart (omega arith) (omega arith)
