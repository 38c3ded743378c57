-- ===== src/Decode/Lhv1/Ranks.antt =====
-- src/decode/lhv1/dyntree.rs: the frequencies of the nodes of a dynamic tree and their groups, as
-- functions of the index. A frequency grows at the leader of its group.
use rust_delharc.Prelude.{
  ℕ, zero, suc, ◌+◌, ◌≤◌, ◌<◌, ◌≡◌, refl, ap, ◌∙◌, ◌≢◌, ◌⊎◌, inl, inr, Bool-cases, ltb, ltb→lt,
  ltb-false→≤, ◌==◌, ==_iff, if◌then◌else◌, arith,
}
use rust_delharc.Decode.Lhv1.Nodes.{num_nodes}

pub same_or_not : (i j : ℕ) → (i ≡ j) ⊎ (i ≢ j)
same_or_not i j = elim (Bool-cases (i == j)) [
  | inl e ↦ inl ((==_iff i j).0 e)
  | inr n ↦ inr (λ e. cc (n, (==_iff i j).1 e))
]

-- Whether a node has another frequency than the one before, and how many do.
abbrev pub starts : (ℕ → ℕ) → ℕ → ℕ
starts freq zero = 1
starts freq (suc i) = if freq (suc i) == freq i then 0 else 1

unfoldable pub runs : (ℕ → ℕ) → ℕ → ℕ
runs freq zero = 0
runs freq (suc n) = runs freq n + starts freq n

starts-le : (freq : ℕ → ℕ) (i : ℕ) → starts freq i ≤ 1
starts-le freq zero = omega arith
starts-le freq (suc i) = ground arith

runs-le : (freq : ℕ → ℕ) (n : ℕ) → runs freq n ≤ n
unfolding runs
runs-le freq zero = omega arith
runs-le freq (suc n) = omega (arith, runs-le freq n, starts-le freq n)

-- Two nodes side by side with the same frequency leave room for another run.
pub runs-lt : (freq : ℕ → ℕ) (n i : ℕ) → suc i < n → freq (suc i) ≡ freq i → runs freq n < n
unfolding runs
runs-lt freq zero i h e = absurd (omega arith)
runs-lt freq (suc n) i h e = elim (Bool-cases (ltb (suc i) n)) [
  | inl more ↦ omega (arith, runs-lt freq n i (ltb→lt _ _ more) e, starts-le freq n)
  | inr last ↦
      let at : n ≡ suc i = omega (arith, ltb-false→≤ _ _ last) in
      let here : starts freq (suc i) ≡ 0 = ground arith in
      let none_here : starts freq n ≡ 0 = ap (starts freq) at ∙ here in
      omega (arith, runs-le freq n)
]

-- One more at an index.
abbrev pub bump : ℕ → (ℕ → ℕ) → ℕ → ℕ
bump l freq i = if i == l then freq i + 1 else freq i

-- The groups of the nodes: those of the same frequency have the same, its leader is the first of
-- them, and the numbers behind the groups that are taken are free.
pub record IsRanked (freq group free lead : ℕ → ℕ) (ngroups : ℕ) : Type 0 where
  pub sorted : (i j : ℕ) → i < j → j < num_nodes → freq j ≤ freq i
  pub positive : (i : ℕ) → i < num_nodes → 0 < freq i
  pub grouped : (i : ℕ) → i < num_nodes → group i < num_nodes
  pub same_freq : (i j : ℕ) → i < num_nodes → j < num_nodes → group i ≡ group j → freq i ≡ freq j
  pub same_group : (i j : ℕ) → i < num_nodes → j < num_nodes → freq i ≡ freq j → group i ≡ group j
  pub leads :
      (i : ℕ)
      → i < num_nodes
      → (lead (group i) ≤ i)
        × (freq (lead (group i)) ≡ freq i)
        × ((j : ℕ) → j < lead (group i) → freq i < freq j)
  pub free_small : (k : ℕ) → ngroups ≤ k → k < num_nodes → free k < num_nodes
  pub unused : (k i : ℕ) → ngroups ≤ k → k < num_nodes → i < num_nodes → group i ≢ free k
  pub apart : (j k : ℕ) → ngroups ≤ j → j < k → k < num_nodes → free j ≢ free k
  pub counted : ngroups ≡ runs freq num_nodes

pub bump_self : (l : ℕ) (freq : ℕ → ℕ) → bump l freq l ≡ freq l + 1
bump_self l freq = rw ((==_iff l l).1 refl) refl

pub bump-other : (l : ℕ) (freq : ℕ → ℕ) (i : ℕ) → i ≢ l → bump l freq i ≡ freq i
bump-other l freq i h = elim (Bool-cases (i == l)) [
  | inl e ↦ absurd (h ((==_iff i l).0 e))
  | inr e ↦ rw e refl
]

pub bump-ge : (l : ℕ) (freq : ℕ → ℕ) (i : ℕ) → freq i ≤ bump l freq i
bump-ge l freq i = ground arith

-- Runs change only at the index and at the one behind.
module _ (freq : ℕ → ℕ) (l : ℕ) (pos : 0 < l) where
  starts-before : (n : ℕ) → n < l → starts (bump l freq) n ≡ starts freq n
  starts-before zero h = refl
  starts-before (suc n) h =
      rw
        (
          bump-other l freq (suc n) (λ e. absurd (omega arith)),
          bump-other l freq n (λ e. absurd (omega arith)),
        )
        refl

  starts-after : (n : ℕ) → l + 1 < n → starts (bump l freq) n ≡ starts freq n
  starts-after zero h = absurd (omega arith)
  starts-after (suc n) h =
      rw
        (
          bump-other l freq (suc n) (λ e. absurd (omega arith)),
          bump-other l freq n (λ e. absurd (omega arith)),
        )
        refl

  runs-before : (n : ℕ) → n ≤ l → runs (bump l freq) n ≡ runs freq n
  unfolding runs
  runs-before zero h = refl
  runs-before (suc n) h = omega (arith, runs-before n (omega arith), starts-before n (omega arith))

  pub runs-at :
      (n : ℕ)
      → n ≡ l + 1
      → runs (bump l freq) n + starts freq l ≡ runs freq n + starts (bump l freq) l
  unfolding runs
  runs-at zero e = absurd (omega arith)
  runs-at (suc n) e =
      let at : n ≡ l = omega arith in
      let before = runs-before n (omega arith) in
      let a = ap (starts freq) at in let b = ap (starts (bump l freq)) at in omega arith

  pub runs-behind :
      (n : ℕ)
      → l + 1 < n
      → runs (bump l freq) n + starts freq l + starts freq (l + 1)
        ≡ runs freq n + starts (bump l freq) l + starts (bump l freq) (l + 1)
  unfolding runs
  runs-behind zero h = absurd (omega arith)
  runs-behind (suc n) h = elim (Bool-cases (ltb (l + 1) n)) [
    | inl more ↦ let far = ltb→lt _ _ more in omega (arith, runs-behind n far, starts-after n far)
    | inr last ↦
        let at : n ≡ l + 1 = omega (arith, ltb-false→≤ _ _ last) in
        let a = ap (starts freq) at in
        let b = ap (starts (bump l freq)) at in omega (arith, runs-at n at)
  ]
