-- ===== src/StubIo/Laws.antt =====
-- src/stub_io.rs: what the users of the `Read` trait rely on, and that slices and `Take` keep it.
use rust_delharc.Prelude.{
  ℕ, ◌+◌, ◌-◌, ◌≤◌, ◌<◌, ◌≡◌, inl, inr, false, Bool-cases, List, All, All-take, All-drop, length,
  length-take, length-drop, take, drop, min, ltb, ltb-false, ltb-false→≤, if◌then◌else◌, ◌==◌,
  arith,
}
use rust_delharc.Outcome.{Outcome, ok, err, panic, out_of_fuel, Post}
use rust_delharc.StubIo.{Read, slice, Take, take_reader}
use rust_delharc.StubIo.Slice
use rust_delharc.StubIo.Limit

abbrev pub AreBytes : List ℕ → Type 0
AreBytes = All (λ b. b < 256)

-- The documented behaviour of a reader, in the states that are valid, with at most `left` bytes to
-- come: `read_all` writes no more than the buffer holds, `read_exact` fills it, and both may fail.
pub record IsReader (rd : Read) : Type 1 where
  pub Valid : rd.Reader → Type 0
  pub left : rd.Reader → ℕ
  pub read_all-Post :
      (n : ℕ) (r : rd.Reader)
      → Valid r
      → Post
          (λ bytes r'.
            (length bytes ≤ n) × AreBytes bytes × Valid r' × (left r' + length bytes ≤ left r))
          (λ r'. Valid r' × (left r' ≤ left r))
          (rd.read_all n r)
  pub read_exact-Post :
      (n : ℕ) (r : rd.Reader)
      → Valid r
      → Post
          (λ bytes r'.
            (length bytes ≡ n) × AreBytes bytes × Valid r' × (left r' + length bytes ≤ left r))
          (λ r'. Valid r' × (left r' ≤ left r))
          (rd.read_exact n r)

module _ (n : ℕ) (bytes : List ℕ) (h : AreBytes bytes) where
  size : length (take (min n (length bytes)) bytes) ≡ min n (length bytes)
  size = omega (arith, length-take (min n (length bytes)) bytes)

  rest : length (drop (min n (length bytes)) bytes) ≡ length bytes - min n (length bytes)
  rest = length-drop (min n (length bytes)) bytes

  pub slice-read_all :
      Post
        (λ got left.
          (length got ≤ n)
          × AreBytes got
          × AreBytes left
          × (length left + length got ≤ length bytes))
        (λ left. AreBytes left × (length left ≤ length bytes))
        (Slice.read_all n bytes)
  unfolding Slice.read_all
  slice-read_all = (
    omega (arith, size),
    All-take _ (min n (length bytes)) bytes h,
    All-drop _ (min n (length bytes)) bytes h,
    omega (arith, size, rest),
  )

  pub slice-read_exact :
      Post
        (λ got left.
          (length got ≡ n)
          × AreBytes got
          × AreBytes left
          × (length left + length got ≤ length bytes))
        (λ left. AreBytes left × (length left ≤ length bytes))
        (Slice.read_exact n bytes)
  unfolding Slice.read_exact Slice.read_all
  slice-read_exact = elim (Bool-cases (ltb (length bytes) n)) [
    | inl few ↦ rw (few, Post) (h, omega arith)
    | inr enough ↦
        let more = ltb-false→≤ _ _ enough in
        rw (enough, Post)
          (
            omega (arith, size),
            All-take _ (min n (length bytes)) bytes h,
            All-drop _ (min n (length bytes)) bytes h,
            omega (arith, size, rest),
          )
  ]

-- Slices are readers, of the bytes that are left in them.
abbrev pub slice-IsReader : IsReader slice
slice-IsReader = record {
  Valid = AreBytes;
  left = λ (bytes : List ℕ). length bytes;
  read_all-Post = slice-read_all;
  read_exact-Post = slice-read_exact;
}

module _ (rd : Read) (laws : IsReader rd) where
  abbrev pub TakeValid : Take rd → Type 0
  TakeValid t = laws.Valid t.inner

  pub take-read_all :
      (n : ℕ) (t : Take rd)
      → TakeValid t
      → Post
          (λ bytes t'.
            (length bytes ≤ n)
            × AreBytes bytes
            × TakeValid t'
            × (t'.limit + length bytes ≤ t.limit))
          (λ t'. TakeValid t' × (t'.limit ≤ t.limit))
          (Limit.read_all rd n t)
  unfolding Limit.read_all
  take-read_all n t h = elim (Bool-cases (t.limit == 0)) [
    | inl at_limit ↦ rw (at_limit, Post) (omega arith, tt, h, omega arith)
    | inr below ↦
        rw (below, Post)
          (by_case (rd.read_all (min n t.limit) t.inner)
            (laws.read_all-Post (min n t.limit) t.inner h))
  ]
    where
      by_case :
          (o : Outcome rd.Error rd.Reader (List ℕ))
          → Post
              (λ bytes r'.
                (length bytes ≤ min n t.limit)
                × AreBytes bytes
                × laws.Valid r'
                × (laws.left r' + length bytes ≤ laws.left t.inner))
              (λ r'. laws.Valid r' × (laws.left r' ≤ laws.left t.inner))
              o
          → Post
              (λ bytes t'.
                (length bytes ≤ n)
                × AreBytes bytes
                × TakeValid t'
                × (t'.limit + length bytes ≤ t.limit))
              (λ t'. TakeValid t' × (t'.limit ≤ t.limit))
              (elim o as (λ x. Outcome rd.Error (Take rd) (List ℕ)) [
                | ok bytes r ↦
                    if ltb t.limit (length bytes)
                    then panic
                    else ok bytes (record { limit = t.limit - length bytes; inner = r })
                | err e r ↦ err e (record { limit = t.limit; inner = r })
                | panic ↦ panic
                | out_of_fuel ↦ out_of_fuel
              ])
      by_case (ok bytes r) (few, are, valid, m) =
          let fits : ltb t.limit (length bytes) ≡ false = ltb-false _ _ (omega arith) in
          rw (fits, Post) (omega arith, are, valid, omega arith)
      by_case (err e r) (valid, m) = (valid, omega arith)
      by_case panic h = h
      by_case out_of_fuel h = h

  pub take-read_exact :
      (n : ℕ) (t : Take rd)
      → TakeValid t
      → Post
          (λ bytes t'.
            (length bytes ≡ n)
            × AreBytes bytes
            × TakeValid t'
            × (t'.limit + length bytes ≤ t.limit))
          (λ t'. TakeValid t' × (t'.limit ≤ t.limit))
          (Limit.read_exact rd n t)
  unfolding Limit.read_exact
  take-read_exact n t h = elim (Bool-cases (ltb t.limit n)) [
    | inl few ↦ rw (few, Post) (h, omega arith)
    | inr enough ↦
        rw (enough, Post)
          (by_case (ltb-false→≤ _ _ enough) (rd.read_exact n t.inner)
            (laws.read_exact-Post n t.inner h))
  ]
    where
      by_case :
          n ≤ t.limit
          → (o : Outcome rd.Error rd.Reader (List ℕ))
          → Post
              (λ bytes r'.
                (length bytes ≡ n)
                × AreBytes bytes
                × laws.Valid r'
                × (laws.left r' + length bytes ≤ laws.left t.inner))
              (λ r'. laws.Valid r' × (laws.left r' ≤ laws.left t.inner))
              o
          → Post
              (λ bytes t'.
                (length bytes ≡ n)
                × AreBytes bytes
                × TakeValid t'
                × (t'.limit + length bytes ≤ t.limit))
              (λ t'. TakeValid t' × (t'.limit ≤ t.limit))
              (elim o as (λ x. Outcome rd.Error (Take rd) (List ℕ)) [
                | ok bytes r ↦ ok bytes (record { limit = t.limit - n; inner = r })
                | err e r ↦ err e (record { limit = t.limit; inner = r })
                | panic ↦ panic
                | out_of_fuel ↦ out_of_fuel
              ])
      by_case g (ok bytes r) (all, are, valid, m) = (all, are, valid, omega arith)
      by_case g (err e r) (valid, m) = (valid, omega arith)
      by_case g panic h = h
      by_case g out_of_fuel h = h

  -- `Take` of a reader is a reader, of as many bytes as its limit.
  abbrev pub take-IsReader : IsReader (take_reader rd)
  take-IsReader = record {
    Valid = TakeValid;
    left = λ (t : Take rd). t.limit;
    read_all-Post = take-read_all;
    read_exact-Post = take-read_exact;
  }
