-- ===== src/Decode/Lhv2/Trees.antt =====
-- src/decode/lhv2.rs: the state of the decoder, and the trees that a block begins with.
use rust_delharc.Prelude.{
  ℕ, zero, suc, ◌+◌, ◌-◌, true, false, Option, List, [], ◌∷◌, ◌++◌, take, set, replicate, min, u8,
  ◌<<<◌, ltb, leb, ◌==◌, if◌then◌else◌,
}
use rust_delharc.Outcome.{
  ok, err, out_of_fuel, Prog, ◌>>=◌, ◌>>◌, ret, fail, fail_if, modify, assert, within,
}
use rust_delharc.Error.{LhaError, decompress}
use rust_delharc.StubIo.{Read}
use rust_delharc.RingBuf.{RingArrayBuf}
use rust_delharc.BitStream
use rust_delharc.BitStream.{BitStream}
use rust_delharc.StaticTree
use rust_delharc.StaticTree.{HuffTree, Built, built, failed}

abbrev pub num_commands : ℕ
num_commands = 510

abbrev pub num_temp_codelen : ℕ
num_temp_codelen = 20

-- `trait LhaDecoderConfig`, and its three instances.
pub record Config : Type 0 where
  pub history_bits : ℕ
  pub offset_bits : ℕ

-- `1 << HISTORY_BITS - 1`, the size of the ring buffer.
abbrev pub window_size : Config → ℕ
window_size c = 1 <<< (c.history_bits - 1)

abbrev pub lh5_config : Config
lh5_config = record { history_bits = 14; offset_bits = 4 }

abbrev pub lh7_config : Config
lh7_config = record { history_bits = 17; offset_bits = 5 }

abbrev pub lhx_config : Config
lhx_config = record { history_bits = 20; offset_bits = 5 }

-- `struct LhaV2Decoder<C, R>`
pub record LhaV2Decoder (rd : Read) : Type 0 where
  pub bit_reader : BitStream rd
  pub command_tree : HuffTree
  pub offset_tree : HuffTree
  pub remaining_commands : ℕ
  pub copy_progress : Option (ℕ × ℕ)
  pub ringbuf : RingArrayBuf

-- The codes read into `code_lengths[0..num_codes]`, once `three` and the skip are known.
abbrev pub with_skip : List ℕ → ℕ → List ℕ → List ℕ
with_skip three skip others = three ++ (replicate skip 0 ++ others)

module _ (rd : Read) where
  -- A call on `self.bit_reader`.
  abbrev pub on_bits :
      {A : Type 0}
      → Prog (LhaError rd.Error) (BitStream rd) A
      → Prog (LhaError rd.Error) (LhaV2Decoder rd) A
  on_bits = within (λ d. d.bit_reader) (λ d b. record d { bit_reader = b })

  -- The `while` of `read_code_length`, with room for so many more ones before the byte overflows.
  unfoldable pub lengthen : ℕ → ℕ → Prog (LhaError rd.Error) (LhaV2Decoder rd) ℕ
  lengthen zero len = do
    bit ← on_bits (BitStream.read_bit rd)
    if bit then fail (decompress "code length overflow") else ret len
  lengthen (suc room) len = on_bits (BitStream.read_bit rd) >>= λ bit. elim bit [
    | true ↦ lengthen room (len + 1)
    | false ↦ ret len
  ]

  unfoldable pub read_code_length : Prog (LhaError rd.Error) (LhaV2Decoder rd) ℕ
  unfolding lengthen
  read_code_length = do
    len ← on_bits (BitStream.read_bits rd 8 3)
    if len == 7 then lengthen (255 - 7) len else ret len

  -- `skip_range` is 0, 1 or 2.
  unfoldable pub read_code_skip : ℕ → Prog (LhaError rd.Error) (LhaV2Decoder rd) ℕ
  read_code_skip skip_range =
      let short : Prog (LhaError rd.Error) (LhaV2Decoder rd) ℕ =
        on_bits (BitStream.read_bits rd 64 4) >>= λ skip. ret (skip + 3) in
      let long : Prog (LhaError rd.Error) (LhaV2Decoder rd) ℕ =
        on_bits (BitStream.read_bits rd 64 9) >>= λ skip. ret (skip + 20) in
      if skip_range == 0 then ret 1 else if skip_range == 1 then short else long

  -- `for p in code_lengths[..].iter_mut() { *p = self.read_code_length()?; }`
  unfoldable pub read_code_lengths : ℕ → Prog (LhaError rd.Error) (LhaV2Decoder rd) (List ℕ)
  unfolding read_code_length
  read_code_lengths zero = ret []
  read_code_lengths (suc n) = do
    len ← read_code_length
    lens ← read_code_lengths n
    ret (len ∷ lens)

  -- `self.offset_tree.build_tree(lens).map_err(LhaError::Decompress)?`, and for the other tree.
  unfoldable pub build_offset_tree : List ℕ → Prog (LhaError rd.Error) (LhaV2Decoder rd) (Unit {0})
  build_offset_tree lens d = elim (StaticTree.build_tree d.offset_tree lens) [
    | built t ↦ ok tt (record d { offset_tree = t })
    | failed e t ↦ err (decompress e) (record d { offset_tree = t })
  ]

  unfoldable pub build_command_tree : List ℕ → Prog (LhaError rd.Error) (LhaV2Decoder rd) (Unit {0})
  build_command_tree lens d = elim (StaticTree.build_tree d.command_tree lens) [
    | built t ↦ ok tt (record d { command_tree = t })
    | failed e t ↦ err (decompress e) (record d { command_tree = t })
  ]

  -- `read_temp_tree` with `num_codes` codes.
  unfoldable pub read_temp_codes : ℕ → Prog (LhaError rd.Error) (LhaV2Decoder rd) (Unit {0})
  unfolding read_code_lengths build_offset_tree
  read_temp_codes num_codes = do
    fail_if (ltb num_temp_codelen num_codes) (decompress "temporary codelen table has invalid size")
    three ← read_code_lengths (min num_codes 3)
    skip ← on_bits (BitStream.read_bits rd 64 2)
    fail_if (ltb num_codes (3 + skip)) (decompress "temporary codelen table has invalid size")
    others ← read_code_lengths (num_codes - (3 + skip))
    build_offset_tree (with_skip three skip others)

  unfoldable pub read_temp_tree : Prog (LhaError rd.Error) (LhaV2Decoder rd) (Unit {0})
  unfolding read_temp_codes
  read_temp_tree = do
    num_codes ← on_bits (BitStream.read_bits rd 64 5)
    let single : Prog (LhaError rd.Error) (LhaV2Decoder rd) (Unit {0}) = do
      code ← on_bits (BitStream.read_bits rd 16 5)
      modify (λ d. record d { offset_tree = StaticTree.set_single code })
    if num_codes == 0 then single else read_temp_codes num_codes

  -- The loop `'outer` of `read_command_tree` at `index + n`, which rises in each round, and the
  -- array `code_lengths`.
  unfoldable pub command_lengths :
      ℕ → ℕ → ℕ → List ℕ → Prog (LhaError rd.Error) (LhaV2Decoder rd) (List ℕ)
  unfolding read_code_skip
  command_lengths zero num_codes pos lens d = if leb num_codes pos then ok lens d else out_of_fuel
  command_lengths (suc fuel) num_codes pos lens d =
      let round : Prog (LhaError rd.Error) (LhaV2Decoder rd) (List ℕ) =
        (λ s. on_bits (StaticTree.read_entry (BitStream.read_bits rd 64 1) s.offset_tree) s)
        >>= λ code. elim (leb code 2) [
          | true ↦ read_code_skip code >>= λ skip_count.
              command_lengths fuel num_codes (pos + skip_count) lens
          | false ↦ command_lengths fuel num_codes (pos + 1) (set lens pos (u8 (code - 2)))
        ] in
      elim (leb num_codes pos) [ true ↦ ok lens d | false ↦ round d ]

  -- `read_command_tree` with `num_codes` codes.
  unfoldable pub read_command_codes : ℕ → Prog (LhaError rd.Error) (LhaV2Decoder rd) (Unit {0})
  unfolding command_lengths build_command_tree
  read_command_codes num_codes = do
    fail_if (ltb num_commands num_codes) (decompress "commands codelen table has invalid size")
    lens ← command_lengths num_codes num_codes 0 (replicate num_commands 0)
    build_command_tree (take num_codes lens)

  unfoldable pub read_command_tree : Prog (LhaError rd.Error) (LhaV2Decoder rd) (Unit {0})
  unfolding read_command_codes
  read_command_tree = do
    num_codes ← on_bits (BitStream.read_bits rd 64 9)
    let single : Prog (LhaError rd.Error) (LhaV2Decoder rd) (Unit {0}) = do
      code ← on_bits (BitStream.read_bits rd 16 9)
      modify (λ d. record d { command_tree = StaticTree.set_single code })
    if num_codes == 0 then single else read_command_codes num_codes

module _ (cfg : Config) (rd : Read) where
  -- `read_offset_tree` with `num_codes` codes; the slice of the array of lengths may panic.
  unfoldable pub read_offset_codes : ℕ → Prog (LhaError rd.Error) (LhaV2Decoder rd) (Unit {0})
  unfolding read_code_lengths build_offset_tree
  read_offset_codes num_codes = do
    fail_if (ltb cfg.history_bits num_codes) (decompress "offset codelen table has invalid size")
    assert (leb num_codes num_temp_codelen)
    lens ← read_code_lengths rd num_codes
    build_offset_tree rd lens

  unfoldable pub read_offset_tree : Prog (LhaError rd.Error) (LhaV2Decoder rd) (Unit {0})
  unfolding read_offset_codes
  read_offset_tree = do
    assert (leb cfg.history_bits num_temp_codelen)
    num_codes ← on_bits rd (BitStream.read_bits rd 64 cfg.offset_bits)
    let single : Prog (LhaError rd.Error) (LhaV2Decoder rd) (Unit {0}) = do
      code ← on_bits rd (BitStream.read_bits rd 16 cfg.offset_bits)
      modify (λ d. record d { offset_tree = StaticTree.set_single code })
    if num_codes == 0 then single else read_offset_codes num_codes
