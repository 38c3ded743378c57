-- ===== src/Decode/Any/Total.antt =====
-- src/decode.rs: filling buffers with the decoder of any method but `-lh1-`, from any reader that
-- keeps its promises.
use rust_delharc.Prelude.{true, ℕ, ◌+◌, ◌*◌, ◌≤◌, ◌<◌, ◌≡◌, Option, none, some, length}
use rust_delharc.Outcome.{Outcome, ok, err, panic, out_of_fuel, Yields, Returns, Post}
use rust_delharc.Outcome.Rules.{Post-map_err}
use rust_delharc.Error.{LhaError, map_io, io}
use rust_delharc.StubIo.{Read, Take, take_reader}
use rust_delharc.StubIo.Laws.{IsReader, AreBytes, take-IsReader}
use rust_delharc.Header.Types.{LhaHeader}
use rust_delharc.Header.Compression
use rust_delharc.Header.Compression.{
  CompressionMethod, pm0, lz4, lh0, lzs, lz5, lh1, lh4, lh5, lh6, lh7, lhx, lhd, pm1, pm2,
}
use rust_delharc.Decode.Filling.{Filled}
use rust_delharc.Decode.Lzs
use rust_delharc.Decode.Lzs.Total.{IsLzs, new-IsLzs, fill_buffer-Keeps}
use rust_delharc.RingBuf
use rust_delharc.BitStream
use rust_delharc.Decode.Lhv1
use rust_delharc.Decode.Lhv1.{Lh1Decoder}
use rust_delharc.Decode.Lhv1.Nodes.{DynHuffTree}
use rust_delharc.Decode.Lhv1.Build
use rust_delharc.Decode.Lhv1.Build.Fresh.{is_ok, new-ok}
use rust_delharc.Decode.Lz5
use rust_delharc.Decode.Lz5.Total.{IsLz5, new-IsLz5, fill_buffer-Post}
use rust_delharc.Decode.Lhv2
use rust_delharc.Decode.Lhv2.Trees.{Config, lh5_config, lh7_config, lhx_config, LhaV2Decoder}
use rust_delharc.Decode.Lhv2.Total.{
  IsConfig, lh5-IsConfig, lh7-IsConfig, lhx-IsConfig, IsLhv2, new-IsLhv2, fill_buffer-Yields,
}
use rust_delharc.Decode.Any.{
  DecoderAny, passthrough_decoder, unsupported_decoder, lzs_decoder, lz5_decoder, lh1_decoder,
  lh4_decoder, lh5_decoder, lh6_decoder, lh7_decoder, lhx_decoder, rewrap, fill_buffer,
  new_from_compression, new_from_header,
}

Yields-rewrap :
    {E S T A : Type 0} (P : A → S → Type 0) (Q : A → T → Type 0) (J : S → Type 0) (f : S → T)
    (o : Outcome E S A)
    → Post P J o
    → ((a : A) (s : S) → P a s → Q a (f s))
    → Yields Q (rewrap f o)
Yields-rewrap P Q J f (ok a s) h k = k a s h
Yields-rewrap P Q J f (err e s) h k = tt
Yields-rewrap P Q J f panic h k = h
Yields-rewrap P Q J f out_of_fuel h k = h

module _ (rd : Read) (laws : IsReader rd) (c : ℕ) where
  -- The decoder has what its method needs, and a stream of `c` bits at most; the decoder of -lh1- is
  -- not among these.
  abbrev pub IsDecoder : DecoderAny rd → Type 0
  IsDecoder (passthrough_decoder r) = laws.Valid r
  IsDecoder (unsupported_decoder r) = laws.Valid r
  IsDecoder (lzs_decoder d) = IsLzs rd laws c d
  IsDecoder (lz5_decoder d) = IsLz5 rd laws d
  IsDecoder (lh1_decoder d) = ⊥
  IsDecoder (lh4_decoder d) = IsLhv2 rd laws lh5_config lh5-IsConfig c d
  IsDecoder (lh5_decoder d) = IsLhv2 rd laws lh5_config lh5-IsConfig c d
  IsDecoder (lh6_decoder d) = IsLhv2 rd laws lh7_config lh7-IsConfig c d
  IsDecoder (lh7_decoder d) = IsLhv2 rd laws lh7_config lh7-IsConfig c d
  IsDecoder (lhx_decoder d) = IsLhv2 rd laws lhx_config lhx-IsConfig c d

  v2-Filled :
      (cfg : Config) (bounds : IsConfig cfg) (f : LhaV2Decoder rd → DecoderAny rd)
      → ((d : LhaV2Decoder rd) → IsLhv2 rd laws cfg bounds c d → IsDecoder (f d))
      → (blocks n : ℕ) (d : LhaV2Decoder rd) → c < 16 * blocks
      → IsLhv2 rd laws cfg bounds c d
      → Yields (Filled IsDecoder n) (rewrap f (Lhv2.fill_buffer cfg rd blocks n d))
  v2-Filled cfg bounds f wrap blocks n d h v =
      Yields-rewrap (Filled (IsLhv2 rd laws cfg bounds c) n) (Filled IsDecoder n) (λ s. Unit) f
        (Lhv2.fill_buffer cfg rd blocks n d)
        (fill_buffer-Yields rd laws cfg bounds blocks c n d h v) (λ bytes t (e, w). (e, wrap t w))

  -- Filling a buffer, with fuel for more blocks than there are bits for.
  pub any_fill_buffer-Yields :
      (blocks n : ℕ) (d : DecoderAny rd)
      → c < 16 * blocks
      → IsDecoder d
      → Yields (Filled IsDecoder n) (fill_buffer rd blocks n d)
  unfolding fill_buffer
  any_fill_buffer-Yields blocks n (passthrough_decoder r) h v =
      Yields-rewrap
        (λ bytes r'.
          (length bytes ≡ n)
          × AreBytes bytes
          × laws.Valid r'
          × (laws.left r' + length bytes ≤ laws.left r))
        (Filled IsDecoder n) (λ r'. laws.Valid r' × (laws.left r' ≤ laws.left r))
        passthrough_decoder (map_io (rd.read_exact n) r)
        (Post-map_err _ _ io (rd.read_exact n) r (laws.read_exact-Post n r v))
        (λ bytes r' (size, are, valid, m). (size, valid))
  any_fill_buffer-Yields blocks n (unsupported_decoder r) h v = tt
  any_fill_buffer-Yields blocks n (lzs_decoder d) h v =
      Yields-rewrap (Filled (IsLzs rd laws c) n) (Filled IsDecoder n) (IsLzs rd laws c) lzs_decoder
        (Lzs.fill_buffer rd n d) (fill_buffer-Keeps rd laws c n d v) (λ bytes t w. w)
  any_fill_buffer-Yields blocks n (lz5_decoder d) h v =
      Yields-rewrap (Filled (IsLz5 rd laws) n) (Filled IsDecoder n) (IsLz5 rd laws) lz5_decoder
        (Lz5.fill_buffer rd n d) (fill_buffer-Post rd laws n d v) (λ bytes t w. w)
  any_fill_buffer-Yields blocks n (lh1_decoder d) h v = absurd v
  any_fill_buffer-Yields blocks n (lh4_decoder d) h v =
      v2-Filled lh5_config lh5-IsConfig lh4_decoder (λ d w. w) blocks n d h v
  any_fill_buffer-Yields blocks n (lh5_decoder d) h v =
      v2-Filled lh5_config lh5-IsConfig lh5_decoder (λ d w. w) blocks n d h v
  any_fill_buffer-Yields blocks n (lh6_decoder d) h v =
      v2-Filled lh7_config lh7-IsConfig lh6_decoder (λ d w. w) blocks n d h v
  any_fill_buffer-Yields blocks n (lh7_decoder d) h v =
      v2-Filled lh7_config lh7-IsConfig lh7_decoder (λ d w. w) blocks n d h v
  any_fill_buffer-Yields blocks n (lhx_decoder d) h v =
      v2-Filled lhx_config lhx-IsConfig lhx_decoder (λ d w. w) blocks n d h v

module _ (rd : Read) (laws : IsReader rd) where
  -- The decoder has what its method needs, unless it is that of -lh1-.
  abbrev pub IsOpened : ℕ → DecoderAny rd → Type 0
  IsOpened c (lh1_decoder d) = Unit
  IsOpened c d = IsDecoder rd laws c d

  lh1-IsOpened :
      (c : ℕ) (r : rd.Reader) → Returns (λ u d. IsOpened c d) (rewrap lh1_decoder (Lhv1.new rd r))
  unfolding Lhv1.new
  lh1-IsOpened c r = by_tree (Build.new {E = LhaError rd.Error}) (new-ok (LhaError rd.Error))
    where
      by_tree :
          (o : Outcome (LhaError rd.Error) DynHuffTree (Unit {0}))
          → is_ok o ≡ true
          → Returns
              (λ u d. IsOpened c d)
              (rewrap lh1_decoder
                (elim o as (λ x. Outcome (LhaError rd.Error) (Lh1Decoder rd) (Unit {0})) [
                  | ok _ tree ↦ ok tt (record {
                    bit_reader = BitStream.new rd r;
                    command_tree = tree;
                    copy_progress = none;
                    ringbuf = RingBuf.spaces Lhv1.ring_buffer_size;
                  })
                  | err e tree ↦ panic
                  | panic ↦ panic
                  | out_of_fuel ↦ out_of_fuel
                ]))
      by_tree (ok u tree) h = tt
      by_tree (err e tree) h = cc h
      by_tree panic h = cc h
      by_tree out_of_fuel h = cc h

  -- Every method gets a decoder.
  pub new_from_compression-IsOpened :
      (m : CompressionMethod) (r : rd.Reader)
      → laws.Valid r
      → Returns (λ u d. IsOpened (8 * laws.left r) d) (new_from_compression rd m r)
  unfolding new_from_compression
  new_from_compression-IsOpened pm0 r h = h
  new_from_compression-IsOpened lz4 r h = h
  new_from_compression-IsOpened lh0 r h = h
  new_from_compression-IsOpened lzs r h = new-IsLzs rd laws r h
  new_from_compression-IsOpened lz5 r h = new-IsLz5 rd laws r h
  new_from_compression-IsOpened lh1 r h = lh1-IsOpened (8 * laws.left r) r
  new_from_compression-IsOpened lh4 r h = new-IsLhv2 rd laws lh5_config lh5-IsConfig r h
  new_from_compression-IsOpened lh5 r h = new-IsLhv2 rd laws lh5_config lh5-IsConfig r h
  new_from_compression-IsOpened lh6 r h = new-IsLhv2 rd laws lh7_config lh7-IsConfig r h
  new_from_compression-IsOpened lh7 r h = new-IsLhv2 rd laws lh7_config lh7-IsConfig r h
  new_from_compression-IsOpened lhx r h = new-IsLhv2 rd laws lhx_config lhx-IsConfig r h
  new_from_compression-IsOpened lhd r h = h
  new_from_compression-IsOpened pm1 r h = h
  new_from_compression-IsOpened pm2 r h = h

module _ (rd : Read) (laws : IsReader rd) where
  pub new_from_header-IsOpened :
      (header : LhaHeader) (r : rd.Reader)
      → laws.Valid r
      → Returns
          (λ u d. IsOpened (take_reader rd) (take-IsReader rd laws) (8 * header.compressed_size) d)
          (new_from_header rd header r)
  unfolding new_from_header
  new_from_header-IsOpened header r h = by_method (Compression.try_from header.compression)
    where
      limited : Take rd
      limited = record { limit = header.compressed_size; inner = r }

      by_method :
          (m : Option CompressionMethod)
          → Returns
              (λ u d.
                IsOpened (take_reader rd) (take-IsReader rd laws) (8 * header.compressed_size) d)
              (elim m
                as (λ x. Outcome (LhaError rd.Error) (DecoderAny (take_reader rd)) (Unit {0})) [
                  | some compression ↦ new_from_compression (take_reader rd) compression limited
                  | none ↦ ok tt (unsupported_decoder limited)
                ])
      by_method none = h
      by_method (some m) =
          new_from_compression-IsOpened (take_reader rd) (take-IsReader rd laws) m limited h
