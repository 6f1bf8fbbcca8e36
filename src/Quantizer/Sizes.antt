-- ===== src/Quantizer/Sizes.antt =====
-- How many elements the loops over a unit make, and that their buffers hold them.
use p4app_switch_ml.Prelude.{
  take, drop, length-take, length-drop, length-map, ℕ, zero, suc, ◌+◌, ◌*◌, ◌≤◌, ◌<◌, ◌≡◌, ap, ◌∙◌,
  Bool, List, [], ◌++◌, map, length, length-append, arith,
}
use p4app_switch_ml.Outcome.{ok, bind_ok, ◌>>=◌}
use p4app_switch_ml.Quantizer.{
  Quantizer, ltu_numel, numel_to_process, num_blocks, quantize, dequantize, convert, load_ltu,
  store_ltu, numel_offset,
}
use p4app_switch_ml.Quantizer.Buffers.{read, write, read_lem, write_lem}
use p4app_switch_ml.Quantizer.Extents.{
  Shape, ltu_numel_lem, unit_lem, load_ok, loaded_size, stored, store_ok,
}
use p4app_switch_ml.Quantizer.Vectors.{
  Arithmetic, Permutes, htonl, blocks, permute_block, permute_block_lem,
}

length-blocks :
    (block : List ℕ → List ℕ) (single : ℕ → ℕ) (m : ℕ) (ws : List ℕ)
    → ((b : List ℕ) → length b ≡ 16 → length (block b) ≡ 16)
    → m * 16 ≤ length ws
    → length (blocks block single m ws) ≡ length ws
length-blocks block single zero ws same h = length-map single ws
length-blocks block single (suc m) ws same h =
    let front = same (take 16 ws) (length-take 16 ws (omega arith)) in
    let rest = length-drop 16 ws in
    let later = length-blocks block single m (drop 16 ws) same (omega arith) in
    length-append (block (take 16 ws)) (blocks block single m (drop 16 ws)) ∙ omega arith

module _ (ar : Arithmetic) (vcl : Bool) (permutes : Permutes ar) where
  length-permute_block : (b : List ℕ) → length b ≡ 16 → length (permute_block ar b) ≡ 16
  length-permute_block b size =
      ap length (permute_block_lem ar permutes b size) ∙ length-map htonl b ∙ size

  num_blocks_le : (n : ℕ) → num_blocks vcl n * 16 ≤ n
  unfolding num_blocks
  num_blocks_le n = ground arith

  pub length-convert : (ws : List ℕ) → length (convert ar vcl ws) ≡ length ws
  unfolding convert
  length-convert ws = length-blocks _ htonl _ ws length-permute_block (num_blocks_le (length ws))

  pub length-quantize : (f : ℕ) (ws : List ℕ) → length (quantize ar vcl f ws) ≡ length ws
  unfolding quantize
  length-quantize f ws =
      length-blocks _ (λ v. htonl (ar.round_to_u32 (ar.mul v f))) _ ws
        (λ b size.
          length-permute_block (map (λ v. ar.roundi (ar.mul v f)) b) (length-map _ b ∙ size))
        (num_blocks_le (length ws))

  pub length-dequantize : (f : ℕ) (ws : List ℕ) → length (dequantize ar vcl f ws) ≡ length ws
  unfolding dequantize
  length-dequantize f ws =
      let back : ℕ → ℕ = λ w. ar.div (ar.to_float w) f in
      length-blocks (λ b. map back (permute_block ar b)) (λ w. back (htonl w)) _ ws
        (λ b size. length-map back (permute_block ar b) ∙ length-permute_block b size)
        (num_blocks_le (length ws))

  module _ (q : Quantizer) (shape : Shape q) (k : ℕ) (main : k < q.total_main_num_ltus)
      (entries : List ℕ) (room : ltu_numel q ≤ length entries) where
    pub enough : numel_to_process q k ≤ length entries
    enough = omega (arith, (unit_lem q shape k main).1, ltu_numel_lem q)

    -- A unit goes into the packet.
    pub loads :
        (f : List ℕ → List ℕ)
        → ((ws : List ℕ) → length (f ws) ≡ length ws)
        → (entries' : List ℕ) × ((load_ltu q k >>= λ ws. write entries 0 (f ws)) ≡ ok entries')
    loads f same =
        let ws = take (numel_to_process q k) (drop (numel_offset q k) q.slice.in_words) in
        (
          [] ++ (f ws ++ drop (0 + length (f ws)) entries),
          bind_ok _ (load_ok q shape k main) (
              write_lem entries 0 (f ws)
                (omega (arith, same ws, loaded_size q shape k main, enough))),
        )

    -- The first elements of the packet go into the tensor.
    pub stores :
        (f : List ℕ → List ℕ)
        → ((ws : List ℕ) → length (f ws) ≡ length ws)
        → (ws : List ℕ) × ((read entries 0 (numel_to_process q k) >>= λ ws. store_ltu q k (f ws))
            ≡ ok (stored q shape k main ws))
          × Shape (stored q shape k main ws)
    stores f same =
        let ws = take (numel_to_process q k) (drop 0 entries) in
        let size : length (f ws) ≡ numel_to_process q k =
          same ws ∙ length-take (numel_to_process q k) entries enough in
        let (wrote, shape') = store_ok q shape k main (f ws) size in
        (
          f ws,
          bind_ok _ (read_lem entries 0 (numel_to_process q k) (omega (arith, enough))) wrote,
          shape',
        )
