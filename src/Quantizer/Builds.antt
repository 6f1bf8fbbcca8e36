-- ===== src/Quantizer/Builds.antt =====
-- The vector loops of a build with VCL beside the loops over single elements.
use p4app_switch_ml.Prelude.{
  length-map, All-take, All-drop, ℕ, ◌-◌, ◌/◌, ◌≡◌, refl, sym, ap, ◌∙◌, subst, true, false, ltb,
  if◌then◌else◌, List, [], ◌∷◌, map, length, All, arith,
}
use p4app_switch_ml.Outcome.{Outcome, ok, ◌>>=◌, bind_same}
use p4app_switch_ml.Common.{DataType, float32, int32}
use p4app_switch_ml.Quantizer.{
  Quantizer, Packet, num_blocks, quantize, dequantize, convert, factor_at, load_ltu, quantize_ltu,
  exponent_ltu, exponent_of, preprocess_float, preprocess_int, preprocess_single, dequantize_ltu,
  postprocess_float, postprocess_int, postprocess_single, numel_offset, numel_to_process,
  store_factor, store_ltu, preprocess_as, postprocess_as,
}
use p4app_switch_ml.Quantizer.Buffers.{read, write, read-parts}
use p4app_switch_ml.Quantizer.Maxima.{Ordered, TakesMaxima, absolute_max_lem}
use p4app_switch_ml.Quantizer.Vectors.{
  Arithmetic, Permutes, htonl, blocks, blocks-map, permute_block, permute_block_lem,
}

-- `roundi` and `std::round` agree on the products of an element and the scaling factors there are:
-- they differ on ties, since one rounds halves to even and the other away from zero.
abbrev pub Rounds : Arithmetic → Quantizer → ℕ → Type 0
Rounds ar q v =
    (k f : ℕ)
    → factor_at q.scaling_factors k ≡ ok f
    → ar.roundi (ar.mul v f) ≡ ar.round_to_u32 (ar.mul v f)

map-map : (f g : ℕ → ℕ) (xs : List ℕ) → map f (map g xs) ≡ map (λ x. f (g x)) xs
map-map f g [] = refl
map-map f g (x ∷ xs) = ap (λ ys. f (g x) ∷ ys) (map-map f g xs)

map-All : (f g : ℕ → ℕ) (xs : List ℕ) → All (λ x. f x ≡ g x) xs → map f xs ≡ map g xs
map-All f g [] a = refl
map-All f g (x ∷ xs) a = ap (λ y. y ∷ map f xs) a.0 ∙ ap (λ ys. g x ∷ ys) (map-All f g xs a.1)

load-All :
    (P : ℕ → Type 0) (q : Quantizer) (ltu_id : ℕ) {ws : List ℕ}
    → All P q.slice.in_words
    → load_ltu q ltu_id ≡ ok ws
    → All P ws
unfolding load_ltu
load-All P q ltu_id a loaded =
    subst (All P)
      (read-parts q.slice.in_words (numel_offset q ltu_id) (numel_to_process q ltu_id) loaded)
      (All-take P _ _ (All-drop P _ _ a))

any : (ws : List ℕ) → All (λ v. Unit {0}) ws
any [] = tt
any (w ∷ ws) = (tt, any ws)

module _ (ar : Arithmetic) (permutes : Permutes ar) where
  -- The loops over whole blocks do what the loop over single elements does.
  vector_loop :
      (P : ℕ → Type 0) (block : List ℕ → List ℕ) (single : ℕ → ℕ) (ws : List ℕ)
      → ((b : List ℕ) → length b ≡ 16 → All P b → block b ≡ map single b)
      → All P ws
      → blocks block single (num_blocks true (length ws)) ws
        ≡ blocks block single (num_blocks false (length ws)) ws
  unfolding num_blocks
  vector_loop P block single ws same a =
      blocks-map P block single same (length ws / 16) ws (omega arith) a

  pub convert_same : (ws : List ℕ) → convert ar true ws ≡ convert ar false ws
  unfolding convert
  convert_same ws =
      vector_loop (λ v. Unit {0}) (permute_block ar) htonl ws
        (λ b size a. permute_block_lem ar permutes b size) (any ws)

  dequantize_same : (f : ℕ) (ws : List ℕ) → dequantize ar true f ws ≡ dequantize ar false f ws
  unfolding dequantize
  dequantize_same f ws =
      let back : ℕ → ℕ = λ w. ar.div (ar.to_float w) f in
      vector_loop (λ v. Unit {0}) (λ b. map back (permute_block ar b)) (λ w. back (htonl w)) ws
        (λ b size a. ap (map back) (permute_block_lem ar permutes b size) ∙ map-map back htonl b)
        (any ws)

  quantize_same :
      (f : ℕ) (ws : List ℕ)
      → All (λ v. ar.roundi (ar.mul v f) ≡ ar.round_to_u32 (ar.mul v f)) ws
      → quantize ar true f ws ≡ quantize ar false f ws
  unfolding quantize
  quantize_same f ws agree =
      let lane : ℕ → ℕ = λ v. ar.roundi (ar.mul v f) in
      let single : ℕ → ℕ = λ v. ar.round_to_u32 (ar.mul v f) in
      vector_loop (λ v. lane v ≡ single v) (λ b. permute_block ar (map lane b))
        (λ v. htonl (single v)) ws
        (λ b size a.
          permute_block_lem ar permutes (map lane b) (length-map lane b ∙ size)
          ∙ ap (map htonl) (map-All lane single b a)
          ∙ map-map htonl single b)
        agree

  module _ (q : Quantizer) (ltu_id : ℕ) where
    quantize_ltu_same :
        (k : ℕ) (entries : List ℕ)
        → All (Rounds ar q) q.slice.in_words
        → quantize_ltu ar true q k entries ≡ quantize_ltu ar false q k entries
    unfolding quantize_ltu
    quantize_ltu_same k entries rounds = bind_same (factor_at q.scaling_factors k) _ _ (λ f at.
        bind_same (load_ltu q k) _ _ (λ ws loaded. ap (write entries 0) (
          quantize_same f ws (
            load-All (λ v. ar.roundi (ar.mul v f) ≡ ar.round_to_u32 (ar.mul v f)) q k
              (applied f k at q.slice.in_words rounds) loaded))))
      where
        applied :
            (f k : ℕ)
            → factor_at q.scaling_factors k ≡ ok f
            → (ws : List ℕ) → All (Rounds ar q) ws
            → All (λ v. ar.roundi (ar.mul v f) ≡ ar.round_to_u32 (ar.mul v f)) ws
        applied f k at [] a = tt
        applied f k at (w ∷ ws) a = (a.0 k f at, applied f k at ws a.1)

    exponent_ltu_same :
        (laws : TakesMaxima ar) (old : ℕ)
        → All Ordered q.slice.in_words
        → exponent_ltu ar true q ltu_id old ≡ exponent_ltu ar false q ltu_id old
    unfolding exponent_ltu
    exponent_ltu_same laws old ordered =
        ap (λ o. if ltb ltu_id q.total_main_num_ltus then o else ok old)
          (bind_same (load_ltu q ltu_id) _ _ (λ ws loaded.
            let a = load-All Ordered q ltu_id ordered loaded in
            ap (λ m. ok (exponent_of m))
              (absolute_max_lem ar laws true ws a ∙ sym (absolute_max_lem ar laws false ws a))))

    preprocess_float_same :
        (laws : TakesMaxima ar) (p : Packet)
        → All Ordered q.slice.in_words
        → All (Rounds ar q) q.slice.in_words
        → preprocess_float ar true q ltu_id p ≡ preprocess_float ar false q ltu_id p
    unfolding preprocess_float
    preprocess_float_same laws p ordered rounds =
        let finish : List ℕ → Outcome ℕ → Outcome Packet =
          λ entries o. o >>= λ e. ok (record { entries = entries; exponent = e }) in
        ap
          (λ o. (if ltb ltu_id q.batch_num_ltus then ok p.entries else o) >>= λ entries.
            finish entries (exponent_ltu ar true q ltu_id p.exponent))
          (quantize_ltu_same (ltu_id - q.batch_num_ltus) p.entries rounds)
        ∙ bind_same _ _ _
            (λ entries is. ap (finish entries) (exponent_ltu_same laws p.exponent ordered))

    preprocess_int_same :
        (p : Packet) → preprocess_int ar true q ltu_id p ≡ preprocess_int ar false q ltu_id p
    unfolding preprocess_int
    preprocess_int_same p = bind_same (load_ltu q ltu_id) _ _ (λ ws loaded.
        ap (λ cs. write p.entries 0 cs >>= λ entries. ok (record p { entries = entries }))
          (convert_same ws))

    dequantize_ltu_same :
        (k : ℕ) (entries : List ℕ)
        → dequantize_ltu ar true q k entries ≡ dequantize_ltu ar false q k entries
    unfolding dequantize_ltu
    dequantize_ltu_same k entries = bind_same (factor_at q.scaling_factors k) _ _ (λ f at.
        bind_same (read entries 0 (numel_to_process q k)) _ _
          (λ ws got. ap (store_ltu q k) (dequantize_same f ws)))

    postprocess_float_same :
        (p : Packet) → postprocess_float ar true q ltu_id p ≡ postprocess_float ar false q ltu_id p
    unfolding postprocess_float
    postprocess_float_same p =
        ap
          (λ o. (if ltb ltu_id q.batch_num_ltus then ok q else o) >>= λ q'.
            ok (store_factor ar q' ltu_id p.exponent))
          (dequantize_ltu_same (ltu_id - q.batch_num_ltus) p.entries)

    postprocess_int_same :
        (p : Packet) → postprocess_int ar true q ltu_id p ≡ postprocess_int ar false q ltu_id p
    unfolding postprocess_int
    postprocess_int_same p =
        bind_same (read p.entries 0 (numel_to_process q ltu_id)) _ _
          (λ ws got. ap (store_ltu q ltu_id) (convert_same ws))

    preprocess_as_same :
        (laws : TakesMaxima ar) (d : DataType) (p : Packet)
        → (d ≡ float32 → All Ordered q.slice.in_words)
        → (d ≡ float32 → All (Rounds ar q) q.slice.in_words)
        → preprocess_as ar true d q ltu_id p ≡ preprocess_as ar false d q ltu_id p
    unfolding preprocess_as
    preprocess_as_same laws float32 p ordered rounds =
        preprocess_float_same laws p (ordered refl) (rounds refl)
    preprocess_as_same laws int32 p ordered rounds = preprocess_int_same p

    postprocess_as_same :
        (d : DataType) (p : Packet)
        → postprocess_as ar true d q ltu_id p ≡ postprocess_as ar false d q ltu_id p
    unfolding postprocess_as
    postprocess_as_same float32 p = postprocess_float_same p
    postprocess_as_same int32 p = postprocess_int_same p

-- For a vector library that permutes bytes and takes maxima as documented, and for a tensor that, if it
-- is of floats, holds no NaN and no element whose product with a scaling factor `roundi` and `std::round`
-- round differently, PreprocessSingle of a build with VCL makes the same packet as that of a build
-- without, or fails alike.
pub preprocess_single_agrees :
    (ar : Arithmetic) (q : Quantizer) (ltu_id : ℕ) (p : Packet)
    → Permutes ar
    → TakesMaxima ar
    → (q.slice.data_type ≡ float32 → All Ordered q.slice.in_words)
    → (q.slice.data_type ≡ float32 → All (Rounds ar q) q.slice.in_words)
    → preprocess_single ar true q ltu_id p ≡ preprocess_single ar false q ltu_id p
unfolding preprocess_single
preprocess_single_agrees ar q ltu_id p permutes laws ordered rounds =
    preprocess_as_same ar permutes q ltu_id laws q.slice.data_type p ordered rounds

-- For a vector library that permutes bytes as documented, PostprocessSingle of a build with VCL has the
-- same effect as that of a build without, or fails alike.
pub postprocess_single_agrees :
    (ar : Arithmetic) (q : Quantizer) (ltu_id : ℕ) (p : Packet)
    → Permutes ar
    → postprocess_single ar true q ltu_id p ≡ postprocess_single ar false q ltu_id p
unfolding postprocess_single
postprocess_single_agrees ar q ltu_id p permutes =
    postprocess_as_same ar permutes q ltu_id q.slice.data_type p
