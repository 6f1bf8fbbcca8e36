-- ===== src/Quantizer/RoundTrip.antt =====
-- A unit of integers that goes into a packet and comes back from it.
use p4app_switch_ml.Prelude.{
  ℕ, ◌+◌, ◌≤◌, ◌<◌, ◌≡◌, refl, sym, ap, ◌∙◌, Bool, true, false, List, [], ◌∷◌, ◌++◌, map, length,
  All, take, drop, take-append, All-take, All-drop, arith, u32_mod,
}
use p4app_switch_ml.Outcome.{ok, bind_ok}
use p4app_switch_ml.Common.{int32}
use p4app_switch_ml.Quantizer.{
  Quantizer, Packet, ltu_numel, numel_offset, numel_to_process, store_ltu, convert, preprocess_int,
  preprocess_as, preprocess_single, postprocess_int, postprocess_as, postprocess_single,
}
use p4app_switch_ml.Quantizer.Buffers.{read_lem, write_lem, length-write}
use p4app_switch_ml.Quantizer.Builds.{convert_same}
use p4app_switch_ml.Quantizer.Extents.{Shape, load_ok, loaded_size, stored, store_ok}
use p4app_switch_ml.Quantizer.Sizes.{length-convert, enough}
use p4app_switch_ml.Quantizer.Vectors.{Arithmetic, Permutes, htonl, htonl-htonl}

convert_lem :
    (ar : Arithmetic) (vcl : Bool) (ws : List ℕ) → Permutes ar → convert ar vcl ws ≡ map htonl ws
unfolding convert
convert_lem ar false ws permutes = refl
convert_lem ar true ws permutes = convert_same ar permutes ws

map-htonl-htonl : (ws : List ℕ) → All (λ w. w < u32_mod) ws → map htonl (map htonl ws) ≡ ws
map-htonl-htonl [] a = refl
map-htonl-htonl (w ∷ ws) a =
    ap (λ x. x ∷ map htonl (map htonl ws)) (htonl-htonl w a.0)
    ∙ ap (λ xs. w ∷ xs) (map-htonl-htonl ws a.1)

-- The elements of a unit in the tensor.
abbrev pub unit_of : Quantizer → ℕ → List ℕ
unit_of q k = take (numel_to_process q k) (drop (numel_offset q k) q.slice.in_words)

convert-convert :
    (ar : Arithmetic) (vcl : Bool) (q : Quantizer) (k : ℕ)
    → Permutes ar
    → All (λ w. w < u32_mod) q.slice.in_words
    → convert ar vcl (convert ar vcl (unit_of q k)) ≡ unit_of q k
convert-convert ar vcl q k permutes words =
    convert_lem ar vcl (convert ar vcl (unit_of q k)) permutes
    ∙ ap (map htonl) (convert_lem ar vcl (unit_of q k) permutes)
    ∙ map-htonl-htonl (unit_of q k)
        (All-take (λ w. w < u32_mod) _ _ (All-drop (λ w. w < u32_mod) _ _ words))

-- For a quantizer that was set up for integers of 32 bits, PreprocessSingle of one of its units returns a
-- packet, and PostprocessSingle of that packet puts the elements of the unit from the input into their
-- places of the output and changes no other place; in builds with VCL and without, where the packet has room
-- for a unit and `permute64` permutes.
pub postprocess-preprocess :
    (ar : Arithmetic) (vcl : Bool) (q : Quantizer) (k : ℕ) (p : Packet)
    → Permutes ar
    → Shape q
    → q.slice.data_type ≡ int32
    → All (λ w. w < u32_mod) q.slice.in_words
    → k < q.total_main_num_ltus
    → ltu_numel q ≤ length p.entries
    → (p' : Packet) × (q' : Quantizer) × (preprocess_single ar vcl q k p ≡ ok p')
      × (postprocess_single ar vcl q k p' ≡ ok q')
      × (q'.slice.out_words
          ≡ take (numel_offset q k) q.slice.out_words
            ++ (unit_of q k ++ drop (numel_offset q k + length (unit_of q k)) q.slice.out_words))
unfolding preprocess_single postprocess_single preprocess_as postprocess_as preprocess_int
    postprocess_int stored
postprocess-preprocess ar vcl q k p permutes shape ints words main room =
    let ws = unit_of q k in
    let cs = convert ar vcl ws in
    let size : length cs ≡ numel_to_process q k =
      length-convert ar vcl permutes ws ∙ loaded_size q shape k main in
    let fits : numel_to_process q k ≤ length p.entries =
      enough ar vcl permutes q shape k main p.entries room in
    let inside : 0 + length cs ≤ length p.entries = omega arith in
    let entries : List ℕ = cs ++ drop (0 + length cs) p.entries in
    let whole : length entries ≡ length p.entries = length-write p.entries 0 cs inside in
    let back : take (numel_to_process q k) entries ≡ cs =
      ap (λ m. take m entries) (sym size) ∙ take-append cs (drop (0 + length cs) p.entries) in
    let (wrote, _) = store_ok q shape k main ws (loaded_size q shape k main) in
    (
      record p { entries = entries },
      stored q shape k main ws,
      ap (λ d. preprocess_as ar vcl d q k p) ints
          ∙ bind_ok _ (load_ok q shape k main) (bind_ok _ (write_lem p.entries 0 cs inside) refl),
      ap (λ d. postprocess_as ar vcl d q k (record p { entries = entries })) ints
          ∙ bind_ok _ (read_lem entries 0 (numel_to_process q k) (omega arith)) (
              ap (λ xs. store_ltu q k (convert ar vcl xs)) back
              ∙ ap (store_ltu q k) (convert-convert ar vcl q k permutes words)
              ∙ wrote),
      refl,
    )
