-- ===== src/Quantizer/Factors.antt =====
-- `PreprocessSingle` and `PostprocessSingle` on the packets in flight.
use p4app_switch_ml.Prelude.{
  take, drop, ℕ, ◌+◌, ◌-◌, ◌*◌, ◌≤◌, ◌<◌, ◌≡◌, refl, sym, ◌∙◌, subst, Bool, ltb, some, List, ◌∷◌,
  length, arith, u64_mod, Bool-cases, inl, inr, if_true, if_false, ltb→lt, ltb→le,
}
use p4app_switch_ml.Outcome.{ok, bind_ok}
use p4app_switch_ml.Common.{DataType, float32, int32}
use p4app_switch_ml.Quantizer.{
  Quantizer, Slice, Packet, ltu_numel, numel_offset, numel_to_process, setup_job_slice, quantize,
  dequantize, convert, factor_at, scaling_factor, quantize_ltu, dequantize_ltu, exponent_ltu,
  preprocess_float, preprocess_int, preprocess_as, preprocess_single, postprocess_float,
  postprocess_int, postprocess_as, postprocess_single,
}
use p4app_switch_ml.Quantizer.Buffers.{write_lem}
use p4app_switch_ml.Quantizer.Extents.{setup-Shape, load_ok, loaded_size, stored}
use p4app_switch_ml.Quantizer.Sizes.{
  length-convert, length-quantize, length-dequantize, loads, stores, enough,
}
use p4app_switch_ml.Quantizer.Flight.{
  InFlight, lookup, Reach, Known, set_up, answered, main_unit, int_unit, factor_eq, Known-ints,
  Known-factor, Known-stored, Known-setup,
}
use p4app_switch_ml.Quantizer.Vectors.{Arithmetic, Permutes}

module _ (ar : Arithmetic) (vcl : Bool) where
  module _ (permutes : Permutes ar) {q : Quantizer} {answers : List (ℕ × ℕ)} (id : ℕ) (p : Packet)
      (known : Known ar vcl answers q) (flight : InFlight q answers id)
      (room : ltu_numel q ≤ length p.entries) where
    quantizes :
        q.slice.data_type ≡ float32
        → q.batch_num_ltus ≤ id
        → (entries : List ℕ) × (quantize_ltu ar vcl q (id - q.batch_num_ltus) p.entries
            ≡ ok entries)
    unfolding quantize_ltu
    quantizes floats later =
        let (e, found) = flight.follows later in
        let main = main_unit flight floats later in
        let factor = scaling_factor ar q.num_workers e in
        let (entries, done) =
          loads ar vcl permutes q known.shape (id - q.batch_num_ltus) main p.entries room
            (quantize ar vcl factor) (length-quantize ar vcl permutes factor) in
        (
          entries,
          bind_ok _ (factor_eq ar vcl (id - q.batch_num_ltus) e known floats main found) done,
        )

    exponents : (e : ℕ) × (exponent_ltu ar vcl q id p.exponent ≡ ok e)
    unfolding exponent_ltu
    exponents = elim (Bool-cases (ltb id q.total_main_num_ltus)) [
      | inl below ↦
          (_, if_true _ below ∙ bind_ok _ (load_ok q known.shape id (ltb→lt _ _ below)) refl)
      | inr above ↦ (p.exponent, if_false _ above)
    ]

    preprocess_float_ok :
        q.slice.data_type ≡ float32 → (p' : Packet) × (preprocess_float ar vcl q id p ≡ ok p')
    unfolding preprocess_float
    preprocess_float_ok floats =
        let (e, counted) = exponents in
        elim (Bool-cases (ltb id q.batch_num_ltus)) [
          | inl first ↦ (_, bind_ok _ (if_true _ first) (bind_ok _ counted refl))
          | inr later ↦
              let (entries, done) = quantizes floats (ltb→le _ _ later) in
              (_, bind_ok _ (if_false _ later ∙ done) (bind_ok _ counted refl))
        ]

    preprocess_int_ok :
        q.slice.data_type ≡ int32 → (p' : Packet) × (preprocess_int ar vcl q id p ≡ ok p')
    unfolding preprocess_int
    preprocess_int_ok ints =
        let main = int_unit flight ints in
        let ws = take (numel_to_process q id) (drop (numel_offset q id) q.slice.in_words) in
        let size : length (convert ar vcl ws) ≡ numel_to_process q id =
          length-convert ar vcl permutes ws ∙ loaded_size q known.shape id main in
        let fits : 0 + length (convert ar vcl ws) ≤ length p.entries =
          omega (arith, enough ar vcl permutes q known.shape id main p.entries room) in
        (
          _,
          bind_ok _ (load_ok q known.shape id main)
              (bind_ok _ (write_lem p.entries 0 (convert ar vcl ws) fits) refl),
        )

    dequantizes :
        q.slice.data_type ≡ float32
        → q.batch_num_ltus ≤ id
        → (q' : Quantizer) × (dequantize_ltu ar vcl q (id - q.batch_num_ltus) p.entries ≡ ok q')
          × Known ar vcl answers q'
          × (q'.slice.data_type ≡ float32)
    unfolding dequantize_ltu stored
    dequantizes floats later =
        let (e, found) = flight.follows later in
        let main = main_unit flight floats later in
        let factor = scaling_factor ar q.num_workers e in
        let (ws, done, shape) =
          stores ar vcl permutes q known.shape (id - q.batch_num_ltus) main p.entries room
            (dequantize ar vcl factor) (length-dequantize ar vcl permutes factor) in
        (
          stored q known.shape (id - q.batch_num_ltus) main ws,
          bind_ok _ (factor_eq ar vcl (id - q.batch_num_ltus) e known floats main found) done,
          Known-stored ar vcl id e known (id - q.batch_num_ltus) main ws shape,
          floats,
        )

    postprocess_float_ok :
        q.slice.data_type ≡ float32
        → (q' : Quantizer) × (postprocess_float ar vcl q id p ≡ ok q')
          × Known ar vcl ((id, p.exponent) ∷ answers) q'
    unfolding postprocess_float
    postprocess_float_ok floats = elim (Bool-cases (ltb id q.batch_num_ltus)) [
      | inl first ↦
          (_, bind_ok _ (if_true _ first) refl, Known-factor ar vcl id p.exponent known floats)
      | inr later ↦
          let (q', done, known', floats') = dequantizes floats (ltb→le _ _ later) in
          (
            _,
            bind_ok _ (if_false _ later ∙ done) refl,
            Known-factor ar vcl id p.exponent known' floats',
          )
    ]

    postprocess_int_ok :
        q.slice.data_type ≡ int32
        → (q' : Quantizer) × (postprocess_int ar vcl q id p ≡ ok q')
          × Known ar vcl ((id, p.exponent) ∷ answers) q'
    unfolding postprocess_int stored
    postprocess_int_ok ints =
        let main = int_unit flight ints in
        let (ws, done, shape) =
          stores ar vcl permutes q known.shape id main p.entries room (convert ar vcl)
            (length-convert ar vcl permutes) in
        (
          stored q known.shape id main ws,
          done,
          Known-ints ar vcl id p.exponent (Known-stored ar vcl id p.exponent known id main ws shape)
              ints,
        )

    preprocess_ok :
        (d : DataType)
        → q.slice.data_type ≡ d
        → (p' : Packet) × (preprocess_as ar vcl d q id p ≡ ok p')
    unfolding preprocess_as
    preprocess_ok float32 is = preprocess_float_ok is
    preprocess_ok int32 is = preprocess_int_ok is

    postprocess_ok :
        (d : DataType)
        → q.slice.data_type ≡ d
        → (q' : Quantizer) × (postprocess_as ar vcl d q id p ≡ ok q')
          × Known ar vcl ((id, p.exponent) ∷ answers) q'
    unfolding postprocess_as
    postprocess_ok float32 is = postprocess_float_ok is
    postprocess_ok int32 is = postprocess_int_ok is

    Known-postprocess :
        {q' : Quantizer}
        → postprocess_single ar vcl q id p ≡ ok q'
        → Known ar vcl ((id, p.exponent) ∷ answers) q'
    unfolding postprocess_single
    Known-postprocess made =
        let (r, done, known') = postprocess_ok q.slice.data_type refl in
        subst (Known ar vcl ((id, p.exponent) ∷ answers)) (ok_inj (sym done ∙ made)) known'
      where
        ok_inj : {a b : Quantizer} → ok a ≡ ok b → a ≡ b
        ok_inj h = cc

  module _ (permutes : Permutes ar) (q0 : Quantizer) (slice : Slice) (element : 4 ≤ q0.ltu_size)
      (in_size : length slice.in_words ≡ slice.numel)
      (out_size : length slice.out_words ≡ slice.numel)
      (fits : slice.numel * 4 + q0.ltu_size ≤ u64_mod) where
    Reach-Known :
        {answers : List (ℕ × ℕ)} {q : Quantizer}
        → Reach ar vcl (setup_job_slice q0 slice) answers q
        → Known ar vcl answers q
    Reach-Known set_up =
        Known-setup ar vcl q0 slice (setup-Shape q0 slice element in_size out_size fits)
    Reach-Known (answered id p r flight room made) =
        Known-postprocess permutes id p (Reach-Known r) flight room made

-- After SetupJobSlice for a tensor with all its elements, and in any order of the packets in which one
-- follows the answer to the packet a batch before it in its slot, PreprocessSingle and PostprocessSingle
-- return for every packet in flight that has room for a unit: no access leaves the tensor, the packet or
-- the array of scaling factors, and no scaling factor is read before it is assigned. Units hold an
-- element or more, the tensor's bytes rounded up to units are below 2 ^ 64, and `permute64` permutes.
pub never_undefined :
    (ar : Arithmetic) (vcl : Bool) (q0 : Quantizer) (slice : Slice) (id : ℕ) (p : Packet)
    {answers : List (ℕ × ℕ)} {q : Quantizer}
    → Permutes ar
    → 4 ≤ q0.ltu_size
    → length slice.in_words ≡ slice.numel
    → length slice.out_words ≡ slice.numel
    → slice.numel * 4 + q0.ltu_size ≤ u64_mod
    → Reach ar vcl (setup_job_slice q0 slice) answers q
    → InFlight q answers id
    → ltu_numel q ≤ length p.entries
    → ((p' : Packet) × (preprocess_single ar vcl q id p ≡ ok p'))
      × ((q' : Quantizer) × (postprocess_single ar vcl q id p ≡ ok q'))
unfolding preprocess_single postprocess_single
never_undefined ar vcl q0 slice id p {answers} {q} permutes element in_size out_size fits r flight
      room =
    let known = Reach-Known ar vcl permutes q0 slice element in_size out_size fits r in
    let (q', done, known') =
      postprocess_ok ar vcl permutes id p known flight room q.slice.data_type refl in
    (preprocess_ok ar vcl permutes id p known flight room q.slice.data_type refl, (q', done))

-- After SetupJobSlice for a tensor with all its elements, and in any order of the packets in which one
-- follows the answer to the packet a batch before it in its slot, the scaling factor of every answered unit
-- of floats is the one that the exponent in its latest answer gives. Units hold an element or more, the
-- tensor's bytes rounded up to units are below 2 ^ 64, and `permute64` permutes.
pub factor_lem :
    (ar : Arithmetic) (vcl : Bool) (q0 : Quantizer) (slice : Slice) (k e : ℕ)
    {answers : List (ℕ × ℕ)} {q : Quantizer}
    → Permutes ar
    → 4 ≤ q0.ltu_size
    → length slice.in_words ≡ slice.numel
    → length slice.out_words ≡ slice.numel
    → slice.numel * 4 + q0.ltu_size ≤ u64_mod
    → Reach ar vcl (setup_job_slice q0 slice) answers q
    → q.slice.data_type ≡ float32
    → k < q.total_main_num_ltus
    → lookup answers k ≡ some e
    → factor_at q.scaling_factors k ≡ ok (scaling_factor ar q.num_workers e)
factor_lem ar vcl q0 slice k e permutes element in_size out_size fits r floats main found =
    factor_eq ar vcl k e (Reach-Known ar vcl permutes q0 slice element in_size out_size fits r)
      floats main found
