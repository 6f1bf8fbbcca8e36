-- ===== src/Quantizer/Vectors.antt =====
-- The vector operations that cpu_exponent_quantizer_ppp.cc uses where it is built with VCL, which are
-- those of Agner Fog's vector class library: a parameter, with what its manual says of `permute64`.
-- A `Vec64c` is 64 bytes, a `Vec16f` and a `Vec16i` 16 words; loads and stores are little-endian.
use p4app_switch_ml.Prelude.{
  take, drop, length-take, length-drop, map-append, take-drop, All-take, All-drop, ℕ, zero, suc,
  ◌+◌, ◌*◌, ◌/◌, ◌%◌, ◌^◌, ◌≤◌, ◌<◌, ◌≡◌, refl, sym, ap, ◌∙◌, List, [], ◌∷◌, ◌++◌, map, length,
  arith, u32_mod, All,
}

-- `htonl` and `ntohl` on a little-endian host.
unfoldable pub htonl : ℕ → ℕ
htonl w = w / 2 ^ 24 % 256 + w / 2 ^ 16 % 256 * 256 + w / 2 ^ 8 % 256 * 2 ^ 16 + w % 256 * 2 ^ 24

pub htonl-htonl : (w : ℕ) → w < u32_mod → htonl (htonl w) ≡ w
unfolding htonl
htonl-htonl w h = omega (arith, h)

-- The bytes of words in memory, and the words that stand there.
abbrev pub bytes_of : List ℕ → List ℕ
bytes_of [] = []
bytes_of (w ∷ ws) = w % 256 ∷ w / 2 ^ 8 % 256 ∷ w / 2 ^ 16 % 256 ∷ w / 2 ^ 24 % 256 ∷ bytes_of ws

abbrev pub words_of : List ℕ → List ℕ
words_of (a ∷ b ∷ c ∷ d ∷ bs) = (a + b * 256 + c * 2 ^ 16 + d * 2 ^ 24) ∷ words_of bs
words_of _ = []

-- `ENDIANESS_CONVERSION`.
abbrev pub endianess_conversion : List ℕ
endianess_conversion =
    3 ∷ 2 ∷ 1 ∷ 0 ∷ 7 ∷ 6 ∷ 5 ∷ 4 ∷ 11 ∷ 10 ∷ 9 ∷ 8 ∷ 15 ∷ 14 ∷ 13 ∷ 12 ∷ 19 ∷ 18 ∷ 17 ∷ 16 ∷ 23
    ∷ 22 ∷ 21 ∷ 20 ∷ 27 ∷ 26 ∷ 25 ∷ 24 ∷ 31 ∷ 30 ∷ 29 ∷ 28 ∷ 35 ∷ 34 ∷ 33 ∷ 32 ∷ 39 ∷ 38 ∷ 37 ∷ 36
    ∷ 43 ∷ 42 ∷ 41 ∷ 40 ∷ 47 ∷ 46 ∷ 45 ∷ 44 ∷ 51 ∷ 50 ∷ 49 ∷ 48 ∷ 55 ∷ 54 ∷ 53 ∷ 52 ∷ 59 ∷ 58 ∷ 57
    ∷ 56 ∷ 63 ∷ 62 ∷ 61 ∷ 60 ∷ []

-- The byte at an index; `permute64` has indices below 64 only.
abbrev pub nth : List ℕ → ℕ → ℕ
nth [] i = 0
nth (b ∷ bs) zero = b
nth (b ∷ bs) (suc i) = nth bs i

-- A loop over blocks of 16, with the remainder one by one: `m` blocks are left.
abbrev pub blocks : (List ℕ → List ℕ) → (ℕ → ℕ) → ℕ → List ℕ → List ℕ
blocks block single zero ws = map single ws
blocks block single (suc m) ws = block (take 16 ws) ++ blocks block single m (drop 16 ws)

-- The indices that turn round the bytes of each of `n` words, the first of which is word `k`.
endian_from : ℕ → ℕ → List ℕ
endian_from k zero = []
endian_from k (suc n) = (4 * k + 3) ∷ (4 * k + 2) ∷ (4 * k + 1) ∷ 4 * k ∷ endian_from (suc k) n

endianess_conversion_lem : endianess_conversion ≡ endian_from 0 16
unfolding endian_from
endianess_conversion_lem = refl

module _ (a b c d : ℕ) (bs : List ℕ) where
  nth_skip : (i j : ℕ) → j ≡ i + 4 → nth (a ∷ b ∷ c ∷ d ∷ bs) j ≡ nth bs i
  nth_skip i j e = rw (e, shape) refl
    where
      shape : i + 4 ≡ suc (suc (suc (suc i)))
      shape = omega arith

  skip_word :
      (k n : ℕ)
      → map (nth (a ∷ b ∷ c ∷ d ∷ bs)) (endian_from (suc k) n) ≡ map (nth bs) (endian_from k n)
  unfolding endian_from
  skip_word k zero = refl
  skip_word k (suc n) =
      rw
        (
          nth_skip (4 * k + 3) (4 * suc k + 3) (omega arith),
          nth_skip (4 * k + 2) (4 * suc k + 2) (omega arith),
          nth_skip (4 * k + 1) (4 * suc k + 1) (omega arith),
          nth_skip (4 * k) (4 * suc k) (omega arith),
          skip_word (suc k) n,
        )
        refl

-- The permuted bytes of words are the words with their bytes turned round.
turn_words :
    (ws : List ℕ) → words_of (map (nth (bytes_of ws)) (endian_from 0 (length ws))) ≡ map htonl ws
unfolding endian_from htonl
turn_words [] = refl
turn_words (w ∷ ws) =
    rw
      (
        skip_word (w % 256) (w / 2 ^ 8 % 256) (w / 2 ^ 16 % 256) (w / 2 ^ 24 % 256) (bytes_of ws) 0
            (length ws),
        turn_words ws,
      )
      (ap (λ x. x ∷ map htonl ws) (omega arith))

-- A loop over blocks does what the loop over single words does, where a block does.
pub blocks-map :
    (P : ℕ → Type 0) (block : List ℕ → List ℕ) (single : ℕ → ℕ)
    → ((b : List ℕ) → length b ≡ 16 → All P b → block b ≡ map single b)
    → (m : ℕ) (ws : List ℕ) → m * 16 ≤ length ws
    → All P ws
    → blocks block single m ws ≡ map single ws
blocks-map P block single same zero ws h a = refl
blocks-map P block single same (suc m) ws h a =
    let rest = length-drop 16 ws in
    rw
      (
        same (take 16 ws) (length-take 16 ws (omega arith)) (All-take P 16 ws a),
        blocks-map P block single same m (drop 16 ws) (omega (arith, rest)) (All-drop P 16 ws a),
        sym (map-append single (take 16 ws) (drop 16 ws)),
        take-drop 16 ws,
      )
      refl

-- Single-precision numbers by their bit patterns, as the compiler and the vector library compute
-- with them. An `int8_t` and an `int32_t` are their bit patterns too.
pub record Arithmetic : Type 0 where
  pub mul : ℕ → ℕ → ℕ
  pub div : ℕ → ℕ → ℕ
  -- `uint32_t(std::round(x))`, and `roundi` on a lane.
  pub round_to_u32 : ℕ → ℕ
  pub roundi : ℕ → ℕ
  -- A conversion from `int32_t`.
  pub to_float : ℕ → ℕ
  -- `powf(2, e)` of an `int8_t`, a `uint16_t` times a float, and `double(INT32_MAX) / f` as a float.
  pub powf_2 : ℕ → ℕ
  pub times : ℕ → ℕ → ℕ
  pub int32_max_over : ℕ → ℕ
  pub permute64 : List ℕ → List ℕ → List ℕ
  -- `max` on a lane.
  pub lane_max : ℕ → ℕ → ℕ
  pub horizontal_max : List ℕ → ℕ

-- `permute64<i0, ..., i63>(v)` has byte `v[ik]` at `k`.
abbrev pub Permutes : Arithmetic → Type 0
Permutes ar = (indices bytes : List ℕ) → ar.permute64 indices bytes ≡ map (nth bytes) indices

-- `permute64<ENDIANESS_CONVERSION>` between a load and a store.
unfoldable pub permute_block : Arithmetic → List ℕ → List ℕ
permute_block ar ws = words_of (ar.permute64 endianess_conversion (bytes_of ws))

pub permute_block_lem :
    (ar : Arithmetic)
    → Permutes ar
    → (b : List ℕ) → length b ≡ 16
    → permute_block ar b ≡ map htonl b
unfolding permute_block
permute_block_lem ar permutes b size =
    let turned : List ℕ → List ℕ = λ indices. words_of (map (nth (bytes_of b)) indices) in
    ap words_of (permutes endianess_conversion (bytes_of b))
    ∙ ap turned endianess_conversion_lem
    ∙ ap (λ n. turned (endian_from 0 n)) (sym size)
    ∙ turn_words b
