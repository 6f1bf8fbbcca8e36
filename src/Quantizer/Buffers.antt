-- ===== src/Quantizer/Buffers.antt =====
-- The buffers that the loops of cpu_exponent_quantizer_ppp.cc read and fill, as lists of 32-bit words.
-- An access past the end of a buffer is undefined.
use p4app_switch_ml.Prelude.{
  take, drop, length-take, length-drop, ℕ, ◌+◌, ◌≤◌, ◌≡◌, sym, ◌∙◌, List, ◌++◌, leb, true,
  if◌then◌else◌, length, length-append, if_true, if_false, Bool-cases, inl, inr, arith,
}
use p4app_switch_ml.Outcome.{Outcome, ok, crash, undefined}

le→leb : (a b : ℕ) → a ≤ b → leb a b ≡ true
le→leb a b h = ground arith

module _ {ℓ} {A : Type ℓ} where
  -- A loop that reads `n` elements from an offset on, and one that writes those of `ws`.
  unfoldable pub read : List A → ℕ → ℕ → Outcome (List A)
  read buf offset n =
      if leb (offset + n) (length buf) then ok (take n (drop offset buf)) else crash undefined

  unfoldable pub write : List A → ℕ → List A → Outcome (List A)
  write buf offset ws =
      if leb (offset + length ws) (length buf)
      then ok (take offset buf ++ (ws ++ drop (offset + length ws) buf))
      else crash undefined

  pub read_lem :
      (buf : List A) (offset n : ℕ)
      → offset + n ≤ length buf
      → read buf offset n ≡ ok (take n (drop offset buf))
  unfolding read
  read_lem buf offset n h = if_true _ (le→leb (offset + n) (length buf) h)

  pub write_lem :
      (buf : List A) (offset : ℕ) (ws : List A)
      → offset + length ws ≤ length buf
      → write buf offset ws ≡ ok (take offset buf ++ (ws ++ drop (offset + length ws) buf))
  unfolding write
  write_lem buf offset ws h = if_true _ (le→leb (offset + length ws) (length buf) h)

  pub length-write :
      (buf : List A) (offset : ℕ) (ws : List A)
      → offset + length ws ≤ length buf
      → length (take offset buf ++ (ws ++ drop (offset + length ws) buf)) ≡ length buf
  length-write buf offset ws h =
      let front = length-take offset buf (omega arith) in
      let back = length-drop (offset + length ws) buf in
      rw
        (
          length-append (take offset buf) (ws ++ drop (offset + length ws) buf),
          length-append ws (drop (offset + length ws) buf),
        )
        (omega arith)

  pub read-parts :
      (buf : List A) (offset n : ℕ) {ws : List A}
      → read buf offset n ≡ ok ws
      → take n (drop offset buf) ≡ ws
  unfolding read
  read-parts buf offset n h = elim (Bool-cases (leb (offset + n) (length buf))) [
    | inl e ↦ ok_inj (sym (if_true _ e) ∙ h)
    | inr e ↦ absurd (not_ok (sym (if_false _ e) ∙ h))
  ]
    where
      ok_inj : {a b : List A} → ok a ≡ ok b → a ≡ b
      ok_inj h = cc

      not_ok : {a : List A} → crash undefined ≡ ok a → ⊥
      not_ok h = cc
