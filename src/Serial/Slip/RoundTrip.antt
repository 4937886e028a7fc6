-- ===== src/Serial/Slip/RoundTrip.antt =====
-- ports/serial/xfer.c: what `slip_out` writes, `slip_unwrap` reads.
use Prim.Native.Nat.{bit_and}
use stin_g.Prelude.{
  ℕ, ◌<◌, ◌≡◌, ◌≢◌, ◌⊎◌, refl, true, false, inl, inr, List, [], ◌∷◌, ◌++◌, arith, Bool-cases, leb,
  ◌==◌, ap, all_below, all_below_sound, sym, ==_iff, ne→==, else_side,
}
use mathlib.Core.Path.{subst}
use stin_g.Serial.Slip.{
  slip_end, slip_esc, slip_datend, slip_datesc, slip_out, unescape, slip_unwrap, past_end, typed,
  vjhc_type_ip,
}

-- No byte of a list is the mark.
abbrev pub Unmarked : ℕ → List ℕ → Type 0
Unmarked mark [] = Unit
Unmarked mark (b ∷ bs) = (b ≢ mark) × Unmarked mark bs

slip_out_step :
    (b : ℕ) (bs : List ℕ)
    → ((b ≡ slip_end) × (slip_out (b ∷ bs) ≡ slip_esc ∷ slip_datend ∷ slip_out bs))
      ⊎ ((b ≡ slip_esc) × (slip_out (b ∷ bs) ≡ slip_esc ∷ slip_datesc ∷ slip_out bs))
      ⊎ ((b ≢ slip_end) × (b ≢ slip_esc) × (slip_out (b ∷ bs) ≡ b ∷ slip_out bs))
unfolding slip_out
slip_out_step b bs = ground arith

slip_out_nil : slip_out [] ≡ []
unfolding slip_out
slip_out_nil = refl

pub slip_out-append : (xs ys : List ℕ) → slip_out (xs ++ ys) ≡ slip_out xs ++ slip_out ys
unfolding slip_out
slip_out-append [] ys = refl
slip_out-append (b ∷ xs) ys =
    let ih = slip_out-append xs ys in
    elim (Bool-cases (b == slip_end)) [
      | inl e ↦ rw (e, ih) refl
      | inr n ↦ elim (Bool-cases (b == slip_esc)) [
        | inl e ↦ rw (n, e, ih) refl
        | inr m ↦ rw (n, m, ih) refl
      ]
    ]

pub slip_out-Unmarked : (bs : List ℕ) → Unmarked slip_end (slip_out bs)
slip_out-Unmarked [] = subst (Unmarked slip_end) (sym slip_out_nil) tt
slip_out-Unmarked (b ∷ bs) = elim (slip_out_step b bs) [
  | inl (_, e) ↦
      subst (Unmarked slip_end) (sym e)
        ((λ f. absurd (omega (arith, f))), ((λ f. absurd (omega (arith, f))), slip_out-Unmarked bs))
  | inr (inl (_, e)) ↦
      subst (Unmarked slip_end) (sym e)
        ((λ f. absurd (omega (arith, f))), ((λ f. absurd (omega (arith, f))), slip_out-Unmarked bs))
  | inr (inr (n, m, e)) ↦ subst (Unmarked slip_end) (sym e) (n, slip_out-Unmarked bs)
]

unescape-slip_out : (bs : List ℕ) → unescape false (slip_out bs) ≡ (bs, false)
unfolding slip_out unescape
unescape-slip_out [] = refl
unescape-slip_out (b ∷ bs) =
    let ih = unescape-slip_out bs in
    elim (Bool-cases (b == slip_end)) [
      | inl e ↦ rw (e, ih) (ap (λ k. (k ∷ bs, false)) (sym ((==_iff b slip_end).0 e)))
      | inr n ↦ elim (Bool-cases (b == slip_esc)) [
        | inl e ↦ rw (n, e, ih) (ap (λ k. (k ∷ bs, false)) (sym ((==_iff b slip_esc).0 e)))
        | inr m ↦ rw (n, m, m, ih) refl
      ]
    ]

past_end-Unmarked : (bs : List ℕ) → Unmarked slip_end bs → past_end bs ≡ bs
past_end-Unmarked [] u = refl
past_end-Unmarked (b ∷ bs) u = rw (ne→== b slip_end u.0) refl

high_bit_table : all_below 0x70 (λ b. bit_and b 0x80 == 0) ≡ true
high_bit_table = refl

typed_ip : (b : ℕ) (bs : List ℕ) → b < 0x70 → typed b (b ∷ bs, false) ≡ (vjhc_type_ip, b ∷ bs)
typed_ip b bs h =
    rw (all_below_sound 0x70 (λ b. bit_and b 0x80 == 0) b high_bit_table h)
      (else_side (leb 0x70 b) _ _ (ground arith))

-- A datagram whose first byte has the version of IP comes back as one that is not compressed.
pub slip_unwrap-slip_out :
    (b : ℕ) (bs : List ℕ) → b < 0x70 → slip_unwrap (slip_out (b ∷ bs)) ≡ (vjhc_type_ip, b ∷ bs)
unfolding slip_unwrap
slip_unwrap-slip_out b bs h =
    rw
      (
        past_end-Unmarked (slip_out (b ∷ bs)) (slip_out-Unmarked (b ∷ bs)),
        unescape-slip_out (b ∷ bs),
      )
      (typed_ip b bs h)
