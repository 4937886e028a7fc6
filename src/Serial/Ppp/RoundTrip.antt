-- ===== src/Serial/Ppp/RoundTrip.antt =====
-- ports/serial/xfer.c: what `ppp_out` writes, `ppp_unwrap` reads.
use Prim.Native.Nat.{bit_xor}
use stin_g.Prelude.{
  ℕ, ◌<◌, ◌≤◌, ◌≡◌, ◌≢◌, refl, sym, ap, ◌∙◌, true, false, inl, inr, not, ◌||◌, ◌&&◌, List, [], ◌∷◌,
  ◌++◌, some, arith, Bool-cases, all_below, all_below_sound, ltb, ◌==◌, ne→==, lt→ltb, either_side,
}
use stin_g.Serial.Slip.RoundTrip.{Unmarked}
use mathlib.Core.List.{append_assoc}
use stin_g.Serial.Ppp.{ppp_flag, ppp_esc, fcs_step, in_accm, escaped, ppp_out, written, read_frame}

abbrev pub AllBytes : List ℕ → Type 0
AllBytes [] = Unit
AllBytes (b ∷ bs) = (b < 256) × AllBytes bs

-- Every control character that one side passes over, the other side escapes.
abbrev pub Covered : ℕ → ℕ → Type 0
Covered recve_accm send_accm =
    (b : ℕ) → b < 32 → in_accm recve_accm b ≡ true → in_accm send_accm b ≡ true

toggle_table :
    all_below 256
      (λ b. bit_xor (bit_xor b 0x20) 0x20 == b && (not (bit_xor b 0x20 == ppp_flag) || b == 0x5e))
    ≡ true
toggle_table = refl

toggled :
    (b : ℕ)
    → b < 256
    → b ≢ 0x5e
    → (bit_xor (bit_xor b 0x20) 0x20 ≡ b) × ((bit_xor b 0x20 == ppp_flag) ≡ false)
toggled b h n =
    let t =
      all_below_sound 256
        (λ b. bit_xor (bit_xor b 0x20) 0x20 == b && (not (bit_xor b 0x20 == ppp_flag) || b == 0x5e))
        b toggle_table h in
    (ground (arith, t), ground (arith, t, n))

read-escape :
    (accm fcs b : ℕ) (rest : List ℕ)
    → b < 256
    → b ≢ 0x5e
    → read_frame accm false fcs (ppp_esc ∷ bit_xor b 0x20 ∷ rest)
      ≡ written b (read_frame accm false (fcs_step fcs b) rest)
unfolding read_frame
read-escape accm fcs b rest h n = let (e, f) = toggled b h n in rw (f, e) refl

read-plain :
    (accm fcs b : ℕ) (rest : List ℕ)
    → b ≢ ppp_esc
    → (ltb b 32 && in_accm accm b) ≡ false
    → read_frame accm false fcs (b ∷ rest) ≡ written b (read_frame accm false (fcs_step fcs b) rest)
unfolding read_frame
read-plain accm fcs b rest n s = rw (s, ne→== b ppp_esc n) refl

not_skipped :
    (recve_accm send_accm b : ℕ)
    → Covered recve_accm send_accm
    → b < 32
    → in_accm send_accm b ≡ false
    → (ltb b 32 && in_accm recve_accm b) ≡ false
not_skipped ra sa b c h e = elim (Bool-cases (in_accm ra b)) [
  | inl f ↦ absurd (ground (arith, c b h f, e))
  | inr f ↦ rw (lt→ltb b 32 h, f) refl
]

read-nil : (accm fcs : ℕ) → read_frame accm false fcs [] ≡ some ([], fcs)
unfolding read_frame
read-nil accm fcs = refl

-- One byte.
read-escaped :
    (recve_accm send_accm fcs b : ℕ) (rest : List ℕ)
    → b < 256
    → Covered recve_accm send_accm
    → read_frame recve_accm false fcs (escaped send_accm b ++ rest)
      ≡ written b (read_frame recve_accm false (fcs_step fcs b) rest)
unfolding escaped
read-escaped ra sa fcs b rest h c = elim (Bool-cases (ltb b 32)) [
  | inl low ↦
      let lt : b < 32 = ground (arith, low) in
      elim (Bool-cases (in_accm sa b)) [
        | inl i ↦ rw (low, i) (read-escape ra fcs b rest h (λ e. absurd (omega (arith, e, lt))))
        | inr i ↦
            rw (low, i)
              (read-plain ra fcs b rest (λ e. absurd (omega (arith, e, lt)))
                (not_skipped ra sa b c lt i))
      ]
  | inr high ↦
      let le : 32 ≤ b = ground (arith, high) in
      elim (Bool-cases (b == ppp_flag || b == ppp_esc)) [
        | inl m ↦ rw (high, m) (read-escape ra fcs b rest h (λ e. absurd (ground (arith, m, e))))
        | inr m ↦
            rw (high, m)
              (read-plain ra fcs b rest (λ e. absurd (ground (arith, m, e))) (rw high refl))
      ]
]

-- All that goes out for some bytes, and the check sequence behind them.
abbrev pub escape_all : ℕ → List ℕ → List ℕ
escape_all accm [] = []
escape_all accm (b ∷ bs) = escaped accm b ++ escape_all accm bs

abbrev pub fcs_after : ℕ → List ℕ → ℕ
fcs_after fcs [] = fcs
fcs_after fcs (b ∷ bs) = fcs_after (fcs_step fcs b) bs

pub ppp_out_lem :
    (fcs accm : ℕ) (bs : List ℕ) → ppp_out fcs accm bs ≡ (escape_all accm bs, fcs_after fcs bs)
unfolding ppp_out
ppp_out_lem fcs accm [] = refl
ppp_out_lem fcs accm (b ∷ bs) = rw (ppp_out_lem (fcs_step fcs b) accm bs) refl

pub escape_all-append :
    (accm : ℕ) (xs ys : List ℕ)
    → escape_all accm (xs ++ ys) ≡ escape_all accm xs ++ escape_all accm ys
escape_all-append accm [] ys = refl
escape_all-append accm (x ∷ xs) ys =
    ap (◌++◌ (escaped accm x)) (escape_all-append accm xs ys)
    ∙ sym (append_assoc (escaped accm x) (escape_all accm xs) (escape_all accm ys))

pub fcs_after-append :
    (fcs : ℕ) (xs ys : List ℕ) → fcs_after fcs (xs ++ ys) ≡ fcs_after (fcs_after fcs xs) ys
fcs_after-append fcs [] ys = refl
fcs_after-append fcs (x ∷ xs) ys = fcs_after-append (fcs_step fcs x) xs ys

pub read-escape_all :
    (recve_accm send_accm fcs : ℕ) (bs : List ℕ)
    → AllBytes bs
    → Covered recve_accm send_accm
    → read_frame recve_accm false fcs (escape_all send_accm bs) ≡ some (bs, fcs_after fcs bs)
read-escape_all ra sa fcs [] v c = read-nil ra fcs
read-escape_all ra sa fcs (b ∷ bs) v c =
    read-escaped ra sa fcs b (escape_all sa bs) v.0 c
    ∙ ap (written b) (read-escape_all ra sa (fcs_step fcs b) bs v.1 c)

Unmarked-append :
    (mark : ℕ) (xs ys : List ℕ) → Unmarked mark xs → Unmarked mark ys → Unmarked mark (xs ++ ys)
Unmarked-append mark [] ys u v = v
Unmarked-append mark (x ∷ xs) ys u v = (u.0, Unmarked-append mark xs ys u.1 v)

escaped-Unmarked : (accm b : ℕ) → b < 256 → Unmarked ppp_flag (escaped accm b)
unfolding escaped
escaped-Unmarked accm b h =
    let two : b ≢ 0x5e → Unmarked ppp_flag (ppp_esc ∷ bit_xor b 0x20 ∷ []) = λ n. (
      (λ e. absurd (omega (arith, e))),
      ((λ e. absurd (ground (arith, (toggled b h n).1, e))), tt),
    ) in
    elim (Bool-cases (ltb b 32)) [
      | inl low ↦ rw low (
          either_side (Unmarked ppp_flag) (in_accm accm b)
            (two (λ e. absurd (ground (arith, e, low))))
            ((λ e. absurd (ground (arith, e, low))), tt))
      | inr high ↦ elim (Bool-cases (b == ppp_flag || b == ppp_esc)) [
        | inl m ↦ rw (high, m) (two (λ e. absurd (ground (arith, m, e))))
        | inr m ↦ rw (high, m) ((λ e. absurd (ground (arith, m, e))), tt)
      ]
    ]

pub escape_all-Unmarked :
    (accm : ℕ) (bs : List ℕ) → AllBytes bs → Unmarked ppp_flag (escape_all accm bs)
escape_all-Unmarked accm [] v = tt
escape_all-Unmarked accm (b ∷ bs) v =
    Unmarked-append ppp_flag (escaped accm b) (escape_all accm bs) (escaped-Unmarked accm b v.0)
      (escape_all-Unmarked accm bs v.1)
