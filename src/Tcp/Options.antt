-- ===== src/Tcp/Options.antt =====
-- proto/tcp/tool.c: `process_options`, the walk over the options of a TCP header.
use stin_g.Prelude.{
  ℕ, zero, suc, ◌+◌, ◌-◌, ◌*◌, ◌≤◌, ◌<◌, ◌≡◌, ◌≢◌, refl, not, Option, none, some, some_inj,
  Bool-cases, List, [], ◌∷◌, arith, inl, inr, ◌&&◌, lt→ltb, le→ltb, ne→==, ltb, ◌==◌, if◌then◌else◌,
  Bool-cases,
}
use native.Mathlib.Decide.{dec_lt}
use stin_g.Tcp.Defs.{Dgram, Connec}

-- A byte of a packet; what lies behind its end reads as 0.
abbrev pub byte_at : List ℕ → ℕ → ℕ
byte_at [] i = 0
byte_at (x ∷ xs) zero = x
byte_at (x ∷ xs) (suc i) = byte_at xs i

-- The maximum segment size after the option at `work`, and how far it is to the next one.
pub option_mss : List ℕ → ℕ → ℕ → ℕ
option_mss p work mss =
    let new_mss = byte_at p (work + 2) * 0x100 + byte_at p (work + 3) in
    if byte_at p work == 2 && ltb new_mss mss then new_mss else mss

unfoldable pub option_step : List ℕ → ℕ → ℕ
option_step p work = if byte_at p work == 1 then 1 else byte_at p (work + 1)

-- The loop, on fuel: `work` and `limit` are places in the packet, and the result is the maximum
-- segment size. `none` means that the fuel ran out.
unfoldable pub options_loop : ℕ → List ℕ → ℕ → ℕ → ℕ → Option ℕ
unfolding option_mss option_step
options_loop zero p limit work mss = none
options_loop (suc fuel) p limit work mss =
    let rest = options_loop fuel p limit (work + option_step p work) (option_mss p work mss) in
    if not (ltb work limit) then some mss else if byte_at p work == 0 then some mss else rest

-- `process_options` changes the maximum segment size of a connection, and nothing else.
unfoldable pub process_options : ℕ → Connec → Dgram → Option Connec
unfolding options_loop
process_options fuel c d = elim (options_loop fuel d.pkt_data (d.tcp.offset * 4) 20 c.mss) [
  | none ↦ none
  | some mss ↦ some (record c { mss = mss })
]

-- The places that the walk from `work` visits.
pub data Visits (p : List ℕ) (limit : ℕ) : ℕ → ℕ → Type 0 where
  here : {work : ℕ} → Visits p limit work work
  further :
      {work i : ℕ}
      → work < limit
      → byte_at p work ≢ 0
      → Visits p limit (work + option_step p work) i
      → Visits p limit work i

-- An option at `i` whose length is 0.
abbrev pub IsStuck : List ℕ → ℕ → ℕ → Type 0
IsStuck p limit i = (i < limit) × (1 < byte_at p i) × (byte_at p (i + 1) ≡ 0)

step-pos :
    (p : List ℕ) (limit work : ℕ)
    → ¬ IsStuck p limit work
    → work < limit
    → byte_at p work ≢ 0
    → 0 < option_step p work
unfolding option_step
step-pos p limit work h lt ne = grind arith

option_mss-le : (p : List ℕ) (work mss : ℕ) → option_mss p work mss ≤ mss
unfolding option_mss
option_mss-le p work mss = ground arith

-- The walk does not make the maximum segment size larger.
pub options_loop-le :
    (fuel : ℕ) (p : List ℕ) (limit work mss m : ℕ)
    → options_loop fuel p limit work mss ≡ some m
    → m ≤ mss
unfolding options_loop
options_loop-le zero p limit work mss m e = absurd cc
options_loop-le (suc fuel) p limit work mss m e = elim (Bool-cases (not (ltb work limit))) [
  | inl out ↦ omega (arith, some_inj (rw out at e))
  | inr inn ↦ elim (Bool-cases (byte_at p work == 0)) [
    | inl end ↦ omega (arith, some_inj (rw (inn, end) at e))
    | inr more ↦ omega (
      arith,
      option_mss-le p work mss,
      options_loop-le fuel p limit (work + option_step p work) (option_mss p work mss) m
          (rw (inn, more) at e),
    )
  ]
]

-- The walk over the options of a header ends, if it visits no option whose length is 0, within as
-- many rounds as there are bytes, and the maximum segment size that it gives is not above the old
-- one.
pub options_loop_total :
    (fuel : ℕ) (p : List ℕ) (limit work mss : ℕ)
    → limit - work < fuel
    → ((i : ℕ) → Visits p limit work i → ¬ IsStuck p limit i)
    → (m : ℕ) × (options_loop fuel p limit work mss ≡ some m) × (m ≤ mss)
unfolding options_loop
options_loop_total zero p limit work mss lt h = absurd (omega arith)
options_loop_total (suc fuel) p limit work mss lt h = elim (dec_lt work limit) [
  | no out ↦ (mss, rw (le→ltb work limit (omega arith)), omega arith)
  | yes inn ↦ elim (Bool-cases (byte_at p work == 0)) [
    | inl end ↦ (mss, rw (lt→ltb work limit inn, end), omega arith)
    | inr more ↦
        let ne : byte_at p work ≢ 0 = ground (arith, more) in
        let s = step-pos p limit work (h work here) inn ne in
        let (m, e, b) =
          options_loop_total fuel p limit (work + option_step p work) (option_mss p work mss)
            (omega arith) (λ i v. h i (further inn ne v)) in
        (m, rw (lt→ltb work limit inn, more) e, omega (arith, option_mss-le p work mss))
  ]
]

stuck_here :
    (fuel : ℕ) (p : List ℕ) (limit work mss : ℕ)
    → IsStuck p limit work
    → options_loop fuel p limit work mss ≡ none
unfolding options_loop
stuck_here zero p limit work mss s = refl
stuck_here (suc fuel) p limit work mss s =
    let e : option_step p work ≡ 0 = ground (arith, option_step) in
    let z : work + 0 ≡ work = omega arith in
    rw (lt→ltb work limit s.0, ne→== (byte_at p work) 0 (omega arith), e, z)
      (stuck_here fuel p limit work (option_mss p work mss) s)

-- Once the walk over the options comes to an option whose length is 0, it stays there, whatever
-- the fuel.
pub options_loop_hangs :
    (fuel : ℕ) (p : List ℕ) (limit work i mss : ℕ)
    → Visits p limit work i
    → IsStuck p limit i
    → options_loop fuel p limit work mss ≡ none
unfolding options_loop
options_loop_hangs zero p limit work i mss v s = refl
options_loop_hangs (suc fuel) p limit work i mss here s = stuck_here (suc fuel) p limit work mss s
options_loop_hangs (suc fuel) p limit work i mss (further lt ne v) s =
    rw (lt→ltb work limit lt, ne→== (byte_at p work) 0 ne)
      (options_loop_hangs fuel p limit (work + option_step p work) i (option_mss p work mss) v s)
