-- ===== src/Sting/Memory.antt =====
-- sting/setup.c: what `KRrealloc` does to the contents of a block.
use stin_g.Prelude.{ℕ, ◌+◌, ◌-◌, ◌*◌, ◌/◌, Bool, Option, none, some, ltb, if◌then◌else◌}

-- A block: its size in units of 8 bytes, the header counted, and its contents. An element is a byte,
-- or a bit where the program uses the block as a table of bits; `per` are the elements of a byte.
pub record Block {ℓ} (A : Type ℓ) : Type ℓ where
  pub units : ℕ
  pub at : ℕ → A

abbrev pub units_for : ℕ → ℕ
units_for size = (size + 7) / 8 + 1

-- `KRrealloc` to a size that is not 0. `some_memory` is the answer of `KRmalloc` where it is called,
-- and `junk` what its memory holds. A block that grows is cleared behind the old one.
unfoldable pub krrealloc {ℓ} :
    {A : Type ℓ} → ℕ → A → Bool → (ℕ → A) → Option (Block A) → ℕ → Option (Block A)
krrealloc per zero some_memory junk none size =
    if some_memory
    then some
        (record { units = units_for size; at = λ i. if ltb i (per * size) then zero else junk i })
    else none
krrealloc per zero some_memory junk (some b) size =
    if ltb b.units (units_for size)
    then (if some_memory
        then some (record {
          units = units_for size;
          at = λ i. if ltb i (per * ((b.units - 1) * 8)) then b.at i else zero;
        })
        else none)
    else some (record { units = units_for size; at = b.at })
