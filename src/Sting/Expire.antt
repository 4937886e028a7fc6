-- ===== src/Sting/Expire.antt =====
-- sting/kernel.c: the time to live of a datagram (`set_dgram_ttl`), and the walk of `clean_up` over
-- a queue, which takes out the datagrams whose time is over.
use stin_g.Prelude.{
  ℕ, ◌+◌, ◌-◌, ◌*◌, ◌%◌, ◌<◌, ◌≡◌, ◌↔◌, Bool, true, false, inl, inr, List, [], ◌∷◌, arith,
  Bool-cases, ltb, if◌then◌else◌, u32,
}
use stin_g.Sting.Clock.{max_clock, check_sequence}

-- `set_dgram_ttl`: the value of `timeout`.
pub set_dgram_ttl : ℕ → ℕ → ℕ
set_dgram_ttl clock ttl =
    let timeout = u32 (clock + ttl * 1000) in
    if ltb timeout max_clock then timeout else timeout - max_clock

abbrev pub is_over {ℓ} : {A : Type ℓ} → (A → ℕ) → ℕ → A → Bool
is_over timeout clock d = check_sequence (timeout d) clock

-- The loop over one queue: the datagrams that stay in it, and those that go, which are answered by
-- an ICMP message or dropped.
pub clean_queue {ℓ} : {A : Type ℓ} → (A → ℕ) → ℕ → List A → List A × List A
clean_queue timeout clock [] = ([], [])
clean_queue timeout clock (d ∷ q) =
    let rest = clean_queue timeout clock q in
    if is_over timeout clock d then (rest.0, d ∷ rest.1) else (d ∷ rest.0, rest.1)

-- `Split p q kept gone`: `q` is `kept` and `gone` in one another, each in its order, the elements of
-- `gone` with the property `p` and those of `kept` without it.
pub data Split {ℓ} {A : Type ℓ} (p : A → Bool) : List A → List A → List A → Type ℓ where
  nothing : Split p [] [] []
  keep :
      {d : A} {q kept gone : List A}
      → p d ≡ false
      → Split p q kept gone
      → Split p (d ∷ q) (d ∷ kept) gone
  drop_out :
      {d : A} {q kept gone : List A}
      → p d ≡ true
      → Split p q kept gone
      → Split p (d ∷ q) kept (d ∷ gone)

-- The walk of `clean_up` over a queue leaves in it, in their order, the datagrams whose time is
-- not over, and takes out, in their order, those whose time is.
pub clean_queue-Split {ℓ} :
    {A : Type ℓ} (timeout : A → ℕ) (clock : ℕ) (q : List A)
    → Split
        (is_over timeout clock)
        q
        (clean_queue timeout clock q).0
        (clean_queue timeout clock q).1
unfolding clean_queue
clean_queue-Split timeout clock [] = nothing
clean_queue-Split timeout clock (d ∷ q) = elim (Bool-cases (is_over timeout clock d)) [
  | inl over ↦ rw over (drop_out over (clean_queue-Split timeout clock q))
  | inr alive ↦ rw alive (keep alive (clean_queue-Split timeout clock q))
]

-- Of a datagram whose timeout `set_dgram_ttl` has set, `check_sequence` says, less than half a day
-- later, that it is over exactly if more than as many seconds have passed as its time to live,
-- even if the clock has started again.
pub set_dgram_ttl-check_sequence :
    (clock ttl passed : ℕ)
    → clock < max_clock
    → ttl < 256
    → passed < 43200000
    → (check_sequence (set_dgram_ttl clock ttl) ((clock + passed) % max_clock) ≡ true)
      ↔ (ttl * 1000 < passed)
unfolding set_dgram_ttl check_sequence
set_dgram_ttl-check_sequence clock ttl passed hc ht hp = ground arith
