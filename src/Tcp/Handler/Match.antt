-- ===== src/Tcp/Handler/Match.antt =====
-- proto/tcp/arrive.c: which connection the search of `TCP_handler` finds.
use mathlib.Core.Path.{subst}
use stin_g.Prelude.{
  ℕ, suc, ◌+◌, ◌≤◌, ◌<◌, ◌≡◌, sym, ap, ◌∙◌, Bool, true, false, not, ◌&&◌, inl, inr, List, [], ◌∷◌,
  Option, some, arith, ltb, if◌then◌else◌, Bool-cases, then_side, else_side,
}
use stin_g.Tcp.Defs.{Dgram, Connec}
use stin_g.Tcp.Handler.{is_listening, is_exact, score, Search, stopped, best, search_conn}

abbrev pub stops : Dgram → Connec → Bool
stops d c = is_exact d c && not (is_listening c.state)

-- `At cs i c`: `c` is the connection at place `i`.
pub data At : List Connec → ℕ → Connec → Type 0 where
  first : {c : Connec} {cs : List Connec} → At (c ∷ cs) 0 c
  later : {b c : Connec} {cs : List Connec} {i : ℕ} → At cs i c → At (b ∷ cs) (suc i) c

-- No connection has a score above `n`, and none stops the search.
abbrev pub Below : Dgram → ℕ → List Connec → Type 0
Below d n [] = Unit {0}
Below d n (c ∷ cs) = (score d c ≤ n) × (stops d c ≡ false) × Below d n cs

-- The place at which the search stopped, counted from `i`, or the best place.
pub data Found (d : Dgram) (cs : List Connec) (i count : ℕ) (option : Option ℕ)
    : Search → Type 0 where
  by_stop :
      {j : ℕ} {c : Connec}
      → At cs j c
      → stops d c ≡ true
      → Found d cs i count option (stopped (i + j))
  by_score :
      {j : ℕ} {c : Connec}
      → At cs j c
      → count < score d c
      → Below d (score d c) cs
      → Found d cs i count option (best (some (i + j)))
  by_none : Below d count cs → Found d cs i count option (best option)

Below_mono : (d : Dgram) (m n : ℕ) (cs : List Connec) → m ≤ n → Below d m cs → Below d n cs
Below_mono d m n [] h b = tt
Below_mono d m n (c ∷ cs) h b = (omega (arith, h, b.0), b.1, Below_mono d m n cs h b.2)

-- One more connection in front that is no better and does not stop the search.
Found-worse :
    (d : Dgram) (c : Connec) (cs : List Connec) (i count : ℕ) (option : Option ℕ) (s : Search)
    → stops d c ≡ false
    → score d c ≤ count
    → Found d cs (suc i) count option s
    → Found d (c ∷ cs) i count option s
Found-worse d c cs i count option s go le (by_stop {j = j} {c = x} at stop) =
    let e : i + suc j ≡ suc i + j = omega arith in
    subst (λ k. Found d (c ∷ cs) i count option (stopped k)) e (by_stop (later at) stop)
Found-worse d c cs i count option s go le (by_score {j = j} {c = x} at more below) =
    let e : i + suc j ≡ suc i + j = omega arith in
    subst (λ k. Found d (c ∷ cs) i count option (best (some k))) e
      (by_score (later at) more (omega (arith, le, more), go, below))
Found-worse d c cs i count option s go le (by_none below) = by_none (le, go, below)

-- One more connection in front that is better.
Found-better :
    (d : Dgram) (c : Connec) (cs : List Connec) (i count : ℕ) (option : Option ℕ) (s : Search)
    → stops d c ≡ false
    → count < score d c
    → Found d cs (suc i) (score d c) (some i) s
    → Found d (c ∷ cs) i count option s
Found-better d c cs i count option s go lt (by_stop {j = j} {c = x} at stop) =
    let e : i + suc j ≡ suc i + j = omega arith in
    subst (λ k. Found d (c ∷ cs) i count option (stopped k)) e (by_stop (later at) stop)
Found-better d c cs i count option s go lt (by_score {j = j} {c = x} at more below) =
    let e : i + suc j ≡ suc i + j = omega arith in
    subst (λ k. Found d (c ∷ cs) i count option (best (some k))) e
      (by_score (later at) (omega (arith, lt, more)) (omega (arith, more), go, below))
Found-better d c cs i count option s go lt (by_none below) =
    let e : i + 0 ≡ i = omega arith in
    subst (λ k. Found d (c ∷ cs) i count option (best (some k))) e
      (by_score first lt (omega arith, go, below))

-- The search of `TCP_handler` either stops at a connection that has all four numbers of the
-- segment and does not listen, or goes over all connections, none of which is such a one, and
-- gives the best of them: one with a score that is above the first count and that no connection
-- exceeds, or, where there is none, what it had before.
pub search_conn-Found :
    (d : Dgram) (cs : List Connec) (i count : ℕ) (option : Option ℕ)
    → Found d cs i count option (search_conn d cs i count option)
unfolding search_conn
search_conn-Found d [] i count option = by_none tt
search_conn-Found d (c ∷ cs) i count option = elim (Bool-cases (stops d c)) [
  | inl stop ↦
      let e : i + 0 ≡ i = omega arith in
      subst (Found d (c ∷ cs) i count option) (ap stopped e ∙ sym (then_side (stops d c) _ _ stop))
        (by_stop first stop)
  | inr go ↦ elim (Bool-cases (ltb count (score d c))) [
    | inl more ↦
        subst (Found d (c ∷ cs) i count option)
          (sym (
            else_side (stops d c) _ _ go
            ∙ ap
                (λ n. search_conn d cs (suc i) n (if ltb count (score d c) then some i else option))
                (then_side (ltb count (score d c)) _ _ more)
            ∙ ap (search_conn d cs (suc i) (score d c))
                (then_side (ltb count (score d c)) _ _ more)))
          (Found-better d c cs i count option _ go (ground (arith, more))
            (search_conn-Found d cs (suc i) (score d c) (some i)))
    | inr less ↦
        subst (Found d (c ∷ cs) i count option)
          (sym (
            else_side (stops d c) _ _ go
            ∙ ap
                (λ n. search_conn d cs (suc i) n (if ltb count (score d c) then some i else option))
                (else_side (ltb count (score d c)) _ _ less)
            ∙ ap (search_conn d cs (suc i) count) (else_side (ltb count (score d c)) _ _ less)))
          (Found-worse d c cs i count option _ go (ground (arith, less))
            (search_conn-Found d cs (suc i) count option))
  ]
]
