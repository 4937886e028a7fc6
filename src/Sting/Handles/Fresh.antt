-- ===== src/Sting/Handles/Fresh.antt =====
-- sting/protocol.c: what `PRTCL_request` and `PRTCL_release` do to what `PRTCL_lookup` finds.
use mathlib.Core.Path.{subst}
use stin_g.Prelude.{
  ℕ, zero, suc, ◌%◌, ◌<◌, ◌≡◌, ◌≢◌, refl, ◌⊎◌, sym, ap, ◌∙◌, true, inl, inr, Option, none, some,
  some_inj, bind_some, List, arith, ◌==◌, ne→==, eq→==, Bool-cases, if◌then◌else◌,
}
use stin_g.Sting.Handles.{
  CnDesc, Handles, search_chain, do_lookup, prtcl_lookup, following, next_free, enter,
  prtcl_request,
}

free_or_next :
    (o : Option CnDesc) (m : ℕ) (rest : Option ℕ) {h : ℕ}
    → (elim o [ none ↦ some m | some x ↦ rest ]) ≡ some h
    → ((o ≡ none) × (m ≡ h)) ⊎ (rest ≡ some h)
free_or_next none m rest e = inl (refl, some_inj e)
free_or_next (some x) m rest e = inr e

pub next_free-free :
    (fuel : ℕ) (t : ℕ → List CnDesc) (n : ℕ) {h : ℕ}
    → next_free fuel t n ≡ some h
    → do_lookup t h ≡ none
unfolding next_free
next_free-free zero t n e = cc
next_free-free (suc fuel) t n e =
    elim (free_or_next (do_lookup t (following n)) (following n) (next_free fuel t (following n))
      e) [
        | inl (free, same) ↦ subst (λ x. do_lookup t x ≡ none) same free
        | inr more ↦ next_free-free fuel t (following n) more
      ]

do_lookup-enter :
    (s : Handles) (h a f : ℕ)
    → do_lookup (enter s h a f).cn_array h ≡ some (record { handle = h; anonymous = a; funcs = f })
unfolding do_lookup enter
do_lookup-enter s h a f = rw (eq→== (h % 64) (h % 64) refl, eq→== h h refl) refl

do_lookup-other :
    (s : Handles) (h a f k : ℕ)
    → k ≢ h
    → do_lookup (enter s h a f).cn_array k ≡ do_lookup s.cn_array k
unfolding do_lookup search_chain enter
do_lookup-other s h a f k ne = elim (Bool-cases (k % 64 == h % 64)) [
  | inl same ↦
      let e : h % 64 ≡ k % 64 = ground (arith, same) in
      rw (same, ne→== h k (λ q. ne (sym q)), e) refl
  | inr apart ↦ rw apart refl
]

pub lookup-cong :
    (s t : Handles) (h f : ℕ)
    → do_lookup s.cn_array h ≡ do_lookup t.cn_array h
    → prtcl_lookup s h f ≡ prtcl_lookup t h f
unfolding prtcl_lookup
lookup-cong s t h f e =
    ap
      (λ (o : Option CnDesc). elim o [
        | none ↦ none
        | some x ↦ if x.funcs == f then some x.anonymous else none
      ])
      e

lookup-entered : (s : Handles) (h a f : ℕ) → prtcl_lookup (enter s h a f) h f ≡ some a
unfolding prtcl_lookup
lookup-entered s h a f =
    ap
      (λ (o : Option CnDesc). elim o [
        | none ↦ none
        | some x ↦ if x.funcs == f then some x.anonymous else none
      ])
      (do_lookup-enter s h a f)
    ∙ rw (eq→== f f refl) refl

-- Where `PRTCL_request` returns a handle, `PRTCL_lookup` did not know it before and finds with it
-- what was handed over, and finds with every other handle what it found before.
pub prtcl_request-prtcl_lookup :
    (fuel : ℕ) (s : Handles) (a f : ℕ) {s' : Handles} {h : ℕ}
    → prtcl_request fuel true s a f ≡ some (s', some h)
    → (do_lookup s.cn_array h ≡ none)
      × (prtcl_lookup s' h f ≡ some a)
      × ((k g : ℕ) → k ≢ h → prtcl_lookup s' k g ≡ prtcl_lookup s k g)
unfolding prtcl_request
prtcl_request-prtcl_lookup fuel s a f {s'} {h} e =
    let (m, found, same) =
      bind_some (next_free fuel s.cn_array s.next_handle) (λ m. some (enter s m a f, some m)) e in
    let pair = some_inj same in
    let t : enter s m a f ≡ s' = ap (λ (p : Handles × Option ℕ). p.0) pair in
    let e' : m ≡ h = some_inj (ap (λ (p : Handles × Option ℕ). p.1) pair) in
    (
      subst (λ x. do_lookup s.cn_array x ≡ none) e'
          (next_free-free fuel s.cn_array s.next_handle found),
      subst (λ x. prtcl_lookup x h f ≡ some a) t
          (subst (λ x. prtcl_lookup (enter s m a f) x f ≡ some a) e' (lookup-entered s m a f)),
      λ k g ne.
          subst (λ x. prtcl_lookup x k g ≡ prtcl_lookup s k g) t
            (lookup-cong (enter s m a f) s k g (do_lookup-other s m a f k (λ q. ne (q ∙ e')))),
    )

-- The handle that the loop comes to in its round `k`, from 0 on.
abbrev pub in_round : ℕ → ℕ → ℕ
in_round zero n = following n
in_round (suc k) n = in_round k (following n)

found_by :
    (o : Option CnDesc) (m : ℕ) (rest : Option ℕ)
    → (h : ℕ) × (rest ≡ some h)
    → (h : ℕ) × ((elim o [ none ↦ some m | some x ↦ rest ]) ≡ some h)
found_by none m rest p = (m, refl)
found_by (some x) m rest p = p

at_once :
    (o : Option CnDesc) (m : ℕ) (rest : Option ℕ)
    → o ≡ none
    → (h : ℕ) × ((elim o [ none ↦ some m | some x ↦ rest ]) ≡ some h)
at_once none m rest p = (m, refl)
at_once (some x) m rest p = cc

next_free_total :
    (fuel k : ℕ) (t : ℕ → List CnDesc) (n : ℕ)
    → do_lookup t (in_round k n) ≡ none
    → k < fuel
    → (h : ℕ) × (next_free fuel t n ≡ some h)
unfolding next_free
next_free_total zero k t n free lt = absurd (omega arith)
next_free_total (suc fuel) zero t n free lt = at_once (do_lookup t (following n)) _ _ free
next_free_total (suc fuel) (suc k) t n free lt =
    found_by (do_lookup t (following n)) (following n) _
      (next_free_total fuel k t (following n) free (omega arith))

-- With memory for a description, `PRTCL_request` returns a handle, for fuel beyond the round of
-- its search in which a handle is free.
pub prtcl_request_total :
    (fuel k : ℕ) (s : Handles) (a f : ℕ)
    → do_lookup s.cn_array (in_round k s.next_handle) ≡ none
    → k < fuel
    → (s' : Handles) × (h : ℕ) × (prtcl_request fuel true s a f ≡ some (s', some h))
unfolding prtcl_request
prtcl_request_total fuel k s a f free lt =
    let (h, e) = next_free_total fuel k s.cn_array s.next_handle free lt in
    (
      enter s h a f,
      h,
      ap (λ (o : Option ℕ). elim o [ none ↦ none | some h ↦ some (enter s h a f, some h) ]) e,
    )
