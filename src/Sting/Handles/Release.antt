-- ===== src/Sting/Handles/Release.antt =====
-- sting/protocol.c: `PRTCL_release`, and that the handles in use are distinct.
use mathlib.Core.Path.{subst}
use stin_g.Prelude.{
  ℕ, ◌%◌, ◌≡◌, ◌≢◌, refl, ap, ◌∙◌, true, false, inl, inr, Option, none, some, some_inj, bind_some,
  List, [], ◌∷◌, arith, ◌==◌, eq→==, Bool-cases, if◌then◌else◌,
}
use stin_g.Sting.Handles.{
  CnDesc, Handles, search_chain, do_lookup, prtcl_lookup, next_free, enter, set_chain,
  prtcl_request, remove_first, prtcl_release,
}
use stin_g.Sting.Handles.Fresh.{lookup-cong, next_free-free}

-- No two descriptions of a chain have the same handle.
abbrev pub Distinct : List CnDesc → Type 0
Distinct [] = Unit {0}
Distinct (x ∷ xs) = (search_chain xs x.handle ≡ none) × Distinct xs

abbrev pub IsValid : Handles → Type 0
IsValid s = (i : ℕ) → Distinct (s.cn_array i)

search-remove_other :
    (xs : List CnDesc) (h k : ℕ) → k ≢ h → search_chain (remove_first xs h) k ≡ search_chain xs k
unfolding search_chain remove_first
search-remove_other [] h k ne = refl
search-remove_other (x ∷ xs) h k ne = elim (Bool-cases (x.handle == h)) [
  | inl hit ↦ let e : (x.handle == k) ≡ false = ground (arith, hit, ne) in rw (hit, e) refl
  | inr miss ↦ rw (miss, search-remove_other xs h k ne) refl
]

search-remove_same :
    (xs : List CnDesc) (h : ℕ) → Distinct xs → search_chain (remove_first xs h) h ≡ none
unfolding search_chain remove_first
search-remove_same [] h d = refl
search-remove_same (x ∷ xs) h d = elim (Bool-cases (x.handle == h)) [
  | inl hit ↦
      let e : x.handle ≡ h = ground (arith, hit) in
      rw hit (subst (λ y. search_chain xs y ≡ none) e d.0)
  | inr miss ↦ rw (miss, miss, search-remove_same xs h d.1) refl
]

remove_first-Distinct : (xs : List CnDesc) (h : ℕ) → Distinct xs → Distinct (remove_first xs h)
unfolding remove_first
remove_first-Distinct [] h d = tt
remove_first-Distinct (x ∷ xs) h d = elim (Bool-cases (x.handle == h)) [
  | inl hit ↦ rw hit d.1
  | inr miss ↦
      let ne : x.handle ≢ h = ground (arith, miss) in
      rw miss (search-remove_other xs h x.handle ne ∙ d.0, remove_first-Distinct xs h d.1)
]

set_chain-Distinct :
    (t : ℕ → List CnDesc) (place : ℕ) (chain : List CnDesc)
    → ((i : ℕ) → Distinct (t i))
    → Distinct chain
    → (i : ℕ) → Distinct (set_chain t place chain i)
set_chain-Distinct t place chain v d i = elim (Bool-cases (i == place)) [
  | inl here ↦ rw here d
  | inr apart ↦ rw apart (v i)
]

release-other :
    (s : Handles) (h k : ℕ)
    → k ≢ h
    → do_lookup (prtcl_release s h).cn_array k ≡ do_lookup s.cn_array k
unfolding do_lookup prtcl_release
release-other s h k ne = elim (Bool-cases (k % 64 == h % 64)) [
  | inl same ↦
      let e : h % 64 ≡ k % 64 = ground (arith, same) in
      rw same (search-remove_other (s.cn_array (h % 64)) h k ne ∙ rw e refl)
  | inr apart ↦ rw apart refl
]

release-same : (s : Handles) (h : ℕ) → IsValid s → do_lookup (prtcl_release s h).cn_array h ≡ none
unfolding do_lookup prtcl_release
release-same s h v =
    rw (eq→== (h % 64) (h % 64) refl) (search-remove_same (s.cn_array (h % 64)) h (v (h % 64)))

none-lookup : (s : Handles) (h f : ℕ) → do_lookup s.cn_array h ≡ none → prtcl_lookup s h f ≡ none
unfolding prtcl_lookup
none-lookup s h f e =
    ap
      (λ (o : Option CnDesc). elim o [
        | none ↦ none
        | some x ↦ if x.funcs == f then some x.anonymous else none
      ])
      e

-- If no two handles of a chain are equal, then after `PRTCL_release` `PRTCL_lookup` finds nothing
-- with the handle, and with every other handle what it found before, and still no two handles of a
-- chain are equal.
pub prtcl_release-prtcl_lookup :
    (s : Handles) (h : ℕ)
    → IsValid s
    → ((f : ℕ) → prtcl_lookup (prtcl_release s h) h f ≡ none)
      × ((k g : ℕ) → k ≢ h → prtcl_lookup (prtcl_release s h) k g ≡ prtcl_lookup s k g)
      × IsValid (prtcl_release s h)
unfolding prtcl_release
prtcl_release-prtcl_lookup s h v = (
  λ f. none-lookup (prtcl_release s h) h f (release-same s h v),
  λ k g ne. lookup-cong (prtcl_release s h) s k g (release-other s h k ne),
  set_chain-Distinct s.cn_array (h % 64) (remove_first (s.cn_array (h % 64)) h) v
      (remove_first-Distinct (s.cn_array (h % 64)) h (v (h % 64))),
)

-- `PRTCL_request`, where it returns a handle, keeps the handles of each chain distinct.
pub prtcl_request-IsValid :
    (fuel : ℕ) (s : Handles) (a f : ℕ) {s' : Handles} {h : ℕ}
    → IsValid s
    → prtcl_request fuel true s a f ≡ some (s', some h)
    → IsValid s'
unfolding prtcl_request do_lookup enter
prtcl_request-IsValid fuel s a f {s'} {h} v e =
    let (m, found, same) =
      bind_some (next_free fuel s.cn_array s.next_handle) (λ m. some (enter s m a f, some m)) e in
    let t : enter s m a f ≡ s' = ap (λ (p : Handles × Option ℕ). p.0) (some_inj same) in
    subst IsValid t (
      set_chain-Distinct s.cn_array (m % 64) _ v
        (next_free-free fuel s.cn_array s.next_handle found, v (m % 64)))
