-- ===== src/Sting/Handlers.antt =====
-- sting/protocol.c and sting/ip.c: the functions that are called at each tick of the timer
-- (`TIMER_call`), and the function that is called for each datagram of a protocol (`IP_handler`).
-- A function is its address.
use stin_g.Prelude.{
  ℕ, ◌≡◌, ◌≢◌, refl, sym, ◌∙◌, Bool, true, false, not, ◌||◌, List, [], ◌∷◌, inl, inr, arith,
  Bool-cases, ltb, leb, ◌==◌, if◌then◌else◌, eq→==, ne→==,
}

pub data Flag : Type 0 where
  hndlr_set hndlr_force hndlr_remove hndlr_query hndlr_other : Flag

-- The search of `TIMER_call`: whether the chain has an entry for a handler.
pub has_handler : List ℕ → ℕ → Bool
has_handler [] handler = false
has_handler (x ∷ xs) handler = x == handler || has_handler xs handler

-- The search keeps the last entry for a handler, and that one is removed.
unfoldable remove_handler : List ℕ → ℕ → List ℕ
unfolding has_handler
remove_handler [] handler = []
remove_handler (x ∷ xs) handler =
    let rest = remove_handler xs handler in
    if has_handler xs handler then x ∷ rest else if x == handler then xs else x ∷ xs

abbrev add_handler : Bool → List ℕ → ℕ → List ℕ × Bool
add_handler some_memory chain handler =
    if has_handler chain handler
    then (chain, false)
    else if some_memory
    then (handler ∷ chain, true)
    else (chain, false)

-- `TIMER_call`, for `conf.interupt`: the chain and the value that it returns. `some_memory` is the
-- answer of `KRmalloc`.
pub timer_call : Flag → Bool → List ℕ → ℕ → List ℕ × Bool
unfolding remove_handler
timer_call hndlr_set some_memory chain handler = add_handler some_memory chain handler
timer_call hndlr_force some_memory chain handler = add_handler some_memory chain handler
timer_call hndlr_remove some_memory chain handler =
    if has_handler chain handler then (remove_handler chain handler, true) else (chain, false)
timer_call hndlr_query some_memory chain handler = (chain, has_handler chain handler)
timer_call hndlr_other some_memory chain handler = (chain, false)

-- `IP_handler`, for `process` of the protocols, 0 for NULL
abbrev set_process : (ℕ → ℕ) → ℕ → ℕ → ℕ → ℕ
set_process process protocol handler i = if i == protocol then handler else process i

unfoldable by_flag : Flag → (ℕ → ℕ) → ℕ → ℕ → (ℕ → ℕ) × Bool
by_flag hndlr_set process protocol handler =
    if process protocol == 0 then (set_process process protocol handler, true) else (process, false)
by_flag hndlr_force process protocol handler = (set_process process protocol handler, true)
by_flag hndlr_remove process protocol handler =
    if process protocol == handler then (set_process process protocol 0, true) else (process, false)
by_flag hndlr_query process protocol handler = (process, not (process protocol == 0))
by_flag hndlr_other process protocol handler = (process, false)

unfoldable pub ip_handler : Flag → (ℕ → ℕ) → ℕ → ℕ → (ℕ → ℕ) × Bool
unfolding by_flag
ip_handler flag process protocol handler =
    if leb protocol 1 || ltb 255 protocol
    then (process, false)
    else by_flag flag process protocol handler

-- No handler stands twice in a chain.
abbrev pub Once : List ℕ → Type 0
Once [] = Unit {0}
Once (x ∷ xs) = (has_handler xs x ≡ false) × Once xs

has-remove_other :
    (xs : List ℕ) (h k : ℕ) → k ≢ h → has_handler (remove_handler xs h) k ≡ has_handler xs k
unfolding has_handler remove_handler
has-remove_other [] h k ne = refl
has-remove_other (x ∷ xs) h k ne = elim (Bool-cases (has_handler xs h)) [
  | inl behind ↦ rw (behind, has-remove_other xs h k ne) refl
  | inr last ↦ elim (Bool-cases (x == h)) [
    | inl hit ↦ let e : (x == k) ≡ false = ground (arith, hit, ne) in rw (last, hit, e) refl
    | inr miss ↦ rw (last, miss) refl
  ]
]

has-remove_same : (xs : List ℕ) (h : ℕ) → Once xs → has_handler (remove_handler xs h) h ≡ false
unfolding has_handler remove_handler
has-remove_same [] h o = refl
has-remove_same (x ∷ xs) h o = elim (Bool-cases (x == h)) [
  | inl hit ↦
      let e : x ≡ h = ground (arith, hit) in
      let gone : has_handler xs h ≡ false = rw e at o.0 in rw (gone, hit) gone
  | inr miss ↦ elim (Bool-cases (has_handler xs h)) [
    | inl behind ↦ rw (behind, miss) (has-remove_same xs h o.1)
    | inr never ↦ rw (never, miss, miss) never
  ]
]

remove-Once : (xs : List ℕ) (h : ℕ) → Once xs → Once (remove_handler xs h)
unfolding remove_handler
remove-Once [] h o = tt
remove-Once (x ∷ xs) h o = elim (Bool-cases (has_handler xs h)) [
  | inl behind ↦ elim (Bool-cases (x == h)) [
    | inl hit ↦ let e : x ≡ h = ground (arith, hit) in let f = o.0 in cc
    | inr miss ↦
        let ne : x ≢ h = ground (arith, miss) in
        rw behind (has-remove_other xs h x ne ∙ o.0, remove-Once xs h o.1)
  ]
  | inr last ↦ elim (Bool-cases (x == h)) [
    | inl hit ↦ rw (last, hit) o.1
    | inr miss ↦ rw (last, miss) o
  ]
]

added : (h : ℕ) (chain : List ℕ) → has_handler (h ∷ chain) h ≡ true
unfolding has_handler
added h chain = rw (eq→== h h refl) refl

added_other : (h k : ℕ) (chain : List ℕ) → k ≢ h → has_handler (h ∷ chain) k ≡ has_handler chain k
unfolding has_handler
added_other h k chain ne = rw (ne→== h k (λ e. ne (sym e))) refl

-- Whether a handler is in the chain after a call, by whether it was before.
abbrev pub stays : Flag → Bool → Bool → Bool
stays hndlr_set some_memory was = was || some_memory
stays hndlr_force some_memory was = was || some_memory
stays hndlr_remove some_memory was = false
stays hndlr_query some_memory was = was
stays hndlr_other some_memory was = was

-- What a call for `handler` makes of a chain, if `after` says whether the handler is in it then.
pub record Changes (chain : List ℕ) (handler : ℕ) (after : Bool) (chain' : List ℕ) : Type 0 where
  pub once : Once chain'
  pub handler_in : has_handler chain' handler ≡ after
  pub others : (k : ℕ) → k ≢ handler → has_handler chain' k ≡ has_handler chain k

unchanged :
    (chain : List ℕ) (h : ℕ) (after : Bool)
    → Once chain
    → has_handler chain h ≡ after
    → Changes chain h after chain
unchanged chain h after o e = record { once = o; handler_in = e; others = λ k ne. refl }

add_handler-Changes :
    (some_memory : Bool) (chain : List ℕ) (h : ℕ)
    → Once chain
    → Changes chain h (has_handler chain h || some_memory) (add_handler some_memory chain h).0
add_handler-Changes some_memory chain h o = elim (Bool-cases (has_handler chain h)) [
  | inl there ↦ rw there (unchanged chain h true o there)
  | inr absent ↦ elim (Bool-cases some_memory) [
    | inl memory ↦
        rw (absent, memory)
          (record {
            once = (absent, o);
            handler_in = added h chain;
            others = λ k ne. added_other h k chain ne;
          })
    | inr none_left ↦ rw (absent, none_left) (unchanged chain h false o absent)
  ]
]

-- On a chain in which no handler stands twice, a `TIMER_call` for a handler leaves no handler
-- twice and every other handler as it was; the handler is in the chain afterwards if it was or
-- there was memory, for setting it; not, for removing it; and as before, for any other flag.
pub timer_call-Changes :
    (flag : Flag) (some_memory : Bool) (chain : List ℕ) (h : ℕ)
    → Once chain
    → Changes chain h
        (stays flag some_memory (has_handler chain h))
        (timer_call flag some_memory chain h).0
unfolding timer_call
timer_call-Changes hndlr_set some_memory chain h o = add_handler-Changes some_memory chain h o
timer_call-Changes hndlr_force some_memory chain h o = add_handler-Changes some_memory chain h o
timer_call-Changes hndlr_remove some_memory chain h o = elim (Bool-cases (has_handler chain h)) [
  | inl there ↦ rw there (record {
    once = remove-Once chain h o;
    handler_in = has-remove_same chain h o;
    others = λ k ne. has-remove_other chain h k ne;
  })
  | inr absent ↦ rw absent (unchanged chain h false o absent)
]
timer_call-Changes hndlr_query some_memory chain h o = unchanged chain h _ o refl
timer_call-Changes hndlr_other some_memory chain h o = unchanged chain h _ o refl
