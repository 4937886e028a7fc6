-- ===== src/Sting/Queues.antt =====
-- sting/ip.c and sting/kernel.c: the queue of the datagrams received for a protocol.
use stin_g.Prelude.{
  ℕ, ◌<◌, ◌≤◌, ◌≢◌, false, eq→==, ne→==, ◌≡◌, refl, sym, ap, ◌∙◌, Option, none, some, List, [], ◌∷◌,
  ◌++◌, arith, ltb, ◌||◌, ◌==◌, if◌then◌else◌,
}

-- The end of `receive_dgram`: a datagram goes to the front of its protocol's queue.
pub enqueue {ℓ} : {A : Type ℓ} → (ℕ → List A) → ℕ → A → ℕ → List A
enqueue ip protocol dgram i = if i == protocol then dgram ∷ ip protocol else ip i

-- The loop of `IP_fetch`, which goes to the end of the queue.
unfoldable take_last {ℓ} : {A : Type ℓ} → List A → Option A × List A
take_last [] = (none, [])
take_last (d ∷ []) = (some d, [])
take_last (d ∷ e ∷ q) = let rest = take_last (e ∷ q) in (rest.0, d ∷ rest.1)

-- `IP_fetch`, for an `int16` that is not negative
pub ip_fetch {ℓ} : {A : Type ℓ} → (ℕ → List A) → ℕ → Option A × (ℕ → List A)
unfolding take_last
ip_fetch ip protocol = if ltb protocol 1 || ltb 255 protocol then (none, ip) else (
  (take_last (ip protocol)).0,
  λ i. if i == protocol then (take_last (ip protocol)).1 else ip i,
)

take_last-append {ℓ} : {A : Type ℓ} (q : List A) (d : A) → take_last (q ++ d ∷ []) ≡ (some d, q)
unfolding take_last
take_last-append [] d = refl
take_last-append (e ∷ []) d = refl
take_last-append (e ∷ f ∷ q) d = rw (take_last-append (f ∷ q) d) refl

-- The queues after several datagrams for a protocol, the first of the list the first that came.
abbrev pub enqueue_all {ℓ} : {A : Type ℓ} → (ℕ → List A) → ℕ → List A → ℕ → List A
enqueue_all ip protocol [] = ip
enqueue_all ip protocol (d ∷ ds) = enqueue_all (enqueue ip protocol d) protocol ds

-- The same for the protocol's own queue.
abbrev pile {ℓ} : {A : Type ℓ} → List A → List A → List A
pile q [] = q
pile q (d ∷ ds) = pile (d ∷ q) ds

own_queue {ℓ} :
    {A : Type ℓ} (ip : ℕ → List A) (p : ℕ) (ds : List A) → enqueue_all ip p ds p ≡ pile (ip p) ds
unfolding enqueue
own_queue ip p [] = refl
own_queue ip p (d ∷ ds) =
    own_queue (enqueue ip p d) p ds ∙ ap (λ q. pile q ds) (rw (eq→== p p refl) refl)

other_queue {ℓ} :
    {A : Type ℓ} (ip : ℕ → List A) (p i : ℕ) (ds : List A) → i ≢ p → enqueue_all ip p ds i ≡ ip i
unfolding enqueue
other_queue ip p i [] ne = refl
other_queue ip p i (d ∷ ds) ne = other_queue (enqueue ip p d) p i ds ne ∙ rw (ne→== i p ne) refl

pile-append {ℓ} :
    {A : Type ℓ} (q : List A) (ds : List A) (d : A) → pile (q ++ d ∷ []) ds ≡ pile q ds ++ d ∷ []
pile-append q [] d = refl
pile-append q (e ∷ ds) d = pile-append (e ∷ q) ds d

-- For a protocol from 1 to 255 with an empty queue, after several datagrams have come for it,
-- `IP_fetch` gives the first that came, leaves the queue that the others alone would have made,
-- and leaves the queues of the other protocols as they were.
pub ip_fetch-enqueue_all {ℓ} :
    {A : Type ℓ} (ip : ℕ → List A) (p : ℕ) (d : A) (ds : List A)
    → 0 < p
    → p ≤ 255
    → ip p ≡ []
    → let (got, ip') = ip_fetch (enqueue_all ip p (d ∷ ds)) p in
      (got ≡ some d) × (ip' p ≡ enqueue_all ip p ds p) × ((i : ℕ) → i ≢ p → ip' i ≡ ip i)
unfolding ip_fetch
ip_fetch-enqueue_all ip p d ds lo hi empty =
    let range : (ltb p 1 || ltb 255 p) ≡ false = ground arith in
    let q : enqueue_all ip p (d ∷ ds) p ≡ enqueue_all ip p ds p ++ d ∷ [] =
      own_queue ip p (d ∷ ds)
      ∙ ap (λ (x : List _). pile (d ∷ x) ds) empty
      ∙ pile-append [] ds d
      ∙ ap (λ (x : List _). pile x ds ++ d ∷ []) (sym empty)
      ∙ ap (λ (x : List _). x ++ d ∷ []) (sym (own_queue ip p ds)) in
    let last = ap take_last q ∙ take_last-append (enqueue_all ip p ds p) d in
    rw range (
      ap (λ (x : Option _ × List _). x.0) last,
      rw (eq→== p p refl) (ap (λ (x : Option _ × List _). x.1) last),
      λ i ne. rw (ne→== i p ne) (other_queue ip p i (d ∷ ds) ne),
    )
