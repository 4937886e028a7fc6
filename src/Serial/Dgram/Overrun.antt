-- ===== src/Serial/Dgram/Overrun.antt =====
-- ports/serial/xfer.c: when `make_IP_dgram` copies a negative count of bytes.
use stin_g.Prelude.{
  ℕ, ◌*◌, ◌<◌, ◌≤◌, ◌≡◌, ◌↔◌, refl, Bool, true, false, inl, inr, List, arith, length, drop, extend,
  ltb, Bool-cases, is_neg16,
}
use stin_g.Sting.Dgram.{IpDgram}
use stin_g.Serial.Dgram.{
  overrun, read_hdr, opt_length_of, pkt_length_of, copied, filled, fits_header, make_ip_dgram,
}

-- `KRmalloc` gives the three blocks.
abbrev pub HasMemory : (ℕ → ℕ → Bool) → IpDgram → Type 0
HasMemory heap h =
    (heap 0 48 ≡ true)
    × (heap 1 (extend (opt_length_of h)) ≡ true)
    × (heap 2 (extend (pkt_length_of h)) ≡ true)

negative-pkt_length :
    (h : IpDgram)
    → h.hd_len < 0x10
    → h.total_length < 0x8000
    → (is_neg16 (pkt_length_of h) ≡ true) ↔ (h.total_length < h.hd_len * 4)
negative-pkt_length h a b = ground arith

copied_overruns :
    (buffer : List ℕ) (h : IpDgram)
    → (copied buffer h ≡ overrun) ↔ (is_neg16 (pkt_length_of h) ≡ true)
copied_overruns buffer h = elim (Bool-cases (is_neg16 (pkt_length_of h))) [
  | inl e ↦ rw e ((λ _. refl), (λ _. refl))
  | inr e ↦ rw e ((λ f. absurd cc), (λ f. absurd cc))
]

fits_header-total :
    (len : ℕ) (h : IpDgram) → len < 0x8000 → fits_header len h ≡ true → h.total_length < 0x8000
fits_header-total len h a e = ground (arith, e)

filled_overruns :
    (heap : ℕ → ℕ → Bool) (buffer : List ℕ) (h : IpDgram)
    → (filled heap buffer h ≡ overrun) ↔ (
        (heap 1 (extend (opt_length_of h)) ≡ true)
        × (heap 2 (extend (pkt_length_of h)) ≡ true)
        × (is_neg16 (pkt_length_of h) ≡ true))
filled_overruns heap buffer h =
    let c = copied_overruns buffer h in
    elim (Bool-cases (heap 1 (extend (opt_length_of h)))) [
      | inr e ↦ rw e ((λ f. absurd cc), (λ f. absurd cc))
      | inl e ↦ elim (Bool-cases (heap 2 (extend (pkt_length_of h)))) [
        | inr e' ↦ rw (e, e') ((λ f. absurd cc), (λ f. absurd cc))
        | inl e' ↦ rw (e, e') ((λ f. (refl, refl, c.0 f)), (λ f. c.1 f.2))
      ]
    ]

hd_len_lt : (junk : IpDgram) (buffer : List ℕ) → (read_hdr junk buffer).hd_len < 0x10
unfolding read_hdr
hd_len_lt junk buffer = omega arith

-- For a frame of at least 20 and less than 0x8000 bytes, `make_IP_dgram` copies a negative count
-- of bytes exactly if `KRmalloc` gives its three blocks, the header passes the tests, and the
-- length in the header is less than the length of the header itself.
pub make_ip_dgram_overruns :
    (heap : ℕ → ℕ → Bool) (junk : IpDgram) (buffer : List ℕ)
    → 20 ≤ length buffer
    → length buffer < 0x8000
    → let h = read_hdr junk buffer in
      (make_ip_dgram heap junk buffer ≡ overrun) ↔ (
        HasMemory heap h × (fits_header (length buffer) h ≡ true) × (h.total_length < h.hd_len * 4))
unfolding make_ip_dgram
make_ip_dgram_overruns heap junk buffer lo hi =
    let h = read_hdr junk buffer in
    let hd : h.hd_len < 0x10 = hd_len_lt junk buffer in
    let long : ltb (length buffer) 20 ≡ false = ground arith in
    let f = filled_overruns heap (drop 20 buffer) h in
    elim (Bool-cases (heap 0 48)) [
      | inr e ↦ rw (long, e) ((λ x. absurd cc), (λ x. absurd cc))
      | inl e ↦ elim (Bool-cases (fits_header (length buffer) h)) [
        | inr e' ↦ rw (long, e, e') ((λ x. absurd cc), (λ x. absurd cc))
        | inl e' ↦
            let n = negative-pkt_length h hd (fits_header-total (length buffer) h hi e') in
            rw (long, e, e')
              (
                (λ x. let (a, b, c) = f.0 x in ((refl, a, b), refl, n.0 c)),
                (λ x. f.1 (x.0.1, x.0.2, n.1 x.2)),
              )
      ]
    ]
