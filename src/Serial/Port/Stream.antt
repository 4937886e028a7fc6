-- ===== src/Serial/Port/Stream.antt =====
-- ports/serial/xfer.c: the loop of `my_receive` over the parts of a stream, what it keeps, and how
-- many bytes are in the buffer.
use stin_g.Prelude.{
  ℕ, zero, suc, ◌+◌, ◌<◌, ◌≡◌, refl, sym, ap, ◌∙◌, Bool, true, false, inl, inr, not, ◌&&◌, List, [],
  ◌∷◌, ◌++◌, Option, none, some, Bool-cases, Option-cases, length, length-append, take, drop, ◌==◌,
  if◌then◌else◌, either_side,
}
use mathlib.Core.Path.{subst}
use stin_g.Serial.Port.{
  SerialPort, Outside, unwrapped, by_protocol, process_datagram, at_mark, take_byte, take_bytes,
  emptied, counted, queue_made, queue_uncompressed,
}
use stin_g.Sting.Dgram.{IpDgram}
use stin_g.Serial.Dgram.{Made, nothing, made, overrun, make_ip_dgram}
use stin_g.Serial.Slip.{
  slip_unwrap, vjhc_type_error, vjhc_type_ip, vjhc_type_uncompr_tcp, vjhc_type_compr_tcp,
}
use stin_g.Serial.Ppp.{ppp_unwrap, ppp_ip, ppp_vjhc_c, ppp_vjhc_unc}

-- What a mark and other bytes make of the number of bytes in the buffer.
abbrev pub next_level : ℕ → ℕ → ℕ → ℕ
next_level mark k b = if b == mark then 0 else k + 1

abbrev pub level : ℕ → ℕ → List ℕ → ℕ
level mark k [] = k
level mark k (b ∷ bs) = level mark (next_level mark k b) bs

-- The buffer never gets full.
abbrev pub Room : ℕ → ℕ → List ℕ → Type 0
Room mark k [] = k < 8190
Room mark k (b ∷ bs) = (k < 8190) × Room mark (next_level mark k b) bs

pub Room-level :
    (mark k n : ℕ) (bs : List ℕ)
    → Room mark k bs
    → (level mark k (take n bs) < 8190) × Room mark (level mark k (take n bs)) (drop n bs)
Room-level mark k zero [] h = (h, h)
Room-level mark k zero (b ∷ bs) h = (h.0, h)
Room-level mark k (suc n) [] h = (h, h)
Room-level mark k (suc n) (b ∷ bs) h = Room-level mark (next_level mark k b) n bs h.1

pub none-some {ℓ} : {A : Type ℓ} {a : A} → ¬ (none ≡ some a)
none-some e = absurd cc

module _ {V : Type 0} (out : Outside V) where
  -- `ppp_control` leaves the framing of a port and the port itself in use.
  abbrev pub KeepsFraming : Type 0
  KeepsFraming =
      (p : SerialPort V) (protocol : ℕ) (data' : List ℕ)
      → ((out.control p protocol data').prtcl ≡ p.prtcl)
        × ((out.control p protocol data').active ≡ p.active)

  abbrev pub Same : SerialPort V → Option (SerialPort V) → Type 0
  Same p none = Unit
  Same p (some q) = (q.prtcl ≡ p.prtcl) × (q.active ≡ p.active)

  -- The bytes behind the first.
  abbrev pub go_on : ℕ → List ℕ → Option (SerialPort V) → Option (SerialPort V)
  go_on mark bs none = none
  go_on mark bs (some q) = take_bytes out mark q bs

  pub take_bytes_step :
      (mark : ℕ) (p : SerialPort V) (b : ℕ) (bs : List ℕ)
      → take_bytes out mark p (b ∷ bs) ≡ go_on mark bs (take_byte out mark p b)
  unfolding take_bytes
  take_bytes_step mark p b bs =
      elim (take_byte out mark p b)
        as (λ o. elim o [ none ↦ none | some q ↦ take_bytes out mark q bs ] ≡ go_on mark bs o) [
          | none ↦ refl
          | some q ↦ refl
        ]

  pub take_bytes_nil : (mark : ℕ) (p : SerialPort V) → take_bytes out mark p [] ≡ some p
  unfolding take_bytes
  take_bytes_nil mark p = refl

  go_on-go_on :
      (mark : ℕ) (xs ys : List ℕ)
      → ((q : SerialPort V)
          → take_bytes out mark q (xs ++ ys) ≡ go_on mark ys (take_bytes out mark q xs))
      → (o : Option (SerialPort V)) → go_on mark (xs ++ ys) o ≡ go_on mark ys (go_on mark xs o)
  go_on-go_on mark xs ys h none = refl
  go_on-go_on mark xs ys h (some q) = h q

  pub take_bytes-append :
      (mark : ℕ) (xs ys : List ℕ) (p : SerialPort V)
      → take_bytes out mark p (xs ++ ys) ≡ go_on mark ys (take_bytes out mark p xs)
  take_bytes-append mark [] ys p = sym (ap (go_on mark ys) (take_bytes_nil mark p))
  take_bytes-append mark (b ∷ xs) ys p =
      take_bytes_step mark p b (xs ++ ys)
      ∙ go_on-go_on mark xs ys (take_bytes-append mark xs ys) (take_byte out mark p b)
      ∙ sym (ap (go_on mark ys) (take_bytes_step mark p b xs))

  -- What the whole comes to, its first part and the rest come to.
  pub take_bytes-split :
      (mark : ℕ) (xs ys : List ℕ) (p f : SerialPort V)
      → take_bytes out mark p (xs ++ ys) ≡ some f
      → (q : SerialPort V) × (take_bytes out mark p xs ≡ some q)
        × (take_bytes out mark q ys ≡ some f)
  take_bytes-split mark xs ys p f e = elim (Option-cases (take_bytes out mark p xs)) [
    | inl n ↦ absurd (none-some (sym (take_bytes-append mark xs ys p ∙ ap (go_on mark ys) n) ∙ e))
    | inr (q, s) ↦ (q, s, sym (take_bytes-append mark xs ys p ∙ ap (go_on mark ys) s) ∙ e)
  ]

  Same-trans :
      (p q : SerialPort V) (o : Option (SerialPort V)) → Same p (some q) → Same q o → Same p o
  Same-trans p q none s t = tt
  Same-trans p q (some r) s t = (t.0 ∙ s.0, t.1 ∙ s.1)

  -- The number of bytes in the buffer.
  abbrev pub Filled : ℕ → Option (SerialPort V) → Type 0
  Filled k none = Unit
  Filled k (some q) = length q.pending ≡ k

  emptied-Filled : (o : Option (SerialPort V)) → Filled 0 (emptied out o)
  emptied-Filled none = tt
  emptied-Filled (some q) = refl

  -- No step changes the framing.
  queue_made-Same : (p : SerialPort V) (m : Made) → Same p (queue_made out p m)
  queue_made-Same p nothing = (refl, refl)
  queue_made-Same p (made d) = (refl, refl)
  queue_made-Same p overrun = tt

  queue_uncompressed-Same :
      (p : SerialPort V) (o : Option IpDgram × V) → Same p (queue_uncompressed out p o)
  queue_uncompressed-Same p (none, v) = (refl, refl)
  queue_uncompressed-Same p (some d, v) = (refl, refl)

  unwrapped-Same :
      (p : SerialPort V) (c : Bool) (t : ℕ) (bs : List ℕ) → Same p (unwrapped out p c t bs)
  unwrapped-Same p c t bs =
      either_side (Same p) (p.prtcl && not p.opened) (refl, refl)
        (either_side (Same p) c (queue_uncompressed-Same p (out.uncompress t bs p.comp))
          (queue_made-Same p (make_ip_dgram (out.heap p.frames) out.junk bs)))

  by_protocol-Same :
      KeepsFraming → (p : SerialPort V) (o : Option (ℕ × List ℕ)) → Same p (by_protocol out p o)
  by_protocol-Same keeps p none = unwrapped-Same p true vjhc_type_error []
  by_protocol-Same keeps p (some (protocol, bs)) =
      either_side (Same p) (protocol == ppp_ip) (unwrapped-Same p false vjhc_type_ip bs) (
        either_side (Same p) (protocol == ppp_vjhc_unc)
          (unwrapped-Same p true vjhc_type_uncompr_tcp bs)
          (either_side (Same p) (protocol == ppp_vjhc_c)
            (unwrapped-Same p true vjhc_type_compr_tcp bs) (keeps p protocol bs)))

  process_datagram-Same :
      KeepsFraming → (p : SerialPort V) (frame : List ℕ) → Same p (process_datagram out p frame)
  unfolding process_datagram
  process_datagram-Same keeps p frame =
      either_side (Same p) p.prtcl
        (by_protocol-Same keeps (counted out p frame) (ppp_unwrap p.recve_accm frame))
        (unwrapped-Same (counted out p frame) p.vjhc (slip_unwrap frame).0 (slip_unwrap frame).1)

  emptied-Same : (p : SerialPort V) (o : Option (SerialPort V)) → Same p o → Same p (emptied out o)
  emptied-Same p none h = h
  emptied-Same p (some q) h = h

  at_mark-Same : KeepsFraming → (p : SerialPort V) (bs : List ℕ) → Same p (at_mark out p bs)
  at_mark-Same keeps p [] = (refl, refl)
  at_mark-Same keeps p (b ∷ bs) =
      emptied-Same p (process_datagram out p (b ∷ bs)) (process_datagram-Same keeps p (b ∷ bs))

  take_byte-Same :
      KeepsFraming → (mark : ℕ) (p : SerialPort V) (b : ℕ) → Same p (take_byte out mark p b)
  take_byte-Same keeps mark p b =
      either_side (Same p) (b == mark) (at_mark-Same keeps p p.pending) (refl, refl)

  go_on-Same :
      (mark : ℕ) (bs : List ℕ)
      → ((q : SerialPort V) → Same q (take_bytes out mark q bs))
      → (p : SerialPort V) (o : Option (SerialPort V)) → Same p o
      → Same p (go_on mark bs o)
  go_on-Same mark bs h p none s = tt
  go_on-Same mark bs h p (some q) s = Same-trans p q (take_bytes out mark q bs) s (h q)

  pub take_bytes-Same :
      KeepsFraming → (mark : ℕ) (bs : List ℕ) (p : SerialPort V) → Same p (take_bytes out mark p bs)
  take_bytes-Same keeps mark [] p = subst (Same p) (sym (take_bytes_nil mark p)) (refl, refl)
  take_bytes-Same keeps mark (b ∷ bs) p = subst (Same p) (sym (take_bytes_step mark p b bs)) (
      go_on-Same mark bs (take_bytes-Same keeps mark bs) p (take_byte out mark p b)
        (take_byte-Same keeps mark p b))

  at_mark-Filled : (p : SerialPort V) (bs : List ℕ) → p.pending ≡ bs → Filled 0 (at_mark out p bs)
  at_mark-Filled p [] e = ap length e
  at_mark-Filled p (b ∷ bs) e = emptied-Filled (process_datagram out p (b ∷ bs))

  take_byte-Filled :
      (mark : ℕ) (p : SerialPort V) (b : ℕ)
      → Filled (next_level mark (length p.pending) b) (take_byte out mark p b)
  take_byte-Filled mark p b = elim (Bool-cases (b == mark)) [
    | inl e ↦ rw e (at_mark-Filled p p.pending refl)
    | inr e ↦ rw e (length-append p.pending (b ∷ []))
  ]

  go_on-Filled :
      (mark : ℕ) (bs : List ℕ)
      → ((q : SerialPort V) → Filled (level mark (length q.pending) bs) (take_bytes out mark q bs))
      → (k : ℕ) (o : Option (SerialPort V)) → Filled k o
      → Filled (level mark k bs) (go_on mark bs o)
  go_on-Filled mark bs h k none s = tt
  go_on-Filled mark bs h k (some q) s =
      subst (λ n. Filled (level mark n bs) (take_bytes out mark q bs)) s (h q)

  pub take_bytes-Filled :
      (mark : ℕ) (bs : List ℕ) (p : SerialPort V)
      → Filled (level mark (length p.pending) bs) (take_bytes out mark p bs)
  take_bytes-Filled mark [] p = subst (Filled (length p.pending)) (sym (take_bytes_nil mark p)) refl
  take_bytes-Filled mark (b ∷ bs) p =
      subst (Filled (level mark (length p.pending) (b ∷ bs))) (sym (take_bytes_step mark p b bs)) (
        go_on-Filled mark bs (take_bytes-Filled mark bs) (next_level mark (length p.pending) b)
          (take_byte out mark p b) (take_byte-Filled mark p b))
