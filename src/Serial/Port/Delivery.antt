-- ===== src/Serial/Port/Delivery.antt =====
-- ports/serial/xfer.c: the datagrams that one side sends by `wrap_ip` come out of `my_receive` of the
-- other.
use mathlib.Core.Path.{subst}
use mathlib.Core.List.{append_assoc, append-nil}
use stin_g.Prelude.{
  ℕ, ◌+◌, ◌<◌, ◌≤◌, ◌≡◌, refl, sym, ap, ◌∙◌, Bool, true, false, not, ◌&&◌, List, [], ◌∷◌, ◌++◌,
  some, arith, length, u32, ne→==, eq→==, ◌==◌, then_side, else_side, inl, inr, Bool-cases,
}
use stin_g.Sting.Dgram.{IpDgram}
use stin_g.Sting.Expire.{set_dgram_ttl}
use stin_g.Serial.Dgram.{hdr_bytes, made, make_ip_dgram}
use stin_g.Serial.Dgram.RoundTrip.{
  OnWire, arrived, dgram_bytes, length-dgram_bytes, make_ip_dgram-dgram_bytes,
}
use stin_g.Serial.Slip.{slip_out, slip_unwrap, vjhc_type_ip}
use stin_g.Serial.Slip.RoundTrip.{Unmarked, slip_unwrap-slip_out}
use stin_g.Serial.Ppp.{ppp_unwrap, ppp_ip}
use stin_g.Serial.Ppp.RoundTrip.{AllBytes, Covered, fcs_after}
use stin_g.Serial.Ppp.Unwrap.{with_extra, ppp_unwrap-escape_all}
use stin_g.Serial.Port.{
  SerialPort, Outside, Sender, unwrapped, by_protocol, queue_made, counted, process_datagram,
  take_bytes, at_mark, emptied,
}
use stin_g.Serial.Port.Stream.{go_on, take_bytes_step}
use stin_g.Serial.Port.Wrapped.{sent, body, dgram_bytes-append}

-- A datagram that can be sent: its header is right, and its options and data are bytes.
pub record Sound (s : Sender) (prtcl : Bool) (d : IpDgram) : Type 0 where
  pub on_wire : OnWire d
  pub bytes : AllBytes (dgram_bytes d [])
  pub short : length (body s prtcl d) < 8190

module _ {V : Type 0} (out : Outside V) where
  -- What arrives for a datagram.
  abbrev pub received : IpDgram → IpDgram
  received d = record d {
    timeout = set_dgram_ttl out.clock d.ttl;
    ip_gateway = out.junk.ip_gateway;
    recvd = out.generic;
  }

  -- The port behind a frame of `n` bytes with a datagram.
  abbrev pub with_dgram : SerialPort V → ℕ → IpDgram → SerialPort V
  with_dgram p n d = record p {
    stat_rcv_data = u32 (p.stat_rcv_data + n);
    frames = p.frames + 1;
    receive = p.receive ++ received d ∷ [];
    pending = [];
  }

  -- The two sides agree.
  pub record Agree (s : Sender) (p : SerialPort V) : Type 0 where
    pub plain : p.prtcl ≡ false → p.vjhc ≡ false
    pub opened : p.prtcl ≡ true → p.opened ≡ true
    pub covered : p.prtcl ≡ true → Covered p.recve_accm s.send_accm

  abbrev pub HasMemory : Type 0
  HasMemory = (f k n : ℕ) → out.heap f k n ≡ true

  made_dgram :
      HasMemory
      → (f : ℕ) (d : IpDgram) (extra : List ℕ) → OnWire d
      → make_ip_dgram (out.heap f) out.junk (dgram_bytes d extra) ≡ made (arrived out.junk d)
  made_dgram memory f d extra w =
      make_ip_dgram-dgram_bytes (out.heap f) out.junk d extra w (memory f)

  unwrapped-plain :
      HasMemory
      → (p : SerialPort V) (d : IpDgram) (extra : List ℕ) (t : ℕ) → OnWire d
      → (p.prtcl && not p.opened) ≡ false
      → emptied out (unwrapped out p false t (dgram_bytes d extra))
        ≡ some (record p { receive = p.receive ++ received d ∷ []; pending = [] })
  unwrapped-plain memory p d extra t w ok =
      rw ok (ap (λ m. emptied out (queue_made out p m)) (made_dgram memory p.frames d extra w))

  extra_bytes :
      (pc : Bool) (d : IpDgram) (fcs : ℕ)
      → (extra : List ℕ) × (with_extra pc (dgram_bytes d []) fcs ≡ dgram_bytes d extra)
  extra_bytes true d fcs = ([], refl)
  extra_bytes false d fcs = (_, dgram_bytes-append d _)

  first_byte :
      (d : IpDgram)
      → OnWire d
      → slip_unwrap (slip_out (dgram_bytes d [])) ≡ (vjhc_type_ip, dgram_bytes d [])
  unfolding hdr_bytes
  first_byte d w = slip_unwrap-slip_out (0x40 + d.hd_len) _ (omega (arith, w.hd_len_lt))

  process-ppp :
      HasMemory
      → (s : Sender) (p : SerialPort V) (d : IpDgram) → p.prtcl ≡ true
      → Agree s p
      → Sound s true d
      → emptied out (process_datagram out p (body s true d))
        ≡ some (with_dgram p (length (body s true d)) d)
  unfolding process_datagram
  process-ppp memory s p d e a w =
      let c = counted out p (body s true d) in
      let got = ppp_unwrap p.recve_accm (body s true d) in
      let bs = dgram_bytes d [] in
      let fcs = fcs_after 0xffff (sent s d) in
      let (extra, same) = extra_bytes s.prtcl_comp d fcs in
      let long : 3 ≤ length bs =
        omega
          (arith, length-dgram_bytes d [] w.on_wire, w.on_wire.total_eq, w.on_wire.options_eq) in
      let ok : (p.prtcl && not p.opened) ≡ false =
        ap (λ b. b && not p.opened) e ∙ ap not (a.opened e) in
      ap (emptied out) (then_side p.prtcl (by_protocol out c got) _ e)
      ∙ ap (λ g. emptied out (by_protocol out c g))
          (ppp_unwrap-escape_all p.recve_accm s.send_accm s.prtcl_comp s.a_c_comp ppp_ip bs
              (a.covered e) refl (omega arith) w.bytes long
            ∙ ap (λ l. some (ppp_ip, l)) same)
      ∙ unwrapped-plain memory c d extra vjhc_type_ip w.on_wire ok

  process-slip :
      HasMemory
      → (s : Sender) (p : SerialPort V) (d : IpDgram) → p.prtcl ≡ false
      → Agree s p
      → Sound s false d
      → emptied out (process_datagram out p (body s false d))
        ≡ some (with_dgram p (length (body s false d)) d)
  unfolding process_datagram
  process-slip memory s p d e a w =
      let c = counted out p (body s false d) in
      let got = slip_unwrap (body s false d) in
      let ok : (p.prtcl && not p.opened) ≡ false = ap (λ b. b && not p.opened) e in
      ap (emptied out) (else_side p.prtcl _ (unwrapped out c p.vjhc got.0 got.1) e)
      ∙ ap (λ v. emptied out (unwrapped out c v got.0 got.1)) (a.plain e)
      ∙ ap (λ g. emptied out (unwrapped out c false g.0 g.1)) (first_byte d w.on_wire)
      ∙ unwrapped-plain memory c d [] vjhc_type_ip w.on_wire ok

  -- The frame of a datagram, behind the bytes of its own in the buffer.
  pub process-body :
      HasMemory
      → (s : Sender) (p : SerialPort V) (d : IpDgram) → Agree s p
      → Sound s p.prtcl d
      → emptied out (process_datagram out p (body s p.prtcl d))
        ≡ some (with_dgram p (length (body s p.prtcl d)) d)
  process-body memory s p d a w = elim (Bool-cases p.prtcl) [
    | inl e ↦
        subst
          (λ b.
            emptied out (process_datagram out p (body s b d))
            ≡ some (with_dgram p (length (body s b d)) d))
          (sym e) (process-ppp memory s p d e a (subst (λ b. Sound s b d) e w))
    | inr e ↦
        subst
          (λ b.
            emptied out (process_datagram out p (body s b d))
            ≡ some (with_dgram p (length (body s b d)) d))
          (sym e) (process-slip memory s p d e a (subst (λ b. Sound s b d) e w))
  ]

  -- Bytes without a mark are kept in the buffer.
  abbrev pub holding : SerialPort V → List ℕ → SerialPort V
  holding p bs = record p { pending = bs }

  pub take_bytes-Unmarked :
      (mark : ℕ) (bs rest : List ℕ) (p : SerialPort V)
      → Unmarked mark bs
      → take_bytes out mark p (bs ++ rest) ≡ take_bytes out mark (holding p (p.pending ++ bs)) rest
  take_bytes-Unmarked mark [] rest p u =
      ap (λ l. take_bytes out mark (holding p l) rest) (sym (append-nil p.pending))
  take_bytes-Unmarked mark (b ∷ bs) rest p u =
      take_bytes_step out mark p b (bs ++ rest)
      ∙ ap (go_on out mark (bs ++ rest))
          (else_side (b == mark) _ (some (holding p (p.pending ++ b ∷ []))) (ne→== b mark u.0))
      ∙ take_bytes-Unmarked mark bs rest (holding p (p.pending ++ b ∷ [])) u.1
      ∙ ap (λ l. take_bytes out mark (holding p l) rest) (append_assoc p.pending (b ∷ []) bs)

  pub take_mark :
      (mark : ℕ) (p : SerialPort V) (rest : List ℕ)
      → take_bytes out mark p (mark ∷ rest) ≡ go_on out mark rest (at_mark out p p.pending)
  take_mark mark p rest =
      take_bytes_step out mark p mark rest
      ∙ ap (go_on out mark rest)
          (then_side (mark == mark) (at_mark out p p.pending) _ (eq→== mark mark refl))
