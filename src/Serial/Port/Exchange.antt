-- ===== src/Serial/Port/Exchange.antt =====
-- ports/serial/xfer.c: from `wrap_ip` of one side to the queue of the other, through `my_receive` in
-- any number of calls.
use mathlib.Core.Path.{subst}
use mathlib.Core.List.{append_assoc, append-nil, map}
use stin_g.Prelude.{
  ℕ, ◌+◌, ◌<◌, ◌≤◌, ◌≡◌, refl, sym, ap, ◌∙◌, Bool, true, false, List, [], ◌∷◌, ◌++◌, some, some_inj,
  arith, length, length-append, ne→==, eq→==,
}
use stin_g.Sting.Dgram.{IpDgram}
use stin_g.Serial.Dgram.RoundTrip.{dgram_bytes, length-dgram_bytes}
use stin_g.Serial.Slip.{slip_out}
use stin_g.Serial.Slip.RoundTrip.{Unmarked}
use stin_g.Serial.Ppp.{escaped}
use stin_g.Serial.Ppp.RoundTrip.{escape_all, fcs_after}
use stin_g.Serial.Ppp.Unwrap.{sealed, chksum}
use stin_g.Serial.Port.{
  SerialPort, Outside, Sender, mark_of, wrap_ip, process_datagram, take_bytes, at_mark, emptied,
}
use stin_g.Serial.Port.Stream.{Room, KeepsFraming, go_on, take_bytes_nil}
use stin_g.Serial.Port.Chunks.{AllPositive, serve, Waits, serve-Served}
use stin_g.Serial.Port.Wrapped.{sent, body, wrap_ip-body, body-Unmarked}
use stin_g.Serial.Port.Delivery.{
  Sound, Agree, HasMemory, received, with_dgram, holding, process-body, take_bytes-Unmarked,
  take_mark,
}

slip_out-longer : (bs : List ℕ) → length bs ≤ length (slip_out bs)
unfolding slip_out
slip_out-longer [] = omega arith
slip_out-longer (b ∷ bs) = ground (arith, slip_out-longer bs)

escaped-longer : (accm b : ℕ) → 1 ≤ length (escaped accm b)
unfolding escaped
escaped-longer accm b = ground arith

escape_all-longer : (accm : ℕ) (bs : List ℕ) → length bs ≤ length (escape_all accm bs)
escape_all-longer accm [] = omega arith
escape_all-longer accm (b ∷ bs) = omega (
  arith,
  length-append (escaped accm b) (escape_all accm bs),
  escaped-longer accm b,
  escape_all-longer accm bs,
)

-- No frame is empty.
body-longer :
    (s : Sender) (prtcl : Bool) (d : IpDgram) → Sound s prtcl d → 0 < length (body s prtcl d)
body-longer s true d w = omega (
  arith,
  escape_all-longer s.send_accm (sealed (sent s d)),
  length-append (sent s d) (chksum (fcs_after 0xffff (sent s d))),
)
body-longer s false d w = omega (
  arith,
  slip_out-longer (dgram_bytes d []),
  length-dgram_bytes d [] w.on_wire,
  w.on_wire.total_eq,
  w.on_wire.options_eq,
)

-- The bytes of a frame and its mark go into the buffer and out of it.
Room-frame :
    (mark k : ℕ) (bs rest : List ℕ)
    → Unmarked mark bs
    → k + length bs < 8190
    → Room mark 0 rest
    → Room mark k (bs ++ mark ∷ rest)
Room-frame mark k [] rest u h r = (omega (arith, h), rw (eq→== mark mark refl) r)
Room-frame mark k (b ∷ bs) rest u h r = (
  omega (arith, h),
  rw (ne→== b mark u.0) (Room-frame mark (k + 1) bs rest u.1 (omega (arith, h)) r),
)

-- What one side sends.
pub stream : Sender → Bool → List IpDgram → List ℕ
stream s prtcl [] = []
stream s prtcl (d ∷ ds) = wrap_ip s prtcl d ++ stream s prtcl ds

abbrev pub AllSound : Sender → Bool → List IpDgram → Type 0
AllSound s prtcl [] = Unit
AllSound s prtcl (d ∷ ds) = Sound s prtcl d × AllSound s prtcl ds

stream_step :
    (s : Sender) (prtcl : Bool) (d : IpDgram) (ds : List IpDgram)
    → stream s prtcl (d ∷ ds)
      ≡ mark_of prtcl ∷ (body s prtcl d ++ mark_of prtcl ∷ stream s prtcl ds)
unfolding stream
stream_step s prtcl d ds =
    ap (λ l. l ++ stream s prtcl ds) (wrap_ip-body s prtcl d)
    ∙ ap (◌∷◌ (mark_of prtcl))
        (append_assoc (body s prtcl d) (mark_of prtcl ∷ []) (stream s prtcl ds))

stream-Room :
    (s : Sender) (prtcl : Bool) (ds : List IpDgram)
    → AllSound s prtcl ds
    → Room (mark_of prtcl) 0 (stream s prtcl ds)
unfolding stream
stream-Room s prtcl [] v = omega arith
stream-Room s prtcl (d ∷ ds) v = subst (Room (mark_of prtcl) 0) (sym (stream_step s prtcl d ds)) (
  omega arith,
  rw (eq→== (mark_of prtcl) (mark_of prtcl) refl) (
      Room-frame (mark_of prtcl) 0 (body s prtcl d) (stream s prtcl ds)
        (body-Unmarked s prtcl d v.0.bytes) (omega (arith, v.0.short))
        (stream-Room s prtcl ds v.1)),
)

module _ {V : Type 0} (out : Outside V) where
  at_mark-frame :
      (p : SerialPort V) (bs : List ℕ)
      → 0 < length bs
      → at_mark out p bs ≡ emptied out (process_datagram out p bs)
  at_mark-frame p [] h = absurd (omega (arith, h))
  at_mark-frame p (b ∷ bs) h = refl

  Agree-holding :
      (s : Sender) (p : SerialPort V) (bs : List ℕ) → Agree out s p → Agree out s (holding out p bs)
  Agree-holding s p bs a = record { plain = a.plain; opened = a.opened; covered = a.covered }

  Agree-with_dgram :
      (s : Sender) (p : SerialPort V) (n : ℕ) (d : IpDgram)
      → Agree out s p
      → Agree out s (with_dgram out p n d)
  Agree-with_dgram s p n d a = record { plain = a.plain; opened = a.opened; covered = a.covered }

  -- A frame puts its datagram into the queue.
  take_frame :
      HasMemory out
      → (s : Sender) (p : SerialPort V) (d : IpDgram) (rest : List ℕ) → Agree out s p
      → Sound s p.prtcl d
      → p.pending ≡ []
      → take_bytes out
          (mark_of p.prtcl)
          p
          (mark_of p.prtcl ∷ (body s p.prtcl d ++ mark_of p.prtcl ∷ rest))
        ≡ take_bytes out (mark_of p.prtcl) (with_dgram out p (length (body s p.prtcl d)) d) rest
  take_frame memory s p d rest a w e =
      let mark = mark_of p.prtcl in
      let bs = body s p.prtcl d in
      take_mark out mark p (bs ++ mark ∷ rest)
      ∙ ap (λ l. go_on out mark (bs ++ mark ∷ rest) (at_mark out p l)) e
      ∙ take_bytes-Unmarked out mark bs (mark ∷ rest) p (body-Unmarked s p.prtcl d w.bytes)
      ∙ ap (λ l. take_bytes out mark (holding out p (l ++ bs)) (mark ∷ rest)) e
      ∙ take_mark out mark (holding out p bs) rest
      ∙ ap (go_on out mark rest) (
          at_mark-frame (holding out p bs) bs (body-longer s p.prtcl d w)
          ∙ process-body out memory s (holding out p bs) d (Agree-holding s p bs a) w)

  -- The port behind the frames of some datagrams.
  abbrev pub with_all : Sender → SerialPort V → List IpDgram → SerialPort V
  with_all s p [] = p
  with_all s p (d ∷ ds) = with_all s (with_dgram out p (length (body s p.prtcl d)) d) ds

  take_bytes-stream :
      HasMemory out
      → (s : Sender) (p : SerialPort V) (ds : List IpDgram) → Agree out s p
      → AllSound s p.prtcl ds
      → p.pending ≡ []
      → take_bytes out (mark_of p.prtcl) p (stream s p.prtcl ds) ≡ some (with_all s p ds)
  unfolding stream
  take_bytes-stream memory s p [] a v e = take_bytes_nil out (mark_of p.prtcl) p
  take_bytes-stream memory s p (d ∷ ds) a v e =
      let q = with_dgram out p (length (body s p.prtcl d)) d in
      ap (take_bytes out (mark_of p.prtcl) p) (stream_step s p.prtcl d ds)
      ∙ take_frame memory s p d (stream s p.prtcl ds) a v.0 e
      ∙ take_bytes-stream memory s q ds (Agree-with_dgram s p (length (body s p.prtcl d)) d a) v.1
          refl

  -- The datagrams are in the queue, in their order, and none was dropped.
  pub record Delivered (p q : SerialPort V) (ds : List IpDgram) : Type 0 where
    pub queue : q.receive ≡ p.receive ++ map (received out) ds
    pub dropped : q.stat_dropped ≡ p.stat_dropped
    pub pending : q.pending ≡ []

  with_all-Delivered :
      (s : Sender) (p : SerialPort V) (ds : List IpDgram)
      → p.pending ≡ []
      → Delivered p (with_all s p ds) ds
  with_all-Delivered s p [] e = record {
    queue = sym (append-nil p.receive);
    dropped = refl;
    pending = e;
  }
  with_all-Delivered s p (d ∷ ds) e =
      let ih = with_all-Delivered s (with_dgram out p (length (body s p.prtcl d)) d) ds refl in
      record {
        queue = ih.queue ∙ append_assoc p.receive (received out d ∷ []) (map (received out) ds);
        dropped = ih.dropped;
        pending = ih.pending;
      }

  nothing_left : (bs : List ℕ) → length bs ≡ 0 → bs ≡ []
  nothing_left [] e = refl
  nothing_left (b ∷ bs) e = absurd (omega (arith, e))

  -- x
  -- Where `KRmalloc` has memory, `ppp_control` leaves the framing and the activity of a port alone,
  -- and the two sides agree (by SLIP no compression of headers; by PPP the link is open, and each
  -- control character that the receiver passes over is one that the sender escapes), the bytes that
  -- `wrap_ip` writes for datagrams with right headers and frames of less than 8190 bytes are taken
  -- by `my_receive`, in any number of calls with any number of bytes ready at each. When nothing of
  -- them is left, the datagrams stand in the queue of the port, in their order and each with the
  -- fields, options and data that were sent, behind what was in it, and none was dropped; and
  -- nothing is left after as many calls as there are bytes, if each finds a byte.
  -- Where `KRmalloc` has memory, `ppp_control` leaves the framing and the activity of a port alone,
  -- and the two sides agree (by SLIP no compression of headers; by PPP the link is open, and each
  -- control character that the receiver passes over is one that the sender escapes), the bytes that
  -- `wrap_ip` writes for datagrams with right headers and frames of less than 8190 bytes are taken
  -- by `my_receive`, in any number of calls with any number of bytes ready at each. When nothing of
  -- them is left, the datagrams stand in the queue of the port, in their order and each with the
  -- fields, options and data that were sent, behind what was in it, and none was dropped; and
  -- nothing is left after as many calls as there are bytes, if each finds a byte.
  -- Where `KRmalloc` has memory, `ppp_control` leaves the framing and the activity of a port alone,
  -- and the two sides agree (by SLIP no compression of headers; by PPP the link is open, and each
  -- control character that the receiver passes over is one that the sender escapes), the bytes that
  -- `wrap_ip` writes for datagrams with right headers and frames of less than 8190 bytes are taken
  -- by `my_receive`, in any number of calls with any number of bytes ready at each. When nothing of
  -- them is left, the datagrams stand in the queue of the port, in their order and each with the
  -- fields, options and data that were sent, behind what was in it, and none was dropped; and
  -- nothing is left after as many calls as there are bytes, if each finds a byte.
  -- Where `KRmalloc` has memory, `ppp_control` leaves the framing and the activity of a port alone,
  -- and the two sides agree (by SLIP no compression of headers; by PPP the link is open, and each
  -- control character that the receiver passes over is one that the sender escapes), the bytes that
  -- `wrap_ip` writes for datagrams with right headers and frames of less than 8190 bytes are taken
  -- by `my_receive`, in any number of calls with any number of bytes ready at each. When nothing of
  -- them is left, the datagrams stand in the queue of the port, in their order and each with the
  -- fields, options and data that were sent, behind what was in it, and none was dropped; and
  -- nothing is left after as many calls as there are bytes, if each finds a byte.
  -- Where `KRmalloc` has memory, `ppp_control` leaves the framing and the activity of a port alone,
  -- and the two sides agree (by SLIP no compression of headers; by PPP the link is open, and each
  -- control character that the receiver passes over is one that the sender escapes), the bytes that
  -- `wrap_ip` writes for datagrams with right headers and frames of less than 8190 bytes are taken
  -- by `my_receive`, in any number of calls with any number of bytes ready at each. When nothing of
  -- them is left, the datagrams stand in the queue of the port, in their order and each with the
  -- fields, options and data that were sent, behind what was in it, and none was dropped; and
  -- nothing is left after as many calls as there are bytes, if each finds a byte.
  -- Where `KRmalloc` has memory, `ppp_control` leaves the framing and the activity of a port alone,
  -- and the two sides agree (by SLIP no compression of headers; by PPP the link is open, and each
  -- control character that the receiver passes over is one that the sender escapes), the bytes that
  -- `wrap_ip` writes for datagrams with right headers and frames of less than 8190 bytes are taken
  -- by `my_receive`, in any number of calls with any number of bytes ready at each. When nothing of
  -- them is left, the datagrams stand in the queue of the port, in their order and each with the
  -- fields, options and data that were sent, behind what was in it, and none was dropped; and
  -- nothing is left after as many calls as there are bytes, if each finds a byte.
  -- Where `KRmalloc` has memory, `ppp_control` leaves the framing and the activity of a port alone,
  -- and the two sides agree (by SLIP no compression of headers; by PPP the link is open, and each
  -- control character that the receiver passes over is one that the sender escapes), the bytes that
  -- `wrap_ip` writes for datagrams with right headers and frames of less than 8190 bytes are taken
  -- by `my_receive`, in any number of calls with any number of bytes ready at each. When nothing of
  -- them is left, the datagrams stand in the queue of the port, in their order and each with the
  -- fields, options and data that were sent, behind what was in it, and none was dropped; and
  -- nothing is left after as many calls as there are bytes, if each finds a byte.
  -- Where `KRmalloc` has memory, `ppp_control` leaves the framing and the activity of a port alone,
  -- and the two sides agree (by SLIP no compression of headers; by PPP the link is open, and each
  -- control character that the receiver passes over is one that the sender escapes), the bytes that
  -- `wrap_ip` writes for datagrams with right headers and frames of less than 8190 bytes are taken
  -- by `my_receive`, in any number of calls with any number of bytes ready at each. When nothing of
  -- them is left, the datagrams stand in the queue of the port, in their order and each with the
  -- fields, options and data that were sent, behind what was in it, and none was dropped; and
  -- nothing is left after as many calls as there are bytes, if each finds a byte.
  -- Where `KRmalloc` has memory, `ppp_control` leaves the framing and the activity of a port alone,
  -- and the two sides agree (by SLIP no compression of headers; by PPP the link is open, and each
  -- control character that the receiver passes over is one that the sender escapes), the bytes that
  -- `wrap_ip` writes for datagrams with right headers and frames of less than 8190 bytes are taken
  -- by `my_receive`, in any number of calls with any number of bytes ready at each. When nothing of
  -- them is left, the datagrams stand in the queue of the port, in their order and each with the
  -- fields, options and data that were sent, behind what was in it, and none was dropped; and
  -- nothing is left after as many calls as there are bytes, if each finds a byte.
  -- Where `KRmalloc` has memory, `ppp_control` leaves the framing and the activity of a port alone,
  -- and the two sides agree (by SLIP no compression of headers; by PPP the link is open, and each
  -- control character that the receiver passes over is one that the sender escapes), the bytes that
  -- `wrap_ip` writes for datagrams with right headers and frames of less than 8190 bytes are taken
  -- by `my_receive`, in any number of calls with any number of bytes ready at each. When nothing of
  -- them is left, the datagrams stand in the queue of the port, in their order and each with the
  -- fields, options and data that were sent, behind what was in it, and none was dropped; and
  -- nothing is left after as many calls as there are bytes, if each finds a byte.
  -- Where `KRmalloc` has memory, `ppp_control` leaves the framing and the activity of a port alone,
  -- and the two sides agree (by SLIP no compression of headers; by PPP the link is open, and each
  -- control character that the receiver passes over is one that the sender escapes), the bytes that
  -- `wrap_ip` writes for datagrams with right headers and frames of less than 8190 bytes are taken
  -- by `my_receive`, in any number of calls with any number of bytes ready at each. When nothing of
  -- them is left, the datagrams stand in the queue of the port, in their order and each with the
  -- fields, options and data that were sent, behind what was in it, and none was dropped; and
  -- nothing is left after as many calls as there are bytes, if each finds a byte.
  -- Where `KRmalloc` has memory, `ppp_control` leaves the framing and the activity of a port alone,
  -- and the two sides agree (by SLIP no compression of headers; by PPP the link is open, and each
  -- control character that the receiver passes over is one that the sender escapes), the bytes that
  -- `wrap_ip` writes for datagrams with right headers and frames of less than 8190 bytes are taken
  -- by `my_receive`, in any number of calls with any number of bytes ready at each. When nothing of
  -- them is left, the datagrams stand in the queue of the port, in their order and each with the
  -- fields, options and data that were sent, behind what was in it, and none was dropped; and
  -- nothing is left after as many calls as there are bytes, if each finds a byte.
  -- Where `KRmalloc` has memory, `ppp_control` leaves the framing and the activity of a port alone,
  -- and the two sides agree (by SLIP no compression of headers; by PPP the link is open, and each
  -- control character that the receiver passes over is one that the sender escapes), the bytes that
  -- `wrap_ip` writes for datagrams with right headers and frames of less than 8190 bytes are taken
  -- by `my_receive`, in any number of calls with any number of bytes ready at each. When nothing of
  -- them is left, the datagrams stand in the queue of the port, in their order and each with the
  -- fields, options and data that were sent, behind what was in it, and none was dropped; and
  -- nothing is left after as many calls as there are bytes, if each finds a byte.
  -- Where `KRmalloc` has memory, `ppp_control` leaves the framing and the activity of a port alone,
  -- and the two sides agree (by SLIP no compression of headers; by PPP the link is open, and each
  -- control character that the receiver passes over is one that the sender escapes), the bytes that
  -- `wrap_ip` writes for datagrams with right headers and frames of less than 8190 bytes are taken
  -- by `my_receive`, in any number of calls with any number of bytes ready at each. When nothing of
  -- them is left, the datagrams stand in the queue of the port, in their order and each with the
  -- fields, options and data that were sent, behind what was in it, and none was dropped; and
  -- nothing is left after as many calls as there are bytes, if each finds a byte.
  -- Where `KRmalloc` has memory, `ppp_control` leaves the framing and the activity of a port alone,
  -- and the two sides agree (by SLIP no compression of headers; by PPP the link is open, and each
  -- control character that the receiver passes over is one that the sender escapes), the bytes that
  -- `wrap_ip` writes for datagrams with right headers and frames of less than 8190 bytes are taken
  -- by `my_receive`, in any number of calls with any number of bytes ready at each. When nothing of
  -- them is left, the datagrams stand in the queue of the port, in their order and each with the
  -- fields, options and data that were sent, behind what was in it, and none was dropped; and
  -- nothing is left after as many calls as there are bytes, if each finds a byte.
  -- Where `KRmalloc` has memory, `ppp_control` leaves the framing and the activity of a port alone,
  -- and the two sides agree (by SLIP no compression of headers; by PPP the link is open, and each
  -- control character that the receiver passes over is one that the sender escapes), the bytes that
  -- `wrap_ip` writes for datagrams with right headers and frames of less than 8190 bytes are taken
  -- by `my_receive`, in any number of calls with any number of bytes ready at each. When nothing of
  -- them is left, the datagrams stand in the queue of the port, in their order and each with the
  -- fields, options and data that were sent, behind what was in it, and none was dropped; and
  -- nothing is left after as many calls as there are bytes, if each finds a byte.
  -- Where `KRmalloc` has memory, `ppp_control` leaves the framing and the activity of a port alone,
  -- and the two sides agree (by SLIP no compression of headers; by PPP the link is open, and each
  -- control character that the receiver passes over is one that the sender escapes), the bytes that
  -- `wrap_ip` writes for datagrams with right headers and frames of less than 8190 bytes are taken
  -- by `my_receive`, in any number of calls with any number of bytes ready at each. When nothing of
  -- them is left, the datagrams stand in the queue of the port, in their order and each with the
  -- fields, options and data that were sent, behind what was in it, and none was dropped; and
  -- nothing is left after as many calls as there are bytes, if each finds a byte.
  -- Where `KRmalloc` has memory, `ppp_control` leaves the framing and the activity of a port alone,
  -- and the two sides agree (by SLIP no compression of headers; by PPP the link is open, and each
  -- control character that the receiver passes over is one that the sender escapes), the bytes that
  -- `wrap_ip` writes for datagrams with right headers and frames of less than 8190 bytes are taken
  -- by `my_receive`, in any number of calls with any number of bytes ready at each. When nothing of
  -- them is left, the datagrams stand in the queue of the port, in their order and each with the
  -- fields, options and data that were sent, behind what was in it, and none was dropped; and
  -- nothing is left after as many calls as there are bytes, if each finds a byte.
  -- Where `KRmalloc` has memory, `ppp_control` leaves the framing and the activity of a port alone,
  -- and the two sides agree (by SLIP no compression of headers; by PPP the link is open, and each
  -- control character that the receiver passes over is one that the sender escapes), the bytes that
  -- `wrap_ip` writes for datagrams with right headers and frames of less than 8190 bytes are taken
  -- by `my_receive`, in any number of calls with any number of bytes ready at each. When nothing of
  -- them is left, the datagrams stand in the queue of the port, in their order and each with the
  -- fields, options and data that were sent, behind what was in it, and none was dropped; and
  -- nothing is left after as many calls as there are bytes, if each finds a byte.
  -- Where `KRmalloc` has memory, `ppp_control` leaves the framing and the activity of a port alone,
  -- and the two sides agree (by SLIP no compression of headers; by PPP the link is open, and each
  -- control character that the receiver passes over is one that the sender escapes), the bytes that
  -- `wrap_ip` writes for datagrams with right headers and frames of less than 8190 bytes are taken
  -- by `my_receive`, in any number of calls with any number of bytes ready at each. When nothing of
  -- them is left, the datagrams stand in the queue of the port, in their order and each with the
  -- fields, options and data that were sent, behind what was in it, and none was dropped; and
  -- nothing is left after as many calls as there are bytes, if each finds a byte.
  -- Where `KRmalloc` has memory, `ppp_control` leaves the framing and the activity of a port alone,
  -- and the two sides agree (by SLIP no compression of headers; by PPP the link is open, and each
  -- control character that the receiver passes over is one that the sender escapes), the bytes that
  -- `wrap_ip` writes for datagrams with right headers and frames of less than 8190 bytes are taken
  -- by `my_receive`, in any number of calls with any number of bytes ready at each. When nothing of
  -- them is left, the datagrams stand in the queue of the port, in their order and each with the
  -- fields, options and data that were sent, behind what was in it, and none was dropped; and
  -- nothing is left after as many calls as there are bytes, if each finds a byte.
  -- Where `KRmalloc` has memory, `ppp_control` leaves the framing and the activity of a port alone,
  -- and the two sides agree (by SLIP no compression of headers; by PPP the link is open, and each
  -- control character that the receiver passes over is one that the sender escapes), the bytes that
  -- `wrap_ip` writes for datagrams with right headers and frames of less than 8190 bytes are taken
  -- by `my_receive`, in any number of calls with any number of bytes ready at each. When nothing of
  -- them is left, the datagrams stand in the queue of the port, in their order and each with the
  -- fields, options and data that were sent, behind what was in it, and none was dropped; and
  -- nothing is left after as many calls as there are bytes, if each finds a byte.
  -- Where `KRmalloc` has memory, `ppp_control` leaves the framing and the activity of a port alone,
  -- and the two sides agree (by SLIP no compression of headers; by PPP the link is open, and each
  -- control character that the receiver passes over is one that the sender escapes), the bytes that
  -- `wrap_ip` writes for datagrams with right headers and frames of less than 8190 bytes are taken
  -- by `my_receive`, in any number of calls with any number of bytes ready at each. When nothing of
  -- them is left, the datagrams stand in the queue of the port, in their order and each with the
  -- fields, options and data that were sent, behind what was in it, and none was dropped; and
  -- nothing is left after as many calls as there are bytes, if each finds a byte.
  -- Where `KRmalloc` has memory, `ppp_control` leaves the framing and the activity of a port alone,
  -- and the two sides agree (by SLIP no compression of headers; by PPP the link is open, and each
  -- control character that the receiver passes over is one that the sender escapes), the bytes that
  -- `wrap_ip` writes for datagrams with right headers and frames of less than 8190 bytes are taken
  -- by `my_receive`, in any number of calls with any number of bytes ready at each. When nothing of
  -- them is left, the datagrams stand in the queue of the port, in their order and each with the
  -- fields, options and data that were sent, behind what was in it, and none was dropped; and
  -- nothing is left after as many calls as there are bytes, if each finds a byte.
  pub my_receive-wrap_ip :
      (s : Sender) (p : SerialPort V) (ds : List IpDgram) (ns : List ℕ)
      → HasMemory out
      → KeepsFraming out
      → Agree out s p
      → p.active ≡ true
      → p.pending ≡ []
      → AllSound s p.prtcl ds
      → (q : SerialPort V) × (rest : List ℕ) × (serve out p (stream s p.prtcl ds) ns
          ≡ some (q, rest))
        × (rest ≡ [] → Delivered p q ds)
        × (AllPositive ns → length (stream s p.prtcl ds) ≤ length ns → rest ≡ [])
  my_receive-wrap_ip s p ds ns memory keeps a active e v =
      let mark = mark_of p.prtcl in
      let w : Waits out mark p (stream s p.prtcl ds) (with_all s p ds) = record {
        active = active;
        framing = refl;
        room =
            subst (λ l. Room mark (length l) (stream s p.prtcl ds)) (sym e)
              (stream-Room s p.prtcl ds v);
        goal = take_bytes-stream memory s p ds a v e;
      } in
      let (q, rest, served, left, all_read) =
        serve-Served out keeps mark ns p (with_all s p ds) (stream s p.prtcl ds) w in
      (
        q,
        rest,
        served,
        (λ none_left.
            let same : q ≡ with_all s p ds = some_inj (
              sym (take_bytes_nil out mark q)
              ∙ ap (take_bytes out mark q) (sym none_left)
              ∙ left.goal) in
            subst (λ r. Delivered p r ds) (sym same) (with_all-Delivered s p ds e)),
        (λ pos long. nothing_left rest (all_read pos long)),
      )
