-- ===== src/Serial/Port.antt =====
-- ports/serial/xfer.c: `process_datagram`, `my_receive`, and `wrap_ip` without the compression of
-- headers.
pub mod Stream
pub mod Chunks
pub mod Wrapped
pub mod Exchange
pub mod Delivery
use Prim.Native.Nat.{bit_xor}
use stin_g.Prelude.{
  ℕ, ◌+◌, ◌-◌, ◌/◌, min, Bool, true, false, not, ◌&&◌, ◌||◌, List, [], ◌∷◌, ◌++◌, Option, none,
  some, length, take, ltb, leb, ◌==◌, if◌then◌else◌, u8, u32,
}
use stin_g.Sting.Dgram.{IpDgram}
use stin_g.Sting.Expire.{set_dgram_ttl}
use stin_g.Serial.Slip.{
  slip_end, slip_out, slip_unwrap, vjhc_type_error, vjhc_type_ip, vjhc_type_uncompr_tcp,
  vjhc_type_compr_tcp,
}
use stin_g.Serial.Ppp.{
  ppp_flag, ppp_addr, ppp_cntrl, ppp_ip, ppp_vjhc_c, ppp_vjhc_unc, ppp_out, ppp_unwrap, header_sent,
}
use stin_g.Serial.Dgram.{hdr_bytes, Made, nothing, made, overrun, make_ip_dgram}

-- `SERIAL_PORT`. `prtcl` and `vjhc` are FLG_PRTCL and FLG_VJHC, `opened` says that the state of IPCP
-- is PPP_OPENED, `pending` are the `recve_index` bytes at the beginning of the buffer, `receive` is the
-- queue of the port, and `comp` what the compression of headers keeps. `frames` counts the frames; it
-- stands for the place in the answers of the allocator.
pub record SerialPort (V : Type 0) : Type 0 where
  pub active : Bool
  pub prtcl : Bool
  pub vjhc : Bool
  pub opened : Bool
  pub recve_accm : ℕ
  pub stat_rcv_data : ℕ
  pub stat_dropped : ℕ
  pub pending : List ℕ
  pub receive : List IpDgram
  pub comp : V
  pub frames : ℕ

-- What lies outside: the answers of `KRmalloc` while a frame is processed, what its memory holds, the
-- clock, the address of the port, `vjhc_uncompress` of compress.c, and `ppp_control` of p_xcp.c.
pub record Outside (V : Type 0) : Type 0 where
  pub heap : ℕ → ℕ → ℕ → Bool
  pub junk : IpDgram
  pub clock : ℕ
  pub generic : ℕ
  pub uncompress : ℕ → List ℕ → V → Option IpDgram × V
  pub control : SerialPort V → ℕ → List ℕ → SerialPort V

abbrev pub mark_of : Bool → ℕ
mark_of prtcl = if prtcl then ppp_flag else slip_end

abbrev pub has_mark : ℕ → List ℕ → Bool
has_mark mark [] = false
has_mark mark (b ∷ bs) = b == mark || has_mark mark bs

-- How many bytes of those that are ready go into the buffer.
abbrev pub readable : {V : Type 0} → SerialPort V → List ℕ → ℕ
readable p ready = if p.active then min (8190 - length p.pending) (length ready) else 0

module _ {V : Type 0} (out : Outside V) where
  abbrev pub count_dropped : SerialPort V → SerialPort V
  count_dropped p = record p { stat_dropped = u32 (p.stat_dropped + 1) }

  -- The datagram at the end of the queue.
  abbrev pub queued : SerialPort V → IpDgram → SerialPort V
  queued p d = record p {
    receive =
        p.receive ++ record d { recvd = out.generic; timeout = set_dgram_ttl out.clock d.ttl } ∷ [];
  }

  abbrev pub queue_made : SerialPort V → Made → Option (SerialPort V)
  queue_made p nothing = some (count_dropped p)
  queue_made p overrun = none
  queue_made p (made d) = some (queued p d)

  abbrev pub queue_uncompressed : SerialPort V → Option IpDgram × V → Option (SerialPort V)
  queue_uncompressed p (none, v) = some (count_dropped (record p { comp = v }))
  queue_uncompressed p (some d, v) = some (queued (record p { comp = v }) d)

  -- The end of `process_datagram`, behind the unwrapping.
  abbrev pub unwrapped : SerialPort V → Bool → ℕ → List ℕ → Option (SerialPort V)
  unwrapped p compression type data' =
      if p.prtcl && not p.opened
      then some (count_dropped p)
      else if compression
      then queue_uncompressed p (out.uncompress type data' p.comp)
      else queue_made p (make_ip_dgram (out.heap p.frames) out.junk data')

  abbrev pub by_protocol : SerialPort V → Option (ℕ × List ℕ) → Option (SerialPort V)
  by_protocol p none = unwrapped p true vjhc_type_error []
  by_protocol p (some (protocol, data')) =
      if protocol == ppp_ip
      then unwrapped p false vjhc_type_ip data'
      else if protocol == ppp_vjhc_unc
      then unwrapped p true vjhc_type_uncompr_tcp data'
      else if protocol == ppp_vjhc_c
      then unwrapped p true vjhc_type_compr_tcp data'
      else some (out.control p protocol data')

  abbrev pub counted : SerialPort V → List ℕ → SerialPort V
  counted p frame = record p {
    stat_rcv_data = u32 (p.stat_rcv_data + length frame);
    frames = p.frames + 1;
  }

  -- `process_datagram`, of the bytes up to the mark; `none` if it writes over foreign memory.
  pub process_datagram : SerialPort V → List ℕ → Option (SerialPort V)
  process_datagram p frame =
      if p.prtcl
      then by_protocol (counted p frame) (ppp_unwrap p.recve_accm frame)
      else (let got = slip_unwrap frame in unwrapped (counted p frame) p.vjhc got.0 got.1)

  abbrev pub emptied : Option (SerialPort V) → Option (SerialPort V)
  emptied none = none
  emptied (some p) = some (record p { pending = [] })

  -- A mark, behind the bytes of a frame or behind another mark.
  abbrev pub at_mark : SerialPort V → List ℕ → Option (SerialPort V)
  at_mark p [] = some p
  at_mark p (b ∷ bs) = emptied (process_datagram p (b ∷ bs))

  abbrev pub take_byte : ℕ → SerialPort V → ℕ → Option (SerialPort V)
  take_byte mark p b =
      if b == mark then at_mark p p.pending else some (record p { pending = p.pending ++ b ∷ [] })

  -- The loop of `my_receive` over the bytes that were read.
  pub take_bytes : ℕ → SerialPort V → List ℕ → Option (SerialPort V)
  unfolding process_datagram
  take_bytes mark p [] = some p
  take_bytes mark p (b ∷ bs) = elim (take_byte mark p b) [
    | none ↦ none
    | some q ↦ take_bytes mark q bs
  ]

  -- Behind the loop: a buffer that is full and has no mark is given up.
  abbrev pub settled : Bool → Option (SerialPort V) → Option (SerialPort V)
  settled found none = none
  settled found (some p) =
      if not found && leb 8190 (length p.pending)
      then some (record p { pending = []; stat_dropped = u32 (p.stat_dropped + 1) })
      else some p

  abbrev pub receive_read : SerialPort V → List ℕ → Option (SerialPort V)
  receive_read p [] = some p
  receive_read p (b ∷ bs) =
      let mark = mark_of p.prtcl in settled (has_mark mark (b ∷ bs)) (take_bytes mark p (b ∷ bs))

  -- `my_receive`, for the bytes that the device has ready.
  pub my_receive : SerialPort V → List ℕ → Option (SerialPort V)
  unfolding take_bytes
  my_receive p ready = receive_read p (take (readable p ready) ready)

-- The bytes that `wrap_ip` writes for a datagram, by SLIP.
pub slip_frame : IpDgram → List ℕ
unfolding slip_out
slip_frame d =
    slip_end
    ∷ (slip_out (hdr_bytes d) ++ (slip_out d.options ++ (slip_out d.pkt_data ++ slip_end ∷ [])))

-- The same by PPP, for the flags FLG_PRTCL_COMP and FLG_A_C_COMP and the map of control characters.
pub ppp_frame : Bool → Bool → ℕ → IpDgram → List ℕ
unfolding ppp_out
ppp_frame prtcl_comp a_c_comp accm d =
    let head = ppp_out 0xffff accm (header_sent prtcl_comp a_c_comp ppp_ip) in
    let hdr = ppp_out head.1 accm (hdr_bytes d) in
    let options = ppp_out hdr.1 accm d.options in
    let pkt_data = ppp_out options.1 accm d.pkt_data in
    let fcs = bit_xor pkt_data.1 0xffff in
    let chksum = ppp_out fcs accm (u8 fcs ∷ u8 (fcs / 0x100) ∷ []) in
    ppp_flag ∷ (head.0 ++ (hdr.0 ++ (options.0 ++ (pkt_data.0 ++ (chksum.0 ++ ppp_flag ∷ [])))))

-- What `wrap_ip` depends on, of the side that sends.
pub record Sender : Type 0 where
  pub prtcl_comp : Bool
  pub a_c_comp : Bool
  pub send_accm : ℕ

-- `wrap_ip`, behind the fetching of the datagram, for a port without FLG_VJHC.
pub wrap_ip : Sender → Bool → IpDgram → List ℕ
wrap_ip s prtcl d = if prtcl then ppp_frame s.prtcl_comp s.a_c_comp s.send_accm d else slip_frame d
