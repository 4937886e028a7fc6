-- ===== src/Serial/Port/Wrapped.antt =====
-- ports/serial/xfer.c: the bytes that `wrap_ip` writes are a frame between two marks.
use mathlib.Core.List.{append_assoc, append-nil}
use stin_g.Prelude.{ℕ, ◌≡◌, sym, ap, ◌∙◌, Bool, true, false, List, [], ◌∷◌, ◌++◌, arith}
use stin_g.Sting.Dgram.{IpDgram}
use stin_g.Serial.Dgram.{hdr_bytes}
use stin_g.Serial.Dgram.RoundTrip.{dgram_bytes}
use stin_g.Serial.Slip.{slip_end, slip_out}
use stin_g.Serial.Slip.RoundTrip.{Unmarked, slip_out-append, slip_out-Unmarked}
use stin_g.Serial.Ppp.{ppp_flag, ppp_ip, header_sent}
use stin_g.Serial.Ppp.RoundTrip.{
  AllBytes, escape_all, fcs_after, fcs_after-append, ppp_out_lem, escape_all-append,
  escape_all-Unmarked,
}
use stin_g.Serial.Ppp.Unwrap.{
  chksum, sealed, AllBytes-sealed, AllBytes-append, AllBytes-header_sent,
}
use stin_g.Serial.Port.{Sender, mark_of, slip_frame, ppp_frame, wrap_ip}

pub dgram_bytes-append :
    (d : IpDgram) (extra : List ℕ) → dgram_bytes d [] ++ extra ≡ dgram_bytes d extra
dgram_bytes-append d extra =
    append_assoc (hdr_bytes d) (d.options ++ (d.pkt_data ++ [])) extra
    ∙ ap (◌++◌ (hdr_bytes d)) (
        append_assoc d.options (d.pkt_data ++ []) extra
        ∙ ap (λ l. d.options ++ (l ++ extra)) (append-nil d.pkt_data))

-- What stands in the frame before it is escaped.
abbrev pub sent : Sender → IpDgram → List ℕ
sent s d = header_sent s.prtcl_comp s.a_c_comp ppp_ip ++ dgram_bytes d []

-- The frame between the marks.
abbrev pub body : Sender → Bool → IpDgram → List ℕ
body s true d = escape_all s.send_accm (sealed (sent s d))
body s false d = slip_out (dgram_bytes d [])

slip_join :
    (xs ys rest : List ℕ) → slip_out xs ++ (slip_out ys ++ rest) ≡ slip_out (xs ++ ys) ++ rest
slip_join xs ys rest =
    sym (append_assoc (slip_out xs) (slip_out ys) rest)
    ∙ sym (ap (λ l. l ++ rest) (slip_out-append xs ys))

slip_frame-body :
    (s : Sender) (d : IpDgram) → slip_frame d ≡ slip_end ∷ (body s false d ++ slip_end ∷ [])
unfolding slip_frame
slip_frame-body s d =
    let end = slip_end ∷ [] in
    ap (◌∷◌ slip_end) (
      ap (λ l. slip_out (hdr_bytes d) ++ l) (slip_join d.options d.pkt_data end)
      ∙ slip_join (hdr_bytes d) (d.options ++ d.pkt_data) end
      ∙ ap (λ l. slip_out (hdr_bytes d ++ (d.options ++ l)) ++ end) (sym (append-nil d.pkt_data)))

join :
    (accm : ℕ) (xs ys rest : List ℕ)
    → escape_all accm xs ++ (escape_all accm ys ++ rest) ≡ escape_all accm (xs ++ ys) ++ rest
join accm xs ys rest =
    sym (append_assoc (escape_all accm xs) (escape_all accm ys) rest)
    ∙ sym (ap (λ l. l ++ rest) (escape_all-append accm xs ys))

fcs_after-sent :
    (s : Sender) (d : IpDgram)
    → fcs_after
        (fcs_after
          (fcs_after (fcs_after 0xffff (header_sent s.prtcl_comp s.a_c_comp ppp_ip)) (hdr_bytes d))
          d.options)
        d.pkt_data
      ≡ fcs_after 0xffff (sent s d)
fcs_after-sent s d =
    let head = header_sent s.prtcl_comp s.a_c_comp ppp_ip in
    let f0 = fcs_after 0xffff head in
    let f1 = fcs_after f0 (hdr_bytes d) in
    sym (
      fcs_after-append 0xffff head (dgram_bytes d [])
      ∙ fcs_after-append f0 (hdr_bytes d) (d.options ++ (d.pkt_data ++ []))
      ∙ fcs_after-append f1 d.options (d.pkt_data ++ [])
      ∙ ap (fcs_after (fcs_after f1 d.options)) (append-nil d.pkt_data))

ppp_frame-body :
    (s : Sender) (d : IpDgram)
    → ppp_frame s.prtcl_comp s.a_c_comp s.send_accm d ≡ ppp_flag ∷ (body s true d ++ ppp_flag ∷ [])
unfolding ppp_frame
ppp_frame-body s d =
    let a = s.send_accm in
    let head = header_sent s.prtcl_comp s.a_c_comp ppp_ip in
    let f0 = fcs_after 0xffff head in
    let f1 = fcs_after f0 (hdr_bytes d) in
    let f2 = fcs_after f1 d.options in
    let f3 = fcs_after f2 d.pkt_data in
    let end = ppp_flag ∷ [] in
    let chk = chksum f3 in
    let rest = d.pkt_data ++ chk in
    rw
      (
        ppp_out_lem 0xffff a head,
        ppp_out_lem f0 a (hdr_bytes d),
        ppp_out_lem f1 a d.options,
        ppp_out_lem f2 a d.pkt_data,
      )
      (ap (◌∷◌ ppp_flag) (
        ap (λ l. escape_all a head ++ (escape_all a (hdr_bytes d) ++ (escape_all a d.options ++ l)))
          (join a d.pkt_data chk end)
        ∙ ap (λ l. escape_all a head ++ (escape_all a (hdr_bytes d) ++ l))
            (join a d.options rest end)
        ∙ ap (λ l. escape_all a head ++ l) (join a (hdr_bytes d) (d.options ++ rest) end)
        ∙ join a head (dgram_bytes d chk) end
        ∙ ap (λ l. escape_all a l ++ end)
            (ap (λ l. head ++ l) (sym (dgram_bytes-append d chk))
              ∙ sym (append_assoc head (dgram_bytes d []) chk)
              ∙ ap (λ f. sent s d ++ chksum f) (fcs_after-sent s d))))

pub wrap_ip-body :
    (s : Sender) (prtcl : Bool) (d : IpDgram)
    → wrap_ip s prtcl d ≡ mark_of prtcl ∷ (body s prtcl d ++ mark_of prtcl ∷ [])
unfolding wrap_ip
wrap_ip-body s true d = ppp_frame-body s d
wrap_ip-body s false d = slip_frame-body s d

pub AllBytes-sent : (s : Sender) (d : IpDgram) → AllBytes (dgram_bytes d []) → AllBytes (sent s d)
AllBytes-sent s d v =
    AllBytes-append (header_sent s.prtcl_comp s.a_c_comp ppp_ip) (dgram_bytes d [])
      (AllBytes-header_sent s.prtcl_comp s.a_c_comp ppp_ip (omega arith)) v

pub body-Unmarked :
    (s : Sender) (prtcl : Bool) (d : IpDgram)
    → AllBytes (dgram_bytes d [])
    → Unmarked (mark_of prtcl) (body s prtcl d)
body-Unmarked s true d v =
    escape_all-Unmarked s.send_accm (sealed (sent s d))
      (AllBytes-sealed (sent s d) (AllBytes-sent s d v))
body-Unmarked s false d v = slip_out-Unmarked (dgram_bytes d [])
