-- ===== src/Serial/Ppp/Unwrap.antt =====
-- ports/serial/xfer.c: `ppp_unwrap` of a frame that was wrapped by PPP.
use Prim.Native.Nat.{bit_xor}
use mathlib.Core.List.{append_assoc}
use stin_g.Prelude.{
  ℕ, suc, ◌+◌, ◌-◌, ◌*◌, ◌/◌, ◌<◌, ◌≤◌, ◌≡◌, refl, sym, ap, ◌∙◌, Bool, true, false, not, List, [],
  ◌∷◌, ◌++◌, none, some, arith, length, length-append, take, take-append_left, take-all, ltb, ◌==◌,
  ne→==, if◌then◌else◌, u8,
}
use stin_g.Serial.Slip.RoundTrip.{Unmarked}
use stin_g.Serial.Ppp.{
  ppp_flag, ppp_addr, fcs_step, read_frame, past_flag, past_address, is_odd, read_protocol, checked,
  ppp_unwrap, header_sent, ppp_out,
}
use stin_g.Serial.Ppp.Residue.{fcs_step_lt, fcs_step-complement}
use stin_g.Serial.Ppp.RoundTrip.{
  AllBytes, Covered, escape_all, fcs_after, fcs_after-append, ppp_out_lem, escape_all-append,
  read-escape_all, escape_all-Unmarked,
}

-- The two bytes of a check sequence as they are sent.
abbrev pub chksum : ℕ → List ℕ
chksum fcs = u8 (bit_xor fcs 0xffff) ∷ u8 (bit_xor fcs 0xffff / 0x100) ∷ []

abbrev pub sealed : List ℕ → List ℕ
sealed bs = bs ++ chksum (fcs_after 0xffff bs)

fcs_after_lt : (fcs : ℕ) (bs : List ℕ) → fcs < 0x10000 → fcs_after fcs bs < 0x10000
fcs_after_lt fcs [] h = h
fcs_after_lt fcs (b ∷ bs) h = fcs_after_lt (fcs_step fcs b) bs (fcs_step_lt fcs b h)

fcs_after-sealed : (bs : List ℕ) → fcs_after 0xffff (sealed bs) ≡ 0xf0b8
fcs_after-sealed bs =
    fcs_after-append 0xffff bs (chksum (fcs_after 0xffff bs))
    ∙ fcs_step-complement (fcs_after 0xffff bs) (fcs_after_lt 0xffff bs (omega arith))

pub AllBytes-append : (xs ys : List ℕ) → AllBytes xs → AllBytes ys → AllBytes (xs ++ ys)
AllBytes-append [] ys v w = w
AllBytes-append (x ∷ xs) ys v w = (v.0, AllBytes-append xs ys v.1 w)

pub AllBytes-sealed : (bs : List ℕ) → AllBytes bs → AllBytes (sealed bs)
AllBytes-sealed bs v =
    AllBytes-append bs (chksum (fcs_after 0xffff bs)) v (omega arith, (omega arith, tt))

past_flag-Unmarked : (bs : List ℕ) → Unmarked ppp_flag bs → past_flag bs ≡ bs
past_flag-Unmarked [] u = refl
past_flag-Unmarked (b ∷ bs) u = rw (ne→== b ppp_flag u.0) refl

-- A frame with a right check sequence comes to what is written behind its address.
pub ppp_unwrap-sealed :
    (recve_accm send_accm : ℕ) (bs : List ℕ)
    → AllBytes bs
    → Covered recve_accm send_accm
    → 4 ≤ length bs
    → ppp_unwrap recve_accm (escape_all send_accm (sealed bs))
      ≡ read_protocol (past_address (sealed bs))
unfolding ppp_unwrap
ppp_unwrap-sealed ra sa bs v c long =
    let bytes = AllBytes-sealed bs v in
    let small : ltb (length (sealed bs)) 6 ≡ false =
      ground (arith, length-append bs (chksum (fcs_after 0xffff bs)), long) in
    let right : not (fcs_after 0xffff (sealed bs) == 0xf0b8) ≡ false =
      ground (arith, fcs_after-sealed bs) in
    ap (λ f. checked (read_frame ra false 0xffff f))
      (past_flag-Unmarked (escape_all sa (sealed bs)) (escape_all-Unmarked sa (sealed bs) bytes))
    ∙ ap checked (read-escape_all ra sa 0xffff (sealed bs) bytes c)
    ∙ rw (right, small) refl

-- The data behind a protocol, and the byte of the check sequence that is taken with them where the
-- protocol has two bytes.
abbrev pub with_extra : Bool → List ℕ → ℕ → List ℕ
with_extra true bs fcs = bs
with_extra false bs fcs = bs ++ u8 (bit_xor fcs 0xffff) ∷ []

taken : (k : ℕ) (bs extra : List ℕ) → k ≡ length bs → take k (bs ++ extra) ≡ bs
taken k bs extra e =
    ap (λ n. take n (bs ++ extra)) e
    ∙ take-append_left (length bs) bs extra (omega arith)
    ∙ take-all (length bs) bs (omega arith)

read-one_byte :
    (protocol fcs : ℕ) (bs : List ℕ)
    → is_odd protocol ≡ true
    → read_protocol (protocol ∷ (bs ++ chksum fcs)) ≡ some (protocol, bs)
read-one_byte protocol fcs bs odd =
    let k : suc (length (bs ++ chksum fcs)) - 3 ≡ length bs =
      omega (arith, length-append bs (chksum fcs)) in
    rw odd (rw odd (ap (λ l. some (protocol, l)) (taken _ bs (chksum fcs) k)))

read-two_bytes :
    (protocol fcs : ℕ) (bs : List ℕ)
    → is_odd protocol ≡ true
    → read_protocol (0 ∷ protocol ∷ (bs ++ chksum fcs)) ≡ some (protocol, with_extra false bs fcs)
read-two_bytes protocol fcs bs odd =
    let low = u8 (bit_xor fcs 0xffff) in
    let high = u8 (bit_xor fcs 0xffff / 0x100) in
    let whole : 0 * 0x100 + protocol ≡ protocol = omega arith in
    let k : suc (suc (length (bs ++ chksum fcs))) - 3 ≡ length (bs ++ low ∷ []) =
      omega (arith, length-append bs (chksum fcs), length-append bs (low ∷ [])) in
    let split : bs ++ chksum fcs ≡ (bs ++ low ∷ []) ++ high ∷ [] =
      sym (append_assoc bs (low ∷ []) (high ∷ [])) in
    let got : take (suc (suc (length (bs ++ chksum fcs))) - 3) (bs ++ chksum fcs) ≡ bs ++ low ∷ [] =
      ap (take (suc (suc (length (bs ++ chksum fcs))) - 3)) split
      ∙ taken _ (bs ++ low ∷ []) (high ∷ []) k in
    ap
      (λ n.
        if is_odd n
        then some (n, take (suc (suc (length (bs ++ chksum fcs))) - 3) (bs ++ chksum fcs))
        else none)
      whole
    ∙ rw odd (ap (λ l. some (protocol, l)) got)

-- The header in front, in its four forms.
past_address-header :
    (prtcl_comp a_c_comp : Bool) (protocol : ℕ) (bs : List ℕ)
    → protocol < 0xff
    → past_address (header_sent prtcl_comp a_c_comp protocol ++ bs)
      ≡ header_sent prtcl_comp true protocol ++ bs
past_address-header true true protocol bs h =
    rw (ne→== protocol ppp_addr (λ e. absurd (omega (arith, e, h)))) refl
past_address-header true false protocol bs h = refl
past_address-header false true protocol bs h = refl
past_address-header false false protocol bs h = refl

read_protocol-header :
    (prtcl_comp : Bool) (protocol fcs : ℕ) (bs : List ℕ)
    → is_odd protocol ≡ true
    → read_protocol (header_sent prtcl_comp true protocol ++ (bs ++ chksum fcs))
      ≡ some (protocol, with_extra prtcl_comp bs fcs)
read_protocol-header true protocol fcs bs odd = read-one_byte protocol fcs bs odd
read_protocol-header false protocol fcs bs odd = read-two_bytes protocol fcs bs odd

pub AllBytes-header_sent :
    (prtcl_comp a_c_comp : Bool) (protocol : ℕ)
    → protocol < 0xff
    → AllBytes (header_sent prtcl_comp a_c_comp protocol)
AllBytes-header_sent true true protocol h = (omega arith, tt)
AllBytes-header_sent true false protocol h = (omega arith, (omega arith, (omega arith, tt)))
AllBytes-header_sent false true protocol h = (omega arith, (omega arith, tt))
AllBytes-header_sent false false protocol h =
    (omega arith, (omega arith, (omega arith, (omega arith, tt))))

header_sent-length :
    (prtcl_comp a_c_comp : Bool) (protocol : ℕ)
    → 0 < length (header_sent prtcl_comp a_c_comp protocol)
header_sent-length true true protocol = omega arith
header_sent-length true false protocol = omega arith
header_sent-length false true protocol = omega arith
header_sent-length false false protocol = omega arith

pub ppp_unwrap-escape_all :
    (recve_accm send_accm : ℕ) (prtcl_comp a_c_comp : Bool) (protocol : ℕ) (bs : List ℕ)
    → Covered recve_accm send_accm
    → is_odd protocol ≡ true
    → protocol < 0xff
    → AllBytes bs
    → 3 ≤ length bs
    → let sent = header_sent prtcl_comp a_c_comp protocol ++ bs in
      ppp_unwrap recve_accm (escape_all send_accm (sealed sent))
      ≡ some (protocol, with_extra prtcl_comp bs (fcs_after 0xffff sent))
ppp_unwrap-escape_all ra sa pc ac protocol bs c odd h v long =
    let head = header_sent pc ac protocol in
    let sent = head ++ bs in
    let fcs = fcs_after 0xffff sent in
    ppp_unwrap-sealed ra sa sent (AllBytes-append head bs (AllBytes-header_sent pc ac protocol h) v)
      c (omega (arith, length-append head bs, header_sent-length pc ac protocol, long))
    ∙ ap (λ l. read_protocol (past_address l)) (append_assoc head bs (chksum fcs))
    ∙ ap read_protocol (past_address-header pc ac protocol (bs ++ chksum fcs) h)
    ∙ read_protocol-header pc protocol fcs bs odd

-- For bytes behind a PPP header with an odd protocol below 0xff, 3 or more of them, that `ppp_out`
-- writes with their check sequence, and where each control character that the receiver passes over
-- is one that the sender escapes, `ppp_unwrap` returns the protocol and the bytes; where the
-- protocol was sent in two bytes, it returns the low byte of the check sequence behind them too.
pub ppp_unwrap-ppp_out :
    (recve_accm send_accm fcs' : ℕ) (prtcl_comp a_c_comp : Bool) (protocol : ℕ) (bs : List ℕ)
    → Covered recve_accm send_accm
    → is_odd protocol ≡ true
    → protocol < 0xff
    → AllBytes bs
    → 3 ≤ length bs
    → let (out, fcs) = ppp_out 0xffff send_accm (header_sent prtcl_comp a_c_comp protocol ++ bs) in
      ppp_unwrap recve_accm (out ++ (ppp_out fcs' send_accm (chksum fcs)).0)
      ≡ some (protocol, with_extra prtcl_comp bs fcs)
ppp_unwrap-ppp_out ra sa fcs' pc ac protocol bs c odd h v long =
    let sent = header_sent pc ac protocol ++ bs in
    let fcs = fcs_after 0xffff sent in
    rw (ppp_out_lem 0xffff sa sent, ppp_out_lem fcs' sa (chksum fcs))
      (ap (ppp_unwrap ra) (sym (escape_all-append sa sent (chksum fcs)))
        ∙ ppp_unwrap-escape_all ra sa pc ac protocol bs c odd h v long)
