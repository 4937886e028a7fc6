-- ===== src/Sting/Icmp.antt =====
-- sting/icmp.c: the answers that the kernel sends, and the messages it takes.
pub mod Checksum
use stin_g.Prelude.{
  ℕ, ◌+◌, ◌-◌, ◌*◌, ◌/◌, ◌%◌, Bool, true, false, not, ◌&&◌, ◌||◌, List, [], ◌∷◌, ◌++◌, Option, none,
  some, length, take, drop, get_or, set, ltb, leb, ◌==◌, if◌then◌else◌, u8, u16, u32, is_neg32,
  extend,
}
use stin_g.Sting.Clock.{max_clock}
use stin_g.Sting.Dgram.{IpDgram, pkt_length}
use stin_g.Sting.Kernel.{Kernel, PortQueues, ip_discard, at_port, add_receive, end_of_life}

-- The loop of `layer_checksum`, and the odd byte behind it. The sum of at most 0x4000 words needs
-- no more than 32 bits.
abbrev pub word_sum : List ℕ → ℕ
word_sum [] = 0
word_sum (a ∷ []) = a * 256
word_sum (a ∷ b ∷ r) = a * 256 + b + word_sum r

abbrev pub fold_sum : ℕ → ℕ
fold_sum sum =
    let chksum = sum % 0x10000 + sum / 0x10000 % 0x10000 in
    0xffff - u16 (if leb 0x10000 chksum then chksum + 1 else chksum)

-- `layer_checksum`: it also clears the field, the bytes 2 and 3.
abbrev pub cleared : List ℕ → List ℕ
cleared packet = set (set packet 2 0) 3 0

pub layer_checksum : List ℕ → ℕ
layer_checksum packet = fold_sum (word_sum (cleared packet))

-- `header->checksum = layer_checksum (header, ...)`
pub seal : List ℕ → List ℕ
unfolding layer_checksum
seal packet = let sum = layer_checksum packet in set (set packet 2 (sum / 256)) 3 (sum % 256)

-- What lies outside: the answer of `KRmalloc`, the checksum of the header, which is in assembly, the
-- header as it stands in memory, and what stands behind the end of a packet.
pub record Outside : Type 0 where
  pub some_memory : Bool
  pub check_sum : IpDgram → ℕ
  pub image : IpDgram → List ℕ
  pub behind : List ℕ

abbrev pub word_bytes : ℕ → List ℕ
word_bytes n = n / 0x1000000 % 256 ∷ n / 0x10000 % 256 ∷ n / 256 % 256 ∷ n % 256 ∷ []

-- A word stored into a packet.
abbrev pub store_word : List ℕ → ℕ → ℕ → List ℕ
store_word packet place n =
    set
      (set (set (set packet place (n / 0x1000000 % 256)) (place + 1) (n / 0x10000 % 256))
        (place + 2) (n / 256 % 256))
      (place + 3) (n % 256)

abbrev pub is_multicast : ℕ → Bool
is_multicast ip = ip == 0 || ip / 0x1000000 == 0xe0

-- A message that tells of an error quotes the header, the options and 8 bytes of the data. More
-- options than the header speaks of would not fit in; here they are cut off.
pub quoted : Outside → IpDgram → ℕ → List ℕ
quoted outside d supple = take (8 + d.hd_len * 4 + 8) (
    0 ∷ 0 ∷ 0 ∷ 0 ∷ word_bytes supple
    ++ outside.image d
    ++ d.options
    ++ take 8 (d.pkt_data ++ outside.behind))

pub time_stamp : Kernel → ℕ
time_stamp k =
    let time = u32 (k.clock + extend k.time_zone * 60000) in
    let up = if is_neg32 time then u32 (time + max_clock) else time in
    if leb max_clock up && not (is_neg32 up) then up - max_clock else up

-- The `switch` of `ICMP_reply`: the code and the packet of the answer, or why there is none.
pub data Message : Type 0 where
  no_message : Message
  message : ℕ → List ℕ → Message

pub make_message : Outside → Kernel → ℕ → ℕ → IpDgram → ℕ → Message
unfolding quoted time_stamp
make_message outside k type code d supple =
    if type == 0
    then message 0 d.pkt_data
    else if type == 3 || type == 4 || type == 5 || type == 11 || type == 12
    then (if outside.some_memory then message code (quoted outside d supple) else no_message)
    else if type == 14
    then message 0 (
        take 20 (
          store_word (store_word (d.pkt_data ++ outside.behind) 12 (time_stamp k)) 16
            (time_stamp k)))
    else if type == 18
    then message 0
        (take 12 (store_word (d.pkt_data ++ outside.behind) 8 (k.port_at d.recvd).sub_mask))
    else no_message

-- The datagram that carries the message, and its way to the queue of `my_port`.
unfoldable pub answer : Outside → Kernel → ℕ → IpDgram → Message → Kernel × Bool
unfolding seal
answer outside k type d no_message =
    (ip_discard d (record k { icmp_dropped = u16 (k.icmp_dropped + 1) }), false)
answer outside k type d (message code packet) =
    let e : IpDgram = record d {
      pkt_data = seal (set (set packet 0 type) 1 code);
      total_length = u16 (d.hd_len * 4 + length packet);
      ident = k.icmp_id;
      dont_frg = true;
      more_frg = false;
      frag_ofst = 0;
      ttl = u8 (k.def_ttl + 1);
      protocol = 1;
      ip_src = (k.port_at d.recvd).ip_addr;
      ip_dest = d.ip_src;
      hdr_chksum = 0;
      timeout = end_of_life k.clock (u8 (k.def_ttl + 1));
    } in
    let e' : IpDgram = record e { hdr_chksum = outside.check_sum e } in
    (at_port k.here (add_receive e') (record k { icmp_id = u16 (k.icmp_id + 1) }), true)

-- `ICMP_reply`
unfoldable pub icmp_reply : Outside → Kernel → ℕ → ℕ → IpDgram → ℕ → Kernel × Bool
unfolding make_message answer
icmp_reply outside k type code d supple =
    if is_multicast d.ip_src || not (d.frag_ofst == 0)
    then (ip_discard d k, false)
    else answer outside k type d (make_message outside k type code d supple)

-- `ICMP_process`; `handled` is the answer of the functions in `conf.icmp`, which are called in their
-- order until one takes the message.
unfoldable pub icmp_process : Outside → (IpDgram → Bool) → Kernel → IpDgram → Kernel
unfolding icmp_reply layer_checksum
icmp_process outside handled k d =
    let p = d.pkt_data in
    let e : IpDgram = record d { pkt_data = cleared p } in
    let type = get_or p 0 0 in
    if not (get_or p 2 0 * 256 + get_or p 3 0 == layer_checksum p)
    then ip_discard e (record k { icmp_dropped = u16 (k.icmp_dropped + 1) })
    else if type == 8
    then (icmp_reply outside k 0 0 e 0).0
    else if type == 13
    then (icmp_reply outside k 14 0 e 0).0
    else if type == 17
    then (if k.mask_agent then (icmp_reply outside k 18 0 e 0).0 else k)
    else if handled e
    then k
    else ip_discard e (record k { icmp_dropped = u16 (k.icmp_dropped + 1) })
