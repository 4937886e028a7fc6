-- ===== src/Udp.antt =====
-- proto/udp: the receive queue of a connection of the UDP module, and the functions by which a program
-- takes its data. What the semaphore answers is an argument; nothing else is done to the connection
-- while a function waits for it.
pub mod Loop
pub mod Queue
pub mod Handler
mod Tests
use stin_g.Prelude.{
  ℕ, zero, suc, ◌+◌, ◌-◌, Bool, true, false, List, [], ◌∷◌, ◌++◌, Option, none, some, take, drop,
  get_or, ltb, leb, ◌==◌, not, ◌||◌, if◌then◌else◌, u16, u32, sub16, sub32, is_neg16, is_neg32,
}
use stin_g.Sting.Clock.{timer_elapsed}

-- `UDP_HDR` of a queue: `bytes` are what stands behind the header, `len` is `chain.length`.
pub record UdpBlock : Type 0 where
  pub bytes : List ℕ
  pub len : ℕ
  pub index : ℕ

-- The parts of a `CONNEC` that hold data; `net_error` is an `int16`.
pub record UdpConn : Type 0 where
  pub net_error : ℕ
  pub last_work : ℕ
  pub total_data : ℕ
  pub receive_queue : List UdpBlock
  pub pending : List UdpBlock

abbrev pub sum_lengths : List UdpBlock → ℕ
sum_lengths [] = 0
sum_lengths (b ∷ q) = u32 (b.len + sum_lengths q)

-- What a call finds: the time, and whether `timer_work` and the call itself get the semaphore.
pub record Turn : Type 0 where
  pub clock : ℕ
  pub free : Bool
  pub got_flag : Bool

-- `timer_work`: the blocks that have come, if there are any, go behind those that wait.
abbrev pub behind_queue : UdpConn → List UdpBlock → UdpConn
behind_queue c [] = c
behind_queue c (b ∷ q) = record c {
  total_data = u32 (c.total_data + sum_lengths (b ∷ q));
  receive_queue = c.receive_queue ++ b ∷ q;
  pending = [];
}

pub take_pending : Turn → UdpConn → UdpConn
take_pending t c = if t.free then record (behind_queue c c.pending) { last_work = t.clock } else c

-- `poll_receive`: what it returns, an `int16`, and the connection.
unfoldable pub poll_receive : Turn → UdpConn → ℕ × UdpConn
unfolding take_pending
poll_receive t c =
    let elapsed = timer_elapsed t.clock c.last_work in
    if is_neg16 c.net_error
    then (c.net_error, record c { net_error = 0 })
    else if is_neg32 elapsed || ltb elapsed 1200
    then (0, c)
    else (0, take_pending t c)

-- The codes of transprt.h, as words.
abbrev pub e_nodata : ℕ
e_nodata = 0xfffe

abbrev pub e_locked : ℕ
e_locked = 0xffe5

-- What a function returns: an error, or what it is asked for; or it calls `memcpy` with a negative
-- count.
pub data Reply {ℓ} (A : Type ℓ) : Type ℓ where
  failed : ℕ → Reply A
  got : A → Reply A
  overran : Reply A

-- The loop of `my_CNget_char`: the byte, or `none` for E_NODATA, and the queue.
pub get_char : List UdpBlock → Option ℕ × List UdpBlock
get_char [] = (none, [])
get_char (b ∷ q) =
    let rest = get_char q in
    if ltb b.index b.len
    then (some (get_or b.bytes b.index 0), record b { index = b.index + 1 } ∷ q)
    else rest

abbrev pub with_char : UdpConn → Option ℕ × List UdpBlock → Reply ℕ × UdpConn
with_char c (none, q) = (failed e_nodata, record c { receive_queue = q })
with_char c (some x, q) = (got x, record c { receive_queue = q; total_data = sub32 c.total_data 1 })

-- `my_CNget_char`
unfoldable pub cn_get_char : Turn → UdpConn → Reply ℕ × UdpConn
unfolding get_char poll_receive
cn_get_char t c =
    let p = poll_receive t c in
    if is_neg16 p.0
    then (failed p.0, p.1)
    else if not t.got_flag
    then (failed e_locked, p.1)
    else with_char p.1 (get_char p.1.receive_queue)

-- The loop of `my_CNget_NDB`: the bytes of the first block that has any; without memory for the
-- description, the block stays.
unfoldable pub get_ndb : Bool → List UdpBlock → Option (List ℕ) × List UdpBlock
get_ndb some_memory [] = (none, [])
get_ndb some_memory (b ∷ q) =
    let rest = get_ndb some_memory q in
    if ltb b.index b.len
    then (if some_memory
        then (some (take (b.len - b.index) (drop b.index b.bytes)), q)
        else (none, b ∷ q))
    else rest

-- How the loop of `my_CNget_block` ends: the queue comes to its end, `memcpy` gets a negative count,
-- or all bytes are there.
pub data Looped : Type 0 where
  ended beyond : Looped
  took : List ℕ → List UdpBlock → Looped

abbrev pub behind_bytes : List ℕ → Looped → Looped
behind_bytes out (took bs q) = took (out ++ bs) q
behind_bytes out ended = ended
behind_bytes out beyond = beyond

-- The loop, for `length` bytes, an `int16` as `xfer` is; the smaller of the two is negative if one of
-- them is. A round that does not end the loop has taken the whole block.
pub get_block_loop : List UdpBlock → ℕ → Looped
get_block_loop [] length = ended
get_block_loop (b ∷ q) length =
    let avail = sub16 b.len b.index in
    let xfer = if ltb length avail then length else avail in
    let index = u16 (b.index + xfer) in
    let out = take xfer (drop b.index b.bytes) in
    let q' = if leb b.len index then q else record b { index = index } ∷ q in
    let rest = get_block_loop q (length - xfer) in
    if is_neg16 length || is_neg16 avail
    then beyond
    else if length - xfer == 0
    then took out q'
    else behind_bytes out rest

abbrev pub block_taken : UdpConn → ℕ → Looped → Reply (List ℕ) × UdpConn
block_taken c length ended = (failed e_nodata, record c { receive_queue = [] })
block_taken c length beyond = (overran, c)
block_taken c length (took bs q) =
    (got bs, record c { receive_queue = q; total_data = sub32 c.total_data length })

-- `my_CNget_block`, for a length that is an `int16`: behind `poll_receive`, and all of it.
abbrev pub block_of : Turn → UdpConn → ℕ → Reply (List ℕ) × UdpConn
block_of t c length =
    if length == 0
    then (got [], c)
    else if ltb c.total_data length
    then (failed e_nodata, c)
    else if not t.got_flag
    then (failed e_locked, c)
    else block_taken c length (get_block_loop c.receive_queue length)

pub cn_get_block : Turn → UdpConn → ℕ → Reply (List ℕ) × UdpConn
unfolding get_block_loop poll_receive
cn_get_block t c length =
    let p = poll_receive t c in if is_neg16 p.0 then (failed p.0, p.1) else block_of t p.1 length
