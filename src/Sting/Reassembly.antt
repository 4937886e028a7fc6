-- ===== src/Sting/Reassembly.antt =====
-- sting/fragm.c: `reassembly`, which puts the fragments of a datagram together.
pub mod Never
pub mod Space
pub mod Table
pub mod RoundTrip
use stin_g.Prelude.{
  ℕ, zero, suc, ◌+◌, ◌-◌, ◌*◌, ◌/◌, ◌%◌, Bool, true, false, not, ◌&&◌, ◌||◌, List, [], ◌∷◌, ◌++◌,
  Option, none, some, length, get_or, ltb, leb, ◌==◌, if◌then◌else◌, u16, u32,
}
use stin_g.Sting.Clock.{max_clock, check_sequence}
use stin_g.Sting.Memory.{Block, krrealloc}
use stin_g.Sting.Dgram.{IpDgram, pkt_length}

-- `DEFRAG`. The data and the bits of the blocks that have come are NULL (`none`) or blocks of memory.
-- `dgram` is the datagram that is put together, its data left out.
pub record Defrag : Type 0 where
  pub dgram : IpDgram
  pub space : Option (Block ℕ)
  pub blk_bits : Option (Block Bool)
  pub ttl_data : ℕ
  pub act_space : ℕ

-- What lies outside: the answers of `KRmalloc`, one for each place where the function calls it, what
-- its memory holds, the clock, `conf.frag_ttl` and the checksum routine in assembly.
pub record Env : Type 0 where
  pub heap : ℕ → Bool
  pub junk_data : ℕ → ℕ
  pub junk_bits : ℕ → Bool
  pub junk_dgram : IpDgram
  pub clock : ℕ
  pub frag_ttl : ℕ
  pub check_sum : IpDgram → ℕ

abbrev pub belongs : IpDgram → Defrag → Bool
belongs d w = w.dgram.ip_src == d.ip_src && w.dgram.ident == d.ident

-- A new entry. The header of its datagram is not set.
abbrev pub new_defrag : Env → Defrag
new_defrag env =
    let timeout = u32 (env.clock + env.frag_ttl * 1000) in
    record {
      dgram = record env.junk_dgram {
        timeout = if ltb timeout max_clock then timeout else timeout - max_clock;
      };
      space = none;
      blk_bits = none;
      ttl_data = 0;
      act_space = 0;
    }

abbrev pub needed_space : IpDgram → ℕ
needed_space d = u16 (d.frag_ofst * 8 + pkt_length d)

-- More room, if the fragment needs it; `none` if there is no memory for it.
pub with_space : Env → Defrag → IpDgram → Option Defrag
with_space env w d =
    let needed = u16 (needed_space d + 1024) in
    if ltb w.act_space (needed_space d)
    then elim (krrealloc 1 0 (env.heap 3) env.junk_data w.space needed) [
      | none ↦ none
      | some data_block ↦
          elim (krrealloc 8 false (env.heap 4) env.junk_bits w.blk_bits ((needed + 63) / 64)) [
            | none ↦ none
            | some bits ↦
                some
                  (record w { space = some data_block; blk_bits = some bits; act_space = needed })
          ]
    ]
    else some w

-- The contents of a block that may be NULL, and a change of them.
abbrev pub cells : {A : Type 0} → A → Option (Block A) → ℕ → A
cells nothing none i = nothing
cells nothing (some b) i = b.at i

abbrev pub change : {A : Type 0} → ((ℕ → A) → ℕ → A) → Option (Block A) → Option (Block A)
change f none = none
change f (some b) = some (record b { at = f b.at })

-- `memcpy` of the data to its place
pub write_bytes : (ℕ → ℕ) → ℕ → List ℕ → ℕ → ℕ
write_bytes at place bytes i =
    if leb place i && ltb i (place + length bytes) then get_or bytes (i - place) 0 else at i

-- The loop that marks the blocks of 8 bytes, from `frag_ofst` to `frag_ofst + pkt_length / 8`.
pub mark : (ℕ → Bool) → ℕ → ℕ → ℕ → Bool
mark at first count i = leb first i && leb i (first + count) || at i

-- The fragment taken into the entry.
pub absorb : Defrag → IpDgram → Defrag
unfolding write_bytes mark
absorb w d =
    let dgram' : IpDgram =
      if d.frag_ofst == 0
      then record d {
        pkt_data = w.dgram.pkt_data;
        timeout = w.dgram.timeout;
        ip_gateway = w.dgram.ip_gateway;
        recvd = d.recvd;
      }
      else record w.dgram { recvd = d.recvd } in
    record w {
      dgram = record dgram' {
        timeout = if check_sequence w.dgram.timeout d.timeout then d.timeout else w.dgram.timeout;
      };
      space = change (λ at. write_bytes at (d.frag_ofst * 8) d.pkt_data) w.space;
      blk_bits = change (λ at. mark at d.frag_ofst (pkt_length d / 8)) w.blk_bits;
      ttl_data = if d.more_frg then w.ttl_data else needed_space d;
    }

abbrev pub all_set : (ℕ → Bool) → ℕ → Bool
all_set at zero = true
all_set at (suc n) = at n && all_set at n

-- The last byte of the table has its first `needed` bits, and no others: `(1 << needed) - 1`.
abbrev pub exactly : (ℕ → Bool) → ℕ → ℕ → ℕ → Bool
exactly at base needed zero = true
exactly at base needed (suc n) =
    (if ltb n needed then at (base + n) else not (at (base + n))) && exactly at base needed n

-- Whether all has come: the whole bytes of the table are 0xff, and the last one is as it should.
pub is_complete : (ℕ → Bool) → ℕ → Bool
is_complete at ttl_data =
    let needed = (ttl_data % 64 + 7) / 8 in
    not (ttl_data == 0)
    && all_set at (8 * (ttl_data / 64))
    && (needed == 0 || exactly at (8 * (ttl_data / 64)) needed 8)

abbrev pub read_bytes : (ℕ → ℕ) → ℕ → ℕ → List ℕ
read_bytes at place zero = []
read_bytes at place (suc n) = at place ∷ read_bytes at (suc place) n

pub finished : Env → Defrag → IpDgram
finished env w =
    let d : IpDgram = record w.dgram {
      total_length = u16 (w.dgram.hd_len * 4 + w.ttl_data);
      more_frg = false;
      pkt_data = read_bytes (cells 0 w.space) 0 w.ttl_data;
      hdr_chksum = 0;
    } in
    record d { hdr_chksum = env.check_sum d }

-- How `reassembly` ends: it returns FALSE for want of memory; it does so and leaves an entry in the
-- queue whose memory it has freed; it has taken the fragment in; or the datagram is complete. The
-- queue is what stands in front of the entry, the entry, and what stands behind it.
pub data Outcome : Type 0 where
  no_memory : List Defrag → Outcome
  freed_entry : List Defrag → Outcome
  stored : List Defrag → Outcome
  complete : IpDgram → List Defrag → Outcome

-- The part of the function behind the search, for the entry `w`, by whether there is room for the
-- fragment.
pub settle : Env → List Defrag → Defrag → List Defrag → IpDgram → Option Defrag → Outcome
unfolding absorb is_complete finished
settle env front w behind d none = freed_entry (front ++ w ∷ behind)
settle env front w behind d (some v) =
    let u = absorb v d in
    if is_complete (cells false u.blk_bits) u.ttl_data
    then complete (finished env u) (front ++ behind)
    else stored (front ++ u ∷ behind)

pub into_entry : Env → List Defrag → Defrag → List Defrag → IpDgram → Outcome
unfolding with_space settle
into_entry env front w behind d = settle env front w behind d (with_space env w d)

pub search_defrag : Env → List Defrag → List Defrag → IpDgram → Outcome
unfolding into_entry
search_defrag env front [] d =
    if env.heap 0 && env.heap 1 && env.heap 2
    then into_entry env front (new_defrag env) [] d
    else no_memory front
search_defrag env front (w ∷ ws) d =
    let rest = search_defrag env (front ++ w ∷ []) ws d in
    if belongs d w then into_entry env front w ws d else rest

-- `reassembly`, for the queue of the datagram's protocol
pub reassembly : Env → List Defrag → IpDgram → Outcome
unfolding search_defrag
reassembly env queue d = search_defrag env [] queue d

-- Several calls, one for each fragment of one protocol: the datagrams that become complete, in their
-- order, and the queue; or a call has failed.
pub data Gathered : Type 0 where
  failed : Gathered
  gathered : List IpDgram → List Defrag → Gathered

abbrev pub with_first : IpDgram → Gathered → Gathered
with_first d failed = failed
with_first d (gathered ds queue) = gathered (d ∷ ds) queue

abbrev pub and_then : Outcome → (List Defrag → Gathered) → Gathered
and_then (no_memory queue) f = failed
and_then (freed_entry queue) f = failed
and_then (stored queue) f = f queue
and_then (complete d queue) f = with_first d (f queue)

unfoldable pub reassemble : Env → List Defrag → List IpDgram → Gathered
unfolding reassembly
reassemble env queue [] = gathered [] queue
reassemble env queue (p ∷ ps) = and_then (reassembly env queue p) (λ q. reassemble env q ps)
