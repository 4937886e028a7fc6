-- ===== src/Tcp/Receive.antt =====
-- proto/tcp/tool.c: `receive`, by which the interface takes data out of the receive queue.
pub mod Fifo
pub mod Fill
use stin_g.Prelude.{
  ℕ, zero, suc, ◌+◌, ◌-◌, ◌%◌, Bool, true, false, not, ◌&&◌, ◌||◌, List, [], ◌∷◌, Option, none,
  some, ltb, leb, ◌==◌, if◌then◌else◌, u16, u32, sub16, sub32, is_neg16, is_pos16, is_neg32,
}
use stin_g.Tcp.Defs.{Ndb, Connec, World, Run}
use stin_g.Tcp.Queue.{pull_up, pull_char}
use stin_g.Tcp.Output.{do_output}

-- What `receive` leaves: the connection, `*length`, the bytes in the buffer or the block whose
-- address is written there, and what it returns.
pub record Received : Type 0 where
  pub run : Run
  pub got_length : ℕ
  pub buffer : List ℕ
  pub block : Option Ndb
  pub result : ℕ

-- `*length > connec->recve.count`, for a `*length` that is not negative
abbrev pub limited : ℕ → ℕ → ℕ
limited n count = if is_neg16 count || ltb count n then count else n

-- Whether the window that the other side knows of should be opened.
pub opens_window : Connec → ℕ → Bool
opens_window c n =
    let gain =
      sub32 (u32 (c.recve.next + c.recve.window)) (u32 (c.recve.lst_next + c.recve.lst_win)) in
    c.recve.window == n
    || (ltb c.recve.lst_win c.mss && leb c.mss c.recve.window)
    || (not (is_neg32 gain) && leb c.mss gain)

abbrev pub give_room : Connec → ℕ → Connec
give_room c n = record c {
  recve = record c.recve { count = sub16 c.recve.count n; window = u16 (c.recve.window + n) };
}

-- A segment goes out that tells of the window; on the fuel of `do_output`.
pub report_window : ℕ → Run → ℕ → Option Run
unfolding opens_window
report_window fuel r n =
    if opens_window r.conn n
    then do_output fuel
        (record r { conn = record r.conn { flags = record r.conn.flags { force = true } } })
    else some r

-- The room goes back to the window.
pub give_back : ℕ → Run → ℕ → Option Run
unfolding report_window
give_back fuel r n =
    if is_pos16 n then report_window fuel (record r { conn = give_room r.conn n }) n else some r

abbrev pub set_queue : Connec → List Ndb → Connec
set_queue c q = record c { recve = record c.recve { queue = q } }

abbrev pub received : Option Run → ℕ → List ℕ → Option Ndb → Option Received
received none n buffer block = none
received (some r) n buffer block = some (record {
  run = r;
  got_length = n;
  buffer = buffer;
  block = block;
  result = r.conn.recve.count;
})

-- `receive` with a negative length: the first block itself.
pub receive_block : ℕ → Run → List Ndb → Option Received
unfolding give_back
receive_block fuel r [] = received (give_back fuel r 0xffff) 0xffff [] none
receive_block fuel r (b ∷ q) =
    received (give_back fuel (record r { conn = set_queue r.conn q }) b.len) b.len [] (some b)

pub receive : ℕ → Run → ℕ → Bool → Option Received
unfolding give_back receive_block
receive fuel r n getchar =
    if is_neg16 n
    then receive_block fuel r r.conn.recve.queue
    else let m = limited n r.conn.recve.count in
      let pulled = pull_up r.conn.recve.queue m in
      if getchar
      then received (some r) m (pull_char r.conn.recve.queue m).1 none
      else received (give_back fuel (record r { conn = set_queue r.conn pulled.queue }) m) m
          pulled.buffer none
