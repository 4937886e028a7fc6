-- ===== src/Tcp/Inv.antt =====
-- proto/tcp/inout.c: the invariant of the sending side of a connection, which ties the sequence
-- numbers and the counters of `CONNEC.send` to the bytes in its queue.
pub mod Ack
pub mod Emit
use stin_g.Prelude.{
  ℕ, ◌+◌, ◌≤◌, ◌<◌, ◌≡◌, Bool, true, false, not, ◌&&◌, length, ◌==◌, if◌then◌else◌, sub32,
}
use stin_g.Tcp.Defs.{Connec, contents, InBlocks}
use stin_g.Tcp.Inout.{is_syn}

-- One for a SYN that is not acknowledged yet, and one for a FIN.
unfoldable pub syn_bit : Connec → ℕ
syn_bit c = if c.send.ini_sequ == c.send.unack && is_syn c.state then 1 else 0

unfoldable pub fin_bit : Connec → ℕ
fin_bit c = if c.flags.flag40 && not (c.send.count == 0) then 1 else 0

-- From `unack` on stand, in this order, `ptr`, `next` and the end of what is queued; `total` counts
-- the bytes of the queue, and `count` those and the SYN and the FIN.
pub record SendInv (c : Connec) : Type 0 where
  pub unack_word : c.send.unack < 0x100000000
  pub ptr_word : c.send.ptr < 0x100000000
  pub next_word : c.send.next < 0x100000000
  pub ptr_le : sub32 c.send.ptr c.send.unack ≤ sub32 c.send.next c.send.unack
  pub next_le : sub32 c.send.next c.send.unack ≤ c.send.count
  pub small : c.send.count < 0x8000
  pub inside : InBlocks c.send.queue
  pub total_eq : c.send.total ≡ length (contents c.send.queue)
  pub count_eq : c.send.count ≡ length (contents c.send.queue) + syn_bit c + fin_bit c
