-- ===== src/Tcp/Receive/Fill.antt =====
-- proto/tcp/arrive.c: the data of a segment at the end of the receive queue.
use mathlib.Core.List.{append-nil}
use stin_g.Prelude.{
  ◌+◌, ◌≤◌, ◌<◌, ◌≡◌, refl, sym, ap, ◌∙◌, not, inl, inr, ◌++◌, arith, length, take, drop,
  length-append, ◌==◌, if◌then◌else◌, Bool-cases, then_side, else_side,
}
use stin_g.Tcp.Defs.{Connec, Resequ, contents, bytes, InBlock}
use stin_g.Tcp.Queue.Bytes.{append_block-contents, length-bytes}
use stin_g.Tcp.Deliver.{is_receiving, as_ndb, take_data}
use stin_g.Tcp.Receive.Fifo.{RecveInv}

-- The data of a segment at the end of what the queue holds, if the connection still receives, and
-- the window narrower by them.
pub record Fills (c : Connec) (b : Resequ) (c' : Connec) : Type 0 where
  pub filled : contents c'.recve.queue ≡ (
      if is_receiving c.state
      then contents c.recve.queue ++ bytes (as_ndb b)
      else contents c.recve.queue)
  pub inv : RecveInv c'
  pub room : c'.recve.count + c'.recve.window ≡ c.recve.count + c.recve.window

-- On a connection whose receive queue has sound blocks and a counter that is the number of their
-- bytes, the data of a sound segment that fits into the window, and with which less than 0x8000
-- bytes wait, are put behind the bytes that wait, if the state still receives, and nothing is, if
-- not; the counter is again the number of the bytes, and counter and window together stay as they
-- were.
pub take_data-Fills :
    (c : Connec) (b : Resequ)
    → RecveInv c
    → InBlock (as_ndb b)
    → c.recve.count + b.data_len < 0x8000
    → b.data_len ≤ c.recve.window
    → c.recve.window < 0x10000
    → Fills c b (take_data c b)
unfolding take_data
take_data-Fills c b v inside small fits word = elim (Bool-cases (is_receiving c.state)) [
  | inl open_state ↦ elim (Bool-cases (b.data_len == 0)) [
    | inl empty ↦
        let z : b.data_len ≡ 0 = ground (arith, empty) in
        rw (open_state, empty)
          (record {
            filled =
                sym (
                  ap (λ n. contents c.recve.queue ++ take n (drop b.block_data b.packet)) z
                  ∙ append-nil (contents c.recve.queue))
                ∙ sym (then_side (is_receiving c.state) _ _ open_state);
            inv = v;
            room = refl;
          })
    | inr some_data ↦
        let a = append_block-contents c.recve.queue (as_ndb b) v.inside inside in
        rw (open_state, some_data)
          (record {
            filled = a.0 ∙ sym (then_side (is_receiving c.state) _ _ open_state);
            inv = record {
              inside = a.1;
              count_eq =
                  omega (
                    arith,
                    small,
                    v.count_eq,
                    length-bytes (as_ndb b) inside,
                    length-append (contents c.recve.queue) (bytes (as_ndb b)),
                  )
                  ∙ ap length (sym a.0);
              small = omega (arith, small);
            };
            room = omega (arith, small, fits, word);
          })
  ]
  | inr shut ↦ rw shut (elim (Bool-cases (not (b.data_len == 0))) [
    | inl some_data ↦
        rw some_data (record {
          filled = sym (else_side (is_receiving c.state) _ _ shut);
          inv = v;
          room = refl;
        })
    | inr empty ↦
        rw empty (record {
          filled = sym (else_side (is_receiving c.state) _ _ shut);
          inv = v;
          room = refl;
        })
  ])
]
