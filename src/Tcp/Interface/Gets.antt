-- ===== src/Tcp/Interface/Gets.antt =====
-- proto/tcp/tcp.c: `my_CNgets` takes a line.
use stin_g.Prelude.{
  ℕ, suc, ◌+◌, ◌-◌, ◌<◌, ◌≤◌, ◌≡◌, ◌≢◌, refl, sym, ap, ◌∙◌, inl, inr, true, false, ◌||◌, List, [],
  ◌∷◌, ◌++◌, none, some, arith, length, length-append, take, drop, take-append_left, take-all,
  drop-append_at, take-take, ltb, leb, ◌==◌, if◌then◌else◌, Bool-cases, is_neg16, ne→==, lt→ltb,
  le→ltb, eq→==,
}
use stin_g.Tcp.Defs.{Code, e_normal, is_normal, Ndb, Run, bytes, contents}
use stin_g.Tcp.Unreach.{Polled, poll_receive}
use stin_g.Tcp.Tool.{categorize}
use stin_g.Tcp.Output.Total.{Moves}
use stin_g.Tcp.Receive.Fifo.{RecveInv, receive-Takes}
use stin_g.Tcp.Interface.{
  got, refusal, Scanned, at, past, scan_block, Searched, found, too_long, search_line, line_taken,
  cn_gets, Turn, left_by, line_of, behind_poll, failed,
}

-- A byte stands nowhere in a list.
abbrev pub Lacks : ℕ → List ℕ → Type 0
Lacks x [] = Unit
Lacks x (b ∷ bs) = (b ≢ x) × Lacks x bs

-- The search goes on behind a block.
abbrev then_scan : ℕ → ℕ → Scanned → List ℕ → Scanned
then_scan len d (at n) ys = at n
then_scan len d (past n) ys = scan_block len d n ys

scan_full : (len d n : ℕ) (ys : List ℕ) → len ≤ n → scan_block len d n ys ≡ past n
scan_full len d n [] h = refl
scan_full len d n (y ∷ ys) h = rw (le→ltb n len h) refl

scan_block-append :
    (len d n : ℕ) (xs ys : List ℕ)
    → scan_block len d n (xs ++ ys) ≡ then_scan len d (scan_block len d n xs) ys
scan_block-append len d n [] ys = refl
scan_block-append len d n (x ∷ xs) ys = elim (Bool-cases (ltb n len)) [
  | inr full ↦ rw full (sym (scan_full len d n ys (ground (arith, full))))
  | inl room ↦ elim (Bool-cases (x == d)) [
    | inl here ↦ rw (room, here) refl
    | inr other ↦ rw (room, other) (scan_block-append len d (n + 1) xs ys)
  ]
]

scan_block-line :
    (len d n : ℕ) (line rest : List ℕ)
    → Lacks d line
    → n + length line < len
    → scan_block len d n (line ++ d ∷ rest) ≡ at (n + length line + 1)
scan_block-line len d n [] rest l h =
    rw (lt→ltb n len (omega (arith, h)), eq→== d d refl) (ap at (omega arith))
scan_block-line len d n (b ∷ line) rest l h =
    rw (lt→ltb n len (omega (arith, h)), ne→== b d l.0)
      (scan_block-line len d (n + 1) line rest l.1 (omega (arith, h)) ∙ ap at (omega arith))

abbrev place_of : Scanned → ℕ
place_of (at n) = n
place_of (past n) = n

at_inj : (m n : ℕ) → at m ≡ at n → m ≡ n
at_inj m n e = ap place_of e

past_at : (m n : ℕ) → ¬ (past m ≡ at n)
past_at m n e = absurd cc

-- The search behind what a block comes to.
abbrev go_on : ℕ → ℕ → List Ndb → Scanned → Searched
go_on len d q (at n) = found n
go_on len d q (past n) = if n == len then too_long else search_line len d n q

search_line_step :
    (len d n : ℕ) (b : Ndb) (q : List Ndb)
    → search_line len d n (b ∷ q) ≡ go_on len d q (scan_block len d n (bytes b))
unfolding search_line
search_line_step len d n b q =
    elim (scan_block len d n (bytes b))
      as (λ s.
        elim s [ at n ↦ found n | past n ↦ if n == len then too_long else search_line len d n q ]
        ≡ go_on len d q s) [ at m ↦ refl | past m ↦ refl ]

go_on-found :
    (len d k : ℕ) (q : List Ndb)
    → ((m : ℕ) → scan_block len d m (contents q) ≡ at k → search_line len d m q ≡ found k)
    → (s : Scanned) → then_scan len d s (contents q) ≡ at k
    → go_on len d q s ≡ found k
go_on-found len d k q ih (at m) e = ap found (at_inj m k e)
go_on-found len d k q ih (past m) e = elim (Bool-cases (m == len)) [
  | inl full ↦
      absurd (past_at m k (sym (scan_full len d m (contents q) (ground (arith, full))) ∙ e))
  | inr room ↦ rw room (ih m e)
]

-- What is found in the bytes of a queue is found in its blocks.
search_line-scan_block :
    (len d k : ℕ) (q : List Ndb) (n : ℕ)
    → scan_block len d n (contents q) ≡ at k
    → search_line len d n q ≡ found k
search_line-scan_block len d k [] n e = absurd (past_at n k e)
search_line-scan_block len d k (b ∷ q) n e =
    search_line_step len d n b q
    ∙ go_on-found len d k q (search_line-scan_block len d k q) (scan_block len d n (bytes b))
        (sym (scan_block-append len d n (bytes b) (contents q)) ∙ e)

-- Where `poll_receive` returns E_NORMAL and the semaphore is free, and `poll_receive` has left a
-- connection whose receive queue has sound blocks and a right counter, with a window of 16 bits,
-- sizes that let `do_output` move on and enough fuel, in a state in which it can have data, where
-- the bytes that wait are a line without the delimiter, the delimiter, and more, and the line is
-- shorter than the length of the buffer, which is more than 1 and less than 0x8000: `my_CNgets`
-- returns exactly the line, and what stood behind the delimiter is what waits then, with the
-- counter right.
pub cn_gets-line :
    (fuel : ℕ) (t : Turn) (start r : Run) (p : Polled) (len delimiter : ℕ) (line rest : List ℕ)
    → poll_receive fuel t.get_pending t.last_work start ≡ some p
    → left_by p ≡ (e_normal, r)
    → t.got_sema ≡ true
    → RecveInv r.conn
    → Moves r.conn
    → 0x10001 < fuel
    → r.conn.recve.window < 0x10000
    → refusal (categorize r.conn) ≡ none
    → len < 0x8000
    → contents r.conn.recve.queue ≡ line ++ delimiter ∷ rest
    → Lacks delimiter line
    → 1 < len
    → length line < len
    → (s : Run) × (cn_gets fuel t start len delimiter ≡ some (got line, s))
      × (contents s.conn.recve.queue ≡ rest)
      × RecveInv s.conn
unfolding cn_gets line_of
cn_gets-line fuel t start r p len delimiter line rest polled normal free v m h word ready small e
      lacks more fits =
    let n = length line + 1 in
    let total = length-append line (delimiter ∷ rest) in
    let count : length (contents r.conn.recve.queue) ≡ length line + suc (length rest) =
      ap length e ∙ total in
    let there : search_line len delimiter 0 r.conn.recve.queue ≡ found n =
      search_line-scan_block len delimiter n r.conn.recve.queue 0 (
        ap (scan_block len delimiter 0) e
        ∙ scan_block-line len delimiter 0 line rest lacks (omega (arith, fits))
        ∙ ap at (omega arith)) in
    let waits : (r.conn.recve.count == 0) ≡ false = ground (arith, v.count_eq, count) in
    let long : (is_neg16 len || leb len 1) ≡ false = ground (arith, small, more) in
    let (s, done, x, _) = receive-Takes fuel r n false v m h word (omega (arith, fits, small)) in
    let told : s.got_length - 1 ≡ length line = omega (arith, x.told, count) in
    let text : take (s.got_length - 1) s.buffer ≡ line =
      ap (λ k. take k s.buffer) told
      ∙ ap (take (length line)) (x.handed ∙ ap (take n) e)
      ∙ take-take (length line) n (line ++ delimiter ∷ rest) (omega arith)
      ∙ take-append_left (length line) line (delimiter ∷ rest) (omega arith)
      ∙ take-all (length line) line (omega arith) in
    let on : cn_gets fuel t start len delimiter ≡ line_of fuel t len delimiter r =
      ap (λ o. behind_poll o (line_of fuel t len delimiter)) polled
      ∙ ap
          (λ (q : Code × Run).
            if is_normal q.0 then line_of fuel t len delimiter q.1 else some (failed q.0, q.1))
          normal in
    let one : n - length line ≡ 1 = omega arith in
    (
      s.run,
      on
          ∙ rw (ready, waits, long, free, there)
              (ap line_taken done ∙ ap (λ l. some (got l, s.run)) text),
      x.left
          ∙ ap (drop n) e
          ∙ drop-append_at n (length line) line (delimiter ∷ rest) refl (omega arith)
          ∙ ap (λ k. drop k (delimiter ∷ rest)) one,
      x.inv,
    )
