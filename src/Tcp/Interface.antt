-- ===== src/Tcp/Interface.antt =====
-- proto/tcp/tcp.c: the functions of a connection by which a program takes its data: `my_CNbyte_count`,
-- `my_CNget_char`, `my_CNget_NDB`, `my_CNget_block`, `my_CNgets`; `my_CNkick`; `next_port`. Whether a
-- call gets the semaphore of the connection is an argument; nothing else is done to the connection
-- while it waits for it.
pub mod Gets
use stin_g.Prelude.{
  ℕ, zero, suc, ◌+◌, ◌-◌, ◌*◌, Bool, true, false, not, ◌&&◌, ◌||◌, List, [], ◌∷◌, ◌++◌, Option,
  none, some, take, get_or, ltb, leb, ◌==◌, if◌then◌else◌, u16, u32, is_neg16,
}
use stin_g.Tcp.Defs.{
  Code, e_normal, e_nodata, e_eof, e_listen, e_bigbuf, e_locked, is_normal, Ndb, Connec, Run, Dgram,
  bytes,
}
use stin_g.Tcp.Timer.{alive, destroyed}
use stin_g.Tcp.Unreach.{Polled, reported, worked, poll_receive}
use stin_g.Tcp.Output.{do_output}
use stin_g.Tcp.Receive.{Received, receive}
use stin_g.Tcp.Tool.{Category, c_listen, c_ready, c_fin, c_end, c_clsd, categorize}

-- What a function returns: an error, or what it is asked for.
pub data Reply {ℓ} (A : Type ℓ) : Type ℓ where
  failed : Code → Reply A
  got : A → Reply A

-- The switch at the beginning of the functions: the error of a connection without data. C_DEFAULT is
-- never the category of a connection.
abbrev pub refusal : Category → Option Code
refusal c_end = some e_eof
refusal c_clsd = some e_eof
refusal c_listen = some e_listen
refusal c_ready = none
refusal c_fin = none

-- The function goes on with the connection where that has no error.
abbrev pub unless {ℓ} :
    {A : Type ℓ} → Option Code → Run → Option (Reply A × Run) → Option (Reply A × Run)
unless none r go = go
unless (some e) r go = some (failed e, r)

-- What a call finds: what `timer_work` fetches and when it was called the last time, and whether the
-- call gets the semaphore.
pub record Turn : Type 0 where
  pub get_pending : List Dgram → List Dgram
  pub last_work : ℕ
  pub got_sema : Bool

abbrev pub poll : ℕ → Turn → Run → Option Polled
poll fuel t r = poll_receive fuel t.get_pending t.last_work r

-- The code that `poll_receive` returns, and the connection; one that was destroyed is the last that
-- there was of it. What `timer_work` writes for the program is not in what the functions return.
abbrev pub left_by : Polled → Code × Run
left_by (reported code r) = (code, r)
left_by (worked code (alive told r)) = (code, r)
left_by (worked code (destroyed told r)) = (code, r)

-- The function goes on where `poll_receive` returns no error, and where the semaphore is there.
abbrev pub behind_poll {ℓ} :
    {A : Type ℓ} → Option Polled → (Run → Option (Reply A × Run)) → Option (Reply A × Run)
behind_poll none go = none
behind_poll (some p) go =
    let (code, r) = left_by p in if is_normal code then go r else some (failed code, r)

abbrev pub with_sema {ℓ} :
    {A : Type ℓ} → Turn → Run → Option (Reply A × Run) → Option (Reply A × Run)
with_sema t r go = if t.got_sema then go else some (failed e_locked, r)

-- `my_CNbyte_count`
unfoldable pub cn_byte_count : ℕ → Turn → Run → Option (Reply ℕ × Run)
unfolding categorize
cn_byte_count fuel t r =
    behind_poll (poll fuel t r)
      (λ s. unless (refusal (categorize s.conn)) s (some (got s.conn.recve.count, s)))

-- `my_CNget_char`
abbrev pub one_char : Received → Reply ℕ × Run
one_char s = (if s.got_length == 0 then failed e_nodata else got (get_or s.buffer 0 0), s.run)

unfoldable pub cn_get_char : ℕ → Turn → Run → Option (Reply ℕ × Run)
unfolding categorize
cn_get_char fuel t r = behind_poll (poll fuel t r) (λ s.
    unless (refusal (categorize s.conn)) s
      (with_sema t s (elim (receive fuel s 1 false) [ none ↦ none | some x ↦ some (one_char x) ])))

-- `my_CNget_NDB`, with the category that the connection has before `poll_receive`; `none` is NULL, and
-- E_LOCKED is returned as if it were a pointer. The `next` of the block is not part of a block.
abbrev pub one_ndb : Category → Turn → ℕ → Run → Option (Reply (Option Ndb) × Run)
one_ndb flag t fuel s = elim (refusal flag) [
  | some _ ↦ some (got none, s)
  | none ↦ with_sema t s (elim (receive fuel s 0xffff false) [
    | none ↦ none
    | some x ↦ some (got (if is_neg16 x.got_length then none else x.block), x.run)
  ])
]

unfoldable pub cn_get_ndb : ℕ → Turn → Run → Option (Reply (Option Ndb) × Run)
unfolding categorize
cn_get_ndb fuel t r = elim (poll fuel t r) [
  | none ↦ none
  | some p ↦
      let (code, s) = left_by p in
      if is_normal code then one_ndb (categorize r.conn) t fuel s else some (got none, s)
]

-- `my_CNget_block`, for a length that is an `int16`; a negative one only looks at the data.
abbrev pub magnitude : ℕ → ℕ
magnitude length = if is_neg16 length then u16 (0x10000 - length) else length

unfoldable pub cn_get_block : ℕ → Turn → Run → ℕ → Option (Reply (List ℕ) × Run)
unfolding categorize
cn_get_block fuel t r length = behind_poll (poll fuel t r) (λ s.
    let buflen = magnitude length in
    unless (refusal (categorize s.conn)) s (
      if buflen == 0
      then some (got [], s)
      else if ltb s.conn.recve.count buflen
      then some (failed e_nodata, s)
      else with_sema t s (elim (receive fuel s buflen (is_neg16 length)) [
        | none ↦ none
        | some x ↦ some (got x.buffer, x.run)
      ])))

-- The loops of `my_CNgets`: over the bytes of a block, where the delimiter stands `at` a number of
-- bytes or the loop ends `past` them; and over the blocks.
pub data Scanned : Type 0 where
  at past : ℕ → Scanned

abbrev pub scan_block : ℕ → ℕ → ℕ → List ℕ → Scanned
scan_block length delimiter amount [] = past amount
scan_block length delimiter amount (b ∷ bs) =
    let rest = scan_block length delimiter (amount + 1) bs in
    if ltb amount length then (if b == delimiter then at (amount + 1) else rest) else past amount

pub data Searched : Type 0 where
  found : ℕ → Searched
  too_long : Searched
  not_there : Searched

pub search_line : ℕ → ℕ → ℕ → List Ndb → Searched
search_line length delimiter amount [] = not_there
search_line length delimiter amount (b ∷ q) = elim (scan_block length delimiter amount (bytes b)) [
  | at n ↦ found n
  | past n ↦ if n == length then too_long else search_line length delimiter n q
]

abbrev pub line_taken : Option Received → Option (Reply (List ℕ) × Run)
line_taken none = none
line_taken (some s) = some (got (take (s.got_length - 1) s.buffer), s.run)

-- `my_CNgets`: the bytes in front of the 0 that it writes. Behind `poll_receive`, and all of it.
pub line_of : ℕ → Turn → ℕ → ℕ → Run → Option (Reply (List ℕ) × Run)
unfolding categorize search_line
line_of fuel t length delimiter r = unless (refusal (categorize r.conn)) r (
    if r.conn.recve.count == 0
    then some (failed e_nodata, r)
    else if is_neg16 length || leb length 1
    then some (failed e_bigbuf, r)
    else with_sema t r (elim (search_line length delimiter 0 r.conn.recve.queue) [
      | found n ↦ line_taken (receive fuel r n false)
      | too_long ↦ some (failed e_bigbuf, r)
      | not_there ↦ some (failed e_nodata, r)
    ]))

pub cn_gets : ℕ → Turn → Run → ℕ → ℕ → Option (Reply (List ℕ) × Run)
cn_gets fuel t r length delimiter = behind_poll (poll fuel t r) (line_of fuel t length delimiter)

-- `my_CNkick`, on the fuel of `do_output`
abbrev pub kicked : Run → Run
kicked r = record r {
  conn = record r.conn {
    rtrn = record r.conn.rtrn {
      mode = false;
      backoff = 0;
      start = r.world.clock;
      timeout = u32 (2 * r.conn.rtrp.smooth);
    };
    flags = record r.conn.flags { force = true };
  };
}

unfoldable pub cn_kick : ℕ → Turn → Run → Option (Reply Code × Run)
cn_kick fuel t r = behind_poll (poll fuel t r) (λ s.
    with_sema t s
      (elim (do_output fuel (kicked s)) [ none ↦ none | some x ↦ some (got e_normal, x) ]))

-- `next_port`, on fuel; `lowest` are the flags of the module.
abbrev pub following_port : ℕ → ℕ → ℕ
following_port lowest last_port =
    let n = u16 (last_port + 1) in if ltb 32765 n || ltb n lowest then lowest else n

abbrev pub is_local : ℕ → List Connec → Bool
is_local port [] = false
is_local port (c ∷ cs) = c.local_port == port || is_local port cs

unfoldable pub next_port : ℕ → ℕ → List Connec → ℕ → Option ℕ
next_port zero lowest root_list last_port = none
next_port (suc fuel) lowest root_list last_port =
    let port = following_port lowest last_port in
    let rest = next_port fuel lowest root_list port in
    if is_local port root_list then rest else some port
