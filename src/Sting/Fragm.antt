-- ===== src/Sting/Fragm.antt =====
-- sting/fragm.c: `fragment`, which cuts a datagram that is too long for a port.
pub mod Pieces
use stin_g.Prelude.{
  ℕ, zero, suc, ◌+◌, ◌-◌, ◌*◌, ◌/◌, ◌%◌, Bool, true, false, ◌&&◌, ◌||◌, List, [], ◌∷◌, ◌++◌, Option,
  none, some, length, take, drop, get_or, ltb, leb, ◌==◌, if◌then◌else◌, u16, sub16, sub32,
}
use stin_g.Sting.Dgram.{IpDgram, pkt_length, opt_length}

-- The order of `int16` on its patterns.
abbrev pub lt16 : ℕ → ℕ → Bool
lt16 a b = ltb (u16 (a + 0x8000)) (u16 (b + 0x8000))

-- The loop over the options, on fuel, from place `count` on: those that are copied to every fragment.
-- `none` means that the fuel ran out. An option that runs past the end is taken as far as there are
-- bytes.
unfoldable pub copied_options : ℕ → List ℕ → ℕ → Option (List ℕ)
copied_options zero orig count = none
copied_options (suc fuel) orig count =
    let kind = get_or orig count 0 in
    let len = get_or orig (count + 1) 0 in
    let long = leb 2 (kind % 32) in
    let rest = copied_options fuel orig (if long then count + len else count + 1) in
    if ltb count (length orig) && ltb 0 kind
    then (if long && leb 128 kind
        then elim rest [ none ↦ none | some r ↦ some (take len (drop count orig) ++ r) ]
        else rest)
    else some []

-- The padding. `remain[++remain_len] = 0` skips one byte, which stays as `KRmalloc` gave it.
unfoldable pub padded : ℕ → List ℕ → List ℕ
padded junk r =
    let over = length r % 4 in
    if over == 0
    then r
    else if over == 1
    then r ++ junk ∷ 0 ∷ 0 ∷ []
    else if over == 2
    then r ++ junk ∷ 0 ∷ []
    else r ++ junk ∷ []

-- `frg_datalen`, for `count` bytes of options and `rest` bytes that are left; all are `int16`.
pub data_length : ℕ → ℕ → ℕ → ℕ
data_length mtu count rest =
    let fits = u16 (sub32 (sub32 mtu 20) count / 8 * 8) in if lt16 rest fits then rest else fits

-- What lies outside: the checksum routine in assembly, and what new memory for an `IP_DGRAM` holds.
pub record Outside : Type 0 where
  pub check_sum : IpDgram → ℕ
  pub blank : IpDgram

-- One fragment: the bytes from `ofst` on, with these options. Of the datagram only the header is
-- copied.
pub piece : Outside → IpDgram → List ℕ → ℕ → ℕ → IpDgram
unfolding data_length
piece outside d options ofst mtu =
    let rest = sub16 (pkt_length d) ofst in
    let len = data_length mtu (length options) rest in
    let p : IpDgram = record d {
      options = options;
      pkt_data = take len (drop ofst d.pkt_data);
      hd_len = (20 + length options) / 4 % 16;
      total_length = u16 ((20 + length options) / 4 % 16 * 4 + len);
      frag_ofst = ofst / 8;
      more_frg = lt16 len rest || d.more_frg;
      hdr_chksum = 0;
      timeout = outside.blank.timeout;
      ip_gateway = outside.blank.ip_gateway;
      recvd = outside.blank.recvd;
    } in
    record p { hdr_chksum = outside.check_sum p }

-- What `fragment` ends with: its fuel ran out, it returns FALSE, or the chain of fragments.
pub data Fragments : Type 0 where
  out_of_fuel no_memory : Fragments
  chain : List IpDgram → Fragments

abbrev pub followed_by : IpDgram → Fragments → Fragments
followed_by p out_of_fuel = out_of_fuel
followed_by p no_memory = no_memory
followed_by p (chain ps) = chain (p ∷ ps)

-- The `do` loop: the fragments from `ofst` on. `options` are those of the first of them, and `remain`
-- those of the others; `heap` are the answers of `KRmalloc`, three for each fragment.
pub fragment_loop : ℕ → Outside → (ℕ → Bool) → IpDgram → List ℕ → List ℕ → ℕ → ℕ → Fragments
unfolding piece
fragment_loop zero outside heap d options remain ofst mtu = out_of_fuel
fragment_loop (suc fuel) outside heap d options remain ofst mtu =
    let rest = sub16 (pkt_length d) ofst in
    let len = data_length mtu (length options) rest in
    let behind =
      fragment_loop fuel outside (λ n. heap (3 + n)) d remain remain (u16 (ofst + len)) mtu in
    if heap 0 && heap 1 && heap 2
    then (if lt16 len rest
        then followed_by (piece outside d options ofst mtu) behind
        else chain (piece outside d options ofst mtu ∷ []))
    else no_memory

-- `fragment`; `junk` is the byte that the padding skips.
pub fragment : ℕ → Outside → (ℕ → Bool) → ℕ → IpDgram → ℕ → Fragments
unfolding copied_options padded fragment_loop
fragment fuel outside heap junk d mtu =
    if heap 0
    then elim (copied_options fuel d.options 0) [
      | none ↦ out_of_fuel
      | some r ↦ fragment_loop fuel outside (λ n. heap (1 + n)) d d.options (padded junk r) 0 mtu
    ]
    else no_memory
