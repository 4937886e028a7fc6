-- ===== src/Sting/Fragm/Pieces.antt =====
-- sting/fragm.c: the fragments that `fragment` makes of a datagram.
use stin_g.Prelude.{ℕ, ◌+◌, ◌*◌, ◌%◌, ◌≤◌, ◌<◌, ◌≡◌, true, false, List, [], ◌∷◌, length, take, drop}
use stin_g.Sting.Dgram.{IpDgram, pkt_length}

-- A fragment of `d` with `len` bytes of its data from `ofst` on, and no longer than `mtu`.
pub record IsPiece (d p : IpDgram) (mtu ofst len : ℕ) : Type 0 where
  pub place : p.frag_ofst * 8 ≡ ofst
  pub bytes : p.pkt_data ≡ take len (drop ofst d.pkt_data)
  pub count : length p.pkt_data ≡ len
  pub within : ofst + len ≤ pkt_length d
  pub nonempty : 0 < len
  pub fits : p.total_length ≤ mtu
  pub src : p.ip_src ≡ d.ip_src
  pub id : p.ident ≡ d.ident
  pub protocol : p.protocol ≡ d.protocol

-- The fragments are the data of `d` from `ofst` on, one behind the other. All but the last say that
-- more will come, and have a multiple of 8 bytes.
pub data Cuts (d : IpDgram) (mtu : ℕ) : ℕ → List IpDgram → Type 0 where
  last_piece :
      {p : IpDgram} {ofst len : ℕ}
      → IsPiece d p mtu ofst len
      → ofst + len ≡ pkt_length d
      → p.more_frg ≡ false
      → Cuts d mtu ofst (p ∷ [])
  more_pieces :
      {p : IpDgram} {ps : List IpDgram} {ofst len : ℕ}
      → IsPiece d p mtu ofst len
      → len % 8 ≡ 0
      → p.more_frg ≡ true
      → Cuts d mtu (ofst + len) ps
      → Cuts d mtu ofst (p ∷ ps)

-- How far a fragment goes.
record Length (mtu count rest len : ℕ) : Type 0 where
  positive : 0 < len
  bounded : len ≤ rest
  room : 20 + count + len ≤ mtu
  whole : len < rest → len % 8 ≡ 0
