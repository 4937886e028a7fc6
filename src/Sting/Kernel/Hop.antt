-- ===== src/Sting/Kernel/Hop.antt =====
-- sting/kernel.c: what `process_dgram` sends on has one hop less to live, and a header that is right
-- as before.
use stin_g.Prelude.{ℕ, ◌+◌, ◌*◌, ◌%◌, ◌<◌, ◌≡◌, refl, arith, false, not, ◌==◌}
use stin_g.Sting.Dgram.{IpDgram}
use stin_g.Sting.Routes.{route_it}
use stin_g.Sting.Kernel.{Kernel, exit}
use stin_g.Sting.Kernel.Forward.{Around, one_hop, leave_by, toward, process_dgram}

-- The sum of the words of a header, `rest` being all but its time to live and its checksum. The
-- header is right if it is 0 in the arithmetic of ones' complement.
pub header_sum : ℕ → IpDgram → ℕ
header_sum rest d = rest + d.ttl * 256 + d.protocol + d.hdr_chksum

-- A datagram as another, but for its time to live, which is one less, and its checksum, which keeps
-- the sum of the header.
pub record Hopped (d e : IpDgram) : Type 0 where
  pub less : e.ttl + 1 ≡ d.ttl
  pub only : e ≡ record d { ttl = e.ttl; hdr_chksum = e.hdr_chksum }
  pub sum : (rest : ℕ) → header_sum rest e % 0xffff ≡ header_sum rest d % 0xffff
  pub small : e.hdr_chksum < 0xffff

one_hop-Hopped :
    (d : IpDgram) → 0 < d.ttl → d.ttl < 256 → d.hdr_chksum < 0xffff → Hopped d (one_hop d)
unfolding header_sum one_hop
one_hop-Hopped d h1 h2 h3 = record {
  less = ground arith;
  only = refl;
  sum = λ rest. ground arith;
  small = ground arith;
}

-- A datagram whose header the checksum finds right, with a time to live that is not 0 and a
-- checksum below 0xffff, goes on in `process_dgram`, to the exit that `route_it` names or to its
-- refusal, as a datagram that differs only in the time to live, which is one less, and in the
-- checksum, which is below 0xffff and keeps the ones' complement sum of the header as it was.
pub process_dgram-hop :
    (fuel : ℕ) (around : Around) (k : Kernel) (d : IpDgram)
    → around.verify d ≡ 0
    → 0 < d.ttl
    → d.ttl < 256
    → d.hdr_chksum < 0xffff
    → (e : IpDgram) × Hopped d e
      × (let r = route_it k.net d.ip_dest in
          process_dgram fuel around k d ≡ leave_by fuel around k (toward r.1 e) (exit k r.0))
unfolding process_dgram one_hop
process_dgram-hop fuel around k d right h1 h2 h3 =
    let same : not (around.verify d == 0) ≡ false = rw right refl in
    (one_hop d, one_hop-Hopped d h1 h2 h3, rw same refl)
