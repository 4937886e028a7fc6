-- ===== src/Sting/Tests.antt =====
-- sting: the theorems on the kernel at sample values.
use stin_g.Prelude.{
  ℕ, zero, suc, ◌+◌, ◌%◌, ◌≡◌, refl, inl, true, false, none, some, List, [], ◌∷◌, arith,
}
use stin_g.Sting.Handles.{Handles, CnDesc, search_chain}
use stin_g.Sting.Handles.Release.{IsValid}
use stin_g.Sting.Routes.{RouteEntry, Net, via, has_address, route_it}
use stin_g.Sting.Routes.Match.{route_it-first}
use stin_g.Sting.Icmp as Icmp
use stin_g.Sting.Icmp.{word_sum, layer_checksum, seal}
use stin_g.Sting.Icmp.Checksum.{stored_sum, seal-word_sum}
use stin_g.Sting.Kernel.{Kernel, PortQueues, exit}
use stin_g.Sting.Kernel.Forward.{Around, leave_by, toward, process_dgram}
use stin_g.Sting.Kernel.Fate.{Fate}
use stin_g.Sting.Kernel.Hop.{Hopped, process_dgram-hop}
use stin_g.Sting.Kernel.Deliver.{Below, my_send}
use stin_g.Sting.Kernel.Deliver.Fragments.{my_send-Cuts}
use stin_g.Sting.Send.{Request, Supply, ip_send}
use stin_g.Sting.Send.Lengths.{Queued, ip_send-Queued}
use stin_g.Sting.Dgram.{IpDgram}
use stin_g.Sting.Fragm.{Outside}
use stin_g.Sting.Fragm.Pieces.{Cuts, last_piece, more_pieces}
use stin_g.Sting.Reassembly.{Env, reassembly}
use stin_g.Sting.Reassembly.Never.{Completes, reassembly_never-Completes}

-- Two handles in use, 1 and 65, in the same chain; the next to be tried is 65.
abbrev chains : ℕ → List CnDesc
chains (suc zero) =
    record { handle = 65; anonymous = 700; funcs = 9 }
    ∷ record { handle = 1; anonymous = 500; funcs = 8 }
    ∷ []
chains _ = []

abbrev in_use : Handles
in_use = record { cn_array = chains; next_handle = 64 }

in_use-IsValid : IsValid in_use
unfolding search_chain
in_use-IsValid zero = tt
in_use-IsValid (suc zero) = (refl, (refl, tt))
in_use-IsValid (suc (suc i)) = tt

-- A local net behind the port at 1, and a way to everything else behind the port at 2.
abbrev local_net : RouteEntry
local_net = record { template = 0xc0a80100; netmask = 0xffffff00; ip_gateway = 0; port = 1 }

abbrev default_route : RouteEntry
default_route = record { template = 0; netmask = 0; ip_gateway = 0xc0a80101; port = 2 }

abbrev net : Net
net = record {
  ports = 1 ∷ 2 ∷ [];
  port_at = λ p. record { active = true; ip_addr = 0xc0a80105 };
  route_tab = local_net ∷ default_route ∷ [];
}

route_it-first_example : route_it net 0x08080808 ≡ (via 2, some 0xc0a80101)
unfolding has_address
route_it-first_example =
    route_it-first net 0x08080808 (local_net ∷ []) default_route [] refl refl (refl, tt) refl

-- Twenty bytes for a port that takes 48: a fragment of 16 and one of 4.
abbrev long_dgram : IpDgram
long_dgram = record {
  hd_len = 5;
  tos = 0;
  total_length = 40;
  ident = 77;
  dont_frg = false;
  more_frg = false;
  frag_ofst = 0;
  ttl = 64;
  protocol = 17;
  hdr_chksum = 0;
  ip_src = 0x0a000001;
  ip_dest = 0x0a000002;
  options = 1 ∷ 0x83 ∷ 3 ∷ 4 ∷ [];
  pkt_data =
      1 ∷ 2 ∷ 3 ∷ 4 ∷ 5 ∷ 6 ∷ 7 ∷ 8 ∷ 9 ∷ 10 ∷ 11 ∷ 12 ∷ 13 ∷ 14 ∷ 15 ∷ 16 ∷ 17 ∷ 18 ∷ 19 ∷ 20 ∷ [];
  timeout = 1000;
  ip_gateway = 0;
  recvd = 1;
}

abbrev sum_of : IpDgram → ℕ
sum_of d = (d.total_length + d.frag_ofst) % 0x10000

abbrev outside : Outside
outside = record { check_sum = sum_of; blank = long_dgram }

abbrev cleared_memory : Env
cleared_memory = record {
  heap = λ n. true;
  junk_data = λ n. 0;
  junk_bits = λ n. false;
  junk_dgram = long_dgram;
  clock = 500;
  frag_ttl = 60;
  check_sum = sum_of;
}

-- The last fragment of a datagram of 40 bytes.
abbrev eighth_dgram : IpDgram
eighth_dgram = record long_dgram { frag_ofst = 4; pkt_data = 1 ∷ 2 ∷ 3 ∷ 4 ∷ 5 ∷ 6 ∷ 7 ∷ 8 ∷ [] }

reassembly_never-Completes_example : ¬ Completes (reassembly cleared_memory [] eighth_dgram)
reassembly_never-Completes_example =
    reassembly_never-Completes cleared_memory [] eighth_dgram refl (omega arith) refl
      (λ e. absurd (omega (arith, e)))

-- A message of six bytes and an odd one.
abbrev echo : List ℕ
echo = 8 ∷ 0 ∷ 255 ∷ 255 ∷ 1 ∷ 2 ∷ 3 ∷ []

seal-word_sum_example :
    (word_sum (seal echo) % 0xffff ≡ 0) × (stored_sum (seal echo) ≡ layer_checksum (seal echo))
seal-word_sum_example =
    seal-word_sum echo
      (
        omega arith,
        (
          omega arith,
          (omega arith, (omega arith, (omega arith, (omega arith, (omega arith, tt))))),
        ),
      )
      (omega arith) (omega arith)

-- A kernel whose only route is through port 2, for which the sample is too long.
abbrev idle_port : PortQueues
idle_port = record {
  ip_addr = 0x0a000009;
  sub_mask = 0xffffff00;
  mtu = 48;
  stat_sd_data = 0;
  stat_rcv_data = 0;
  send = [];
  receive = [];
}

abbrev kernel : Kernel
kernel = record {
  clock = 500;
  def_ttl = 64;
  frag_ttl = 60;
  net = net;
  here = 0;
  port_at = λ n. idle_port;
  ip = λ n. record { active = true; queue = []; defrag = [] };
  icmp_id = 7;
  icmp_dropped = 0;
  time_zone = 0;
  mask_agent = false;
  stat_all = 0;
  stat_lo_mem = 0;
  stat_ttl_excd = 0;
  stat_chksum = 0;
  stat_unreach = 0;
  discarded = [];
}

abbrev reply_env : Icmp.Outside
reply_env = record { some_memory = true; check_sum = sum_of; image = λ d. []; behind = [] }

abbrev around : Around
around = record {
  verify = λ d. 0;
  reply = reply_env;
  cutting = outside;
  heap = λ n. true;
  junk = 9;
}

process_dgram-hop_example :
    (e : IpDgram) × Hopped long_dgram e
    × (let r = route_it kernel.net long_dgram.ip_dest in
        process_dgram 30 around kernel long_dgram
        ≡ leave_by 30 around kernel (toward r.1 e) (exit kernel r.0))
process_dgram-hop_example =
    process_dgram-hop 30 around kernel long_dgram refl (omega arith) (omega arith) (omega arith)

-- The two fragments of the sample, of 16 bytes and of 4.
abbrev first_part : IpDgram
first_part = record long_dgram {
  pkt_data = 1 ∷ 2 ∷ 3 ∷ 4 ∷ 5 ∷ 6 ∷ 7 ∷ 8 ∷ 9 ∷ 10 ∷ 11 ∷ 12 ∷ 13 ∷ 14 ∷ 15 ∷ 16 ∷ [];
  more_frg = true;
}

abbrev second_part : IpDgram
second_part = record long_dgram { pkt_data = 17 ∷ 18 ∷ 19 ∷ 20 ∷ []; frag_ofst = 2 }

abbrev two_parts : Cuts long_dgram 48 0 (first_part ∷ second_part ∷ [])
two_parts =
    more_pieces {len = 16}
      (record {
        place = refl;
        bytes = refl;
        count = refl;
        within = omega arith;
        nonempty = omega arith;
        fits = omega arith;
        src = refl;
        id = refl;
        protocol = refl;
      })
      refl refl
      (last_piece {len = 4}
        (record {
          place = refl;
          bytes = refl;
          count = refl;
          within = omega arith;
          nonempty = omega arith;
          fits = omega arith;
          src = refl;
          id = refl;
          protocol = refl;
        })
        refl refl)

abbrev busy_kernel : Kernel
busy_kernel = record kernel {
  port_at = λ n. record idle_port { send = first_part ∷ second_part ∷ [] };
}

abbrev below : Below
below = record { reply = reply_env; memory = cleared_memory; process = λ n. none }

my_send-Cuts_example :
    let k' = my_send below 0 busy_kernel in
    (g : IpDgram) × ((k'.ip 17).queue ≡ g ∷ [])
    × ((k'.ip 17).defrag ≡ [])
    × (g.pkt_data ≡ long_dgram.pkt_data)
my_send-Cuts_example =
    my_send-Cuts below busy_kernel 0 long_dgram 48 refl refl
      (record { memory = λ n. refl; clear_data = λ n. refl; clear_bits = λ n. refl }) tt
      (omega arith) (omega arith) (inl (λ e. absurd (omega (arith, e)))) two_parts (omega arith)

-- Three bytes and an option of two, for a host behind the default route.
abbrev request : Request
request = record {
  source = 0;
  dest = 0x08080808;
  tos = 0;
  fragm_flg = false;
  ttl = 64;
  protocol = 17;
  ident = 3;
  payload = 1 ∷ 2 ∷ 3 ∷ [];
  options = 5 ∷ 6 ∷ [];
}

abbrev supply : Supply
supply = record {
  dgram_memory = true;
  option_memory = true;
  check_sum = sum_of;
  blank = long_dgram;
}

ip_send-Queued_example : Queued request kernel (ip_send supply kernel request)
ip_send-Queued_example = ip_send-Queued supply kernel request (omega arith) (omega arith)
