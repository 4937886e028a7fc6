-- ===== src/Serial/Sending/Order.antt =====
-- ports/serial/xfer.c: nothing is lost, doubled or put out of order by `my_send`.
use mathlib.Core.Path.{subst}
use mathlib.Core.List.{append_assoc}
use stin_g.Prelude.{
  ℕ, zero, suc, ◌≡◌, refl, sym, ap, ◌∙◌, inl, inr, Bool, true, ◌&&◌, List, [], ◌∷◌, ◌++◌, Option,
  none, some, take, drop, if◌then◌else◌, Bool-cases, then_side, else_side, either_side,
}
use stin_g.Sting.Dgram.{IpDgram}
use stin_g.Serial.Port.{Sender, wrap_ip}
use stin_g.Serial.Sending.{
  CpPacket, ppp_do_cp, Sending, next_dgram, wrapped, fetch_control, fetch_datagram, refilled,
  written, send_loop, my_send,
}

-- The frames that are still to come.
abbrev pub frames : (IpDgram → Option IpDgram) → Sender → Bool → List IpDgram → List ℕ
frames check s prtcl [] = []
frames check s prtcl (d ∷ ds) =
    let later = frames check s prtcl ds in
    elim (check d) [ none ↦ later | some d' ↦ wrap_ip s prtcl d' ++ later ]

abbrev pub controls : List CpPacket → List ℕ
controls [] = []
controls (p ∷ ps) = ppp_do_cp (p ∷ ps)

abbrev pub to_come : (IpDgram → Option IpDgram) → Sending → List ℕ
to_come check s =
    (if s.prtcl then controls s.cp_send else []) ++ frames check s.settings s.prtcl s.send

-- All bytes, from the first that went out to the last that will.
abbrev pub all_bytes : (IpDgram → Option IpDgram) → Sending → List ℕ
all_bytes check s = s.line ++ (s.rest ++ to_come check s)

take-drop : (n : ℕ) (xs : List ℕ) → take n xs ++ drop n xs ≡ xs
take-drop zero xs = refl
take-drop (suc n) [] = refl
take-drop (suc n) (x ∷ xs) = ap (◌∷◌ x) (take-drop n xs)

written-all_bytes :
    (check : IpDgram → Option IpDgram) (s : Sending) (n : ℕ)
    → all_bytes check (written s n) ≡ all_bytes check s
written-all_bytes check s n =
    append_assoc s.line (take n s.rest) (drop n s.rest ++ to_come check s)
    ∙ ap (◌++◌ s.line) (
        sym (append_assoc (take n s.rest) (drop n s.rest) (to_come check s))
        ∙ ap (λ l. l ++ to_come check s) (take-drop n s.rest))

-- What the next datagram and the others come to.
abbrev Next :
    (IpDgram → Option IpDgram) → Sender → Bool → List ℕ → Option (IpDgram × List IpDgram) → Type 0
Next check s prtcl all none = all ≡ []
Next check s prtcl all (some (d, rest)) = all ≡ wrap_ip s prtcl d ++ frames check s prtcl rest

choose :
    (check : IpDgram → Option IpDgram) (s : Sender) (prtcl : Bool) (ds : List IpDgram)
    (n : Option (IpDgram × List IpDgram))
    → Next check s prtcl (frames check s prtcl ds) n
    → (o : Option IpDgram)
    → Next check s prtcl
        (elim o [
          | none ↦ frames check s prtcl ds
          | some d' ↦ wrap_ip s prtcl d' ++ frames check s prtcl ds
        ])
        (elim o [ none ↦ n | some d' ↦ some (d', ds) ])
choose check s prtcl ds n h none = h
choose check s prtcl ds n h (some d) = refl

next_dgram-Next :
    (check : IpDgram → Option IpDgram) (s : Sender) (prtcl : Bool) (ds : List IpDgram)
    → Next check s prtcl (frames check s prtcl ds) (next_dgram check ds)
next_dgram-Next check s prtcl [] = refl
next_dgram-Next check s prtcl (d ∷ ds) =
    choose check s prtcl ds (next_dgram check ds) (next_dgram-Next check s prtcl ds) (check d)

-- What is to come is what is in the buffer now and what is to come then.
Refill : (IpDgram → Option IpDgram) → List ℕ → List ℕ → Sending → Type 0
Refill check line all t = t.line ++ (t.rest ++ to_come check t) ≡ line ++ all

wrapped-Refill :
    (check : IpDgram → Option IpDgram) (s : Sending)
    → (n : Option (IpDgram × List IpDgram))
    → Next check s.settings s.prtcl (frames check s.settings s.prtcl s.send) n
    → (if s.prtcl then controls s.cp_send else []) ≡ []
    → Refill check s.line (to_come check s) (wrapped s n).1
unfolding Refill
wrapped-Refill check s none h c =
    ap (λ l. s.line ++ ((if s.prtcl then controls s.cp_send else []) ++ l)) (sym h)
wrapped-Refill check s (some (d, ds)) h c =
    ap (λ l. s.line ++ (wrap_ip s.settings s.prtcl d ++ (l ++ frames check s.settings s.prtcl ds)))
      c
    ∙ ap (◌++◌ s.line) (sym h ∙ ap (λ l. l ++ frames check s.settings s.prtcl s.send) (sym c))

fetch_control-Refill :
    (check : IpDgram → Option IpDgram) (s : Sending) (ps : List CpPacket)
    → s.cp_send ≡ ps
    → s.prtcl ≡ true
    → Refill check s.line (to_come check s) (fetch_control check s ps).1
unfolding Refill
fetch_control-Refill check s [] e p =
    wrapped-Refill check s (next_dgram check s.send)
      (next_dgram-Next check s.settings s.prtcl s.send)
      (then_side s.prtcl (controls s.cp_send) [] p ∙ ap controls e)
fetch_control-Refill check s (q ∷ ps) e p =
    ap (λ l. s.line ++ (ppp_do_cp (q ∷ ps) ++ (l ++ frames check s.settings s.prtcl s.send)))
      (then_side s.prtcl [] [] p)
    ∙ ap (λ l. s.line ++ (l ++ frames check s.settings s.prtcl s.send))
        (sym (then_side s.prtcl (controls s.cp_send) [] p ∙ ap controls e))

fetch_datagram-Refill :
    (check : IpDgram → Option IpDgram) (s : Sending)
    → Refill check s.line (to_come check s) (fetch_datagram check s).1
fetch_datagram-Refill check s = elim (Bool-cases s.prtcl) [
  | inl e ↦
      subst (λ x. Refill check s.line (to_come check s) x.1)
        (sym (then_side s.prtcl (fetch_control check s s.cp_send) _ e))
        (fetch_control-Refill check s s.cp_send refl e)
  | inr e ↦
      subst (λ x. Refill check s.line (to_come check s) x.1)
        (sym (else_side s.prtcl _ (wrapped s (next_dgram check s.send)) e))
        (wrapped-Refill check s (next_dgram check s.send)
          (next_dgram-Next check s.settings s.prtcl s.send)
          (else_side s.prtcl (controls s.cp_send) [] e))
]

refilled-all_bytes :
    (check : IpDgram → Option IpDgram) (s : Sending) (bs : List ℕ)
    → s.rest ≡ bs
    → all_bytes check (refilled check s bs).1 ≡ all_bytes check s
unfolding Refill
refilled-all_bytes check s [] e =
    fetch_datagram-Refill check s ∙ ap (λ l. s.line ++ (l ++ to_come check s)) (sym e)
refilled-all_bytes check s (b ∷ bs) e = refl

send_loop-all_bytes :
    (check : IpDgram → Option IpDgram) (ns : List ℕ) (s : Sending)
    → all_bytes check (send_loop check s ns) ≡ all_bytes check s
unfolding send_loop
send_loop-all_bytes check [] s = refilled-all_bytes check s s.rest refl
send_loop-all_bytes check (zero ∷ ns) s = refilled-all_bytes check s s.rest refl
send_loop-all_bytes check (suc n ∷ ns) s =
    let (go, t) = refilled check s s.rest in
    let h = refilled-all_bytes check s s.rest refl in
    either_side (λ u. all_bytes check u ≡ all_bytes check s) go
      (send_loop-all_bytes check ns (written t (suc n)) ∙ written-all_bytes check t (suc n) ∙ h) h

-- However many bytes the device takes at each call, `my_send` of the serial port leaves as they
-- were, in their order, the bytes that went out, those of the buffer behind them, and those of the
-- frames that are still to come, the control packets first and then the datagrams whose time is
-- not over.
pub my_send-all_bytes :
    (check : IpDgram → Option IpDgram) (ready : Bool) (s : Sending) (ns : List ℕ)
    → all_bytes check (my_send check ready s ns) ≡ all_bytes check s
unfolding my_send
my_send-all_bytes check ready s ns =
    either_side (λ u. all_bytes check u ≡ all_bytes check s) (s.active && ready)
      (send_loop-all_bytes check ns s) refl
