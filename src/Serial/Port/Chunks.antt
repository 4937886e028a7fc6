-- ===== src/Serial/Port/Chunks.antt =====
-- ports/serial/xfer.c: however the bytes of a stream come in, `my_receive` does with them what its loop
-- does with all of them at once.
use mathlib.Core.Path.{subst}
use stin_g.Prelude.{
  ℕ, zero, suc, ◌-◌, ◌<◌, ◌≤◌, ◌≡◌, refl, sym, ap, ◌∙◌, Bool, true, not, ◌&&◌, List, [], ◌∷◌, ◌++◌,
  Option, none, some, arith, length, length-take, length-drop, take, drop, take-take, leb,
  else_side,
}
use stin_g.Serial.Port.{
  SerialPort, Outside, take_bytes, mark_of, has_mark, settled, readable, receive_read, my_receive,
}
use stin_g.Serial.Port.Stream.{
  Room, level, Room-level, KeepsFraming, Same, Filled, take_bytes_nil, take_bytes-split,
  take_bytes-Same, take_bytes-Filled,
}

take-drop : (n : ℕ) (xs : List ℕ) → take n xs ++ drop n xs ≡ xs
take-drop zero xs = refl
take-drop (suc n) [] = refl
take-drop (suc n) (x ∷ xs) = ap (◌∷◌ x) (take-drop n xs)

abbrev pub AllPositive : List ℕ → Type 0
AllPositive [] = Unit
AllPositive (n ∷ ns) = (0 < n) × AllPositive ns

-- A round that takes a byte leaves room for the others.
shorter : (len left k : ℕ) {m : ℕ} → (0 < len → 0 < k) → m ≡ len - k → len ≤ suc left → m ≤ left
shorter zero left k f e h = omega (arith, e)
shorter (suc len) left k f e h = omega (arith, e, f (omega arith))

module _ {V : Type 0} (out : Outside V) where
  -- `my_receive` is called again and again on the bytes of a stream; the numbers say how many of them
  -- the device has got when it is called. The port, and what has not been read.
  pub serve : SerialPort V → List ℕ → List ℕ → Option (SerialPort V × List ℕ)
  serve p stream [] = some (p, stream)
  serve p stream (n ∷ ns) = elim (my_receive out p (take n stream)) [
    | none ↦ none
    | some q ↦ serve q (drop (readable p (take n stream)) stream) ns
  ]

  settled_room :
      (found : Bool) (q : SerialPort V)
      → length q.pending < 8190
      → settled out found (some q) ≡ some q
  settled_room found q h = else_side (not found && leb 8190 (length q.pending)) _ _ (ground arith)

  receive_read-room :
      (p q : SerialPort V) (bs : List ℕ)
      → take_bytes out (mark_of p.prtcl) p bs ≡ some q
      → length q.pending < 8190
      → receive_read out p bs ≡ some q
  receive_read-room p q [] e h = sym (take_bytes_nil out (mark_of p.prtcl) p) ∙ e
  receive_read-room p q (b ∷ bs) e h =
      ap (settled out (has_mark (mark_of p.prtcl) (b ∷ bs))) e
      ∙ settled_room (has_mark (mark_of p.prtcl) (b ∷ bs)) q h

  -- A port that waits for the rest of a stream, and comes to `f` with it.
  pub record Waits (mark : ℕ) (p : SerialPort V) (stream : List ℕ) (f : SerialPort V) : Type 0 where
    pub active : p.active ≡ true
    pub framing : mark_of p.prtcl ≡ mark
    pub room : Room mark (length p.pending) stream
    pub goal : take_bytes out mark p stream ≡ some f

  abbrev Step : ℕ → SerialPort V → List ℕ → SerialPort V → ℕ → Type 0
  Step mark p stream f n =
      (q : SerialPort V) × (my_receive out p (take n stream) ≡ some q)
      × Waits mark q (drop (readable p (take n stream)) stream) f

  my_receive-Step :
      KeepsFraming out
      → (mark : ℕ) (p f : SerialPort V) (stream : List ℕ) (n : ℕ) → Waits mark p stream f
      → Step mark p stream f n
  unfolding my_receive
  my_receive-Step keeps mark p f stream n w =
      let k = readable p (take n stream) in
      let le : k ≤ n = ground (arith, length-take n stream) in
      let part : take k (take n stream) ≡ take k stream = take-take k n stream le in
      let whole : take_bytes out mark p (take k stream ++ drop k stream) ≡ some f =
        ap (take_bytes out mark p) (take-drop k stream) ∙ w.goal in
      let (q, e, g) = take_bytes-split out mark (take k stream) (drop k stream) p f whole in
      let same = subst (Same out p) e (take_bytes-Same out keeps mark (take k stream) p) in
      let filled =
        subst (Filled out (level mark (length p.pending) (take k stream))) e
          (take_bytes-Filled out mark (take k stream) p) in
      let (lt, room) = Room-level mark (length p.pending) k stream w.room in
      let got =
        receive_read-room p q (take k stream)
          (ap (λ m. take_bytes out m p (take k stream)) w.framing ∙ e)
          (omega (arith, filled, lt)) in
      (
        q,
        ap (receive_read out p) part ∙ got,
        record {
          active = same.1 ∙ w.active;
          framing = ap mark_of same.0 ∙ w.framing;
          room = subst (λ l. Room mark l (drop k stream)) (sym filled) room;
          goal = g;
        },
      )

  readable_progress :
      (mark : ℕ) (p f : SerialPort V) (stream : List ℕ) (n : ℕ)
      → Waits mark p stream f
      → 0 < n
      → 0 < length stream
      → 0 < readable p (take n stream)
  readable_progress mark p f stream n w pos some_left =
      let room = (Room-level mark (length p.pending) 0 stream w.room).0 in
      rw w.active (omega (arith, length-take n stream, room, pos, some_left))

  abbrev Served : ℕ → SerialPort V → List ℕ → SerialPort V → List ℕ → Type 0
  Served mark p stream f ns =
      (q : SerialPort V) × (rest : List ℕ) × (serve p stream ns ≡ some (q, rest))
      × Waits mark q rest f
      × (AllPositive ns → length stream ≤ length ns → length rest ≡ 0)

  serve_step :
      (p : SerialPort V) (stream : List ℕ) (n : ℕ) (ns : List ℕ) (q : SerialPort V)
      → my_receive out p (take n stream) ≡ some q
      → serve p stream (n ∷ ns) ≡ serve q (drop (readable p (take n stream)) stream) ns
  unfolding serve
  serve_step p stream n ns q e =
      ap
        (λ o. elim o [
          | none ↦ none
          | some q ↦ serve q (drop (readable p (take n stream)) stream) ns
        ])
        e

  pub serve-Served :
      KeepsFraming out
      → (mark : ℕ) (ns : List ℕ) (p f : SerialPort V) (stream : List ℕ) → Waits mark p stream f
      → Served mark p stream f ns
  unfolding serve
  serve-Served keeps mark [] p f stream w = (p, stream, refl, w, (λ a h. omega (arith, h)))
  serve-Served keeps mark (n ∷ ns) p f stream w =
      let (q, e, w') = my_receive-Step keeps mark p f stream n w in
      let k = readable p (take n stream) in
      let (r, rest, served, left, all_read) = serve-Served keeps mark ns q f (drop k stream) w' in
      (
        r,
        rest,
        serve_step p stream n ns q e ∙ served,
        left,
        (λ a h. all_read a.1 (
            shorter (length stream) (length ns) k (readable_progress mark p f stream n w a.0)
              (length-drop k stream) h)),
      )
