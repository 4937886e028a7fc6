-- ===== src/Sting/Ports.antt =====
-- sting/port.c: ports are switched on and off by their names.
use stin_g.Prelude.{
  ℕ, ◌≡◌, refl, ap, ◌∙◌, Bool, true, false, not, ◌&&◌, inl, inr, Option, none, some, List, [], ◌∷◌,
  Bool-cases, ◌==◌, if◌then◌else◌,
}

-- The parts of a `PORT` that the functions of this file change or read. A name is its bytes.
pub record PortDesc : Type 0 where
  pub name : List ℕ
  pub active : Bool
  pub stat_sd_data : ℕ
  pub stat_rcv_data : ℕ
  pub stat_dropped : ℕ

-- `strcmp (a, b) == 0`
abbrev pub same_name : List ℕ → List ℕ → Bool
same_name [] [] = true
same_name [] (y ∷ ys) = false
same_name (x ∷ xs) [] = false
same_name (x ∷ xs) (y ∷ ys) = x == y && same_name xs ys

-- `search_port`: the first port with the name.
unfoldable search_port : List PortDesc → List ℕ → Option PortDesc
search_port [] port_name = none
search_port (p ∷ ps) port_name =
    let rest = search_port ps port_name in if same_name p.name port_name then some p else rest

-- What is changed through the pointer that `search_port` returns.
unfoldable change_port : (PortDesc → PortDesc) → List PortDesc → List ℕ → List PortDesc
change_port f [] port_name = []
change_port f (p ∷ ps) port_name =
    let rest = change_port f ps port_name in
    if same_name p.name port_name then f p ∷ ps else p ∷ rest

abbrev switch_on : PortDesc → PortDesc
switch_on p = record p { active = true; stat_sd_data = 0; stat_rcv_data = 0; stat_dropped = 0 }

abbrev switch_off : PortDesc → PortDesc
switch_off p = record p { active = false }

-- `on_port`, by what the search gives; `set_state` is the answer of the port's driver to being
-- switched on.
unfoldable by_search :
    (PortDesc → Bool) → List PortDesc → List ℕ → Option PortDesc → List PortDesc × Bool
unfolding change_port
by_search set_state ports port_name none = (ports, false)
by_search set_state ports port_name (some p) =
    if p.active
    then (ports, true)
    else if not (set_state p)
    then (ports, false)
    else (change_port switch_on ports port_name, true)

pub on_port : (PortDesc → Bool) → List PortDesc → List ℕ → List PortDesc × Bool
unfolding search_port by_search
on_port set_state ports port_name =
    by_search set_state ports port_name (search_port ports port_name)

-- `off_port`, which does not look at the answer of the driver.
unfoldable pub off_port : List PortDesc → List ℕ → List PortDesc
unfolding search_port change_port
off_port ports port_name = elim (search_port ports port_name) [
  | none ↦ ports
  | some p ↦ if not p.active then ports else change_port switch_off ports port_name
]

-- `query_port`, for a name that is not NULL
pub query_port : List PortDesc → List ℕ → Bool
unfolding search_port
query_port ports port_name = elim (search_port ports port_name) [ none ↦ false | some p ↦ p.active ]

search-change :
    (f : PortDesc → PortDesc) (ports : List PortDesc) (n : List ℕ)
    → ((p : PortDesc) → (f p).name ≡ p.name)
    → search_port (change_port f ports n) n
      ≡ (elim (search_port ports n) [ none ↦ none | some p ↦ some (f p) ])
unfolding search_port change_port
search-change f [] n same = refl
search-change f (p ∷ ps) n same = elim (Bool-cases (same_name p.name n)) [
  | inl hit ↦
      let e : same_name (f p).name n ≡ true = ap (λ x. same_name x n) (same p) ∙ hit in
      rw (hit, e) refl
  | inr miss ↦ rw (miss, miss) (search-change f ps n same)
]

query_of : Option PortDesc → Bool
query_of none = false
query_of (some p) = p.active

query_port-found :
    (ports : List PortDesc) (n : List ℕ) (o : Option PortDesc)
    → search_port ports n ≡ o
    → query_port ports n ≡ query_of o
unfolding query_port query_of
query_port-found ports n none e =
    ap (λ (x : Option PortDesc). elim x [ none ↦ false | some p ↦ p.active ]) e
query_port-found ports n (some q) e =
    ap (λ (x : Option PortDesc). elim x [ none ↦ false | some p ↦ p.active ]) e

changed :
    (f : PortDesc → PortDesc) (ports : List PortDesc) (n : List ℕ) (p : PortDesc)
    → ((q : PortDesc) → (f q).name ≡ q.name)
    → search_port ports n ≡ some p
    → query_port (change_port f ports n) n ≡ (f p).active
unfolding query_of
changed f ports n p same e = query_port-found (change_port f ports n) n (some (f p)) (
    search-change f ports n same
    ∙ ap (λ (x : Option PortDesc). elim x [ none ↦ none | some q ↦ some (f q) ]) e)

branch :
    (a k : Bool) (ports ports' : List PortDesc) (n : List ℕ)
    → query_port ports n ≡ a
    → query_port ports' n ≡ true
    → let r : List PortDesc × Bool =
        if a then (ports, true) else if not k then (ports, false) else (ports', true) in
      query_port r.0 n ≡ r.1
branch true k ports ports' n h h' = h
branch false true ports ports' n h h' = h'
branch false false ports ports' n h h' = h

switched_on :
    (set_state : PortDesc → Bool) (ports : List PortDesc) (n : List ℕ) (o : Option PortDesc)
    → search_port ports n ≡ o
    → query_port (by_search set_state ports n o).0 n ≡ (by_search set_state ports n o).1
unfolding query_of by_search
switched_on set_state ports n none e = query_port-found ports n none e
switched_on set_state ports n (some p) e =
    branch p.active (set_state p) ports (change_port switch_on ports n) n
      (query_port-found ports n (some p) e) (changed switch_on ports n p (λ q. refl) e)

-- Whatever the driver answers, `on_port` returns what `query_port` then says of the port.
pub on_port-query_port :
    (set_state : PortDesc → Bool) (ports : List PortDesc) (n : List ℕ)
    → query_port (on_port set_state ports n).0 n ≡ (on_port set_state ports n).1
unfolding on_port
on_port-query_port set_state ports n = switched_on set_state ports n (search_port ports n) refl
