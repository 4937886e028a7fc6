-- ===== src/Resolve/Cache.antt =====
-- proto/resolve/cache.c: the cache of the resolver, with `clean_up`, `query_name`, `query_IP` and
-- `update_cache`. The semaphore of the cache is free, the clock stands still while a function runs, and
-- the names have less than 0x8000 characters.
pub mod Crush
pub mod Query
use stin_g.Prelude.{
  ℕ, zero, suc, ◌+◌, ◌-◌, ◌≤◌, Bool, true, false, not, ◌&&◌, ◌||◌, List, [], ◌∷◌, ◌++◌, Option,
  none, some, length, ltb, leb, ◌==◌, if◌then◌else◌, u16, u32, is_neg16,
}

-- `DNAME`; the field `length` is the length of the name.
pub record DName : Type 0 where
  pub name : List ℕ
  pub type : ℕ
  pub expiry : ℕ

-- `CACHE`.
pub record Entry : Type 0 where
  pub ip_address : ℕ
  pub real : DName
  pub alias : List DName
  pub used : ℕ

-- `cache_root` and `cache_num`.
pub record Cache : Type 0 where
  pub root : List Entry
  pub num : ℕ

-- `compare`, whether it returns 0.
abbrev pub upper : ℕ → ℕ
upper c = if leb 0x61 c && leb c 0x7a then c - 0x20 else c

abbrev pub compare_names : List ℕ → List ℕ → Bool
compare_names [] second = true
compare_names (a ∷ as') [] = true
compare_names (a ∷ as') (b ∷ bs) = upper a == upper b && compare_names as' bs

-- The test of a name against another, with their lengths.
unfoldable pub is_named : List ℕ → DName → Bool
is_named name d = length d.name == length name && compare_names d.name name

-- The first loop of `clean_up`, over the aliases of an entry that stays and over the entries.
abbrev pub sweep_aliases : ℕ → ℕ → List DName → List DName
sweep_aliases now expiry [] = []
sweep_aliases now expiry (d ∷ ds) =
    let rest = sweep_aliases now expiry ds in
    if ltb d.expiry now && not (expiry == 0) then rest else d ∷ rest

abbrev pub has_expired : ℕ → Entry → Bool
has_expired now e = ltb e.real.expiry now && not (e.real.expiry == 0)

abbrev pub swept : ℕ → Entry → Entry
swept now e = record e { alias = sweep_aliases now e.real.expiry e.alias }

unfoldable pub sweep : ℕ → List Entry → List Entry
sweep now [] = []
sweep now (e ∷ es) =
    let rest = sweep now es in if has_expired now e then rest else swept now e ∷ rest

-- The inner loop of the second: the entries in front of the one that was used least recently, that
-- entry and those behind it; none where no entry was used before `ago`.
abbrev pub Place : Type 0
Place = List Entry × Entry × List Entry

abbrev pub behind : Entry → Option Place → Option Place
behind e none = none
behind e (some (front, crush, back)) = some (e ∷ front, crush, back)

abbrev pub or_here : Entry → List Entry → Option Place → Option Place
or_here e es none = some ([], e, es)
or_here e es (some (front, crush, back)) = some (e ∷ front, crush, back)

pub search_crush : ℕ → List Entry → Option Place
search_crush ago [] = none
search_crush ago (e ∷ es) =
    let earlier = ltb e.used ago in
    let later = search_crush (if earlier then e.used else ago) es in
    if earlier then or_here e es later else behind e later

abbrev pub crushed : ℕ → Place → Cache
crushed num (front, crush, back) = record { root = front ++ back; num = num - 1 }

-- The second loop, on fuel.
unfoldable pub crush_loop : ℕ → ℕ → ℕ → Cache → Option Cache
unfolding search_crush
crush_loop zero now max_number c = none
crush_loop (suc fuel) now max_number c =
    if ltb max_number c.num
    then elim (search_crush now c.root) [
      | none ↦ crush_loop fuel now max_number c
      | some place ↦ crush_loop fuel now max_number (crushed c.num place)
    ]
    else some c

-- `max_number`, an `int16`, for the number that the configuration names.
abbrev pub max_of : ℕ → ℕ
max_of dns_cache = let n = u16 dns_cache in if is_neg16 n || ltb n 5 then 32 else n

abbrev pub after_sweep : ℕ → Cache → Cache
after_sweep now c =
    let left = sweep now c.root in
    record { root = left; num = c.num - (length c.root - length left) }

-- `clean_up`.
unfoldable pub clean_up : ℕ → ℕ → ℕ → Cache → Option Cache
unfolding sweep crush_loop
clean_up fuel now dns_cache c = crush_loop fuel now (max_of dns_cache) (after_sweep now c)

abbrev pub any_named : List ℕ → List DName → Bool
any_named name [] = false
any_named name (d ∷ ds) = is_named name d || any_named name ds

-- What a query finds: the addresses, the canonical name, and the entries with the time of their use.
pub record Found : Type 0 where
  pub ip_list : List ℕ
  pub real : List ℕ
  pub root : List Entry

abbrev pub use_entry : ℕ → Entry → Entry
use_entry now e = record e { used = now }

abbrev pub hit : ℕ → Entry → Found → Found
hit now e f = record f { ip_list = e.ip_address ∷ f.ip_list; root = use_entry now e ∷ f.root }

abbrev pub miss : Entry → Found → Found
miss e f = record f { root = e ∷ f.root }

-- The loop of `query_name`. `room` is `size - count`, and the Boolean `alias_flag`.
pub query_walk : ℕ → List ℕ → ℕ → Bool → List ℕ → List Entry → Found
query_walk now name room alias_flag real [] = record { ip_list = []; real = real; root = [] }
query_walk now name zero alias_flag real (e ∷ es) = record {
  ip_list = [];
  real = real;
  root = e ∷ es;
}
query_walk now name (suc room) alias_flag real (e ∷ es) =
    let by_real = is_named name e.real in
    let by_alias = any_named name e.alias in
    let answered = by_real || by_alias in
    let rest =
      query_walk now name (if answered then room else suc room) (alias_flag && not by_real)
        (if by_real || (by_alias && alias_flag) then e.real.name else real) es in
    if answered then hit now e rest else miss e rest

abbrev pub with_root : Cache → Found → Found × Cache
with_root c f = (f, record c { root = f.root })

-- `query_name`.
pub query_name : ℕ → ℕ → ℕ → Cache → List ℕ → List ℕ → ℕ → Option (Found × Cache)
unfolding clean_up query_walk
query_name fuel now dns_cache c name real size = elim (clean_up fuel now dns_cache c) [
  | none ↦ none
  | some c' ↦ some (with_root c' (query_walk now name size true real c'.root))
]

-- `query_IP`; the number that it returns is the Boolean.
abbrev pub query_ip_walk : ℕ → ℕ → ℕ → List ℕ → List Entry → Bool × Found
query_ip_walk now addr size real [] = (false, record { ip_list = []; real = real; root = [] })
query_ip_walk now addr size real (e ∷ es) =
    let rest = query_ip_walk now addr size real es in
    if e.ip_address == addr
    then (
      true,
      record {
        ip_list = if size == 0 then [] else addr ∷ [];
        real = e.real.name;
        root = use_entry now e ∷ es;
      },
    )
    else (rest.0, miss e rest.1)

unfoldable pub query_ip : ℕ → ℕ → ℕ → Cache → ℕ → List ℕ → ℕ → Option (Bool × Found)
unfolding clean_up
query_ip fuel now dns_cache c addr real size = elim (clean_up fuel now dns_cache c) [
  | none ↦ none
  | some c' ↦ some (query_ip_walk now addr size real c'.root)
]

abbrev pub dns_a : ℕ
dns_a = 1

abbrev pub expiry_of : ℕ → ℕ → ℕ
expiry_of now ttl = if ttl == 0x87654321 then 0 else u32 (now + ttl)

abbrev pub refreshed : ℕ → ℕ → Entry → Entry
refreshed now expiry e = record e { real = record e.real { expiry = expiry }; used = now }

-- The entry of a name and an address with what it is to become; `none` where there is no such entry.
unfoldable pub update_a : ℕ → ℕ → List ℕ → ℕ → List Entry → Option (List Entry)
update_a now expiry name addr [] = none
update_a now expiry name addr (e ∷ es) =
    let rest = update_a now expiry name addr es in
    if is_named name e.real && e.ip_address == addr && e.real.type == dns_a
    then some (refreshed now expiry e ∷ es)
    else elim rest [ none ↦ none | some l ↦ some (e ∷ l) ]

abbrev pub new_entry : ℕ → ℕ → List ℕ → ℕ → Entry
new_entry now expiry name addr = record {
  ip_address = addr;
  real = record { name = name; type = dns_a; expiry = expiry };
  alias = [];
  used = now;
}

-- The entry with an address, for a name of another type; `none` where there is no memory.
abbrev pub named_again : Bool → ℕ → ℕ → List ℕ → ℕ → Entry → Option Entry
named_again memory now expiry name type e =
    if is_named name e.real
    then some (refreshed now expiry e)
    else if any_named name e.alias
    then some (use_entry now e)
    else if memory
    then some (record e {
      alias = record { name = name; type = type; expiry = expiry } ∷ e.alias;
      used = now;
    })
    else none

abbrev pub update_alias : Bool → ℕ → ℕ → List ℕ → ℕ → ℕ → List Entry → Option (List Entry)
update_alias memory now expiry name type addr [] = some []
update_alias memory now expiry name type addr (e ∷ es) =
    let rest = update_alias memory now expiry name type addr es in
    if e.ip_address == addr
    then elim (named_again memory now expiry name type e) [ none ↦ none | some f ↦ some (f ∷ es) ]
    else elim rest [ none ↦ none | some l ↦ some (e ∷ l) ]

-- The cache before the call of `clean_up`; `none` where the function returns for want of memory.
abbrev pub entered : Bool → Cache → Option (List Entry) → Entry → Option Cache
entered memory c (some l) e = some (record c { root = l })
entered memory c none e =
    if memory then some (record { root = e ∷ c.root; num = c.num + 1 }) else none

abbrev pub updated : Bool → ℕ → ℕ → List ℕ → ℕ → ℕ → Cache → Option Cache
updated memory now expiry name addr type c =
    if type == dns_a
    then entered memory c (update_a now expiry name addr c.root) (new_entry now expiry name addr)
    else elim (update_alias memory now expiry name type addr c.root) [
      | none ↦ none
      | some l ↦ some (record c { root = l })
    ]

-- `update_cache`; the cache is saved elsewhere. `memory` says that both calls of `KRmalloc` answer.
unfoldable pub update_cache : Bool → ℕ → ℕ → ℕ → Cache → List ℕ → ℕ → ℕ → ℕ → Option Cache
unfolding clean_up update_a
update_cache memory fuel now dns_cache c name addr ttl type =
    elim (updated memory now (expiry_of now ttl) name addr type c) [
      | none ↦ some c
      | some c' ↦ clean_up fuel now dns_cache c'
    ]
