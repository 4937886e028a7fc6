-- ===== src/Resolve/Tests.antt =====
-- proto/resolve/cache.c: the theorems on the cache at sample entries.
use stin_g.Prelude.{ℕ, ◌≡◌, refl, true, List, [], ◌∷◌, none, some, arith, take}
use stin_g.Resolve.Cache.{
  DName, Entry, Cache, Found, clean_up, query_name, query_walk, update_cache, dns_a, sweep,
  crush_loop, update_a, is_named,
}
use stin_g.Resolve.Cache.Crush.{Cleaned, clean_up-Cleaned, clean_up_hangs}
use stin_g.Resolve.Cache.Query.{addresses, Contains, query_walk-addresses, query_name-update_cache}

abbrev named : List ℕ → ℕ → DName
named name expiry = record { name = name; type = dns_a; expiry = expiry }

abbrev host : ℕ → List ℕ → ℕ → ℕ → Entry
host ip name expiry used = record {
  ip_address = ip;
  real = named name expiry;
  alias = [];
  used = used;
}

-- Six hosts, one of them over at 1000, and one with another name.
abbrev hosts : List Entry
hosts =
    host 11 (97 ∷ []) 0 800
    ∷ host 12 (98 ∷ []) 0 700
    ∷ host 13 (99 ∷ []) 900 600
    ∷ record (host 14 (100 ∷ []) 2000 900) { alias = named (65 ∷ []) 0 ∷ named (97 ∷ []) 1500 ∷ [] }
    ∷ host 15 (101 ∷ []) 0 650
    ∷ host 16 (102 ∷ []) 0 990
    ∷ host 17 (103 ∷ []) 0 980
    ∷ []

abbrev cache : Cache
cache = record { root = hosts; num = 7 }

clean_up-Cleaned_example :
    (c' : Cache) × (clean_up 8 1000 5 cache ≡ some c') × Cleaned 1000 5 cache c'
unfolding sweep
clean_up-Cleaned_example = clean_up-Cleaned 8 1000 5 cache refl (omega arith) (omega arith)

-- The clock has gone back to 600.
clean_up_hangs_example : clean_up 1000 600 5 cache ≡ none
unfolding sweep
clean_up_hangs_example = clean_up_hangs 1000 600 5 cache refl (omega arith)

query_walk-addresses_example :
    (query_walk 1000 (97 ∷ []) 2 true [] hosts).ip_list ≡ take 2 (addresses (97 ∷ []) hosts)
query_walk-addresses_example = query_walk-addresses 1000 (97 ∷ []) 2 true [] hosts

abbrev one : Cache
one = record { root = host 11 (97 ∷ []) 0 800 ∷ []; num = 1 }

abbrev two : Cache
two = record { root = host 12 (97 ∷ []) 1060 1000 ∷ one.root; num = 2 }

query_name-update_cache_example :
    (f : Found) × (d : Cache) × (query_name 3 1000 5 two (97 ∷ []) [] 4 ≡ some (f, d))
    × Contains 12 f.ip_list
unfolding update_cache update_a is_named clean_up sweep crush_loop
query_name-update_cache_example =
    query_name-update_cache 3 1000 5 one two (97 ∷ []) 12 60 [] 4 refl (omega arith) (omega arith)
      refl (omega arith)
