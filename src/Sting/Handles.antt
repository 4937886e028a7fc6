-- ===== src/Sting/Handles.antt =====
-- sting/protocol.c: the handles that a protocol module asks for and gives back. A handle is an
-- `int16`, kept as the pattern of its 16 bits.
pub mod Fresh
pub mod Release
use stin_g.Prelude.{
  ℕ, zero, suc, ◌+◌, ◌%◌, Bool, true, Option, none, some, List, [], ◌∷◌, ◌==◌, if◌then◌else◌, u16,
}

-- `CN_DESC`; `anonymous` and `funcs` are the addresses that the module hands over.
pub record CnDesc : Type 0 where
  pub handle : ℕ
  pub anonymous : ℕ
  pub funcs : ℕ

-- `cn_array`, a chain of descriptions for each of its `MAX_HANDLE` places, and `next_handle`.
pub record Handles : Type 0 where
  pub cn_array : ℕ → List CnDesc
  pub next_handle : ℕ

abbrev pub max_handle : ℕ
max_handle = 64

unfoldable pub search_chain : List CnDesc → ℕ → Option CnDesc
search_chain [] connec = none
search_chain (x ∷ xs) connec =
    let rest = search_chain xs connec in if x.handle == connec then some x else rest

-- `do_lookup`, for `cn_array`
pub do_lookup : (ℕ → List CnDesc) → ℕ → Option CnDesc
unfolding search_chain
do_lookup cn_array connec = search_chain (cn_array (connec % max_handle)) connec

-- `PRTCL_lookup`
pub prtcl_lookup : Handles → ℕ → ℕ → Option ℕ
unfolding do_lookup
prtcl_lookup s handle cn_functions = elim (do_lookup s.cn_array handle) [
  | none ↦ none
  | some x ↦ if x.funcs == cn_functions then some x.anonymous else none
]

-- `if (++next_handle == 32765) next_handle = 0`
pub following : ℕ → ℕ
following n = if u16 (n + 1) == 32765 then 0 else u16 (n + 1)

-- The loop of `PRTCL_request`, on fuel; `none` means that the fuel ran out.
pub next_free : ℕ → (ℕ → List CnDesc) → ℕ → Option ℕ
unfolding following do_lookup
next_free zero cn_array n = none
next_free (suc fuel) cn_array n =
    let rest = next_free fuel cn_array (following n) in
    elim (do_lookup cn_array (following n)) [ none ↦ some (following n) | some x ↦ rest ]

abbrev pub set_chain : (ℕ → List CnDesc) → ℕ → List CnDesc → ℕ → List CnDesc
set_chain cn_array place chain i = if i == place then chain else cn_array i

pub enter : Handles → ℕ → ℕ → ℕ → Handles
enter s h anonymous cn_functions = record {
  cn_array = set_chain s.cn_array (h % max_handle) (
      record { handle = h; anonymous = anonymous; funcs = cn_functions }
      ∷ s.cn_array (h % max_handle));
  next_handle = h;
}

-- `PRTCL_request`: the handle, or `none` for the -1 that it returns without memory. `some_memory`
-- is the answer of `KRmalloc`.
pub prtcl_request : ℕ → Bool → Handles → ℕ → ℕ → Option (Handles × Option ℕ)
unfolding next_free enter
prtcl_request fuel some_memory s anonymous cn_functions =
    let found = next_free fuel s.cn_array s.next_handle in
    if some_memory
    then elim found [ none ↦ none | some h ↦ some (enter s h anonymous cn_functions, some h) ]
    else some (s, none)

unfoldable remove_first : List CnDesc → ℕ → List CnDesc
remove_first [] handle = []
remove_first (x ∷ xs) handle =
    let rest = remove_first xs handle in if x.handle == handle then xs else x ∷ rest

-- `PRTCL_release`
pub prtcl_release : Handles → ℕ → Handles
unfolding remove_first
prtcl_release s handle = record s {
  cn_array =
      set_chain s.cn_array (handle % max_handle)
        (remove_first (s.cn_array (handle % max_handle)) handle);
}
