-- ===== src/Detours/Resolve.antt =====
-- `Detour::ResolveSymbol` and the second `Detour::GetFunction` of source/detours.h.
use gmod_queue.Base.{
  ℕ, ◌==◌, ltb, Bool, true, false, not, ◌&&◌, Option, none, some, Option, List, length, get_elem?,
  if◌then◌else◌,
}
use gmod_queue.Detours.{
  Symbol, HookApi, Platform, linux_32, linux_64, windows_32, windows_64, symbol_id, size_minus_one,
}

abbrev pub is_windows : Platform → Bool
is_windows linux_32 = false
is_windows linux_64 = false
is_windows windows_32 = true
is_windows windows_64 = true

-- On Windows the symbol is a pointer to the interface, which is read through `memory`.
module _ {H : Type 0} (api : HookApi H) (memory : ℕ → ℕ) where
  abbrev pub at_interface : Platform → ℕ → ℕ
  at_interface platform p = if is_windows platform && not (p == 0) then memory p else p

  -- For one symbol; `none` is a symbol of type `None`.
  abbrev pub resolve_symbol : Platform → ℕ → Option Symbol → ℕ
  resolve_symbol platform mod_handle none = 0
  resolve_symbol platform mod_handle (some s) = at_interface platform (api.resolve mod_handle s)

  -- For a list of symbols; `none` is a read out of range.
  unfoldable pub resolve_listed : Platform → ℕ → List Symbol → Option ℕ
  resolve_listed platform mod_handle symbols =
      if not (symbol_id platform == 0)
        && ltb (size_minus_one platform (length symbols)) (symbol_id platform)
      then some 0
      else elim (get_elem? symbols (symbol_id platform)) [
        | none ↦ none
        | some s ↦ some (at_interface platform (api.resolve mod_handle s))
      ]

  unfoldable pub get_function_listed : Platform → ℕ → List Symbol → Option ℕ
  get_function_listed platform mod_handle symbols =
      if not (symbol_id platform == 0)
        && ltb (size_minus_one platform (length symbols)) (symbol_id platform)
      then some 0
      else elim (get_elem? symbols (symbol_id platform)) [
        | none ↦ none
        | some s ↦ some (api.resolve mod_handle s)
      ]
