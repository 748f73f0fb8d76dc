-- ===== src/Detours.antt =====
-- source/detours.cpp and source/detours.h: creating detours, and removing them by category.
pub mod Categories
pub mod Create
pub mod Remove
pub mod Resolve
use gmod_queue.Base.{
  ℕ, zero, suc, ◌+◌, ◌-◌, ◌==◌, ⊤, ltb, Bool, true, false, not, ◌&&◌, String, Option, none, some,
  List, [], ◌∷◌, ◌++◌, length, get_elem?, lookup, if◌then◌else◌,
}

-- `Symbol` of garrysmod_common, as source/symbols.h makes them: by name or by byte signature.
pub data Symbol : Type 0 where
  from_name : String → Symbol
  from_signature : String → Symbol

-- `Detouring::Hook` and `SymbolFinder`, which are not in the repository: operations on the state
-- `H` of all hook objects, which are named by their addresses.
pub record HookApi (H : Type 0) : Type 0 where
  pub resolve : ℕ → Symbol → ℕ
  pub create_hook : ℕ → ℕ → ℕ → H → H
  pub enable : ℕ → H → H
  pub disable : ℕ → H → H
  pub destroy : ℕ → H → H
  pub is_enabled : ℕ → H → Bool
  pub is_valid : ℕ → H → Bool

-- What is printed.
pub data Message : Type 0 where
  failed_to : String → String → Message
  failed_to_detour : String → Message
  failed_to_shut_down : ℕ → Message

-- The hook objects, `g_pDetours`, and the lines printed, the last one first.
pub record Detours (H : Type 0) : Type 0 where
  pub hooks : H
  pub categories : List (ℕ × List ℕ)
  pub printed : List Message

-- `DETOUR_SYMBOL_ID`: which entry of a symbol list is this platform's, in the order Linux 32,
-- Linux 64, Windows 32, Windows 64.
pub data Platform : Type 0 where
  linux_32 linux_64 windows_32 windows_64 : Platform

abbrev pub symbol_id : Platform → ℕ
symbol_id linux_32 = 0
symbol_id linux_64 = 1
symbol_id windows_32 = 2
symbol_id windows_64 = 3

-- How many values a `size_t` has.
abbrev pub size_modulus : Platform → ℕ
size_modulus linux_32 = 4294967296
size_modulus linux_64 = 18446744073709551616
size_modulus windows_32 = 4294967296
size_modulus windows_64 = 18446744073709551616

-- `symbols.size() - 1`, which wraps around at 0.
abbrev pub size_minus_one : Platform → ℕ → ℕ
size_minus_one platform zero = size_modulus platform - 1
size_minus_one platform (suc n) = n

-- `std::map`, in the order of its keys: `m[k] = v`.
unfoldable pub put : ℕ → List ℕ → List (ℕ × List ℕ) → List (ℕ × List ℕ)
put k v [] = (k, v) ∷ []
put k v ((j, u) ∷ m) =
    if k == j then (k, v) ∷ m else if ltb k j then (k, v) ∷ (j, u) ∷ m else (j, u) ∷ put k v m

-- `m[k]`: a missing entry is an empty vector.
abbrev pub or_empty : Option (List ℕ) → List ℕ
or_empty none = []
or_empty (some v) = v

abbrev pub category_hooks : ℕ → List (ℕ × List ℕ) → List ℕ
category_hooks k m = or_empty (lookup k m)

abbrev pub say : {H : Type 0} → Message → Detours H → Detours H
say m d = record d { printed = m ∷ d.printed }

-- `CheckValue`, `CheckFunction`: what is tested, and the line printed if it fails.
abbrev pub check_value : {H : Type 0} → String → String → Bool → Detours H → Bool × Detours H
check_value msg name true d = (true, d)
check_value msg name false d = (false, say (failed_to msg name) d)

abbrev pub check_function : {H : Type 0} → ℕ → String → Detours H → Bool × Detours H
check_function func name d = check_value "get function" name (not (func == 0)) d

module _ {H : Type 0} (api : HookApi H) where
  open api use {resolve, create_hook, enable, disable, destroy, is_enabled, is_valid}

  -- The part of `Create` after the function was found.
  abbrev pub install : ℕ → String → ℕ → ℕ → ℕ → Detours H → Detours H
  install hook name func hook_func category d =
      let hs = enable hook (create_hook hook func hook_func d.hooks) in
      let made = record d {
        hooks = hs;
        categories =
            put category (category_hooks category d.categories ++ (hook ∷ [])) d.categories;
      } in
      if not (is_valid hook hs) then say (failed_to_detour name) made else made

  -- `Create` for one symbol.
  unfoldable pub create : ℕ → String → ℕ → Symbol → ℕ → ℕ → Detours H → Detours H
  create hook name mod_handle symbol hook_func category d =
      let func = resolve mod_handle symbol in
      let (found, checked) = check_function func name d in
      if not found then checked else install hook name func hook_func category checked

  -- `Create` for a list of symbols, one for each platform; `none` is a read out of range. The guard
  -- is compiled in only where the platform's number is not 0.
  unfoldable pub create_listed :
      Platform → ℕ → String → ℕ → List Symbol → ℕ → ℕ → Detours H → Option (Detours H)
  create_listed platform hook name mod_handle symbols hook_func category d =
      if not (symbol_id platform == 0)
        && ltb (size_minus_one platform (length symbols)) (symbol_id platform)
      then some (check_function 0 name d).1
      else elim (get_elem? symbols (symbol_id platform)) [
        | none ↦ none
        | some symbol ↦ some (create hook name mod_handle symbol hook_func category d)
      ]

  -- The loop of `Remove`.
  unfoldable pub remove_hooks : List ℕ → H → H
  remove_hooks [] hs = hs
  remove_hooks (hook ∷ rest) hs =
      remove_hooks rest (if is_enabled hook hs then destroy hook (disable hook hs) else hs)

  unfoldable pub remove : ℕ → Detours H → Detours H
  remove category d = record d {
    hooks = remove_hooks (category_hooks category d.categories) d.hooks;
    categories = put category [] d.categories;
  }

-- `ReportLeak`
unfoldable pub report_categories : List (ℕ × List ℕ) → List Message → List Message
report_categories [] printed = printed
report_categories ((id, []) ∷ m) printed = report_categories m printed
report_categories ((id, hook ∷ hooks) ∷ m) printed =
    report_categories m (failed_to_shut_down id ∷ printed)

unfoldable pub report_leak : {H : Type 0} → Detours H → Detours H
report_leak d = record d { printed = report_categories d.categories d.printed }
