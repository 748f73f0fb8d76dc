-- ===== src/Examples/DetourWitnesses.antt =====
-- The theorems on detours, applied to a hook library that keeps the list of its enabled hooks.
use gmod_queue.Base.{
  ℕ, ◌≤◌, ◌==◌, ◌≡◌, refl, ◌≢◌, ◌⊎◌, Bool, true, false, none, some, List, [], ◌∷◌, arith, get_elem?,
  All, if◌then◌else◌,
}
use gmod_queue.Detours.{
  Symbol, from_name, HookApi, Detours, failed_to, linux_32, linux_64, create, create_listed, remove,
  category_hooks, say,
}
use gmod_queue.Detours.Create.{create_listed-outcome}
use gmod_queue.Detours.Remove.{HookLaws, remove-IsRemoved}
use gmod_queue.Plugin.{create_all, hook_sites, unload}
use gmod_queue.Plugin.Symbols.{installed, all_detoured, create_all-installed}

abbrev is_member : ℕ → List ℕ → Bool
is_member k [] = false
is_member k (j ∷ js) = if k == j then true else is_member k js

abbrev without : ℕ → List ℕ → List ℕ
without k [] = []
without k (j ∷ js) = let rest = without k js in if k == j then rest else j ∷ rest

-- A hook library in which every symbol resolves.
abbrev hook_api : HookApi (List ℕ)
hook_api = record {
  resolve = λ m s. 4096;
  create_hook = λ k f g hs. hs;
  enable = λ k hs. k ∷ hs;
  disable = without;
  destroy = λ k hs. hs;
  is_enabled = is_member;
  is_valid = λ k hs. true;
}

is_member-without_self : (k : ℕ) (hs : List ℕ) → is_member k (without k hs) ≡ false
is_member-without_self k [] = refl
is_member-without_self k (j ∷ hs) = ground (arith, is_member-without_self k hs)

is_member-without_ne : (k q : ℕ) (hs : List ℕ) → k ≢ q → is_member q (without k hs) ≡ is_member q hs
is_member-without_ne k q [] h = refl
is_member-without_ne k q (j ∷ hs) h = ground (arith, is_member-without_ne k q hs h)

hook_api-HookLaws : HookLaws hook_api
hook_api-HookLaws = record {
  destroy_disables = is_member-without_self;
  destroy_others = is_member-without_ne;
}

-- Hooks 1 and 2 in category 0, hook 3 in category 7.
abbrev two_categories : Detours (List ℕ)
two_categories = record {
  hooks = 1 ∷ 3 ∷ [];
  categories = (0, 1 ∷ 2 ∷ []) ∷ (7, 3 ∷ []) ∷ [];
  printed = [];
}

remove-IsRemoved_example :
    All (λ k. is_member k (remove hook_api 0 two_categories).hooks ≡ false) (1 ∷ 2 ∷ [])
    × (category_hooks 0 (remove hook_api 0 two_categories).categories ≡ [])
    × ((q : ℕ)
        → All (λ k. k ≢ q) (1 ∷ 2 ∷ [])
        → is_member q (remove hook_api 0 two_categories).hooks ≡ is_member q (1 ∷ 3 ∷ []))
    × ((other : ℕ)
        → 0 ≢ other
        → category_hooks other (remove hook_api 0 two_categories).categories
          ≡ category_hooks other two_categories.categories)
remove-IsRemoved_example = remove-IsRemoved hook_api hook_api-HookLaws 0 two_categories

abbrev no_detours : Detours (List ℕ)
no_detours = record { hooks = []; categories = []; printed = [] }

abbrev spawn_symbol : Symbol
spawn_symbol = from_name "_ZN11CGameClient11SpawnPlayerEv"

create_listed-outcome_example :
    ((spawn_symbol ∷ [] ≡ [])
      × (create_listed hook_api linux_64 3 "SpawnPlayer" 9 (spawn_symbol ∷ []) 13 0 no_detours
          ≡ none))
    ⊎ ((s : Symbol) × (get_elem? (spawn_symbol ∷ []) 1 ≡ some s)
        × (create_listed hook_api linux_64 3 "SpawnPlayer" 9 (spawn_symbol ∷ []) 13 0 no_detours
            ≡ some (create hook_api 3 "SpawnPlayer" 9 s 13 0 no_detours)))
    ⊎ ((spawn_symbol ∷ [] ≢ [])
        × (1 ≤ 1)
        × (create_listed hook_api linux_64 3 "SpawnPlayer" 9 (spawn_symbol ∷ []) 13 0 no_detours
            ≡ some (say (failed_to "get function" "SpawnPlayer") no_detours)))
create_listed-outcome_example =
    create_listed-outcome hook_api linux_64 3 "SpawnPlayer" 9 (spawn_symbol ∷ []) 13 0 no_detours

create_all-installed_example :
    (e : Detours (List ℕ)) × (create_all hook_api linux_32 (hook_sites 9 10) no_detours ≡ some e)
    × (e.hooks ≡ all_detoured hook_api linux_32 9 10 [])
    × (category_hooks 0 e.categories ≡ installed linux_32)
    × ((unload hook_api e).printed ≡ e.printed)
create_all-installed_example =
    create_all-installed hook_api (λ m s e. omega arith) linux_32 9 10 no_detours refl
