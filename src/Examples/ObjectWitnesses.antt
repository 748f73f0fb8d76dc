-- ===== src/Examples/ObjectWitnesses.antt =====
-- The theorem on Lua's objects, applied to pushes and a deletion on the small server.
use mathlib.Core.Path.{subst}
use gmod_queue.Base.{
  ℕ, ℤ, ◌+◌, pos, negsuc, minus_one, ◌≡◌, ◌≢◌, refl, sym, ap, ◌∙◌, ltb, Bool, true, false, Option,
  some, none, List, update_self, arith,
}
use gmod_queue.World.State.{World, UserData}
use gmod_queue.UserData.{push_client, delete_client}
use gmod_queue.UserData.Objects.{
  Objects, IsSameHeap, IsPointed, ObjectLaws, IsHeld, IsRegistered, IsTied,
}
use gmod_queue.UserData.Objects.Tidy.{IsTidy, IsRespectful}
use gmod_queue.UserData.Objects.Uses.{Uses, over, pushed, deleted, computed}
use gmod_queue.Calls.{LuaCall, run_call}
use gmod_queue.Calls.Safe.{IsSafe}
use gmod_queue.Calls.Tidy.{IsMethod, Uses-IsSafe}
use gmod_queue.Examples.Machine.{
  Machine, Value, nil, boolean, number, string, function, table, user, type_of, keep, top_value,
  find_reference, object_of, pointer_of, set_pointer, user_pointer, value_at, lua_api, machine,
}
use gmod_queue.Examples.Laws.{machine-StackLaws, machine-ReferenceLaws, machine-CallbackLaws}
use gmod_queue.Examples.CallWitnesses.{machine-LookupLaws, machine-OrderLaws}
use gmod_queue.Examples.Server.{start, box, start-IsRegistry}

-- Whether a reference is below the next one.
abbrev given : ℕ → ℤ → Bool
given next (pos r) = ltb r next
given next (negsuc r) = false

abbrev machine_objects : Objects Machine
machine_objects = record {
  pointer = pointer_of;
  object_at = λ i m. object_of (value_at i m);
  holds = λ m r. object_of (find_reference r m.registry);
  in_use = λ m. given m.next_reference;
}

same_heap : (m : Machine) (vs : List Value) → IsSameHeap machine_objects m (record m { stack = vs })
same_heap m vs = record { pointers = λ o. refl; held = λ r. refl; used = λ r. refl }

-- A reference to a value that is not nil is the next one.
keep_next : (v : Value) (r : ℕ) → type_of v ≢ pos 0 → keep v r ≡ pos r
keep_next nil r h = absurd (h refl)
keep_next (boolean b) r h = refl
keep_next (number n) r h = refl
keep_next (string s) r h = refl
keep_next (function f) r h = refl
keep_next table r h = refl
keep_next (user u t) r h = refl

abbrev after_create : Machine → Machine
after_create m = (lua_api.reference_create m).1

module _ (m : Machine) (there : type_of (top_value m.stack) ≢ pos 0) where
  next : keep (top_value m.stack) m.next_reference ≡ pos m.next_reference
  next = keep_next (top_value m.stack) m.next_reference there

  fresh : given m.next_reference (keep (top_value m.stack) m.next_reference) ≡ false
  fresh = ap (given m.next_reference) next ∙ ground arith

  used : given (m.next_reference + 1) (keep (top_value m.stack) m.next_reference) ≡ true
  used = ap (given (m.next_reference + 1)) next ∙ ground arith

  kept :
      object_of
        (find_reference (keep (top_value m.stack) m.next_reference) (after_create m).registry)
      ≡ object_of (top_value m.stack)
  kept = ap (λ r. object_of (find_reference r (after_create m).registry)) next ∙ ground arith

  other_references :
      (r : ℤ)
      → r ≢ keep (top_value m.stack) m.next_reference
      → (object_of (find_reference r (after_create m).registry)
          ≡ object_of (find_reference r m.registry))
        × (given (m.next_reference + 1) r ≡ given m.next_reference r)
  other_references (negsuc r) ne = (refl, refl)
  other_references (pos r) ne =
      let apart : r ≢ m.next_reference = λ e. ne (ap pos e ∙ sym next) in
      (ground (arith, apart), ground (arith, apart))

typed_value :
    (m : Machine) (v : Value)
    → type_of v ≡ pos 100
    → (o : ℕ) × (object_of v ≡ some o) × (user_pointer m (object_of v) ≡ pointer_of m o)
typed_value m nil e = cc
typed_value m (boolean b) e = cc
typed_value m (number n) e = cc
typed_value m (string s) e = cc
typed_value m (function f) e = cc
typed_value m table e = cc
typed_value m (user u t) e = (u, refl, refl)

new_pointer :
    (p : ℕ) (m : Machine)
    → IsPointed machine_objects m.next_object p m (lua_api.push_user_type p (pos 100) m)
new_pointer p m = record {
  now = ground (arith, update_self m.pointers m.next_object p);
  others = λ q ne. ground (arith, ne);
  held = λ r. refl;
  used = λ r. refl;
}

cleared :
    (m : Machine) (o : ℕ) (v : Option ℕ)
    → v ≡ some o
    → IsPointed machine_objects o 0 m (record m { pointers = set_pointer v 0 m.pointers })
cleared m o none e = absurd cc
cleared m o (some q) e =
    let same : q ≡ o = cc in
    record {
      now = ground (arith, same);
      others = λ k ne. ground (arith, same, ne);
      held = λ r. refl;
      used = λ r. refl;
    }

machine-ObjectLaws : ObjectLaws machine_objects lua_api (pos 100)
machine-ObjectLaws = record {
  push_nil_heap = λ m. same_heap m _;
  push_value_heap = λ i m. same_heap m _;
  create_table_heap = λ m. same_heap m _;
  pop_heap = λ n m. same_heap m _;
  reference_push_heap = λ r m. same_heap m _;
  push_value_object = λ m. refl;
  reference_push_object = λ r m. refl;
  create_fresh = fresh;
  create_used = used;
  create_holds = kept;
  create_others = other_references;
  create_pointer = λ m o. refl;
  table_below = λ m. refl;
  value_below = λ m. refl;
  free_others = λ r q m ne. (refl, refl);
  free_pointer = λ r m o. refl;
  new_object = λ p m. (m.next_object, refl, ground arith, new_pointer p m);
  clear_object = λ o m e. cleared m o (object_of (value_at minus_one m)) e;
  typed_object = λ i m e. typed_value m (value_at i m) e;
}

-- Client 1 is registered, and object 1 carries its box.
start_registered :
    (c u : ℕ) (d : UserData) → IsRegistered start c u d → (c ≡ 1) × (u ≡ 1) × (d ≡ box)
start_registered c u d r =
    let key : c ≡ 1 = ground (arith, r.known) in
    let at : u ≡ 1 = ground (arith, r.known) in
    let held : some d ≡ some box = sym r.allocated ∙ ap start.user_data at in (key, at, cc)

start-IsTied : IsTied machine_objects start
start-IsTied = record {
  tied = λ o live.
      let one : o ≡ 1 = ground (arith, live) in
      let carried : 1 ≡ pointer_of start.lua o = ap (pointer_of start.lua) (sym one) in
      (
        1,
        box,
        subst (λ v. IsRegistered start 1 v box) carried (record { known = refl; allocated = refl }),
        ap some (sym one),
      );
  held = λ c u d r.
      let (_, at, same) = start_registered c u d r in
      subst (λ x. IsHeld machine_objects start.lua u x) (sym same)
        (subst (λ x. IsHeld machine_objects start.lua x box) (sym at)
          record {
            object = 1;
            kept = refl;
            carries = refl;
            used = refl;
            table_used = refl;
            two = λ e. cc;
          });
  apart = λ c j u v d e r s ne.
      absurd (ne ((start_registered c u d r).0 ∙ sym (start_registered j v e s).0));
}

start-IsTidy : IsTidy machine_objects (pos 100) start
start-IsTidy = record {
  up = refl;
  thread = refl;
  of_type = refl;
  registry = start-IsRegistry;
  tie = start-IsTied;
}

-- Client 2 is pushed, Lua code takes it off the stack, client 1 is deleted, and client 2 is pushed
-- again.
abbrev pushed_two : World Machine
pushed_two = (push_client ⦃host = machine⦄ 2 start).1

abbrev popped_two : World Machine
popped_two = record pushed_two { lua = lua_api.pop 1 pushed_two.lua }

abbrev deleted_one : World Machine
deleted_one = (delete_client ⦃host = machine⦄ 1 popped_two).1

abbrev pushed_again : World Machine
pushed_again = (push_client ⦃host = machine⦄ 2 deleted_one).1

popping-IsRespectful : IsRespectful machine_objects pushed_two.lua popped_two.lua
popping-IsRespectful = record { pointers = λ o. refl; references = λ r used. (refl, used) }

again : Uses ⦃host = machine⦄ machine_objects start pushed_again
again =
    pushed 2 refl
      (computed popped_two.lua popping-IsRespectful refl (deleted 1 refl (pushed 2 refl over)))

Uses-IsSafe_example :
    IsTidy machine_objects (pos 100) pushed_again
    × ((c : LuaCall)
        → IsMethod c
        → IsSafe ⦃host = machine⦄ (run_call ⦃host = machine⦄ c pushed_again))
Uses-IsSafe_example =
    Uses-IsSafe ⦃host = machine⦄ machine_objects machine-StackLaws machine-ReferenceLaws
      machine-LookupLaws machine-CallbackLaws machine-OrderLaws (pos 100) machine-ObjectLaws
      (λ e. cc) again start-IsTidy
