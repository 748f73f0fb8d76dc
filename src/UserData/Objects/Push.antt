-- ===== src/UserData/Objects/Push.antt =====
-- The object and the references that `Push_CBaseClient` makes for a client.
use gmod_queue.Base.{ℕ, ℤ, minus_one, ◌≡◌, ◌≢◌, sym, ap, ◌∙◌, true, false, some}
use gmod_queue.World.State.{World}
use gmod_queue.World.Host.{Host}
use gmod_queue.World.Laws.{ReferenceLaws}
use gmod_queue.UserData.Push.{after_new, after_init, after_reference, new_box}
use gmod_queue.UserData.Objects.{Objects, IsPointed, ObjectLaws, IsMade}

module _ {L : Type 0} ⦃host : Host L⦄ (objects : Objects L)
    (references : ReferenceLaws host.lua_api) (w : World L)
    (laws : ObjectLaws objects host.lua_api w.client_type_id)
    (typed : w.client_type_id ≢ host.type_nil) (c : ℕ) where
  open objects use {pointer, object_at, holds, in_use}
  open host use {push_user_type, create_table, push_value, reference_create, get_type, type_nil}

  abbrev u : ℕ
  u = w.next_user_data

  -- The interpreter in the states that it goes through, and the two references.
  abbrev pushed : L
  pushed = (after_new c w).lua

  abbrev inited : L
  inited = (after_init c w).lua

  abbrev referenced : L
  referenced = (after_reference c w).lua

  abbrev table_made : ℤ
  table_made = (new_box c w).table_reference

  abbrev made : ℤ
  made = (new_box c w).reference

  table_there : get_type minus_one (create_table pushed) ≢ type_nil
  table_there = references.create_table_type pushed

  object_there : get_type minus_one (push_value minus_one inited) ≢ type_nil
  object_there e = typed (
      sym (
        references.push_value_type inited
        ∙ references.reference_create_type pushed
        ∙ references.push_user_type_type u w.client_type_id w.lua)
      ∙ e)

  abbrev object : ℕ
  object = (laws.new_object u w.lua).0

  made_object : IsPointed objects object u w.lua pushed
  made_object = (laws.new_object u w.lua).3

  on_top : object_at minus_one inited ≡ some object
  on_top = laws.table_below pushed ∙ (laws.new_object u w.lua).1

  -- Once it was pushed, no object carries another pointer.
  same_pointer : (q : ℕ) → pointer referenced q ≡ pointer pushed q
  same_pointer q =
      laws.create_pointer _ q
      ∙ (laws.push_value_heap minus_one inited).pointers q
      ∙ laws.create_pointer _ q
      ∙ (laws.create_table_heap pushed).pointers q

  table_fresh : in_use w.lua table_made ≡ false
  table_fresh =
      sym (made_object.used table_made)
      ∙ sym ((laws.create_table_heap pushed).used table_made)
      ∙ laws.create_fresh _ table_there

  fresh : in_use inited made ≡ false
  fresh = sym ((laws.push_value_heap minus_one inited).used made) ∙ laws.create_fresh _ object_there

  -- A reference that was given out before is neither of the two, and is as before.
  old_reference :
      (r : ℤ)
      → in_use w.lua r ≡ true
      → (r ≢ table_made)
        × (r ≢ made)
        × (holds referenced r ≡ holds w.lua r)
        × (in_use referenced r ≡ true)
  old_reference r used =
      let not_table : r ≢ table_made =
        λ e. let f : true ≡ false = sym used ∙ ap (in_use w.lua) e ∙ table_fresh in cc in
      let (h1, u1) = laws.create_others _ table_there r not_table in
      let heap1 = laws.create_table_heap pushed in
      let used_then = u1 ∙ heap1.used r ∙ made_object.used r ∙ used in
      let not_made : r ≢ made =
        λ e. let f : true ≡ false = sym used_then ∙ ap (in_use inited) e ∙ fresh in cc in
      let (h2, u2) = laws.create_others _ object_there r not_made in
      let heap2 = laws.push_value_heap minus_one inited in
      (
        not_table,
        not_made,
        h2 ∙ heap2.held r ∙ h1 ∙ heap1.held r ∙ made_object.held r,
        u2 ∙ heap2.used r ∙ used_then,
      )

  table_in_use : in_use inited table_made ≡ true
  table_in_use = laws.create_used _ table_there

  two : made ≢ table_made
  two e = let f : true ≡ false = sym table_in_use ∙ ap (in_use inited) (sym e) ∙ fresh in cc

  carried : pointer referenced object ≡ u
  carried = same_pointer object ∙ made_object.now

  kept_object : holds referenced made ≡ some object
  kept_object = laws.create_holds _ object_there ∙ laws.push_value_object inited ∙ on_top

  pub push_new-IsMade : IsMade objects u made table_made w.lua referenced
  push_new-IsMade = record {
    object = object;
    blank = (laws.new_object u w.lua).2;
    carries = carried;
    others = λ q ne. same_pointer q ∙ made_object.others q ne;
    top = laws.value_below inited ∙ on_top;
    kept = kept_object;
    used = laws.create_used _ object_there;
    table_used =
        (laws.create_others _ object_there table_made (λ e. two (sym e))).1
        ∙ (laws.push_value_heap minus_one inited).used table_made
        ∙ table_in_use;
    two = two;
    old = old_reference;
  }
