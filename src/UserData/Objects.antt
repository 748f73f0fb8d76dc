-- ===== src/UserData/Objects.antt =====
-- The Lua objects of boxes (source/util.h): what `PushUserType` makes, `SetUserType(-1, NULL)` empties,
-- and the references of a box keep.
pub mod Push
pub mod Tied
pub mod Delete
pub mod Tidy
pub mod Uses
use gmod_queue.Base.{
  ℕ, ℤ, minus_one, ◌≡◌, ◌≢◌, sym, ap, ◌∙◌, Bool, true, false, Option, some, lookup,
}
use gmod_queue.World.State.{World, UserData}
use gmod_queue.World.Host.{LuaApi}

-- What an interpreter's state says of Lua's objects, each with an identity: the pointer that it
-- carries, the one at a stack position, the one that a reference keeps, and whether a reference is
-- given out.
pub record Objects (L : Type 0) : Type 0 where
  pub pointer : L → ℕ → ℕ
  pub object_at : ℤ → L → Option ℕ
  pub holds : L → ℤ → Option ℕ
  pub in_use : L → ℤ → Bool

module _ {L : Type 0} (objects : Objects L) where
  open objects use {pointer, object_at, holds, in_use}

  -- Objects and references are as before; the stack may differ.
  pub record IsSameHeap (l l' : L) : Type 0 where
    pub pointers : (o : ℕ) → pointer l' o ≡ pointer l o
    pub held : (r : ℤ) → holds l' r ≡ holds l r
    pub used : (r : ℤ) → in_use l' r ≡ in_use l r

  -- One object carries another pointer; nothing else is different.
  pub record IsPointed (o p : ℕ) (l l' : L) : Type 0 where
    pub now : pointer l' o ≡ p
    pub others : (q : ℕ) → q ≢ o → pointer l' q ≡ pointer l q
    pub held : (r : ℤ) → holds l' r ≡ holds l r
    pub used : (r : ℤ) → in_use l' r ≡ in_use l r

  module _ (api : LuaApi L) (t : ℤ) where
    open api use {
      get_type, type_nil, push_nil, push_value, create_table, pop, reference_create, reference_push,
      reference_free, push_user_type, set_user_type, get_user_type,
    }

    -- Lua's objects and references, as the documentation has them, for the user type `t`.
    pub record ObjectLaws : Type 0 where
      pub push_nil_heap : (l : L) → IsSameHeap l (push_nil l)
      pub push_value_heap : (i : ℤ) (l : L) → IsSameHeap l (push_value i l)
      pub create_table_heap : (l : L) → IsSameHeap l (create_table l)
      pub pop_heap : (n : ℕ) (l : L) → IsSameHeap l (pop n l)
      pub reference_push_heap : (r : ℤ) (l : L) → IsSameHeap l (reference_push r l)
      pub push_value_object :
          (l : L) → object_at minus_one (push_value minus_one l) ≡ object_at minus_one l
      pub reference_push_object :
          (r : ℤ) (l : L) → object_at minus_one (reference_push r l) ≡ holds l r
      -- A reference that is made of a value that is not nil is a new one, and keeps that value.
      pub create_fresh :
          (l : L) → get_type minus_one l ≢ type_nil → in_use l (reference_create l).0 ≡ false
      pub create_used :
          (l : L)
          → get_type minus_one l ≢ type_nil
          → in_use (reference_create l).1 (reference_create l).0 ≡ true
      pub create_holds :
          (l : L)
          → get_type minus_one l ≢ type_nil
          → holds (reference_create l).1 (reference_create l).0 ≡ object_at minus_one l
      pub create_others :
          (l : L)
          → get_type minus_one l ≢ type_nil
          → (r : ℤ) → r ≢ (reference_create l).0
          → (holds (reference_create l).1 r ≡ holds l r)
            × (in_use (reference_create l).1 r ≡ in_use l r)
      pub create_pointer : (l : L) (o : ℕ) → pointer (reference_create l).1 o ≡ pointer l o
      pub table_below :
          (l : L)
          → object_at minus_one (reference_create (create_table l)).1 ≡ object_at minus_one l
      pub value_below :
          (l : L)
          → object_at minus_one (reference_create (push_value minus_one l)).1
            ≡ object_at minus_one l
      pub free_others :
          (r q : ℤ) (l : L)
          → q ≢ r
          → (holds (reference_free r l) q ≡ holds l q)
            × (in_use (reference_free r l) q ≡ in_use l q)
      pub free_pointer : (r : ℤ) (l : L) (o : ℕ) → pointer (reference_free r l) o ≡ pointer l o
      -- A new object carried no pointer before; and the one on top can be emptied.
      pub new_object :
          (p : ℕ) (l : L)
          → (o : ℕ) × (object_at minus_one (push_user_type p t l) ≡ some o)
            × (pointer l o ≡ 0)
            × IsPointed o p l (push_user_type p t l)
      pub clear_object :
          (o : ℕ) (l : L)
          → object_at minus_one l ≡ some o
          → IsPointed o 0 l (set_user_type minus_one 0 l)
      pub typed_object :
          (i : ℤ) (l : L)
          → get_type i l ≡ t
          → (o : ℕ) × (object_at i l ≡ some o) × (get_user_type i t l ≡ pointer l o)

  -- The box of a registered client has two references of its own, and one of them keeps the object
  -- that carries the box.
  pub record IsHeld (l : L) (u : ℕ) (d : UserData) : Type 0 where
    pub object : ℕ
    pub kept : holds l d.reference ≡ some object
    pub carries : pointer l object ≡ u
    pub used : in_use l d.reference ≡ true
    pub table_used : in_use l d.table_reference ≡ true
    pub two : d.reference ≢ d.table_reference

  -- Two boxes share no reference.
  pub record AreApart (d e : UserData) : Type 0 where
    pub references : d.reference ≢ e.reference
    pub tables : d.table_reference ≢ e.table_reference
    pub reference_table : d.reference ≢ e.table_reference
    pub table_reference : d.table_reference ≢ e.reference

  -- What a first push does to Lua's objects: one object that carried nothing carries the box `u`, is
  -- on top, and is kept by the new reference `r`; the new reference `table` is another. References
  -- that were given out before are as they were.
  pub record IsMade (u : ℕ) (r table : ℤ) (l l' : L) : Type 0 where
    pub object : ℕ
    pub blank : pointer l object ≡ 0
    pub carries : pointer l' object ≡ u
    pub others : (q : ℕ) → q ≢ object → pointer l' q ≡ pointer l q
    pub top : object_at minus_one l' ≡ some object
    pub kept : holds l' r ≡ some object
    pub used : in_use l' r ≡ true
    pub table_used : in_use l' table ≡ true
    pub two : r ≢ table
    pub old :
        (q : ℤ)
        → in_use l q ≡ true
        → (q ≢ table) × (q ≢ r) × (holds l' q ≡ holds l q) × (in_use l' q ≡ true)

-- The client at `c` is registered with the box `d` at `u`.
pub record IsRegistered {L : Type 0} (w : World L) (c u : ℕ) (d : UserData) : Type 0 where
  pub known : lookup c w.pushed ≡ some u
  pub allocated : w.user_data u ≡ some d

-- A client has one box.
pub one_box :
    {L : Type 0} (w : World L) (c u v : ℕ) (d e : UserData)
    → IsRegistered w c u d
    → IsRegistered w c v e
    → (v ≡ u) × (e ≡ d)
one_box w c u v d e a b =
    let same : some v ≡ some u = sym b.known ∙ a.known in
    let at : v ≡ u = cc in
    let held : some e ≡ some d = sym b.allocated ∙ ap w.user_data at ∙ a.allocated in (at, cc)

-- No object dangles: each carries NULL, or the box of a registered client whose reference keeps it.
pub record IsTied {L : Type 0} (objects : Objects L) (w : World L) : Type 0 where
  pub tied :
      (o : ℕ)
      → objects.pointer w.lua o ≢ 0
      → (c : ℕ) × (d : UserData) × IsRegistered w c (objects.pointer w.lua o) d
        × (objects.holds w.lua d.reference ≡ some o)
  pub held : (c u : ℕ) (d : UserData) → IsRegistered w c u d → IsHeld objects w.lua u d
  pub apart :
      (c j u v : ℕ) (d e : UserData)
      → IsRegistered w c u d
      → IsRegistered w j v e
      → c ≢ j
      → AreApart objects d e
