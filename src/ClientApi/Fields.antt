-- ===== src/ClientApi/Fields.antt =====
-- `__newindex` of a client: the field goes to the table of the box, whoever that table is from.
use gmod_queue.Base.{ℕ, ℤ, pos}
use gmod_queue.World.State.{World, UserData}
use gmod_queue.World.Host.{Host}
use gmod_queue.World.Monad.{Action, pure, ◌>>◌}
use gmod_queue.World.Interp.{lua_do}
use gmod_queue.ClientApi.{minus_three}

module _ {L : Type 0} ⦃host : Host L⦄ where
  open host use {top, reference_push, push_value, raw_set, pop}

  -- The key and the value are set in the table that a reference stands for.
  abbrev pub field_set : ℤ → L → L
  field_set table l =
      pop 1 (raw_set minus_three (push_value (pos 3) (push_value (pos 2) (reference_push table l))))

  abbrev storing : ℤ → Action L ℕ
  storing table = do
    lua_do (reference_push table)
    lua_do (push_value (pos 2))
    lua_do (push_value (pos 3))
    lua_do (raw_set minus_three)
    lua_do (pop 1)
    pure 0
