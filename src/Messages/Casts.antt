-- ===== src/Messages/Casts.antt =====
-- The two casts that the move makes of a message: by its type to `Base_CmdKeyValues`, and of every
-- message to a class whose first member is the handler.
use gmod_queue.Base.{◌≡◌, ◌↔◌, ◌≢◌, ◌⊎◌, inl, inr, refl, true, some, get_elem?, arith}
use gmod_queue.Engine.Protocol.{clc_cmd_key_values}
use gmod_queue.Messages.{field, handler_place}
use gmod_queue.Messages.Classes.{
  MessageClass, net, clc, svc, mm, ClcKind, declaration, has_processor,
}

not_key_values : some (field "int" "magic") ≢ some (field "KeyValues *" "m_pKeyValues")
not_key_values e = cc

-- For a message that a game client processes, the type is `clc_CmdKeyValues` just if the first
-- member that its class adds is the pointer to the key values, so that the cast to
-- `Base_CmdKeyValues` is sound.
pub key_values-cast :
    (c : MessageClass)
    → has_processor c ≡ true
    → ((declaration c).number ≡ clc_cmd_key_values)
      ↔ (get_elem? (declaration c).members 0 ≡ some (field "KeyValues *" "m_pKeyValues"))
key_values-cast c h = (λ e. grind arith, λ e. grind (arith, not_key_values))

-- The cast to a class that starts with the handler is sound for what a game client processes,
-- except for the key-values command and the message that declares no handler.
pub handler-cast :
    (c : MessageClass)
    → has_processor c ≡ true
    → (c ≡ clc ClcKind.cmd_key_values)
      ⊎ (c ≡ clc ClcKind.gmod_client_to_server)
      ⊎ ((handler_place (declaration c).members ≡ some 0)
          × ((declaration c).number ≢ clc_cmd_key_values))
handler-cast (net k) h = inr (inr (grind arith, λ e. grind arith))
handler-cast (clc ClcKind.cmd_key_values) h = inl refl
handler-cast (clc ClcKind.gmod_client_to_server) h = inr (inl refl)
handler-cast (clc k) h = grind arith
handler-cast (svc k) h = absurd cc
handler-cast (mm k) h = absurd cc
