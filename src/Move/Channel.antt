-- ===== src/Move/Channel.antt =====
-- The channel that the client brings along, and the messages registered with it.
use gmod_queue.Base.{
  ℕ, ◌≡◌, refl, sym, ap, ◌∙◌, ◌≢◌, ◌⊎◌, inl, inr, true, some, none, List, [], ◌∷◌, map, All, arith,
}
use gmod_queue.Engine.Protocol.{clc_cmd_key_values}
use gmod_queue.Messages.Classes.{clc, ClcKind, declaration, has_processor}
use gmod_queue.Messages.Casts.{handler-cast}
use gmod_queue.Messages.Object.{NetMessage, get_type, process, set_member}
use gmod_queue.Move.{redirect_message, base_key_values, extended_handler}

-- A message that the target processes, apart from the two classes with no handler up front; and a
-- key-values command that holds no key values.
pub record IsRedirected (target : ℕ) (msg : NetMessage) : Type 0 where
  pub handled :
      has_processor msg.class ≡ true
      → msg.class ≢ clc ClcKind.cmd_key_values
      → msg.class ≢ clc ClcKind.gmod_client_to_server
      → process msg ≡ some (target, (declaration msg.class).name)
  pub emptied : get_type msg ≡ clc_cmd_key_values → msg.member base_key_values ≡ 0

module _ (target : ℕ) (aim : target ≢ 0) (msg : NetMessage) where
  redirect_key_values :
      get_type msg ≡ clc_cmd_key_values
      → redirect_message target msg
        ≡ set_member base_key_values 0 (set_member extended_handler target msg)
  redirect_key_values e = ground arith

  redirect_other :
      get_type msg ≢ clc_cmd_key_values
      → redirect_message target msg ≡ set_member extended_handler target msg
  redirect_other other = ground arith

  pub process-redirect_message :
      has_processor msg.class ≡ true
      → ((msg.class ≡ clc ClcKind.cmd_key_values)
          × (process (redirect_message target msg) ≡ process msg)
          × ((redirect_message target msg).member base_key_values ≡ 0))
        ⊎ ((msg.class ≡ clc ClcKind.gmod_client_to_server)
            × (process (redirect_message target msg) ≡ none))
        ⊎ (process (redirect_message target msg) ≡ some (target, (declaration msg.class).name))
  process-redirect_message h = elim (handler-cast msg.class h) [
    | inl e ↦
        let same = redirect_key_values (ap (λ c. (declaration c).number) e) in
        inl (e, ap process same ∙ rw e refl, ap (λ m. m.member base_key_values) same)
    | inr (inl e) ↦ inr (inl (e, ap process (redirect_other (λ n. ground (arith, e))) ∙ rw e refl))
    | inr (inr (place, other)) ↦ inr (inr (ap process (redirect_other other) ∙ rw place refl))
  ]

  redirect_message-class : (redirect_message target msg).class ≡ msg.class
  redirect_message-class = ground arith

  emptied_lem :
      get_type (redirect_message target msg) ≡ clc_cmd_key_values
      → (redirect_message target msg).member base_key_values ≡ 0
  emptied_lem e =
      let before = sym (ap (λ c. (declaration c).number) redirect_message-class) ∙ e in
      ap (λ m. m.member base_key_values) (redirect_key_values before)

  redirect_message-IsRedirected : IsRedirected target (redirect_message target msg)
  redirect_message-IsRedirected =
      let same = redirect_message-class in
      record {
        handled = λ h not_command not_gmod.
            elim (process-redirect_message (ap has_processor (sym same) ∙ h)) [
              | inl (e, _, _) ↦ absurd (not_command (same ∙ e))
              | inr (inl (e, _)) ↦ absurd (not_gmod (same ∙ e))
              | inr (inr e) ↦ e ∙ ap (λ c. some (target, (declaration c).name)) (sym same)
            ];
        emptied = emptied_lem;
      }

pub redirect-All :
    (target : ℕ)
    → target ≢ 0
    → (msgs : List NetMessage) → All (IsRedirected target) (map (redirect_message target) msgs)
redirect-All target aim [] = tt
redirect-All target aim (m ∷ ms) =
    (redirect_message-IsRedirected target aim m, redirect-All target aim ms)
