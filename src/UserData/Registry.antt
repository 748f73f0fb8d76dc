-- ===== src/UserData/Registry.antt =====
-- The registry of pushed clients: one live box for each client, with both of its references.
use gmod_queue.Base.{ℕ, ◌<◌, minus_one, ◌≡◌, sym, ap, ◌∙◌, ◌≢◌, Option, some, lookup, IsMap}
use gmod_queue.World.State.{World, UserData}

-- The box of a registered client is allocated, boxes that client, and holds a reference to its
-- Lua object and one to its table.
pub record IsBox (heap : ℕ → Option UserData) (next c u : ℕ) (d : UserData) : Type 0 where
  pub allocated : heap u ≡ some d
  pub below : u < next
  pub real : u ≢ 0
  pub boxes : d.object ≡ c
  pub referenced : d.reference ≢ minus_one
  pub tabled : d.table_reference ≢ minus_one

pub record IsRegistry {L : Type 0} (w : World L) : Type 0 where
  pub keys : IsMap w.pushed
  pub started : 0 < w.next_user_data
  pub boxed :
      (c u : ℕ)
      → lookup c w.pushed ≡ some u
      → (d : UserData) × IsBox w.user_data w.next_user_data c u d

-- Two clients have two boxes.
pub IsBox-ne :
    (heap : ℕ → Option UserData) (next c j u v : ℕ) (d e : UserData)
    → IsBox heap next c u d
    → IsBox heap next j v e
    → c ≢ j
    → u ≢ v
IsBox-ne heap next c j u v d e b k different same =
    let shared : some d ≡ some e = sym b.allocated ∙ ap heap same ∙ k.allocated in
    let one : d ≡ e = cc in different (sym b.boxes ∙ ap (λ x. x.object) one ∙ k.boxes)
