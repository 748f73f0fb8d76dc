-- ===== src/Seating/Exchange.antt =====
-- The exchange in `MoveCGameClientIntoCGameClient` moves one user from their slot to another.
use mathlib.Core.Path.{fun_ext, subst}
use gmod_queue.Base.{
  ℕ, pos, ◌==◌, ◌≡◌, refl, sym, ap, ◌∙◌, ◌≢◌, ◌<◌, ◌∷◌, inl, inr, Option, none, some, Bool-cases,
  ==→ne, get_elem?, eqb_ℤ, update-ne, if◌then◌else◌, arith,
}
use gmod_queue.Engine.Protocol.{max_players, signonstate_none}
use gmod_queue.Engine.Client.{Client}
use gmod_queue.World.State.{World, Note}
use gmod_queue.World.Host.{Host}
use gmod_queue.Slots.Minimum.{IsFree}
use gmod_queue.Slots.Layout.{IsLayout}
use gmod_queue.Move.EngineLaws.{EngineLaws, IsSamePlace, IsSamePlace-trans}
use gmod_queue.Move.Connect.{connected, connected_other, emptied, joined}
use gmod_queue.Move.Transfer.{IsTransferred, copied-IsTransferred, adopted, redirected}
use gmod_queue.Move.Vacate.{IsVacated, nuke_origin-IsVacated, unplugged}
use gmod_queue.Move.Total.{exchanged}
use gmod_queue.Seating.{Seat, seat_of, seat_at, view, reseat}
use gmod_queue.Seating.FirstFree.{vacant_seat}
use gmod_queue.Seating.Hall.{IsSameList, IsSameList-trans, HallLaws, IsWired}

same_place : {a b : Client} → a ≡ b → IsSamePlace a b
same_place e = record {
  same_slot = ap (λ c. c.client_slot) (sym e);
  same_entity = ap (λ c. c.entity_index) (sym e);
  same_server = ap (λ c. c.server) (sym e);
}

-- Whoever sat at the origin now sits at the target, and everybody else where they were.
pub record IsExchanged {L : Type 0} (origin target : ℕ) (w w' : World L) : Type 0 where
  pub list : IsSameList w w'
  pub places : (q : ℕ) → IsSamePlace (w.client q) (w'.client q)
  pub seated : seat_of (w'.client target) ≡ seat_of (w.client origin)
  pub freed : IsFree (w'.client origin)
  pub others : (q : ℕ) → q ≢ origin → q ≢ target → w'.client q ≡ w.client q

module _ {L : Type 0} ⦃host : Host L⦄ (laws : EngineLaws host) (hall : HallLaws host) (w : World L)
    (origin target : ℕ) where
  abbrev copied : World L
  copied =
      redirected target (w.client origin).net_channel
        (adopted origin target (connected origin target w))

  exchanged_list : IsSameList w (exchanged origin target w)
  exchanged_list =
      let told : World L = record w {
        notes =
            Note.reassigned (w.client origin).client_slot (w.client target).client_slot ∷ w.notes;
      } in
      let s : World L = unplugged origin copied in
      IsSameList-trans {v = told} (record { server = refl; clients = refl })
        (IsSameList-trans (hall.inactivate_list target told) (
          IsSameList-trans (hall.clear_list target _) (
            IsSameList-trans (hall.connect_list target _ _ _ _ _ (emptied origin target w)) (
              IsSameList-trans
                (hall.set_name_list target _ (joined origin target (emptied origin target w)))
                (IsSameList-trans {v = s} (record { server = refl; clients = refl })
                  (IsSameList-trans (hall.inactivate_list origin s)
                    (hall.clear_list origin (host.inactivate origin s))))))))

  module _ (real : origin ≢ 0) (aim : target ≢ 0) (apart : origin ≢ target) where
    handed : IsTransferred origin target w copied
    handed = copied-IsTransferred laws w origin target real aim apart

    vacated : IsVacated origin copied (exchanged origin target w)
    vacated = (nuke_origin-IsVacated laws copied origin real).2

    exchanged_other :
        (q : ℕ) → q ≢ origin → q ≢ target → (exchanged origin target w).client q ≡ w.client q
    exchanged_other q not_origin not_target =
        vacated.others q not_origin
        ∙ update-ne (connected origin target w).client target q _ (λ e. not_target (sym e))
        ∙ connected_other origin target laws q not_target w

    origin_place : IsSamePlace (w.client origin) ((exchanged origin target w).client origin)
    origin_place = IsSamePlace-trans (same_place (sym handed.origin_kept)) vacated.place

    target_place : IsSamePlace (w.client target) ((exchanged origin target w).client target)
    target_place =
        IsSamePlace-trans handed.place
          (same_place (sym (vacated.others target (λ e. apart (sym e)))))

    exchanged_place : (q : ℕ) → IsSamePlace (w.client q) ((exchanged origin target w).client q)
    exchanged_place q =
        let Kept : ℕ → Type 0 =
          λ x. IsSamePlace (w.client x) ((exchanged origin target w).client x) in
        elim (Bool-cases (q == origin)) [
          | inl e ↦ subst Kept (ground (arith, e)) origin_place
          | inr not_origin ↦ elim (Bool-cases (q == target)) [
            | inl e ↦ subst Kept (ground (arith, e)) target_place
            | inr not_target ↦
                same_place
                  (sym (exchanged_other q (==→ne q origin not_origin) (==→ne q target not_target)))
          ]
        ]

    pub exchanged-IsExchanged : IsExchanged origin target w (exchanged origin target w)
    exchanged-IsExchanged = record {
      list = exchanged_list;
      places = exchanged_place;
      seated =
          ap seat_of (vacated.others target (λ e. apart (sym e)))
          ∙ ap
              (λ s.
                if eqb_ℤ s signonstate_none
                then Seat.vacant
                else Seat.held (copied.client target).user_id)
              handed.signon_state
          ∙ ap
              (λ u.
                if eqb_ℤ (w.client origin).signon_state signonstate_none
                then Seat.vacant
                else Seat.held u)
              handed.user_id;
      freed = vacated.free;
      others = exchanged_other;
    }

-- Client objects at different slots differ.
pub slot-injective :
    {L : Type 0} (w : World L)
    → IsLayout w
    → (k m p q : ℕ) → get_elem? w.server_object.clients k ≡ some p
    → get_elem? w.server_object.clients m ≡ some q
    → p ≡ q
    → k ≡ m
slot-injective w layout k m p q here there e =
    let a = (layout.placed k p here).1 in
    let b = (layout.placed m q there).1 in
    let same : pos k ≡ pos m = sym a ∙ ap (λ x. (w.client x).client_slot) e ∙ b in cc

-- The exchange, seen in the abstract, on a server in the engine's layout.
module _ {L : Type 0} (w w' : World L) (origin target j i : ℕ) (layout : IsLayout w)
    (ex : IsExchanged origin target w w') (from : get_elem? w.server_object.clients j ≡ some origin)
    (to : get_elem? w.server_object.clients i ≡ some target) where
  stayed :
      (k : ℕ)
      → k ≢ j
      → k ≢ i
      → (o : Option ℕ) → get_elem? w.server_object.clients k ≡ o
      → seat_at w'.client o ≡ seat_at w.client o
  stayed k not_j not_i none e = refl
  stayed k not_j not_i (some p) e = ap seat_of (
      ex.others p (λ same. not_j (slot-injective w layout k j p origin e from same))
        (λ same. not_i (slot-injective w layout k i p target e to same)))

  pub view-exchanged : view w' ≡ reseat j i (view w)
  view-exchanged = fun_ext λ k.
      ap (λ l. seat_at w'.client (get_elem? l k)) ex.list.clients ∙ elim (Bool-cases (k == j)) [
        | inl e ↦
            let same : k ≡ j = ground (arith, e) in
            rw e (
              ap (seat_at w'.client) (ap (get_elem? w.server_object.clients) same ∙ from)
              ∙ vacant_seat (w'.client origin) ex.freed)
        | inr not_j ↦ elim (Bool-cases (k == i)) [
          | inl e ↦
              let same : k ≡ i = ground (arith, e) in
              rw (not_j, e)
                (ap (seat_at w'.client) (ap (get_elem? w.server_object.clients) same ∙ to)
                  ∙ ex.seated
                  ∙ sym (ap (seat_at w.client) from))
          | inr not_i ↦ rw (not_j, not_i) (stayed k (==→ne k j not_j) (==→ne k i not_i) _ refl)
        ]
      ]

  pub IsWired-exchanged : i < max_players → IsWired w → IsWired w'
  IsWired-exchanged low wired k p late here taken =
      let there = ap (λ l. get_elem? l k) (sym ex.list.clients) ∙ here in
      elim (Bool-cases (p == origin)) [
        | inl e ↦
            let same : p ≡ origin = ground (arith, e) in
            absurd (taken (ap (λ x. (w'.client x).signon_state) same ∙ ex.freed))
        | inr not_origin ↦ elim (Bool-cases (p == target)) [
          | inl e ↦
              let same : k ≡ i =
                slot-injective w layout k i p target there to (ground (arith, e)) in
              absurd (omega (arith, same))
          | inr not_target ↦
              let kept = ex.others p (==→ne p origin not_origin) (==→ne p target not_target) in
              λ e.
                wired k p late there (λ f. taken (ap (λ c. c.signon_state) kept ∙ f))
                  (ap (λ c. c.net_channel) (sym kept) ∙ e)
        ]
      ]
