-- ===== src/Seating/Hall.antt =====
-- What the engine leaves alone: the list of clients, and who sits where.
use mathlib.Core.Path.{fun_ext}
use gmod_queue.Base.{
  ℕ, ℤ, ◌≡◌, refl, sym, ap, ◌∙◌, ◌≢◌, ◌≤◌, Bool, true, String, Option, none, some, List, get_elem?,
  eqb_ℤ, eqb_ℤ-refl, eqb_ℤ→eq, if◌then◌else◌,
}
use gmod_queue.Engine.Protocol.{max_players, signonstate_none}
use gmod_queue.Engine.Client.{Client}
use gmod_queue.Engine.ServerInfo.{ServerInfo}
use gmod_queue.World.State.{World, Note}
use gmod_queue.World.Host.{Host}
use gmod_queue.Hooks.Callback.{IsReady}
use gmod_queue.Slots.Minimum.{IsFree}
use gmod_queue.Slots.Layout.{IsLayout}
use gmod_queue.Move.EngineLaws.{IsSamePlace, IsSamePlace-trans}
use gmod_queue.Move.Quiet.{IsQuiet}
use gmod_queue.Seating.{Seat, seat_of, seat_at, view}

-- The server and its client list are the same.
pub record IsSameList {L : Type 0} (w w' : World L) : Type 0 where
  pub server : w'.server ≡ w.server
  pub clients : w'.server_object.clients ≡ w.server_object.clients

pub IsSameList-trans :
    {L : Type 0} {u v w : World L} → IsSameList u v → IsSameList v w → IsSameList u w
IsSameList-trans p q = record { server = q.server ∙ p.server; clients = q.clients ∙ p.clients }

-- The same user sits there, or as before nobody does.
pub record IsSameGuest (a b : Client) : Type 0 where
  pub place : IsSamePlace a b
  pub user_id : b.user_id ≡ a.user_id
  pub net_channel : b.net_channel ≡ a.net_channel
  pub taken : eqb_ℤ b.signon_state signonstate_none ≡ eqb_ℤ a.signon_state signonstate_none

pub record IsSameHall {L : Type 0} (w w' : World L) : Type 0 where
  pub list : IsSameList w w'
  pub guests : (q : ℕ) → IsSameGuest (w.client q) (w'.client q)

pub IsSameHall-trans :
    {L : Type 0} {u v w : World L} → IsSameHall u v → IsSameHall v w → IsSameHall u w
IsSameHall-trans p q = record {
  list = IsSameList-trans p.list q.list;
  guests = λ c.
      let g = p.guests c in
      let h = q.guests c in
      record {
        place = IsSamePlace-trans g.place h.place;
        user_id = h.user_id ∙ g.user_id;
        net_channel = h.net_channel ∙ g.net_channel;
        taken = h.taken ∙ g.taken;
      };
}

-- Other contents of the interpreter and of the log.
pub lua-IsSameHall :
    {L : Type 0} (w : World L) (l : L) (notes : List Note)
    → IsSameHall w (record w { lua = l; notes = notes })
lua-IsSameHall w l notes = record {
  list = record { server = refl; clients = refl };
  guests = λ q. record {
    place = record { same_slot = refl; same_entity = refl; same_server = refl };
    user_id = refl;
    net_channel = refl;
    taken = refl;
  };
}

-- The functions that empty or connect a client leave the list of clients alone. What comes after
-- the exchange and the hook (the message, `Reconnect`) and the engine's `SpawnPlayer` also leave every
-- user on their slot; and `SpawnPlayer` leaves the plugin in order.
pub record HallLaws {L : Type 0} (host : Host L) : Type 0 where
  pub inactivate_list : (p : ℕ) (w : World L) → IsSameList w (host.inactivate p w)
  pub clear_list : (p : ℕ) (w : World L) → IsSameList w (host.clear p w)
  pub connect_list :
      (p : ℕ) (n : String) (u : ℤ) (chan : ℕ) (fake : Bool) (challenge : ℤ) (w : World L)
      → IsSameList w (host.connect p n u chan fake challenge w)
  pub set_name_list : (p : ℕ) (n : String) (w : World L) → IsSameList w (host.set_name p n w)
  pub fill_hall :
      (p : ℕ) (info : ServerInfo) (w : World L) → IsSameHall w (host.fill_server_info p info w).1
  pub send_hall :
      (p : ℕ) (info : ServerInfo) (reliable : Bool) (w : World L)
      → IsSameHall w (host.send_net_msg p info reliable w)
  pub reconnect_hall : (p : ℕ) (w : World L) → IsSameHall w (host.reconnect p w)
  pub spawn_hall : (p : ℕ) (w : World L) → IsSameHall w (host.spawn_player p w)
  pub spawn_quiet : (p : ℕ) (w : World L) → IsQuiet ⦃host = host⦄ w (host.spawn_player p w)

-- A condition on the server's Lua scripts, which a script can break: what is hooked to
-- `PlayerQueue:OnPlayerChangedSlot` (three values, no result) and `PlayerQueue:OnClientDisconnect`
-- (two values) leaves every user on their slot, that is, it does not disconnect anybody or set a
-- sign-on state to none. Nothing is asked of `PlayerQueue:OnSetSignonState`.
pub record CalmHooks {L : Type 0} (host : Host L) : Type 0 where
  pub changed_slot : (w : World L) → IsSameHall w (host.call_function_protected 3 0 true w).1
  pub disconnecting : (w : World L) → IsSameHall w (host.call_function_protected 2 0 true w).1

-- A client past the player slots that is signing on has a net channel: bots do not queue.
abbrev pub IsWired : {L : Type 0} → World L → Type 0
IsWired w =
    (i p : ℕ)
    → max_players ≤ i
    → get_elem? w.server_object.clients i ≡ some p
    → ¬ IsFree (w.client p)
    → (w.client p).net_channel ≢ 0

-- The server runs, its clients lie as the engine puts them, and the plugin is ready.
pub record IsOpen {L : Type 0} ⦃host : Host L⦄ (w : World L) : Type 0 where
  pub layout : IsLayout w
  pub ready : IsReady w
  pub wired : IsWired w

pub IsLayout-kept :
    {L : Type 0} {w w' : World L}
    → IsSameList w w'
    → ((q : ℕ) → IsSamePlace (w.client q) (w'.client q))
    → IsLayout w
    → IsLayout w'
IsLayout-kept same places layout = record {
  known = λ e. layout.known (sym same.server ∙ e);
  placed = λ i p here.
      let (real, slot, entity) =
        layout.placed i p (ap (λ l. get_elem? l i) (sym same.clients) ∙ here) in
      (real, (places p).same_slot ∙ slot, (places p).same_entity ∙ entity);
  homed = λ i p here null.
      layout.homed i p (ap (λ l. get_elem? l i) (sym same.clients) ∙ here)
        (sym (places p).same_server ∙ null);
}

IsFree-kept : (a b : Client) → IsSameGuest a b → IsFree a → IsFree b
IsFree-kept a b same free =
    eqb_ℤ→eq b.signon_state signonstate_none
      (same.taken ∙ ap (λ x. eqb_ℤ x signonstate_none) free ∙ eqb_ℤ-refl signonstate_none)

pub seat-kept : (a b : Client) → IsSameGuest a b → seat_of b ≡ seat_of a
seat-kept a b same =
    ap (λ x. if x then Seat.vacant else Seat.held b.user_id) same.taken
    ∙ ap (λ u. if eqb_ℤ a.signon_state signonstate_none then Seat.vacant else Seat.held u)
        same.user_id

seat_at-kept :
    (f g : ℕ → Client)
    → ((q : ℕ) → IsSameGuest (f q) (g q))
    → (o : Option ℕ) → seat_at g o ≡ seat_at f o
seat_at-kept f g same none = refl
seat_at-kept f g same (some p) = seat-kept (f p) (g p) (same p)

-- The same hall looks the same.
pub view-kept : {L : Type 0} {w w' : World L} → IsSameHall w w' → view w' ≡ view w
view-kept {w} {w'} same = fun_ext λ i.
    ap (λ l. seat_at w'.client (get_elem? l i)) same.list.clients
    ∙ seat_at-kept w.client w'.client same.guests (get_elem? w.server_object.clients i)

pub IsWired-kept : {L : Type 0} {w w' : World L} → IsSameHall w w' → IsWired w → IsWired w'
IsWired-kept {w} {w'} same wired i p late here taken e =
    let guest = same.guests p in
    wired i p late (ap (λ l. get_elem? l i) (sym same.list.clients) ∙ here)
      (λ free. taken (IsFree-kept (w.client p) (w'.client p) guest free))
      (sym guest.net_channel ∙ e)

-- The server stays open where everybody keeps their place and the plugin stays in order.
pub IsOpen-kept :
    {L : Type 0} ⦃host : Host L⦄ {w w' : World L}
    → IsSameHall w w'
    → (IsReady w → IsReady w')
    → IsOpen w
    → IsOpen w'
IsOpen-kept same ready open_before = record {
  layout = IsLayout-kept same.list (λ q. (same.guests q).place) open_before.layout;
  ready = ready open_before.ready;
  wired = IsWired-kept same open_before.wired;
}
