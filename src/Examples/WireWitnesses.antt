-- ===== src/Examples/WireWitnesses.antt =====
-- The round trip of `SVC_ServerInfo`, applied to buffers that keep the list of what was written.
use gmod_queue.Base.{
  ℕ, ℤ, pos, ◌≡◌, refl, ap, Bool, true, false, String, List, [], ◌∷◌, ◌++◌, arith, drop,
}
use gmod_queue.Engine.ServerInfo.{ServerInfo}
use gmod_queue.Wire.{Item, int, bit, blob, text, BitApi, write_to_buffer, read_from_buffer}
use gmod_queue.Wire.RoundTrip.{BitLaws, Encodable, read_from_buffer-write_to_buffer}
use gmod_queue.Examples.Machine.{blank}

-- A reader: what lies ahead, and whether it has read past the end.
abbrev pub Reader : Type 0
Reader = List Item × Bool

abbrev take_int : Reader → ℤ × Reader
take_int ([], o) = (pos 0, ([], true))
take_int (int k n ∷ is, o) = (n, (is, o))
take_int (bit b ∷ is, o) = (pos 0, (is, o))
take_int (blob k n ∷ is, o) = (pos 0, (is, o))
take_int (text s ∷ is, o) = (pos 0, (is, o))

abbrev take_bit : Reader → Bool × Reader
take_bit ([], o) = (false, ([], true))
take_bit (int k n ∷ is, o) = (false, (is, o))
take_bit (bit b ∷ is, o) = (b, (is, o))
take_bit (blob k n ∷ is, o) = (false, (is, o))
take_bit (text s ∷ is, o) = (false, (is, o))

abbrev take_blob : Reader → ℕ × Reader
take_blob ([], o) = (0, ([], true))
take_blob (int k n ∷ is, o) = (0, (is, o))
take_blob (bit b ∷ is, o) = (0, (is, o))
take_blob (blob k n ∷ is, o) = (n, (is, o))
take_blob (text s ∷ is, o) = (0, (is, o))

abbrev take_text : Reader → String × Reader
take_text ([], o) = ("", ([], true))
take_text (int k n ∷ is, o) = ("", (is, o))
take_text (bit b ∷ is, o) = ("", (is, o))
take_text (blob k n ∷ is, o) = ("", (is, o))
take_text (text s ∷ is, o) = (s, (is, o))

abbrev pub bit_api : BitApi (List Item) Reader
bit_api = record {
  write = λ i w. w ++ (i ∷ []);
  write_overflowed = λ w. false;
  read_int = λ k. take_int;
  read_bit = take_bit;
  read_blob = λ k. take_blob;
  read_text = λ limit. take_text;
  read_overflowed = λ r. r.1;
  max_ospath = 260;
  protocol_version_17 = pos 17;
}

abbrev pub bit_laws : BitLaws bit_api
bit_laws = record {
  written = λ w. w;
  ahead = λ r. r.0;
  text_fits = λ limit s. Unit;
  write_appends = λ i w e. refl;
  overflow_stays = λ i w e. refl;
  int_read = λ k n r is ok e. ((is, r.1), ap (λ l. take_int (l, r.1)) e, refl, refl);
  bit_read = λ b r is e. ((is, r.1), ap (λ l. take_bit (l, r.1)) e, refl, refl);
  blob_read = λ k n r is e. ((is, r.1), ap (λ l. take_blob (l, r.1)) e, refl, refl);
  text_read = λ limit s r is ok e. ((is, r.1), ap (λ l. take_text (l, r.1)) e, refl, refl);
}

abbrev sent_info : ServerInfo
sent_info = record blank {
  protocol = pos 24;
  server_count = pos 3;
  max_classes = pos 300;
  player_slot = pos 2;
  max_clients = pos 128;
  map_name = "gm_construct";
}

sent_info-Encodable : Encodable bit_api bit_laws sent_info
sent_info-Encodable = record {
  recent = refl;
  protocol = (omega arith, omega arith);
  server_count = (omega arith, omega arith);
  max_classes = (omega arith, omega arith);
  player_slot = (omega arith, omega arith);
  max_clients = (omega arith, omega arith);
  game_dir = tt;
  map_name = tt;
  sky_name = tt;
  host_name = tt;
}

pub filled_info-Encodable : Encodable bit_api bit_laws (record blank { protocol = pos 24 })
filled_info-Encodable = record {
  recent = refl;
  protocol = (omega arith, omega arith);
  server_count = (omega arith, omega arith);
  max_classes = (omega arith, omega arith);
  player_slot = (omega arith, omega arith);
  max_clients = (omega arith, omega arith);
  game_dir = tt;
  map_name = tt;
  sky_name = tt;
  host_name = tt;
}

abbrev received : Reader
received = (drop 1 (write_to_buffer bit_api sent_info []).1, false)

read_from_buffer-write_to_buffer_example :
    (s : Reader) × (read_from_buffer bit_api blank received
      ≡ (true, record sent_info { map_crc = 0 }, s))
    × (s.0 ≡ [])
unfolding write_to_buffer
read_from_buffer-write_to_buffer_example =
    read_from_buffer-write_to_buffer bit_api bit_laws sent_info blank [] received
      sent_info-Encodable refl refl refl refl
