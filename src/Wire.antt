-- ===== src/Wire.antt =====
-- `SVC_ServerInfo` on the wire (source/sourcesdk/netmessages.cpp), without the replay bit, which is
-- compiled out.
pub mod RoundTrip
use Prim.Native.Nat.{◌%◌}
use gmod_queue.Base.{
  ℕ, ◌-◌, ℤ, pos, negsuc, minus_one, Bool, not, String, List, [], ◌∷◌, ltb_ℤ, if◌then◌else◌,
}
use gmod_queue.Engine.Protocol.{svc_server_info}
use gmod_queue.Engine.ServerInfo.{ServerInfo}

-- The integers that `bf_write` writes: `WriteUBitLong` of `NETMSG_TYPE_BITS`, `WriteShort`,
-- `WriteLong`, `WriteWord`, `WriteByte`; and what it writes bit for bit: `WriteBytes` of a digest,
-- `WriteFloat`, `WriteChar`.
pub data IntKind : Type 0 where
  type_bits short long word byte : IntKind

pub data BlobKind : Type 0 where
  digest float char : BlobKind

-- One write, with its value.
pub data Item : Type 0 where
  int : IntKind → ℤ → Item
  bit : Bool → Item
  blob : BlobKind → ℕ → Item
  text : String → Item

-- `bf_write` and `bf_read`, which are not in the repository. A text is read into a buffer of a
-- given size. `MAX_OSPATH` and `PROTOCOL_VERSION_17` are constants of headers that are not there
-- either.
pub record BitApi (W R : Type 0) : Type 0 where
  pub write : Item → W → W
  pub write_overflowed : W → Bool
  pub read_int : IntKind → R → ℤ × R
  pub read_bit : R → Bool × R
  pub read_blob : BlobKind → R → ℕ × R
  pub read_text : ℕ → R → String × R
  pub read_overflowed : R → Bool
  pub max_ospath : ℕ
  pub protocol_version_17 : ℤ

-- What follows the type: the writes of `WriteToBuffer` in order.
abbrev pub body_items : ServerInfo → List Item
body_items info =
    int short info.protocol
    ∷ int long info.server_count
    ∷ bit info.is_hltv
    ∷ bit info.is_dedicated
    ∷ int long minus_one
    ∷ int word info.max_classes
    ∷ blob digest info.map_md5
    ∷ int byte info.player_slot
    ∷ int byte info.max_clients
    ∷ blob float info.tick_interval
    ∷ blob char info.os
    ∷ text info.game_dir
    ∷ text info.map_name
    ∷ text info.sky_name
    ∷ text info.host_name
    ∷ []

-- A `long` stored in a `CRC32_t`, which has no sign: modulo 2 ^ 32.
abbrev pub crc_bits : ℤ → ℕ
crc_bits (pos n) = n % 4294967296
crc_bits (negsuc n) = 4294967295 - n % 4294967296

module _ {W R : Type 0} (api : BitApi W R) where
  unfoldable pub write_all : List Item → W → W
  write_all [] w = w
  write_all (i ∷ is) w = write_all is (api.write i w)

  -- `SVC_ServerInfo::WriteToBuffer`
  unfoldable pub write_to_buffer : ServerInfo → W → Bool × W
  write_to_buffer info w =
      let done = write_all (int type_bits (pos svc_server_info) ∷ body_items info) w in
      (not (api.write_overflowed done), done)

  -- A read, and what is done with its value. Shut, so that a proof goes read by read.
  unfoldable pub reading : {A B : Type 0} → (R → A × R) → (A → R → B) → R → B
  reading f k r = let (a, s) = f r in k a s

  -- The digest, or in the older protocols the checksum of the map.
  unfoldable pub read_map_sum : ℤ → ServerInfo → R → ServerInfo × R
  read_map_sum protocol info r =
      if ltb_ℤ api.protocol_version_17 protocol
      then reading (api.read_blob digest) (λ md5 s. (record info { map_md5 = md5 }, s)) r
      else reading (api.read_int long) (λ crc s. (record info { map_crc = crc_bits crc }, s)) r

  -- `SVC_ServerInfo::ReadFromBuffer` from the digest on.
  unfoldable pub read_tail : ServerInfo → R → Bool × ServerInfo × R
  read_tail info = reading (api.read_int byte) λ player_slot.
      reading (api.read_int byte) λ max_clients. reading (api.read_blob float) λ tick_interval.
        reading (api.read_blob char) λ os. reading (api.read_text api.max_ospath) λ game_dir.
          reading (api.read_text api.max_ospath) λ map_name.
            reading (api.read_text api.max_ospath) λ sky_name.
              reading (api.read_text api.max_ospath) λ host_name r. (
                not (api.read_overflowed r),
                record info {
                  player_slot = player_slot;
                  max_clients = max_clients;
                  tick_interval = tick_interval;
                  os = os;
                  game_dir = game_dir;
                  map_name = map_name;
                  sky_name = sky_name;
                  host_name = host_name;
                },
                r,
              )

  -- `SVC_ServerInfo::ReadFromBuffer`, into a message that already has values.
  unfoldable pub read_from_buffer : ServerInfo → R → Bool × ServerInfo × R
  read_from_buffer info = reading (api.read_int short) λ protocol.
      reading (api.read_int long) λ server_count. reading api.read_bit λ is_hltv.
        reading api.read_bit λ is_dedicated. reading (api.read_int long) λ _.
          reading (api.read_int word) λ max_classes.
            reading
              (read_map_sum protocol (record info {
                protocol = protocol;
                server_count = server_count;
                is_hltv = is_hltv;
                is_dedicated = is_dedicated;
                max_classes = max_classes;
              }))
              read_tail
