-- ===== src/Wire/RoundTrip.antt =====
-- What `SVC_ServerInfo::ReadFromBuffer` reads from what `WriteToBuffer` wrote.
use gmod_queue.Base.{
  ℕ, ℤ, pos, negsuc, minus_one, ◌≤ℤ◌, ◌≡◌, refl, sym, ap, ◌∙◌, not, Bool, true, false, String, List,
  [], ◌∷◌, ◌++◌, ltb_ℤ, drop, arith,
}
use gmod_queue.Engine.Protocol.{svc_server_info}
use gmod_queue.Engine.ServerInfo.{ServerInfo}
use gmod_queue.Wire.{
  IntKind, type_bits, short, long, word, byte, BlobKind, digest, float, char, Item, int, bit, blob,
  text, BitApi, body_items, write_all, write_to_buffer, reading, read_map_sum, read_tail,
  read_from_buffer,
}

-- The least and the greatest value of a kind.
abbrev pub least : IntKind → ℤ
least type_bits = pos 0
least short = negsuc 32767
least long = negsuc 2147483647
least word = pos 0
least byte = pos 0

abbrev pub greatest : IntKind → ℤ
greatest type_bits = pos 63
greatest short = pos 32767
greatest long = pos 2147483647
greatest word = pos 65535
greatest byte = pos 255

abbrev pub Fits : IntKind → ℤ → Type 0
Fits k n = (least k ≤ℤ n) × (n ≤ℤ greatest k)

-- A read that takes one value off what lies ahead, and overflows no more than before.
abbrev pub Takes :
    {R A : Type 0} → (R → List Item) → (R → Bool) → (R → A × R) → A → R → List Item → Type 0
Takes {R} ahead overflowed f a r is =
    (s : R) × (f r ≡ (a, s)) × (ahead s ≡ is) × (overflowed s ≡ overflowed r)

-- The buffers, by what was written to them and what lies ahead of a reader: a write that does not
-- overflow appends, an overflow stays, and a read of the kind that was written gives the value back
-- where that fits.
pub record BitLaws {W R : Type 0} (api : BitApi W R) : Type 1 where
  pub written : W → List Item
  pub ahead : R → List Item
  pub text_fits : ℕ → String → Type 0
  pub write_appends :
      (i : Item) (w : W)
      → api.write_overflowed (api.write i w) ≡ false
      → written (api.write i w) ≡ written w ++ (i ∷ [])
  pub overflow_stays :
      (i : Item) (w : W)
      → api.write_overflowed (api.write i w) ≡ false
      → api.write_overflowed w ≡ false
  pub int_read :
      (k : IntKind) (n : ℤ) (r : R) (is : List Item)
      → Fits k n
      → ahead r ≡ int k n ∷ is
      → Takes ahead api.read_overflowed (api.read_int k) n r is
  pub bit_read :
      (b : Bool) (r : R) (is : List Item)
      → ahead r ≡ bit b ∷ is
      → Takes ahead api.read_overflowed api.read_bit b r is
  pub blob_read :
      (k : BlobKind) (n : ℕ) (r : R) (is : List Item)
      → ahead r ≡ blob k n ∷ is
      → Takes ahead api.read_overflowed (api.read_blob k) n r is
  pub text_read :
      (limit : ℕ) (s : String) (r : R) (is : List Item)
      → text_fits limit s
      → ahead r ≡ text s ∷ is
      → Takes ahead api.read_overflowed (api.read_text limit) s r is

module _ {W R : Type 0} (api : BitApi W R) (laws : BitLaws api) where
  open laws use {written, ahead, text_fits}

  -- The values that the message's wire format can hold.
  pub record Encodable (info : ServerInfo) : Type 0 where
    pub recent : ltb_ℤ api.protocol_version_17 info.protocol ≡ true
    pub protocol : Fits short info.protocol
    pub server_count : Fits long info.server_count
    pub max_classes : Fits word info.max_classes
    pub player_slot : Fits byte info.player_slot
    pub max_clients : Fits byte info.max_clients
    pub game_dir : text_fits api.max_ospath info.game_dir
    pub map_name : text_fits api.max_ospath info.map_name
    pub sky_name : text_fits api.max_ospath info.sky_name
    pub host_name : text_fits api.max_ospath info.host_name

  reading-ok :
      {A B : Type 0} (f : R → A × R) (k : A → R → B) {r s : R} {a : A}
      → f r ≡ (a, s)
      → reading api f k r ≡ k a s
  unfolding reading
  reading-ok f k e = ap (λ x. k x.0 x.1) e

  write_all_overflow :
      (is : List Item) (w : W)
      → api.write_overflowed (write_all api is w) ≡ false
      → api.write_overflowed w ≡ false
  unfolding write_all
  write_all_overflow [] w fine = fine
  write_all_overflow (i ∷ is) w fine =
      laws.overflow_stays i w (write_all_overflow is (api.write i w) fine)

  append_assoc :
      (xs : List Item) (i : Item) (is : List Item) → (xs ++ (i ∷ [])) ++ is ≡ xs ++ (i ∷ is)
  append_assoc [] i is = refl
  append_assoc (x ∷ xs) i is = ap (λ l. x ∷ l) (append_assoc xs i is)

  append_nil : (xs : List Item) → xs ++ [] ≡ xs
  append_nil [] = refl
  append_nil (x ∷ xs) = ap (λ l. x ∷ l) (append_nil xs)

  written-write_all :
      (is : List Item) (w : W)
      → api.write_overflowed (write_all api is w) ≡ false
      → written (write_all api is w) ≡ written w ++ is
  unfolding write_all
  written-write_all [] w fine = sym (append_nil (written w))
  written-write_all (i ∷ is) w fine =
      written-write_all is (api.write i w) fine
      ∙ ap (λ l. l ++ is) (laws.write_appends i w (write_all_overflow is (api.write i w) fine))
      ∙ append_assoc (written w) i is

  -- The values that are read after the digest.
  abbrev tailed : ServerInfo → ServerInfo → ServerInfo
  tailed old info = record old {
    player_slot = info.player_slot;
    max_clients = info.max_clients;
    tick_interval = info.tick_interval;
    os = info.os;
    game_dir = info.game_dir;
    map_name = info.map_name;
    sky_name = info.sky_name;
    host_name = info.host_name;
  }

  -- A recent protocol has the digest.
  read_map_sum-ok :
      (protocol : ℤ) (old : ServerInfo) (md5 : ℕ) (r s : R)
      → ltb_ℤ api.protocol_version_17 protocol ≡ true
      → api.read_blob digest r ≡ (md5, s)
      → read_map_sum api protocol old r ≡ (record old { map_md5 = md5 }, s)
  unfolding read_map_sum
  read_map_sum-ok protocol old md5 r s recent e =
      rw recent (reading-ok (api.read_blob digest) (λ m v. (record old { map_md5 = m }, v)) e)

  -- The part after the digest.
  read_tail-ok :
      (info old : ServerInfo) (r : R)
      → Encodable info
      → api.read_overflowed r ≡ false
      → ahead r ≡ drop 7 (body_items info)
      → (s : R) × (read_tail api old r ≡ (true, tailed old info, s)) × (ahead s ≡ [])
  unfolding read_tail
  read_tail-ok info old r enc fine at =
      let (s1, e1, a1, o1) = laws.int_read byte info.player_slot r _ enc.player_slot at in
      let (s2, e2, a2, o2) = laws.int_read byte info.max_clients s1 _ enc.max_clients a1 in
      let (s3, e3, a3, o3) = laws.blob_read float info.tick_interval s2 _ a2 in
      let (s4, e4, a4, o4) = laws.blob_read char info.os s3 _ a3 in
      let (s5, e5, a5, o5) = laws.text_read api.max_ospath info.game_dir s4 _ enc.game_dir a4 in
      let (s6, e6, a6, o6) = laws.text_read api.max_ospath info.map_name s5 _ enc.map_name a5 in
      let (s7, e7, a7, o7) = laws.text_read api.max_ospath info.sky_name s6 _ enc.sky_name a6 in
      let (s8, e8, a8, o8) = laws.text_read api.max_ospath info.host_name s7 _ enc.host_name a7 in
      let calm = o8 ∙ o7 ∙ o6 ∙ o5 ∙ o4 ∙ o3 ∙ o2 ∙ o1 ∙ fine in
      (
        s8,
        reading-ok (api.read_int byte) _ e1
            ∙ (reading-ok (api.read_int byte) _ e2
                ∙ (reading-ok (api.read_blob float) _ e3
                    ∙ (reading-ok (api.read_blob char) _ e4
                        ∙ (reading-ok (api.read_text api.max_ospath) _ e5
                            ∙ (reading-ok (api.read_text api.max_ospath) _ e6
                                ∙ (reading-ok (api.read_text api.max_ospath) _ e7
                                    ∙ (reading-ok (api.read_text api.max_ospath) _ e8
                                        ∙ ap (λ b. (not b, tailed old info, s8)) calm))))))),
        a8,
      )

  -- A message whose values fit, of a protocol after version 17, that `WriteToBuffer` wrote to an
  -- empty buffer and reported as written, is read back by `ReadFromBuffer` once its type was taken
  -- off: the read reports success, uses up the buffer, and yields every member but the map's
  -- checksum, which stays what it was.
  pub read_from_buffer-write_to_buffer :
      (info old : ServerInfo) (w : W) (r : R)
      → Encodable info
      → written w ≡ []
      → (write_to_buffer api info w).0 ≡ true
      → ahead r ≡ drop 1 (written (write_to_buffer api info w).1)
      → api.read_overflowed r ≡ false
      → (s : R) × (read_from_buffer api old r ≡ (true, record info { map_crc = old.map_crc }, s))
        × (ahead s ≡ [])
  unfolding write_to_buffer read_from_buffer
  read_from_buffer-write_to_buffer info old w r enc empty sent at fine =
      let items : List Item = int type_bits (pos svc_server_info) ∷ body_items info in
      let stored : written (write_all api items w) ≡ items =
        written-write_all items w (ground arith) ∙ ap (λ l. l ++ items) empty in
      let body : ahead r ≡ body_items info = at ∙ ap (drop 1) stored in
      let (s1, e1, a1, o1) = laws.int_read short info.protocol r _ enc.protocol body in
      let (s2, e2, a2, o2) = laws.int_read long info.server_count s1 _ enc.server_count a1 in
      let (s3, e3, a3, o3) = laws.bit_read info.is_hltv s2 _ a2 in
      let (s4, e4, a4, o4) = laws.bit_read info.is_dedicated s3 _ a3 in
      let (s5, e5, a5, o5) = laws.int_read long minus_one s4 _ (omega arith, omega arith) a4 in
      let (s6, e6, a6, o6) = laws.int_read word info.max_classes s5 _ enc.max_classes a5 in
      let (s7, e7, a7, o7) = laws.blob_read digest info.map_md5 s6 _ a6 in
      let head : ServerInfo = record old {
        protocol = info.protocol;
        server_count = info.server_count;
        is_hltv = info.is_hltv;
        is_dedicated = info.is_dedicated;
        max_classes = info.max_classes;
      } in
      let summed = read_map_sum-ok info.protocol head info.map_md5 s6 s7 enc.recent e7 in
      let (s, tail, end) =
        read_tail-ok info (record head { map_md5 = info.map_md5 }) s7 enc
          (o7 ∙ o6 ∙ o5 ∙ o4 ∙ o3 ∙ o2 ∙ o1 ∙ fine) a7 in
      (
        s,
        reading-ok (api.read_int short) _ e1
            ∙ (reading-ok (api.read_int long) _ e2
                ∙ (reading-ok api.read_bit _ e3
                    ∙ (reading-ok api.read_bit _ e4
                        ∙ (reading-ok (api.read_int long) _ e5
                            ∙ (reading-ok (api.read_int word) _ e6
                                ∙ (reading-ok (read_map_sum api info.protocol head) (read_tail api)
                                      summed
                                    ∙ tail)))))),
        end,
      )
