-- ===== src/Mqtt/Link/PacketIds.antt =====
-- The packet ids that a client hands out.
use nu_maker_mbed_aliyun_io.Base.{ℕ, zero, suc, ◌+◌, ◌%◌, ◌≤◌, ◌<◌, ◌≡◌, ◌∙◌, arith, ◌≢◌}
use nu_maker_mbed_aliyun_io.Mqtt.Link.{Client, get_next_packetid}

-- The id that the call number n hands out, counted from 0.
unfoldable pub nth_id : ℕ → Client → ℕ
nth_id zero c = (get_next_packetid c).0
nth_id (suc n) c = nth_id n (get_next_packetid c).1

nth_id_lem : (n : ℕ) (c : Client) → c.packet_id ≤ 65535 → nth_id n c ≡ (c.packet_id + n) % 65535 + 1
unfolding nth_id get_next_packetid
nth_id_lem zero c b = ground arith
nth_id_lem (suc n) c b = nth_id_lem n (get_next_packetid c).1 (ground arith) ∙ ground arith

-- From any id that fits the packet's 16 bits on, any 65535 ids in a row are valid, 1 to 65535, and
-- differ from one another: none comes again before all others were handed out.
pub nth_id-distinct :
    (c : Client) (n gap : ℕ)
    → c.packet_id ≤ 65535
    → 0 < gap
    → gap < 65535
    → (0 < nth_id n c) × (nth_id n c ≤ 65535) × (nth_id (n + gap) c ≢ nth_id n c)
nth_id-distinct c n gap b pos' short =
    let e1 = nth_id_lem n c b in
    let e2 = nth_id_lem (n + gap) c b in
    (omega (arith, e1), omega (arith, e1), λ e. omega (arith, e1, e2, e))
