-- ===== src/Tests/PacketTests.antt =====
-- Packets of common.c and tftp_common.c, byte for byte.
use rted_tftp.Base.{◌≡◌, refl, [], ◌∷◌, ◌++◌, some, codes}
use rted_tftp.Packet.{
  little, big, htons, store16, ack_packet, error_packet, error_message_len, poke, overlay,
}
use rted_tftp.Packet.Layout.{network16, error_text, error_packet_lem}

runs_ack_packet : ack_packet little 258 ≡ 0 ∷ 4 ∷ 1 ∷ 2 ∷ []
unfolding ack_packet store16 htons
runs_ack_packet = refl

runs_error_packet :
    error_packet little 4 (codes "ab") (some (codes "c"))
    ≡ 0 ∷ 5 ∷ 0 ∷ 4 ∷ 97 ∷ 98 ∷ 99 ∷ 0 ∷ 0 ∷ []
unfolding error_packet error_message_len poke overlay store16 htons
runs_error_packet = refl

error_packet_lem_example :
    error_packet big 1 (codes "file not found: ") (some (codes "x"))
    ≡ network16 5 ++ network16 1 ++ error_text (codes "file not found: ") (some (codes "x"))
error_packet_lem_example = error_packet_lem big 1 (codes "file not found: ") (some (codes "x"))
