-- ===== src/Packet/Layout.antt =====
-- What the packet builders put on the wire and what the field reads find there, on either host.
use rted_tftp.Base.{
  ℕ, zero, suc, ◌+◌, ◌*◌, ◌/◌, ◌%◌, ◌≤◌, ◌≡◌, refl, ap, ◌∙◌, [], ◌∷◌, ◌++◌, Option, none, some,
  length, get_or, take, drop, Bytes, arith, length-append, length-replicate, append_assoc,
}
use rted_tftp.Packet.{
  Endian, little, big, htons, ntohs, store16, load16, ack_packet, data_packet, error_packet,
  raw_opcode, raw_block, overlay, poke, zeros,
}
use rted_tftp.Protocol.{tftp_data, tftp_ack, tftp_error}

-- A 16-bit number on the wire, high byte first.
abbrev pub network16 : ℕ → Bytes
network16 x = x / 256 % 256 ∷ x % 256 ∷ []

pub store16-htons : (e : Endian) (x : ℕ) → store16 e (htons e x) ≡ network16 x
unfolding store16 htons
store16-htons little x = ground arith
store16-htons big x = ground arith

pub ntohs-load16 :
    (e : Endian) (m : Bytes) (i : ℕ)
    → ntohs e (load16 e m i) ≡ get_or m i 0 % 256 * 256 + get_or m (suc i) 0 % 256
unfolding ntohs load16
ntohs-load16 little m i = omega arith
ntohs-load16 big m i = omega arith

-- The two header fields of a packet that begins with them, whatever stands behind.
pub ntohs-header :
    (e : Endian) (a b : ℕ) (rest : Bytes)
    → (ntohs e (raw_opcode e (network16 a ++ network16 b ++ rest)) ≡ a % 65536)
      × (ntohs e (raw_block e (network16 a ++ network16 b ++ rest)) ≡ b % 65536)
ntohs-header e a b rest = (rw ntohs-load16 (omega arith), rw ntohs-load16 (omega arith))

pub ack_packet_lem : (e : Endian) (n : ℕ) → ack_packet e n ≡ network16 tftp_ack ++ network16 n ++ []
unfolding ack_packet
ack_packet_lem e n = rw (store16-htons e tftp_ack, store16-htons e n)

pub data_packet_lem :
    (e : Endian) (n : ℕ) (payload : Bytes)
    → data_packet e n payload ≡ network16 tftp_data ++ network16 n ++ payload
unfolding data_packet
data_packet_lem e n payload = rw (store16-htons e tftp_data, store16-htons e n)

pub overlay-append : (m n bs : Bytes) → length bs ≡ length m → overlay (m ++ n) bs ≡ bs ++ n
unfolding overlay
overlay-append [] [] [] h = refl
overlay-append [] (c ∷ n) [] h = refl
overlay-append [] n (b ∷ bs) h = absurd (omega arith)
overlay-append (c ∷ m) n [] h = absurd (omega arith)
overlay-append (c ∷ m) n (b ∷ bs) h = ap (◌∷◌ b) (overlay-append m n bs (omega arith))

-- A write that starts behind `before` and covers `old` replaces just that.
pub poke-append :
    (i : ℕ) (before old after bs : Bytes)
    → i ≡ length before
    → length bs ≡ length old
    → poke i bs (before ++ (old ++ after)) ≡ before ++ (bs ++ after)
unfolding poke
poke-append zero [] old after bs e h = overlay-append old after bs h
poke-append zero (x ∷ before) old after bs e h = absurd (omega arith)
poke-append (suc i) [] old after bs e h = absurd (omega arith)
poke-append (suc i) (x ∷ before) old after bs e h =
    ap (◌∷◌ x) (poke-append i before old after bs (omega arith) h)

pub zeros-add : (m n k : ℕ) → k ≡ m + n → zeros k ≡ zeros m ++ zeros n
zeros-add zero n k e = let kn : k ≡ n = omega arith in rw kn refl
zeros-add (suc m) n zero e = absurd (omega arith)
zeros-add (suc m) n (suc k) e = ap (◌∷◌ 0) (zeros-add m n k (omega arith))

pub length-zeros : (n : ℕ) → length (zeros n) ≡ n
length-zeros n = length-replicate n 0

-- The text fields of an error packet: message, item, and what is left of the zeroed buffer.
abbrev pub error_text : Bytes → Option Bytes → Bytes
error_text message none = message ++ (0 ∷ 0 ∷ [])
error_text message (some item) = message ++ (item ++ (0 ∷ 0 ∷ []))

zeroed_parts :
    (m k n : ℕ)
    → n ≡ 4 + (m + k) + 2
    → zeros n ≡ 0 ∷ 0 ∷ 0 ∷ 0 ∷ (zeros (suc m) ++ (zeros k ++ (0 ∷ [])))
zeroed_parts m k n e =
    zeros-add 4 (suc m + suc k) n (omega arith)
    ∙ ap (λ t. 0 ∷ 0 ∷ 0 ∷ 0 ∷ t)
        (zeros-add (suc m) (suc k) (suc m + suc k) refl
          ∙ ap (◌++◌ (zeros (suc m))) (zeros-add k 1 (suc k) (omega arith)))

copied_text :
    (a b c d : ℕ) (m after : Bytes)
    → poke 4 (m ++ (0 ∷ [])) (a ∷ b ∷ c ∷ d ∷ (zeros (suc (length m)) ++ after))
      ≡ a ∷ b ∷ c ∷ d ∷ ((m ++ (0 ∷ [])) ++ after)
copied_text a b c d m after =
    poke-append 4 (a ∷ b ∷ c ∷ d ∷ []) (zeros (suc (length m))) after (m ++ (0 ∷ [])) refl
      (omega (arith, length-append m (0 ∷ []), length-zeros (length m)))

appended_item :
    (i a b c d k : ℕ) (m item : Bytes)
    → i ≡ 4 + length m
    → k ≡ length item
    → poke i (item ++ (0 ∷ [])) (a ∷ b ∷ c ∷ d ∷ ((m ++ (0 ∷ [])) ++ (zeros k ++ (0 ∷ []))))
      ≡ a ∷ b ∷ c ∷ d ∷ (m ++ (item ++ (0 ∷ 0 ∷ [])))
appended_item i a b c d k m item e f =
    ap (λ t. poke i (item ++ (0 ∷ [])) (a ∷ b ∷ c ∷ d ∷ t)) (append_assoc m (0 ∷ []) _)
    ∙ poke-append i (a ∷ b ∷ c ∷ d ∷ m) (0 ∷ zeros k) (0 ∷ []) (item ++ (0 ∷ [])) (omega arith)
        (omega (arith, length-append item (0 ∷ []), length-zeros k))
    ∙ ap (λ t. a ∷ b ∷ c ∷ d ∷ (m ++ t)) (append_assoc item (0 ∷ []) (0 ∷ []))

-- The error packet holds the code, the message and the item, with two zero bytes at its end.
pub error_packet_lem :
    (e : Endian) (code : ℕ) (message : Bytes) (item : Option Bytes)
    → error_packet e code message item
      ≡ network16 tftp_error ++ network16 code ++ error_text message item
unfolding error_packet poke
error_packet_lem e code message none =
    rw
      (
        zeroed_parts (length message) 0 (4 + length message + 2) (omega arith),
        store16-htons e tftp_error,
        store16-htons e code,
      )
      (copied_text 0 5 _ _ message (0 ∷ [])
        ∙ ap (◌++◌ (network16 tftp_error ++ network16 code))
            (append_assoc message (0 ∷ []) (0 ∷ [])))
error_packet_lem e code message (some item) =
    let k = length item in
    rw
      (
        zeroed_parts (length message) k (4 + (length message + k) + 2) refl,
        store16-htons e tftp_error,
        store16-htons e code,
      )
      (ap (poke (4 + length message) (item ++ (0 ∷ [])))
          (copied_text 0 5 _ _ message (zeros k ++ (0 ∷ [])))
        ∙ appended_item (4 + length message) 0 5 _ _ k message item refl refl)

-- A datagram of four bytes or more replaces the header that stood in a buffer.
pub overlay_header :
    (m : Bytes) (a b c d : ℕ) (rest : Bytes)
    → 4 ≤ length m
    → overlay m (a ∷ b ∷ c ∷ d ∷ rest) ≡ a ∷ b ∷ c ∷ d ∷ overlay (drop 4 m) rest
unfolding overlay
overlay_header [] a b c d rest h = absurd (omega arith)
overlay_header (x ∷ []) a b c d rest h = absurd (omega arith)
overlay_header (x ∷ y ∷ []) a b c d rest h = absurd (omega arith)
overlay_header (x ∷ y ∷ z ∷ []) a b c d rest h = absurd (omega arith)
overlay_header (x ∷ y ∷ z ∷ w ∷ m) a b c d rest h = refl

pub length-overlay : (m bs : Bytes) → length (overlay m bs) ≡ length m
unfolding overlay
length-overlay m [] = refl
length-overlay [] (b ∷ bs) = refl
length-overlay (c ∷ m) (b ∷ bs) = ap suc (length-overlay m bs)

pub length-poke : (i : ℕ) (bs m : Bytes) → length (poke i bs m) ≡ length m
unfolding poke
length-poke zero bs m = length-overlay m bs
length-poke (suc i) bs [] = refl
length-poke (suc i) bs (c ∷ m) = ap suc (length-poke i bs m)

pub take-overlay : (m bs : Bytes) → length bs ≤ length m → take (length bs) (overlay m bs) ≡ bs
unfolding overlay
take-overlay m [] h = refl
take-overlay [] (b ∷ bs) h = absurd (omega arith)
take-overlay (c ∷ m) (b ∷ bs) h = ap (◌∷◌ b) (take-overlay m bs (omega arith))
