-- ===== src/Transfer/Blocks.antt =====
-- The file as the two ends of a transfer see it: cut into blocks, each with its number.
use rted_tftp.Base.{
  ℕ, zero, suc, ◌+◌, ◌-◌, ◌*◌, ◌/◌, ◌%◌, ◌<◌, ◌≤◌, ◌≡◌, min, List, [], ◌∷◌, ◌++◌, length, take,
  drop, Bytes, arith, length-take, length-drop, take-add, drop-drop,
}
use native.Mathlib.Nat.{div-add-mod, mod-lt}
use rted_tftp.Packet.{Endian, data_packet, ack_packet}

-- Block `i`, counted from 0.
abbrev pub chunk : ℕ → Bytes → ℕ → Bytes
chunk bs file i = take bs (drop (i * bs) file)

-- The number that block `i` goes by: they start at 1, and wrap at 16 bits.
abbrev pub number_of : ℕ → ℕ
number_of i = (i + 1) % 65536

abbrev pub block_packet : Endian → ℕ → Bytes → ℕ → Bytes
block_packet e bs file i = data_packet e (number_of i) (chunk bs file i)

-- The packets of `k` blocks from block `i` on, and their acknowledgements.
abbrev pub block_packets : Endian → ℕ → Bytes → ℕ → ℕ → List Bytes
block_packets e bs file i zero = []
block_packets e bs file i (suc k) = block_packet e bs file i ∷ block_packets e bs file (i + 1) k

abbrev pub ack_packets : Endian → ℕ → ℕ → List Bytes
ack_packets e i zero = []
ack_packets e i (suc k) = ack_packet e (number_of i) ∷ ack_packets e (i + 1) k

-- A file is sent in this many blocks: all but the last are full.
abbrev pub block_count : ℕ → Bytes → ℕ
block_count bs file = suc (length file / bs)

pub length-chunk :
    (bs : ℕ) (file : Bytes) (i : ℕ) → length (chunk bs file i) ≡ min bs (length file - i * bs)
length-chunk bs file i =
    omega (arith, length-take bs (drop (i * bs) file), length-drop (i * bs) file)

pub drop-next :
    (bs : ℕ) (file : Bytes) (i : ℕ) → drop bs (drop (i * bs) file) ≡ drop ((i + 1) * bs) file
drop-next bs file i = drop-drop (i * bs) bs ((i + 1) * bs) file (grind arith)

pub take-next :
    (bs : ℕ) (file : Bytes) (i : ℕ)
    → take ((i + 1) * bs) file ≡ take (i * bs) file ++ chunk bs file i
take-next bs file i = take-add (i * bs) bs ((i + 1) * bs) file (grind arith)

below_quotient : (bs n i : ℕ) → 0 < bs → i < n / bs → i * bs + bs ≤ n
below_quotient bs n i b h = grind (arith, div-add-mod n bs)

at_quotient : (bs n i : ℕ) → 0 < bs → i ≡ n / bs → n - i * bs ≡ n % bs
at_quotient bs n i b h = grind (arith, div-add-mod n bs)

-- Every block before the last one is full, and the last one is not.
pub full_chunk :
    (bs : ℕ) (file : Bytes) (i : ℕ)
    → 0 < bs
    → i + 1 < block_count bs file
    → length (chunk bs file i) ≡ bs
full_chunk bs file i b h =
    omega (arith, length-chunk bs file i, below_quotient bs (length file) i b (omega arith))

pub last_chunk :
    (bs : ℕ) (file : Bytes) (i : ℕ)
    → 0 < bs
    → i + 1 ≡ block_count bs file
    → length (chunk bs file i) ≡ length file % bs
last_chunk bs file i b h = omega (
  arith,
  length-chunk bs file i,
  at_quotient bs (length file) i b (omega arith),
  mod-lt (length file) b,
)

pub quotient-le : (n d : ℕ) → 0 < d → n / d ≤ n
quotient-le n d h = grind (arith, div-add-mod n d)

above_quotient : (bs n i : ℕ) → 0 < bs → i * bs + bs ≤ n → i < n / bs
above_quotient bs n i b h = grind (arith, div-add-mod n bs, mod-lt n b)

-- A full block is not the last one, and after one that is not full there is nothing left.
pub next_block :
    (bs : ℕ) (file : Bytes) (i : ℕ)
    → 0 < bs
    → length (chunk bs file i) ≡ bs
    → i + 1 < block_count bs file
next_block bs file i b h =
    omega (arith, above_quotient bs (length file) i b (omega (arith, length-chunk bs file i)))

pub after_last :
    (bs : ℕ) (file : Bytes) (i : ℕ) → length (chunk bs file i) < bs → length file ≤ (i + 1) * bs
after_last bs file i h = omega (arith, length-chunk bs file i)
