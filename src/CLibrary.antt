-- ===== src/CLibrary.antt =====
-- What tftp_common.c and server.c use of the C library on strings: `strcasecmp`, `atoi` as `strtol`
-- computes it, and a string that ends at the first zero cell.
use rted_tftp.Base.{
  ℕ, ◌+◌, ◌-◌, ◌*◌, ◌%◌, ◌^◌, Bool, true, false, ◌&&◌, ◌||◌, [], ◌∷◌, Bytes, if◌then◌else◌, ◌==◌,
  leb, min,
}

unfoldable pub tolower : ℕ → ℕ
tolower c = if leb 65 c && leb c 90 then c + 32 else c

-- `strcasecmp(s, t) == 0`
unfoldable pub is_strcasecmp_equal : Bytes → Bytes → Bool
is_strcasecmp_equal [] [] = true
is_strcasecmp_equal [] (d ∷ t) = false
is_strcasecmp_equal (c ∷ s) [] = false
is_strcasecmp_equal (c ∷ s) (d ∷ t) = (tolower c == tolower d) && is_strcasecmp_equal s t

-- The value of the digits at the front, `acc` being those before.
unfoldable pub digits_value : ℕ → Bytes → ℕ
digits_value acc [] = acc
digits_value acc (c ∷ s) =
    let rest = digits_value (acc * 10 + (c - 48)) s in if leb 48 c && leb c 57 then rest else acc

unfoldable pub skip_spaces : Bytes → Bytes
skip_spaces [] = []
skip_spaces (c ∷ s) = if c == 32 || leb 9 c && leb c 13 then skip_spaces s else c ∷ s

unfoldable pub signed_value16 : Bytes → ℕ
signed_value16 [] = 0
signed_value16 (c ∷ s) =
    if c == 45
    then (2 ^ 64 - min (digits_value 0 s) (2 ^ 63)) % 65536
    else if c == 43
    then min (digits_value 0 s) (2 ^ 63 - 1) % 65536
    else min (digits_value 0 (c ∷ s)) (2 ^ 63 - 1) % 65536

-- `atoi` stored in a `uint16_t`: the value in 64 bits, which saturates, and of it the low 16 bits.
unfoldable pub atoi16 : Bytes → ℕ
atoi16 s = signed_value16 (skip_spaces s)

-- The string that begins at the first cell.
unfoldable pub c_string : Bytes → Bytes
c_string [] = []
c_string (c ∷ m) = if c == 0 then [] else c ∷ c_string m
