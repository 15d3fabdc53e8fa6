-- ===== src/Request/Reading.antt =====
-- How `server_parse_request_data` reads the strings of a well-formed request.
use rted_tftp.Base.{
  ℕ, ◌+◌, ◌<◌, ◌≡◌, ◌≢◌, refl, sym, ap, ◌∙◌, inl, inr, true, [], ◌∷◌, ◌++◌, Option, none, some,
  length, drop, Bytes, codes, if◌then◌else◌, arith, All, length-append, append_assoc, drop-append,
  drop-drop, ◌==◌, ==_iff, Bool-cases, ltb,
}
use rted_tftp.Protocol.{tftp_blksize_string}
use rted_tftp.CLibrary.{c_string, atoi16}
use rted_tftp.Request.{
  is_custom, five_digits, terminated, compare_cells, read_octets, on_option, on_mode, on_name,
  request_fields, fields,
}
use rted_tftp.Request.Digits.{atoi_runs_off-five_digits, c_string-five_digits}
use rted_tftp.Request.Names.{IsName}

terminated-append :
    (name rest : Bytes)
    → All (λ c. (c ≢ 0) × (c ≢ 47)) name
    → terminated (name ++ (0 ∷ rest)) ≡ some name
unfolding terminated
terminated-append [] rest a = refl
terminated-append (c ∷ name) rest (d, a) = elim (Bool-cases (c == 0)) [
  | inl e ↦ absurd (d.0 ((==_iff c 0).0 e))
  | inr e ↦ rw (e, terminated-append name rest a) refl
]

pub c_string-append :
    (name rest : Bytes) → All (λ c. (c ≢ 0) × (c ≢ 47)) name → c_string (name ++ (0 ∷ rest)) ≡ name
unfolding c_string
c_string-append [] rest a = refl
c_string-append (c ∷ name) rest (d, a) = elim (Bool-cases (c == 0)) [
  | inl e ↦ absurd (d.0 ((==_iff c 0).0 e))
  | inr e ↦ rw (e, c_string-append name rest a) refl
]

drop_past : (k : ℕ) (name rest : Bytes) → k ≡ length name + 1 → drop k (name ++ (0 ∷ rest)) ≡ rest
drop_past k name rest e =
    ap (drop k) (sym (append_assoc name (0 ∷ []) rest))
    ∙ drop-append k (name ++ (0 ∷ [])) rest (omega (arith, length-append name (0 ∷ [])))

-- The contents of a request as they stand in the server's buffer, up to the end of the mode.
abbrev pub contents_of : Bytes → Bytes → Bytes
contents_of name rest = name ++ (0 ∷ (codes "octet" ++ (0 ∷ rest)))

-- The option, or its absence.
abbrev pub option_cells : ℕ → Bytes → Bytes
option_cells bs rest =
    if is_custom bs then codes "blksize" ++ (0 ∷ (five_digits bs ++ (0 ∷ rest))) else 0 ∷ rest

abbrev pub size_string : ℕ → Option Bytes
size_string bs = if is_custom bs then some (five_digits bs) else none

module _ (name rest : Bytes) (bs received : ℕ) (a : IsName name) where
  at_mode :
      (tail : Bytes) → drop (length name + 1) (contents_of name tail) ≡ codes "octet" ++ (0 ∷ tail)
  at_mode tail = drop_past (length name + 1) name (codes "octet" ++ (0 ∷ tail)) refl

  at_option : (k : ℕ) (tail : Bytes) → k ≡ length name + 7 → drop k (contents_of name tail) ≡ tail
  at_option k tail e =
      sym (drop-drop (length name + 1) 6 k (contents_of name tail) (omega arith))
      ∙ ap (drop 6) (at_mode tail)

  at_digits :
      (k : ℕ) (tail : Bytes)
      → k ≡ length name + 15
      → drop k (contents_of name (codes "blksize" ++ (0 ∷ tail))) ≡ tail
  at_digits k tail e =
      sym (
        drop-drop (length name + 7) 8 k (contents_of name (codes "blksize" ++ (0 ∷ tail)))
          (omega arith))
      ∙ ap (drop 8) (at_option (length name + 7) (codes "blksize" ++ (0 ∷ tail)) refl)

  to_option :
      (tail : Bytes)
      → length name + 5 < received
      → request_fields (contents_of name tail) received
        ≡ on_option
            (contents_of name tail)
            (codes "octet")
            (length name + 1 + 6)
            received
            (compare_cells tail tftp_blksize_string)
  unfolding request_fields on_name on_mode terminated
  to_option tail h =
      let lt : ltb (length name + 1 + 4) received ≡ true = ground arith in
      rw
        (
          terminated-append name (codes "octet" ++ (0 ∷ tail)) a.0,
          at_mode tail,
          lt,
          at_option (length name + 1 + 6) tail (omega arith),
        )
        refl

  pub plain_fields :
      length name + 5 < received
      → request_fields (contents_of name (0 ∷ rest)) received ≡ fields (codes "octet") none
  unfolding on_option compare_cells rted_tftp.CLibrary.tolower
  plain_fields h = to_option (0 ∷ rest) h

  pub custom_fields :
      length name + 11 < received
      → request_fields
          (contents_of name (codes "blksize" ++ (0 ∷ (five_digits bs ++ (0 ∷ rest)))))
          received
        ≡ fields (codes "octet") (some (five_digits bs))
  unfolding on_option compare_cells rted_tftp.CLibrary.tolower read_octets
  custom_fields h =
      let tail = five_digits bs ++ (0 ∷ rest) in
      let lt : ltb (length name + 1 + 6 + 4) received ≡ true = ground arith in
      to_option (codes "blksize" ++ (0 ∷ tail)) (omega arith)
      ∙ rw
          (
            lt,
            at_digits (length name + 1 + 6 + 7 + 1) tail (omega arith),
            atoi_runs_off-five_digits bs rest,
            c_string-five_digits bs rest,
          )
          refl
