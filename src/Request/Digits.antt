-- ===== src/Request/Digits.antt =====
-- The block size in a request: `sprintf("%05u")` against `atoi`.
use rted_tftp.Base.{
  ℕ, ◌+◌, ◌-◌, ◌*◌, ◌/◌, ◌%◌, ◌<◌, ◌≡◌, refl, ◌∙◌, true, false, ◌&&◌, ◌||◌, [], ◌∷◌, ◌++◌, Bytes,
  arith, ◌==◌, leb,
}
use rted_tftp.CLibrary.{skip_spaces, signed_value16, atoi16, digits_value, c_string}
use rted_tftp.Request.{five_digits, digits_run_off, atoi_runs_off}

-- A character of a digit.
record IsDigit (c : ℕ) : Type 0 where
  digit : (leb 48 c && leb c 57) ≡ true
  no_space : (c == 32 || leb 9 c && leb c 13) ≡ false
  no_minus : (c == 45) ≡ false
  no_plus : (c == 43) ≡ false
  no_zero : (c == 0) ≡ false

char_of-IsDigit : (d : ℕ) → d < 10 → IsDigit (48 + d)
char_of-IsDigit d h = record {
  digit = ground arith;
  no_space = ground arith;
  no_minus = ground arith;
  no_plus = ground arith;
  no_zero = ground arith;
}

skip_spaces-cons : (c : ℕ) (s : Bytes) → IsDigit c → skip_spaces (c ∷ s) ≡ c ∷ s
unfolding skip_spaces
skip_spaces-cons c s f = rw f.no_space refl

digits_value-cons :
    (acc d : ℕ) (s : Bytes)
    → d < 10
    → digits_value acc ((48 + d) ∷ s) ≡ digits_value (acc * 10 + d) s
unfolding digits_value
digits_value-cons acc d s h =
    let f = char_of-IsDigit d h in let e : 48 + d - 48 ≡ d = omega arith in rw (f.digit, e) refl

module _ (a b c d e : ℕ) (ha : a < 10) (hb : b < 10) (hc : c < 10) (hd : d < 10) (he : e < 10) where
  abbrev text : Bytes
  text = (48 + a) ∷ (48 + b) ∷ (48 + c) ∷ (48 + d) ∷ (48 + e) ∷ []

  value_of : digits_value 0 text ≡ a * 10000 + b * 1000 + c * 100 + d * 10 + e
  unfolding digits_value
  value_of =
      digits_value-cons 0 a ((48 + b) ∷ (48 + c) ∷ (48 + d) ∷ (48 + e) ∷ []) ha
      ∙ digits_value-cons (0 * 10 + a) b ((48 + c) ∷ (48 + d) ∷ (48 + e) ∷ []) hb
      ∙ digits_value-cons ((0 * 10 + a) * 10 + b) c ((48 + d) ∷ (48 + e) ∷ []) hc
      ∙ digits_value-cons (((0 * 10 + a) * 10 + b) * 10 + c) d ((48 + e) ∷ []) hd
      ∙ digits_value-cons ((((0 * 10 + a) * 10 + b) * 10 + c) * 10 + d) e [] he
      ∙ omega arith

  atoi16_digits : atoi16 text ≡ (a * 10000 + b * 1000 + c * 100 + d * 10 + e) % 65536
  unfolding atoi16 skip_spaces signed_value16
  atoi16_digits =
      let f = char_of-IsDigit a ha in rw (f.no_space, f.no_minus, f.no_plus, value_of) (omega arith)

  runs_off_digits : (rest : Bytes) → atoi_runs_off (text ++ (0 ∷ rest)) ≡ false
  unfolding digits_run_off atoi_runs_off
  runs_off_digits rest =
      let f = char_of-IsDigit a ha in
      rw
        (
          atoi_runs_off,
          skip_spaces-cons (48 + a) ((48 + b) ∷ (48 + c) ∷ (48 + d) ∷ (48 + e) ∷ 0 ∷ rest) f,
          f.no_minus,
          f.no_plus,
          f.digit,
          (char_of-IsDigit b hb).digit,
          (char_of-IsDigit c hc).digit,
          (char_of-IsDigit d hd).digit,
          (char_of-IsDigit e he).digit,
        )
        refl

  c_string_digits : (rest : Bytes) → c_string (text ++ (0 ∷ rest)) ≡ text
  unfolding c_string
  c_string_digits rest =
      rw
        (
          (char_of-IsDigit a ha).no_zero,
          (char_of-IsDigit b hb).no_zero,
          (char_of-IsDigit c hc).no_zero,
          (char_of-IsDigit d hd).no_zero,
          (char_of-IsDigit e he).no_zero,
        )
        refl

pub atoi16-five_digits : (n : ℕ) → n < 65536 → atoi16 (five_digits n) ≡ n
unfolding five_digits
atoi16-five_digits n h =
    atoi16_digits (n / 10000 % 10) (n / 1000 % 10) (n / 100 % 10) (n / 10 % 10) (n % 10)
      (omega arith) (omega arith) (omega arith) (omega arith) (omega arith)
    ∙ omega arith

pub atoi_runs_off-five_digits :
    (n : ℕ) (rest : Bytes) → atoi_runs_off (five_digits n ++ (0 ∷ rest)) ≡ false
unfolding five_digits
atoi_runs_off-five_digits n rest =
    runs_off_digits (n / 10000 % 10) (n / 1000 % 10) (n / 100 % 10) (n / 10 % 10) (n % 10)
      (omega arith) (omega arith) (omega arith) (omega arith) (omega arith) rest

pub c_string-five_digits :
    (n : ℕ) (rest : Bytes) → c_string (five_digits n ++ (0 ∷ rest)) ≡ five_digits n
unfolding five_digits
c_string-five_digits n rest =
    c_string_digits (n / 10000 % 10) (n / 1000 % 10) (n / 100 % 10) (n / 10 % 10) (n % 10)
      (omega arith) (omega arith) (omega arith) (omega arith) (omega arith) rest
