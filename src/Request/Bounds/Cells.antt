-- ===== src/Request/Bounds/Cells.antt =====
-- Strings, keys and numbers in cells that end with two zeros, as `server_parse_request_data` reads them.
use rted_tftp.Base.{
  suc, ◌≡◌, refl, ◌∙◌, ◌⊎◌, inl, inr, Bool, true, false, [], ◌∷◌, ◌++◌, some, length, drop, Bytes,
  ◌==◌, leb, ◌||◌, ◌&&◌, arith, Bool-cases, All, if◌then◌else◌,
}
use rted_tftp.Protocol.{tftp_blksize_string}
use rted_tftp.CLibrary.{tolower, skip_spaces}
use rted_tftp.Request.{terminated, compare_cells, digits_run_off, atoi_runs_off}

-- Cells of which the last two are zero.
abbrev pub free_end : Bytes → Bytes
free_end p = p ++ (0 ∷ 0 ∷ [])

-- What may follow a string in such cells.
abbrev pub Follows : Bytes → Type 0
Follows m = ((p : Bytes) × (m ≡ free_end p)) ⊎ (m ≡ 0 ∷ [])

-- A string is found, and what follows it; if just one cell does, the string has all cells before.
pub terminated-free_end :
    (p : Bytes)
    → (s : Bytes) × (terminated (free_end p) ≡ some s)
      × (((q : Bytes) × (drop (suc (length s)) (free_end p) ≡ free_end q))
          ⊎ ((drop (suc (length s)) (free_end p) ≡ 0 ∷ []) × (length s ≡ length p)))
unfolding terminated
terminated-free_end [] = ([], refl, inr (refl, refl))
terminated-free_end (c ∷ p) = elim (Bool-cases (c == 0)) [
  | inl e ↦ ([], rw e refl, inl (p, refl))
  | inr e ↦
      let (s, found, rest) = terminated-free_end p in
      (
        c ∷ s,
        rw (e, found) refl,
        elim rest [ inl (q, r) ↦ inl (q, r) | inr (r, len) ↦ inr (r, omega arith) ],
      )
]

-- A comparison with a key stays within the cells.
pub compare_cells-free_end :
    (p t : Bytes)
    → All (λ d. (tolower 0 == tolower d) ≡ false) t
    → (compare_cells (free_end p) t ≡ some false)
      ⊎ ((compare_cells (free_end p) t ≡ some true) × Follows (drop (suc (length t)) (free_end p)))
unfolding compare_cells
compare_cells-free_end [] [] a = inr (refl, inr refl)
compare_cells-free_end [] (d ∷ t) (e, a) = inl (rw e refl)
compare_cells-free_end (c ∷ p) [] a = elim (Bool-cases (c == 0)) [
  | inl e ↦ inr (rw e refl, inl (p, refl))
  | inr e ↦ inl (rw e refl)
]
compare_cells-free_end (c ∷ p) (d ∷ t) (z, a) = elim (Bool-cases (tolower c == tolower d)) [
  | inl e ↦ elim (compare_cells-free_end p t a) [
    | inl f ↦ inl (rw (e, f) refl)
    | inr (f, r) ↦ inr (rw (e, f) refl, r)
  ]
  | inr e ↦ inl (rw e refl)
]

digits_run_off-zero : (p rest : Bytes) → digits_run_off (p ++ (0 ∷ rest)) ≡ false
unfolding digits_run_off
digits_run_off-zero [] rest = refl
digits_run_off-zero (c ∷ p) rest = elim (Bool-cases (leb 48 c && leb c 57)) [
  | inl e ↦ rw e (digits_run_off-zero p rest)
  | inr e ↦ rw e refl
]

skip_spaces-zero :
    (p rest : Bytes) → (q : Bytes) × (skip_spaces (p ++ (0 ∷ rest)) ≡ q ++ (0 ∷ rest))
unfolding skip_spaces
skip_spaces-zero [] rest = ([], refl)
skip_spaces-zero (c ∷ p) rest = elim (Bool-cases (c == 32 || leb 9 c && leb c 13)) [
  | inl e ↦ let (q, f) = skip_spaces-zero p rest in (q, rw (e, f) refl)
  | inr e ↦ (c ∷ p, rw e refl)
]

abbrev after_spaces : Bytes → Bool
after_spaces [] = true
after_spaces (c ∷ m) = if c == 45 || c == 43 then digits_run_off m else digits_run_off (c ∷ m)

atoi_runs_off-after_spaces : (m n : Bytes) → skip_spaces m ≡ n → atoi_runs_off m ≡ after_spaces n
unfolding atoi_runs_off
atoi_runs_off-after_spaces m [] e = rw (atoi_runs_off, e) refl
atoi_runs_off-after_spaces m (c ∷ n) e = rw (atoi_runs_off, e) refl

after_spaces-zero : (q rest : Bytes) → after_spaces (q ++ (0 ∷ rest)) ≡ false
unfolding digits_run_off
after_spaces-zero [] rest = refl
after_spaces-zero (c ∷ q) rest = elim (Bool-cases (c == 45 || c == 43)) [
  | inl e ↦ rw e (digits_run_off-zero q rest)
  | inr e ↦ rw e (digits_run_off-zero (c ∷ q) rest)
]

atoi_runs_off-zero : (p rest : Bytes) → atoi_runs_off (p ++ (0 ∷ rest)) ≡ false
atoi_runs_off-zero p rest =
    let (q, e) = skip_spaces-zero p rest in
    atoi_runs_off-after_spaces (p ++ (0 ∷ rest)) (q ++ (0 ∷ rest)) e ∙ after_spaces-zero q rest

-- A block size string in such cells is read within them.
pub octets_read : (m : Bytes) → Follows m → atoi_runs_off m ≡ false
octets_read m (inl (p, e)) = rw e (atoi_runs_off-zero p (0 ∷ []))
octets_read m (inr e) = rw e (atoi_runs_off-zero [] [])

pub key_cells : All (λ d. (tolower 0 == tolower d) ≡ false) tftp_blksize_string
unfolding tolower
key_cells = (refl, (refl, (refl, (refl, (refl, (refl, (refl, tt)))))))

pub one_cell : compare_cells (0 ∷ []) tftp_blksize_string ≡ some false
unfolding compare_cells tolower
one_cell = refl
