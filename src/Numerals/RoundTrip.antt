-- ===== src/Numerals/RoundTrip.antt =====
-- A number that `str` prints is read back by `int`.
use Prim.Native.Nat.{zero}
use Prim.Native.Char.{Char, code}
use office_attendance_backen.Base.{
  ℕ, suc, ◌+◌, ◌*◌, ◌/◌, ◌%◌, ◌≤◌, ◌<◌, ◌==◌, ◌≡◌, ◌∙◌, ap, sym, refl, arith, String, Bool, true,
  false, some, Bool-cases, inl, inr,
}
use office_attendance_backen.Numerals.{
  pos, digit, emit, str_of, digit_of, scan, lskip, with_sign, signed, int_of,
}

digit-code : (d : ℕ) → d < 10 → code (digit d) ≡ 48 + d
digit-code zero h = refl
digit-code (suc zero) h = refl
digit-code (suc (suc zero)) h = refl
digit-code (suc (suc (suc zero))) h = refl
digit-code (suc (suc (suc (suc zero)))) h = refl
digit-code (suc (suc (suc (suc (suc zero))))) h = refl
digit-code (suc (suc (suc (suc (suc (suc zero)))))) h = refl
digit-code (suc (suc (suc (suc (suc (suc (suc zero))))))) h = refl
digit-code (suc (suc (suc (suc (suc (suc (suc (suc zero)))))))) h = refl
digit-code (suc (suc (suc (suc (suc (suc (suc (suc (suc zero))))))))) h = refl
digit-code (suc (suc (suc (suc (suc (suc (suc (suc (suc (suc n)))))))))) h = absurd (omega arith)

digit_of-digit : (d : ℕ) → d < 10 → digit_of (code (digit d)) ≡ some d
unfolding digit_of
digit_of-digit d h = ground (arith, digit-code d h)

scan-known :
    (after : Bool) (c : Char) (d : ℕ) (s : String) (n : ℕ)
    → digit_of (code c) ≡ some d
    → scan after (String.◌∷◌ c s) n ≡ scan true s (n * 10 + d)
unfolding scan
scan-known after c d s n h = rw (h, scan) refl

scan-digit :
    (after : Bool) (d : ℕ) (s : String) (n : ℕ)
    → d < 10
    → scan after (String.◌∷◌ (digit d) s) n ≡ scan true s (n * 10 + d)
scan-digit after d s n h = scan-known after (digit d) d s n (digit_of-digit d h)

emit-zero : (rounds : ℕ) (out : String) → emit rounds 0 out ≡ out
unfolding emit
emit-zero zero out = refl
emit-zero (suc rounds) out = refl

scan_end : (n : ℕ) → with_sign pos (scan true "" n) ≡ some (pos n)
unfolding scan
scan_end n = refl

-- Reading the digits of `n` in front of a text.
scan-emit :
    (rounds n : ℕ) (out : String) (after : Bool)
    → n ≤ rounds
    → 0 < n
    → scan after (emit rounds n out) 0 ≡ scan true out n
unfolding emit
scan-emit zero n out after h p = absurd (omega arith)
scan-emit (suc rounds) zero out after h p = absurd (omega arith)
scan-emit (suc rounds) (suc m) out after h p =
    let n = suc m in
    let next = String.◌∷◌ (digit (n % 10)) out in
    let last : scan true out (n / 10 * 10 + n % 10) ≡ scan true out n =
      ap (λ k. scan true out k) (omega arith) in
    elim (Bool-cases (n / 10 == 0)) [
      | inl one ↦
          ap (λ k. scan after (emit rounds k next) 0) (ground arith)
          ∙ ap (λ x. scan after x 0) (emit-zero rounds next)
          ∙ scan-digit after (n % 10) out 0 (omega arith)
          ∙ ap (λ k. scan true out k) (ground arith)
      | inr more ↦
          scan-emit rounds (n / 10) next after (ground arith) (ground arith)
          ∙ scan-digit true (n % 10) out (n / 10) (omega arith)
          ∙ last
    ]

-- A text that starts with a digit has no sign and no blanks in front.
signed-digit :
    (c : Char) (d : ℕ) (s : String)
    → code c ≡ 48 + d
    → d < 10
    → signed (lskip (String.◌∷◌ c s)) ≡ with_sign pos (scan false (String.◌∷◌ c s) 0)
unfolding signed lskip
signed-digit c d s e h = ground arith

-- The first digit.
emit-starts :
    (rounds n : ℕ) (out : String)
    → n ≤ rounds
    → 0 < n
    → (d : ℕ) × (rest : String) × (d < 10) × (emit rounds n out ≡ String.◌∷◌ (digit d) rest)
unfolding emit
emit-starts zero n out h p = absurd (omega arith)
emit-starts (suc rounds) zero out h p = absurd (omega arith)
emit-starts (suc rounds) (suc m) out h p =
    let n = suc m in
    let next = String.◌∷◌ (digit (n % 10)) out in
    elim (Bool-cases (n / 10 == 0)) [
      | inl one ↦ (
        n % 10,
        out,
        omega arith,
        ap (λ k. emit rounds k next) (ground arith) ∙ emit-zero rounds next,
      )
      | inr more ↦ emit-starts rounds (n / 10) next (ground arith) (ground arith)
    ]

-- What `str` prints of a number, `int` reads back.
pub int_of-str_of : (n : ℕ) → int_of (str_of n) ≡ some (pos n)
unfolding int_of str_of digit_of
int_of-str_of zero = refl
int_of-str_of (suc m) =
    let (d, rest, small, e) = emit-starts (suc m) (suc m) "" (omega arith) (omega arith) in
    ap (λ s. signed (lskip s)) e
    ∙ signed-digit (digit d) d rest (digit-code d small) small
    ∙ ap (λ s. with_sign pos (scan false s 0)) (sym e)
    ∙ ap (with_sign pos) (scan-emit (suc m) (suc m) "" false (omega arith) (omega arith))
    ∙ scan_end (suc m)
