-- ===== src/Text/Numbers.antt =====
-- What the client's code uses of `std::to_string` and `std::stoi` on the type `int`.
use sc4051_dist_system_proj.Prelude.{
  ℕ, zero, suc, ◌+◌, ◌-◌, ◌*◌, ◌/◌, ◌%◌, ◌^◌, ◌<◌, ◌≡◌, refl, ap, sym, subst, append-nil, ◌∙◌, [],
  ◌∷◌, ◌++◌, Bytes, Bool, true, false, ◌&&◌, ◌||◌, Option, none, some, ltb, leb, ◌==◌,
  if◌then◌else◌, arith, append_assoc, Bool-cases, inl, inr,
}
use native.Mathlib.Numerals.{unary_clauses}
use sc4051_dist_system_proj.Prelude.Int.{ℤ, pos, negsuc, IsInt32}

-- The decimal digits; ten are enough for the values of an `int`.
unfoldable pub digits_upto : ℕ → ℕ → Bytes
digits_upto zero n = []
digits_upto (suc fuel) n =
    let front = digits_upto fuel (n / 10) in
    if ltb n 10 then (48 + n) ∷ [] else front ++ (48 + n % 10) ∷ []

-- `std::to_string` of an `int`
unfoldable pub to_string : ℤ → Bytes
to_string (pos n) = digits_upto 10 n
to_string (negsuc n) = 45 ∷ digits_upto 10 (suc n)

abbrev pub is_space : ℕ → Bool
is_space c = c == 32 || (leb 9 c && ltb c 14)

abbrev pub is_digit : ℕ → Bool
is_digit c = leb 48 c && ltb c 58

-- The value of the leading digits, on top of the value of the digits before them.
unfoldable pub read_digits : ℕ → Bytes → ℕ
read_digits n [] = n
read_digits n (c ∷ s) =
    let rest = read_digits (n * 10 + (c - 48)) s in if is_digit c then rest else n

abbrev pub negate : ℕ → ℤ
negate zero = pos 0
negate (suc n) = negsuc n

-- The number after the sign: there must be a digit.
unfoldable pub unsigned_number : Bytes → Option ℕ
unsigned_number [] = none
unsigned_number (c ∷ s) = if is_digit c then some (read_digits 0 (c ∷ s)) else none

abbrev pub signed_number : Bytes → Option ℤ
signed_number [] = none
signed_number (c ∷ s) =
    if c == 45
    then elim (unsigned_number s) [ none ↦ none | some n ↦ some (negate n) ]
    else elim (unsigned_number (if c == 43 then s else c ∷ s)) [
      | none ↦ none
      | some n ↦ some (pos n)
    ]

-- `std::stoi` of a text of few digits, whose number is in the range of an `int`; `none` is an
-- exception.
unfoldable pub stoi : Bytes → Option ℤ
stoi [] = none
stoi (c ∷ s) = let later = stoi s in if is_space c then later else signed_number (c ∷ s)

read_digits-append :
    (fuel n : ℕ) (more : Bytes)
    → n < 10 ^ fuel
    → read_digits 0 (digits_upto fuel n ++ more) ≡ read_digits n more
unfolding read_digits digits_upto
read_digits-append zero n more h = ap (λ k. read_digits k more) (omega arith)
read_digits-append (suc fuel) n more h = elim (Bool-cases (ltb n 10)) [
  | inl one ↦
      let d : is_digit (48 + n) ≡ true = ground arith in
      rw (one, d) (ap (λ k. read_digits k more) (omega arith))
  | inr many ↦
      let d : is_digit (48 + n % 10) ≡ true = ground arith in
      let lt : n / 10 < 10 ^ fuel = (let h' = simp unary_clauses at h in omega arith) in
      let front = read_digits-append fuel (n / 10) ((48 + n % 10) ∷ more) lt in
      rw (many, append_assoc) (front ∙ rw d (ap (λ k. read_digits k more) (omega arith)))
]

-- The text of a number is never empty, and begins with a digit.
digits_upto-cons :
    (fuel n : ℕ)
    → (d : ℕ) × (rest : Bytes) × (digits_upto (suc fuel) n ≡ d ∷ rest) × (is_digit d ≡ true)
unfolding digits_upto
digits_upto-cons zero n = elim (Bool-cases (ltb n 10)) [
  | inl one ↦ (48 + n, [], rw one refl, ground arith)
  | inr many ↦ (48 + n % 10, [], rw many refl, ground arith)
]
digits_upto-cons (suc fuel) n = elim (Bool-cases (ltb n 10)) [
  | inl one ↦ (48 + n, [], rw one refl, ground arith)
  | inr many ↦
      let (d, rest, e, digit) = digits_upto-cons fuel (n / 10) in
      (d, rest ++ (48 + n % 10) ∷ [], rw many (ap (λ l. l ++ (48 + n % 10) ∷ []) e), digit)
]

unsigned_number-digits : (n : ℕ) → n < 10 ^ 10 → unsigned_number (digits_upto 10 n) ≡ some n
unfolding unsigned_number read_digits
unsigned_number-digits n small =
    let (d, rest, e, digit) = digits_upto-cons 9 n in
    let value : read_digits 0 (digits_upto 10 n) ≡ n =
      ap (read_digits 0) (sym (append-nil (digits_upto 10 n))) ∙ read_digits-append 10 n [] small in
    let value' : read_digits 0 (d ∷ rest) ≡ n = subst (λ l. read_digits 0 l ≡ n) e value in
    subst (λ l. unsigned_number l ≡ some n) (sym e) (by_digit d rest digit value')
  where
    by_digit :
        (d : ℕ) (rest : Bytes)
        → is_digit d ≡ true
        → read_digits 0 (d ∷ rest) ≡ n
        → unsigned_number (d ∷ rest) ≡ some n
    by_digit d rest digit value = rw digit (ap some (rw digit at value))

-- The decimal text of an `int` is read back as the same number.
pub stoi-to_string : (z : ℤ) → IsInt32 z → stoi (to_string z) ≡ some z
unfolding stoi to_string
stoi-to_string (negsuc n) range = rw (unsigned_number-digits (suc n) (omega arith)) refl
stoi-to_string (pos n) range =
    let (d, rest, e, digit) = digits_upto-cons 9 n in
    let number =
      subst (λ l. unsigned_number l ≡ some n) e (unsigned_number-digits n (omega arith)) in
    subst (λ l. stoi l ≡ some (pos n)) (sym e) (by_digit d rest digit number)
  where
    by_digit :
        (d : ℕ) (rest : Bytes)
        → is_digit d ≡ true
        → unsigned_number (d ∷ rest) ≡ some n
        → stoi (d ∷ rest) ≡ some (pos n)
    by_digit d rest digit number =
        let no_space : is_space d ≡ false = ground arith in
        let no_minus : (d == 45) ≡ false = ground arith in
        let no_plus : (d == 43) ≡ false = ground arith in
        rw (no_space, no_minus, no_plus, number) refl
