-- ===== src/Client/Details.antt =====
-- The fields that `Client::updateBooking` extracts from the details of a booking, and the times
-- that it makes of them.
use sc4051_dist_system_proj.Prelude.{
  ℕ, ◌+◌, ◌*◌, ◌/◌, ◌%◌, ◌<◌, ◌≡◌, refl, ap, [], ◌∷◌, ◌++◌, Bytes, true, false, none, some, drop,
  length, ◌==◌, ◌⊎◌, inl, inr, arith, append_assoc, append-nil, length-append, drop-length-append,
  take-length-append,
}
use sc4051_dist_system_proj.Prelude.Int.{ℤ, pos}
use sc4051_dist_system_proj.Text.{find, newline}
use sc4051_dist_system_proj.Text.Lines.{Lacks}
use sc4051_dist_system_proj.Text.Numbers.{stoi, unsigned_number, read_digits, is_digit, is_space}
use sc4051_dist_system_proj.Client.Requests.{
  substr_at, line_to, value_behind, value_of, ◌+ℤ◌, total_minutes,
}

-- The first place of the key is behind `before`, and the value stands there, up to the end of its
-- line or of the text.
pub record HasField (key value details : Bytes) : Type 0 where
  pub before : Bytes
  pub rest : Bytes
  pub text : details ≡ before ++ (key ++ (value ++ rest))
  pub first : find key details ≡ some (length before)
  pub one_line : Lacks newline value
  pub ends : (rest ≡ []) ⊎ ((more : Bytes) × (rest ≡ newline ∷ more))

find-newline :
    (value more : Bytes)
    → Lacks newline value
    → find (newline ∷ []) (value ++ newline ∷ more) ≡ some (length value)
unfolding find
find-newline [] more h = refl
find-newline (c ∷ value) more h =
    let other : (newline == c) ≡ false = ground (arith, h.0) in
    rw (other, find-newline value more h.1) refl

find-no_newline : (value : Bytes) → Lacks newline value → find (newline ∷ []) value ≡ none
unfolding find
find-no_newline [] h = refl
find-no_newline (c ∷ value) h =
    let other : (newline == c) ≡ false = ground (arith, h.0) in
    rw (other, find-no_newline value h.1) refl

-- Where the value stands, the text from its start is the value and what follows.
value_start :
    (key value details : Bytes) (h : HasField key value details)
    → drop (length h.before + length key) details ≡ value ++ h.rest
value_start key value details h =
    rw (h.text, ← append_assoc h.before key (value ++ h.rest), ← length-append h.before key)
      (drop-length-append (h.before ++ key) (value ++ h.rest))

line_to_lem :
    (value rest : Bytes)
    → Lacks newline value
    → (rest ≡ []) ⊎ ((more : Bytes) × (rest ≡ newline ∷ more))
    → line_to (value ++ rest) (find (newline ∷ []) (value ++ rest)) ≡ value
unfolding line_to
line_to_lem value rest h (inl e) = rw (e, append-nil value, find-no_newline value h) refl
line_to_lem value rest h (inr (more, e)) =
    rw (e, find-newline value more h) (take-length-append value (newline ∷ more))

pub value_of-HasField :
    (key value details : Bytes) → HasField key value details → value_of key details ≡ value
unfolding value_of value_behind
value_of-HasField key value details h =
    rw (h.first, value_start key value details h) (line_to_lem value h.rest h.one_line h.ends)

-- Two decimal digits.
abbrev pub two : ℕ → Bytes
two n = (48 + n / 10) ∷ (48 + n % 10) ∷ []

-- The time of day in the form HHMM.
abbrev pub clock : ℕ → ℕ → Bytes
clock hour minute = two hour ++ two minute

stoi-two : (n : ℕ) → n < 100 → stoi (two n) ≡ some (pos n)
unfolding stoi unsigned_number read_digits
stoi-two n h =
    let high : is_digit (48 + n / 10) ≡ true = ground arith in
    let low : is_digit (48 + n % 10) ≡ true = ground arith in
    let no_space : is_space (48 + n / 10) ≡ false = ground arith in
    let no_minus : (48 + n / 10 == 45) ≡ false = ground arith in
    let no_plus : (48 + n / 10 == 43) ≡ false = ground arith in
    rw (no_space, no_minus, no_plus, high, low) (ap (λ k. some (pos k)) (omega arith))

pub total_minutes-clock :
    (hour minute : ℕ) (offset : ℤ)
    → hour < 100
    → minute < 100
    → total_minutes (clock hour minute) offset ≡ some (pos (hour * 60 + minute) +ℤ offset)
unfolding total_minutes substr_at
total_minutes-clock hour minute offset h m = rw (stoi-two hour h, stoi-two minute m) refl
