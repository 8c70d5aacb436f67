-- ===== src/UserInterface/BookingIds.antt =====
-- The booking identifiers that the prompt returns, and the data of the requests that have them.
use sc4051_dist_system_proj.Prelude.{
  ℕ, zero, suc, replicate, All-append, ◌≡◌, ◌≢◌, refl, ap, sym, subst, ◌∙◌, [], ◌∷◌, ◌++◌, List,
  Bytes, Bool, true, false, some, codes, All, length, Bool-cases, inl, inr, arith,
}
use sc4051_dist_system_proj.Text.{getlines, comma, newline}
use sc4051_dist_system_proj.Text.Lines.{Lacks, getlines-cons, getlines_one}
use sc4051_dist_system_proj.UserInterface.Words.{
  matches, is_hex, is_dash, is_four, is_variant, booking_id_classes, is_booking_id,
  prompt_booking_id,
}

-- The class has neither a comma nor a newline.
abbrev IsPlain : (ℕ → Bool) → Type 0
IsPlain class = (class comma ≡ false) × (class newline ≡ false)

hex_classes : (n : ℕ) → All IsPlain (replicate n is_hex)
hex_classes zero = tt
hex_classes (suc n) = ((refl, refl), hex_classes n)

-- The end of the pattern, from each dash on.
abbrev last_part : List (ℕ → Bool)
last_part = is_dash ∷ replicate 12 is_hex

abbrev fourth_part : List (ℕ → Bool)
fourth_part = is_dash ∷ is_variant ∷ (replicate 3 is_hex ++ last_part)

abbrev third_part : List (ℕ → Bool)
third_part = is_dash ∷ is_four ∷ (replicate 3 is_hex ++ fourth_part)

abbrev second_part : List (ℕ → Bool)
second_part = is_dash ∷ (replicate 4 is_hex ++ third_part)

behind_hex :
    (n : ℕ) (part : List (ℕ → Bool)) → All IsPlain part → All IsPlain (replicate n is_hex ++ part)
behind_hex n part h = All-append IsPlain (replicate n is_hex) part (hex_classes n) h

IsPlain-classes : All IsPlain booking_id_classes
IsPlain-classes =
    let fourth = behind_hex 3 last_part ((refl, refl), hex_classes 12) in
    let third = behind_hex 3 fourth_part ((refl, refl), ((refl, refl), fourth)) in
    let second = behind_hex 4 third_part ((refl, refl), ((refl, refl), third)) in
    behind_hex 8 second_part ((refl, refl), second)

abbrev IsSafe : Bytes → Type 0
IsSafe word = Lacks comma word × Lacks newline word

true-ne-false : true ≢ false
true-ne-false h = cc

matches-IsSafe :
    (classes : List (ℕ → Bool)) (word : Bytes)
    → All IsPlain classes
    → matches classes word ≡ true
    → (length word ≡ length classes) × IsSafe word
unfolding matches
matches-IsSafe [] [] h e = (refl, (tt, tt))
matches-IsSafe [] (c ∷ word) h e = cc
matches-IsSafe (class ∷ classes) [] h e = cc
matches-IsSafe (class ∷ classes) (c ∷ word) h e =
    let first : class c ≡ true = ground arith in
    let later : matches classes word ≡ true = ground arith in
    let (size, (no_comma, no_newline)) = matches-IsSafe classes word h.1 later in
    (
      ap suc size,
      (
        (λ is_comma. true-ne-false (sym first ∙ ap class is_comma ∙ h.0.0), no_comma),
        (λ is_newline. true-ne-false (sym first ∙ ap class is_newline ∙ h.0.1), no_newline),
      ),
    )

-- What `promptBookingID` returns has 36 characters and no newline, and no comma, so that the data of
-- the query for this booking has exactly two fields: the word `booking` and the identifier.
pub prompt_booking_id-fields :
    (input rest : List Bytes) (booking_id : Bytes)
    → prompt_booking_id input ≡ some (booking_id, rest)
    → (length booking_id ≡ 36)
      × Lacks newline booking_id
      × (getlines comma (codes "booking," ++ booking_id) ≡ codes "booking" ∷ booking_id ∷ [])
unfolding prompt_booking_id is_booking_id
prompt_booking_id-fields [] rest booking_id h = cc
prompt_booking_id-fields (word ∷ input) rest booking_id h = elim (Bool-cases (is_booking_id word)) [
  | inl valid ↦
      let e : some (word, input) ≡ some (booking_id, rest) = rw valid at h in
      let same : word ≡ booking_id = cc in
      let valid' : is_booking_id booking_id ≡ true =
        subst (λ id. is_booking_id id ≡ true) same valid in
      fields booking_id (matches-IsSafe booking_id_classes booking_id IsPlain-classes valid')
  | inr bad ↦ prompt_booking_id-fields input rest booking_id (rw bad at h)
]
  where
    fields :
        (id : Bytes)
        → (length id ≡ 36) × IsSafe id
        → (length id ≡ 36)
          × Lacks newline id
          × (getlines comma (codes "booking," ++ id) ≡ codes "booking" ∷ id ∷ [])
    fields [] (size, safe) = absurd (omega (arith, size))
    fields (c ∷ id) (size, (no_comma, no_newline)) = (
      size,
      no_newline,
      getlines-cons comma (codes "booking") (c ∷ id) (omega arith)
          ∙ ap (λ l. codes "booking" ∷ l) (getlines_one comma c id no_comma),
    )
