-- ===== src/UserInterface/Answers.antt =====
-- What the prompts give to the requests.
use sc4051_dist_system_proj.Prelude.{
  ℕ, ◌+◌, ◌-◌, ◌*◌, ◌<◌, ◌≤◌, ◌≡◌, subst, [], ◌∷◌, List, Bytes, true, some, Bool-cases, inl, inr,
  arith,
}
use sc4051_dist_system_proj.Prelude.Int.{pos}
use sc4051_dist_system_proj.Client.Details.{clock}
use sc4051_dist_system_proj.UserInterface.Prompts.{is_time, prompt_time, chosen_day}

-- A time of day.
pub record IsTime (time : Bytes) : Type 0 where
  pub hour : ℕ
  pub minute : ℕ
  pub hour_range : hour < 24
  pub minute_range : minute < 60
  pub is_clock : time ≡ clock hour minute

four_digits :
    (a b c d : ℕ)
    → is_time (a ∷ b ∷ c ∷ d ∷ []) ≡ true
    → (48 ≤ a)
      × (48 ≤ b)
      × (b < 58)
      × (48 ≤ c)
      × (c < 54)
      × (48 ≤ d)
      × (d < 58)
      × ((a - 48) * 10 + (b - 48) < 24)
      × (a < 51)
unfolding is_time
four_digits a b c d h = ground arith

same_four :
    {a b c d a' b' c' d' : ℕ}
    → a ≡ a'
    → b ≡ b'
    → c ≡ c'
    → d ≡ d'
    → a ∷ b ∷ c ∷ d ∷ [] ≡ a' ∷ b' ∷ c' ∷ d' ∷ []
same_four p q r s = cc

is_time-IsTime : (time : Bytes) → is_time time ≡ true → IsTime time
unfolding is_time
is_time-IsTime [] h = cc
is_time-IsTime (a ∷ []) h = cc
is_time-IsTime (a ∷ b ∷ []) h = cc
is_time-IsTime (a ∷ b ∷ c ∷ []) h = cc
is_time-IsTime (a ∷ b ∷ c ∷ d ∷ e ∷ s) h = cc
is_time-IsTime (a ∷ b ∷ c ∷ d ∷ []) h =
    let r = four_digits a b c d h in
    let hour = (a - 48) * 10 + (b - 48) in
    let minute = (c - 48) * 10 + (d - 48) in
    record {
      hour = hour;
      minute = minute;
      hour_range = r.7;
      minute_range = omega arith;
      is_clock = same_four (omega arith) (omega arith) (omega arith) (omega arith);
    }

-- When `promptTime` returns, its result is a time of day in the form HHMM.
pub prompt_time-IsTime :
    (input rest : List Bytes) (time : Bytes) → prompt_time input ≡ some (time, rest) → IsTime time
unfolding prompt_time
prompt_time-IsTime [] rest time h = cc
prompt_time-IsTime (word ∷ input) rest time h = elim (Bool-cases (is_time word)) [
  | inl valid ↦
      let e : some (word, input) ≡ some (time, rest) = rw valid at h in
      let same : word ≡ time = cc in subst IsTime same (is_time-IsTime word valid)
  | inr bad ↦ prompt_time-IsTime input rest time (rw bad at h)
]

-- The number of a day, as it is typed.
abbrev pub IsDayNumber : ℕ → Type 0
IsDayNumber n = (0 < n) × (n < 8)

abbrev pub digit : ℕ → Bytes
digit n = (48 + n) ∷ []

abbrev pub day : ℕ → Bytes
day n = chosen_day (pos n)
