-- ===== src/ResponseParser/Keyed.antt =====
-- The lines `key:value` of a reply in the formats of API_Specification.md.
use sc4051_dist_system_proj.Prelude.{
  ℕ, String, not, ◌||◌, ◌==◌, ◌≡◌, ◌≢◌, [], ◌∷◌, ◌++◌, List, Bytes, Bool, true, false, codes, arith,
  All-append,
}
use sc4051_dist_system_proj.Text.{newline}
use sc4051_dist_system_proj.Text.Lines.{Lacks, IsLine, join}
use sc4051_dist_system_proj.ResponseParser.{status_success, is_error_response}
use sc4051_dist_system_proj.ResponseParser.Errors.{status_success_line}

-- The test of a key: it is not empty and has no newline.
unfoldable pub has_newline : Bytes → Bool
has_newline [] = false
has_newline (c ∷ s) = c == newline || has_newline s

Lacks-of_test : (s : Bytes) → has_newline s ≡ false → Lacks newline s
unfolding has_newline
Lacks-of_test [] h = tt
Lacks-of_test (c ∷ s) h = (ground arith, Lacks-of_test s (ground arith))

keyed :
    (c : ℕ) (key value : Bytes)
    → Lacks newline (c ∷ key)
    → Lacks newline value
    → IsLine newline (c ∷ key ++ value)
keyed c key value h hv = (All-append (λ c. c ≢ newline) (c ∷ key) value h hv, λ e. cc)

abbrev pub is_key : Bytes → Bool
is_key [] = false
is_key (c ∷ key) = not (has_newline (c ∷ key))

keyed-IsLine :
    (key value : Bytes) → is_key key ≡ true → Lacks newline value → IsLine newline (key ++ value)
keyed-IsLine [] value h hv = cc
keyed-IsLine (c ∷ key) value h hv = keyed c key value (Lacks-of_test (c ∷ key) (ground arith)) hv

-- A line of a reply, with a literal key.
pub key-IsLine :
    (key : String) (value : Bytes)
    → is_key (codes key) ≡ true
    → Lacks newline value
    → IsLine newline (codes key ++ value)
key-IsLine key value h hv = keyed-IsLine (codes key) value h hv

infixr 3 ◌&◌
abbrev pub ◌&◌ {ℓ κ} : {A : Type ℓ} {B : Type κ} → A → B → A × B
a & b = (a, b)

-- Behind the status line come the other lines.
pub reply_rest :
    (line : Bytes) (lines : List Bytes)
    → is_error_response (join newline (status_success ∷ line ∷ lines))
      ≡ (false, join newline (line ∷ lines))
unfolding join
reply_rest line lines = status_success_line (join newline (line ∷ lines))
