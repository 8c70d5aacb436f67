-- ===== src/UserInterface.antt =====
-- Client/src/UserInterface.cpp: the test on a parsed reply, and the box that shows it.
pub mod Box
pub mod Prompts
pub mod Answers
pub mod Words
pub mod Console
pub mod Returns
pub mod BookingIds
pub mod Handlers
pub mod Stops
pub mod Session
pub mod Simulation
pub mod Connected
pub mod History
use sc4051_dist_system_proj.Prelude.{
  ℕ, ◌+◌, ◌-◌, ◌/◌, max, [], ◌∷◌, ◌++◌, List, Bytes, Bool, false, codes, same, length, replicate,
}
use sc4051_dist_system_proj.Text.{newline}

-- `isErrorResponse`, without the line that it prints.
unfoldable pub is_error_response : List Bytes → Bool
is_error_response [] = false
is_error_response (title ∷ lines) = same title (codes "Error")

-- The loop for `maxLength`.
unfoldable pub max_length : ℕ → List Bytes → ℕ
max_length longest [] = longest
max_length longest (line ∷ lines) = max_length (max longest (length line)) lines

-- The pieces that are appended to the box, with the newline at the end of each.
abbrev pub border : ℕ → Bytes
border longest = (codes "+-" ++ replicate longest 45 ++ codes "-+") ++ newline ∷ []

abbrev pub header_row : ℕ → Bytes → Bytes
header_row longest header =
    let left_padding = (longest - length header) / 2 in
    let right_padding = longest - length header - left_padding in
    (codes "| " ++ replicate left_padding 32 ++ header ++ replicate right_padding 32 ++ codes " |")
    ++ newline ∷ []

abbrev pub content_row : ℕ → Bytes → Bytes
content_row longest line =
    (codes "| " ++ line ++ replicate (longest - length line) 32 ++ codes " |") ++ newline ∷ []

unfoldable pub content_rows : ℕ → List Bytes → Bytes
content_rows longest [] = []
content_rows longest (line ∷ lines) = content_row longest line ++ content_rows longest lines

unfoldable pub generate_box : List Bytes → Bytes
generate_box [] = []
generate_box (header ∷ lines) =
    let longest = max_length 0 (header ∷ lines) in
    border longest
    ++ header_row longest header
    ++ border longest
    ++ content_rows longest lines
    ++ border longest
