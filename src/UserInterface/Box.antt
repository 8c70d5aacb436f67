-- ===== src/UserInterface/Box.antt =====
-- The box that `generateBox` makes is a rectangle.
use sc4051_dist_system_proj.Prelude.{
  ℕ, zero, suc, ◌+◌, ◌-◌, ◌/◌, ◌≤◌, ◌≡◌, ◌≢◌, refl, ap, subst, ◌∙◌, max, [], ◌∷◌, ◌++◌, List, Bytes,
  codes, length, replicate, All, All-append, length-append, length-replicate, append_assoc,
  append-nil, arith,
}
use sc4051_dist_system_proj.Text.{newline, getlines}
use sc4051_dist_system_proj.Text.Lines.{Lacks, getlines-cons, getlines-nil}
use sc4051_dist_system_proj.UserInterface.{
  max_length, border, header_row, content_row, content_rows, generate_box,
}

zero_add : (n : ℕ) → 0 + n ≡ n
zero_add n = omega arith

suc_add : (n m : ℕ) → suc n + m ≡ suc (n + m)
suc_add n m = omega arith

-- The lines are no longer than the maximum, which is the start value or more.
max_length-All :
    (n : ℕ) (lines : List Bytes)
    → All (λ line. length line ≤ max_length n lines) lines × (n ≤ max_length n lines)
unfolding max_length
max_length-All n [] = (tt, omega arith)
max_length-All n (line ∷ lines) =
    let ih = max_length-All (max n (length line)) lines in
    ((omega (arith, ih.1), ih.0), omega (arith, ih.1))

Lacks-replicate : (n c : ℕ) → c ≢ newline → Lacks newline (replicate n c)
Lacks-replicate zero c h = tt
Lacks-replicate (suc n) c h = (h, Lacks-replicate n c h)

-- A text that is a row of this width behind its newline.
record IsRow (width : ℕ) (row : Bytes) : Type 0 where
  pub text : Bytes
  pub is_text : row ≡ text ++ newline ∷ []
  pub one_line : Lacks newline text
  pub size : length text ≡ width

getlines-row :
    (width : ℕ) (row rest : Bytes) (r : IsRow width row)
    → getlines newline (row ++ rest) ≡ r.text ∷ getlines newline rest
getlines-row width row rest r =
    rw (r.is_text, append_assoc r.text (newline ∷ []) rest)
      (getlines-cons newline r.text rest r.one_line)

border-IsRow : (longest : ℕ) → IsRow (longest + 4) (border longest)
border-IsRow longest = record {
  text = codes "+-" ++ replicate longest 45 ++ codes "-+";
  is_text = refl;
  one_line = (
    omega arith,
    (
      omega arith,
      All-append _ (replicate longest 45) _ (Lacks-replicate longest 45 (omega arith))
          (omega arith, (omega arith, tt)),
    ),
  );
  size = simp (length-append, length-replicate) (omega arith);
}

-- What stands between the two borders of a row.
framed :
    (width : ℕ) (inner : Bytes)
    → Lacks newline inner
    → length inner ≡ width
    → IsRow (width + 4) ((codes "| " ++ inner ++ codes " |") ++ newline ∷ [])
framed width inner h size = record {
  text = codes "| " ++ inner ++ codes " |";
  is_text = refl;
  one_line = (omega arith, (omega arith, All-append _ inner _ h (omega arith, (omega arith, tt))));
  size = let e = length-append inner (codes " |") in omega arith;
}

content_row-IsRow :
    (longest : ℕ) (line : Bytes)
    → Lacks newline line
    → length line ≤ longest
    → IsRow (longest + 4) (content_row longest line)
content_row-IsRow longest line h short =
    let padding = longest - length line in
    framed longest (line ++ replicate padding 32)
      (All-append _ line _ h (Lacks-replicate padding 32 (omega arith)))
      (simp (length-append, length-replicate) (omega arith))

header_row-IsRow :
    (longest : ℕ) (header : Bytes)
    → Lacks newline header
    → length header ≤ longest
    → IsRow (longest + 4) (header_row longest header)
header_row-IsRow longest header h short =
    let left_padding = (longest - length header) / 2 in
    let right_padding = longest - length header - left_padding in
    framed longest (replicate left_padding 32 ++ header ++ replicate right_padding 32)
      (All-append _ (replicate left_padding 32 ++ header) _
        (All-append _ (replicate left_padding 32) _ (Lacks-replicate left_padding 32 (omega arith))
          h)
        (Lacks-replicate right_padding 32 (omega arith)))
      (simp (length-append, length-replicate) (omega arith))

-- The lines of this width that `getline` finds in a text, and how many.
pub record AreRows (width count : ℕ) (rows : List Bytes) : Type 0 where
  pub count_is : length rows ≡ count
  pub widths : All (λ row. length row ≡ width) rows

cons_row :
    (width count : ℕ) (row rest : Bytes)
    → IsRow width row
    → AreRows width count (getlines newline rest)
    → AreRows width (suc count) (getlines newline (row ++ rest))
cons_row width count row rest r rows =
    rw (getlines-row width row rest r)
      (record { count_is = ap suc rows.count_is; widths = (r.size, rows.widths) })

content_rows-AreRows :
    (longest : ℕ) (lines : List Bytes) (rest : Bytes) (count : ℕ)
    → All (Lacks newline) lines
    → All (λ line. length line ≤ longest) lines
    → AreRows (longest + 4) count (getlines newline rest)
    → AreRows
        (longest + 4)
        (length lines + count)
        (getlines newline (content_rows longest lines ++ rest))
unfolding content_rows
content_rows-AreRows longest [] rest count h short rows = rw (zero_add count) rows
content_rows-AreRows longest (line ∷ lines) rest count h short rows =
    rw
      (
        append_assoc (content_row longest line) (content_rows longest lines) rest,
        suc_add (length lines) count,
      )
      (cons_row (longest + 4) (length lines + count) (content_row longest line) _
        (content_row-IsRow longest line h.0 short.0)
        (content_rows-AreRows longest lines rest count h.1 short.1 rows))

regroup : (a b c d e : Bytes) → a ++ b ++ c ++ d ++ e ≡ a ++ (b ++ (c ++ (d ++ e)))
regroup a b c d e = simp append_assoc

-- For a title and content lines without newlines, the box has four lines more than there are
-- content lines, all of the same width: that of the longest line and four characters.
pub generate_box-AreRows :
    (header : Bytes) (lines : List Bytes)
    → All (Lacks newline) (header ∷ lines)
    → AreRows
        (max_length 0 (header ∷ lines) + 4)
        (length lines + 4)
        (getlines newline (generate_box (header ∷ lines)))
unfolding generate_box
generate_box-AreRows header lines h =
    let longest = max_length 0 (header ∷ lines) in
    let short = (max_length-All 0 (header ∷ lines)).0 in
    let row = border-IsRow longest in
    let bottom : AreRows (longest + 4) 1 (getlines newline (border longest)) =
      subst (λ t. AreRows (longest + 4) 1 (getlines newline t)) (append-nil (border longest))
        (cons_row _ 0 (border longest) [] row
          (rw (getlines-nil newline) (record { count_is = refl; widths = tt }))) in
    let rows = cons_row _ _ (border longest) _ row (
      cons_row _ _ (header_row longest header) _ (header_row-IsRow longest header h.0 short.0) (
        cons_row _ _ (border longest) _ row
          (content_rows-AreRows longest lines (border longest) 1 h.1 short.1 bottom))) in
    rw
      (regroup (border longest) (header_row longest header) (border longest)
        (content_rows longest lines) (border longest))
      (record { count_is = rows.count_is ∙ omega arith; widths = rows.widths })
