-- ===== src/Text/Lines.antt =====
-- Laws of lines, prefixes and searches.
use sc4051_dist_system_proj.Prelude.{
  ℕ, zero, suc, ◌≤◌, ◌≡◌, ◌≢◌, refl, ap, ◌∙◌, [], ◌∷◌, ◌++◌, List, Bytes, true, none, some, length,
  All, arith,
}
use sc4051_dist_system_proj.Text.{
  starts_with, find, found_at_start, split_at, getline, getlines_upto, getlines,
}

-- The text has none of the character.
abbrev pub Lacks : ℕ → Bytes → Type 0
Lacks delim s = All (λ c. c ≢ delim) s

-- `find(pattern) == 0` holds exactly for the prefixes.
pub found_at_start_lem : (pattern s : Bytes) → found_at_start pattern s ≡ starts_with pattern s
unfolding found_at_start find
found_at_start_lem [] [] = refl
found_at_start_lem [] (c ∷ s) = refl
found_at_start_lem (p ∷ ps) [] = refl
found_at_start_lem (p ∷ ps) (c ∷ s) = ground arith

pub starts_with-append : (pattern s : Bytes) → starts_with pattern (pattern ++ s) ≡ true
starts_with-append [] s = refl
starts_with-append (p ∷ ps) s = ground (arith, starts_with-append ps s)

pub split_at-append :
    (delim : ℕ) (line rest : Bytes)
    → Lacks delim line
    → split_at delim (line ++ delim ∷ rest) ≡ (line, rest)
unfolding split_at
split_at-append delim [] rest h = ground arith
split_at-append delim (c ∷ line) rest h = ground (arith, split_at-append delim line rest h.1)

pub split_at_last : (delim : ℕ) (line : Bytes) → Lacks delim line → split_at delim line ≡ (line, [])
unfolding split_at
split_at_last delim [] h = refl
split_at_last delim (c ∷ line) h = ground (arith, split_at_last delim line h.1)

pub split_at-length : (delim : ℕ) (s : Bytes) → length (split_at delim s).1 ≤ length s
unfolding split_at
split_at-length delim [] = omega arith
split_at-length delim (c ∷ s) = ground (arith, split_at-length delim s)

pub split_at-shorter : (delim c : ℕ) (s : Bytes) → length (split_at delim (c ∷ s)).1 ≤ length s
unfolding split_at
split_at-shorter delim c s = ground (arith, split_at-length delim s)

-- More fuel than the length changes nothing.
getlines_enough :
    (n m delim : ℕ) (s : Bytes)
    → length s ≤ n
    → length s ≤ m
    → getlines_upto n delim s ≡ getlines_upto m delim s
unfolding getlines_upto
getlines_enough zero zero delim s p q = refl
getlines_enough zero (suc m) delim [] p q = refl
getlines_enough zero (suc m) delim (c ∷ s) p q = absurd (omega arith)
getlines_enough (suc n) zero delim [] p q = refl
getlines_enough (suc n) zero delim (c ∷ s) p q = absurd (omega arith)
getlines_enough (suc n) (suc m) delim [] p q = refl
getlines_enough (suc n) (suc m) delim (c ∷ s) p q =
    let shorter = split_at-shorter delim c s in
    ap (λ l. (split_at delim (c ∷ s)).0 ∷ l)
      (getlines_enough n m delim (split_at delim (c ∷ s)).1 (omega (arith, shorter))
        (omega (arith, shorter)))

-- The loop goes on exactly while `getline` succeeds.
pub getlines-getline :
    (delim : ℕ) (s : Bytes)
    → getlines delim s
      ≡ (elim (getline delim s) [ none ↦ [] | some (line, rest) ↦ line ∷ getlines delim rest ])
unfolding getlines getline getlines_upto
getlines-getline delim [] = refl
getlines-getline delim (c ∷ s) =
    ap (λ l. (split_at delim (c ∷ s)).0 ∷ l)
      (getlines_enough (length s) _ delim (split_at delim (c ∷ s)).1 (split_at-shorter delim c s)
        (omega arith))

pub getline-cons :
    (delim : ℕ) (line rest : Bytes)
    → Lacks delim line
    → getline delim (line ++ delim ∷ rest) ≡ some (line, rest)
unfolding getline
getline-cons delim [] rest h = ap some (split_at-append delim [] rest h)
getline-cons delim (c ∷ line) rest h = ap some (split_at-append delim (c ∷ line) rest h)

-- A line that ends with the delimiter is the first one, and the rest follows.
pub getlines-cons :
    (delim : ℕ) (line rest : Bytes)
    → Lacks delim line
    → getlines delim (line ++ delim ∷ rest) ≡ line ∷ getlines delim rest
getlines-cons delim line rest h =
    getlines-getline delim (line ++ delim ∷ rest) ∙ rw (getline-cons delim line rest h) refl

pub getline_last :
    (delim c : ℕ) (line : Bytes)
    → Lacks delim (c ∷ line)
    → getline delim (c ∷ line) ≡ some (c ∷ line, [])
unfolding getline
getline_last delim c line h = ap some (split_at_last delim (c ∷ line) h)

pub getlines-nil : (delim : ℕ) → getlines delim [] ≡ []
unfolding getlines getlines_upto
getlines-nil delim = refl

-- A last line without a delimiter is the only one.
pub getlines_one :
    (delim c : ℕ) (line : Bytes)
    → Lacks delim (c ∷ line)
    → getlines delim (c ∷ line) ≡ (c ∷ line) ∷ []
getlines_one delim c line h =
    getlines-getline delim (c ∷ line) ∙ rw (getline_last delim c line h, getlines-nil) refl

-- Lines with a delimiter between them.
unfoldable pub join : ℕ → List Bytes → Bytes
join delim [] = []
join delim (line ∷ []) = line
join delim (line ∷ line' ∷ lines) = line ++ delim ∷ join delim (line' ∷ lines)

-- Lines with a delimiter behind each.
unfoldable pub terminated : ℕ → List Bytes → Bytes
terminated delim [] = []
terminated delim (line ∷ lines) = line ++ delim ∷ terminated delim lines

abbrev pub IsLine : ℕ → Bytes → Type 0
IsLine delim line = Lacks delim line × (line ≢ [])

-- `getline` finds the joined lines again; an empty one could be lost at the end.
pub getlines-join :
    (delim : ℕ) (lines : List Bytes)
    → All (IsLine delim) lines
    → getlines delim (join delim lines) ≡ lines
unfolding join
getlines-join delim [] h = getlines-nil delim
getlines-join delim ([] ∷ []) h = absurd (h.0.1 refl)
getlines-join delim ((c ∷ line) ∷ []) h = getlines_one delim c line h.0.0
getlines-join delim (line ∷ line' ∷ lines) h =
    getlines-cons delim line (join delim (line' ∷ lines)) h.0.0
    ∙ ap (λ l. line ∷ l) (getlines-join delim (line' ∷ lines) h.1)

pub getlines-terminated :
    (delim : ℕ) (lines : List Bytes)
    → All (Lacks delim) lines
    → getlines delim (terminated delim lines) ≡ lines
unfolding terminated
getlines-terminated delim [] h = getlines-nil delim
getlines-terminated delim (line ∷ lines) h =
    getlines-cons delim line (terminated delim lines) h.0
    ∙ ap (λ l. line ∷ l) (getlines-terminated delim lines h.1)
