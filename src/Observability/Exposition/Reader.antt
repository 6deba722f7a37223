-- ===== src/Observability/Exposition/Reader.antt =====
-- A reader of the text format, against which the writer is checked.
use riskr_rs.Base.{ℕ, ◌+◌, ◌-◌, ◌*◌, List, [], ◌∷◌, Text, nat_beq, if◌then◌else◌}

-- A reader of the format: it splits the text at its newlines, leaves out the comments and the blank
-- lines, and splits the others at their first space.
abbrev onto_first : ℕ → List Text → List Text
onto_first c [] = (c ∷ []) ∷ []
onto_first c (l ∷ ls) = (c ∷ l) ∷ ls

unfoldable pub split_lines : Text → List Text
split_lines [] = []
split_lines (c ∷ s) =
    let rest = split_lines s in if nat_beq c 10 then [] ∷ rest else onto_first c rest

unfoldable pub split_space : Text → Text × Text
split_space [] = ([], [])
split_space (c ∷ s) =
    let (name, value) = split_space s in if nat_beq c b' ' then ([], s) else (c ∷ name, value)

unfoldable pub number_from : ℕ → Text → ℕ
number_from n [] = n
number_from n (c ∷ s) = number_from (n * 10 + (c - b'0')) s

unfoldable pub read_line : Text → List (Text × ℕ) → List (Text × ℕ)
unfolding split_space number_from
read_line [] samples = samples
read_line (c ∷ s) samples =
    if nat_beq c b'#'
    then samples
    else (let (name, value) = split_space (c ∷ s) in (name, number_from 0 value) ∷ samples)

unfoldable pub read_lines : List Text → List (Text × ℕ)
unfolding read_line
read_lines [] = []
read_lines (l ∷ ls) = read_line l (read_lines ls)

unfoldable pub scrape : Text → List (Text × ℕ)
unfolding split_lines read_lines
scrape text = read_lines (split_lines text)
