-- ===== src/Observability/Exposition/Scraping.antt =====
-- Reading the text format back.
use riskr_rs.Base.{
  lt-of_ltb, le-of_ltb, ℕ, zero, suc, ◌+◌, ◌/◌, ◌%◌, ◌≡◌, ◌<◌, refl, ap, ◌∙◌, inl, inr, arith, Bool,
  true, false, not, ◌&&◌, List, [], ◌∷◌, ◌++◌, Text, nat_beq, ltb, decimal_digits, digits_onto,
  Bool-cases,
}
use riskr_rs.Observability.Exposition.Reader.{
  split_lines, split_space, number_from, read_line, read_lines, scrape,
}
use riskr_rs.Observability.Exposition.{Line, comment, blank, sample, render_line, render}

-- What was written.
abbrev pub samples : List Line → List (Text × ℕ)
samples [] = []
samples (comment text ∷ ls) = samples ls
samples (blank ∷ ls) = samples ls
samples (sample name value ∷ ls) = (name, value) ∷ samples ls

abbrev none_is : ℕ → Text → Bool
none_is d [] = true
none_is d (c ∷ s) = not (nat_beq c d) && none_is d s

abbrev begins_with_hash : Text → Bool
begins_with_hash [] = false
begins_with_hash (c ∷ s) = nat_beq c b'#'

abbrev is_name : Text → Bool
is_name [] = false
is_name (c ∷ s) = not (nat_beq c b'#') && none_is 10 (c ∷ s) && none_is b' ' (c ∷ s)

-- The lines that read back.
abbrev pub is_line : Line → Bool
is_line (comment text) = begins_with_hash text && none_is 10 text
is_line blank = true
is_line (sample name value) = is_name name

abbrev pub are_lines : List Line → Bool
are_lines [] = true
are_lines (l ∷ ls) = is_line l && are_lines ls

split_lines-line :
    (l s : Text) → none_is 10 l ≡ true → split_lines (l ++ 10 ∷ s) ≡ l ∷ split_lines s
unfolding split_lines
split_lines-line [] s h = refl
split_lines-line (c ∷ l) s h = ground (arith, split_lines-line l s)

split_space-name :
    (name value : Text)
    → none_is b' ' name ≡ true
    → split_space (name ++ b' ' ∷ value) ≡ (name, value)
unfolding split_space
split_space-name [] value h = refl
split_space-name (c ∷ name) value h = ground (arith, split_space-name name value)

shown :
    (n d : ℕ) (out : Text)
    → d < b'0'
    → none_is d out ≡ true
    → none_is d ((b'0' + n % 10) ∷ out) ≡ true
shown n d out small h = ground arith

number_from-digits_onto :
    (fuel n : ℕ) (out : Text)
    → n < fuel
    → number_from 0 (digits_onto fuel n out) ≡ number_from n out
unfolding number_from digits_onto
number_from-digits_onto zero n out h = absurd (omega arith)
number_from-digits_onto (suc fuel) n out h = elim (Bool-cases (ltb n 10)) [
  | inl y ↦ rw y (ap (λ k. number_from k out) (omega (arith, lt-of_ltb n 10 y)))
  | inr big ↦ rw big (
      number_from-digits_onto fuel (n / 10) ((b'0' + n % 10) ∷ out)
        (omega (arith, le-of_ltb n 10 big))
      ∙ ap (λ k. number_from k out) (omega arith))
]

none_is-digits_onto :
    (fuel n d : ℕ) (out : Text)
    → d < b'0'
    → none_is d out ≡ true
    → none_is d (digits_onto fuel n out) ≡ true
unfolding digits_onto
none_is-digits_onto zero n d out small h = h
none_is-digits_onto (suc fuel) n d out small h = elim (Bool-cases (ltb n 10)) [
  | inl y ↦ rw y (shown n d out small h)
  | inr big ↦
      rw big
        (none_is-digits_onto fuel (n / 10) d ((b'0' + n % 10) ∷ out) small (shown n d out small h))
]

none_is-append :
    (d : ℕ) (s t : Text) → none_is d s ≡ true → none_is d t ≡ true → none_is d (s ++ t) ≡ true
none_is-append d [] t h k = k
none_is-append d (c ∷ s) t h k = ground (arith, none_is-append d s t)

name-no_newline : (name : Text) → is_name name ≡ true → none_is 10 name ≡ true
name-no_newline [] h = cc
name-no_newline (c ∷ s) h = ground arith

name-no_space : (name : Text) → is_name name ≡ true → none_is b' ' name ≡ true
name-no_space [] h = cc
name-no_space (c ∷ s) h = ground arith

render_line-no_newline : (l : Line) → is_line l ≡ true → none_is 10 (render_line l) ≡ true
unfolding decimal_digits
render_line-no_newline (comment text) h = ground arith
render_line-no_newline blank h = refl
render_line-no_newline (sample name value) h =
    none_is-append 10 name (b' ' ∷ decimal_digits value) (name-no_newline name h)
      (none_is-digits_onto (suc value) value 10 [] (omega arith) refl)

split_space-sample :
    (name : Text) (value : ℕ)
    → is_name name ≡ true
    → split_space (name ++ b' ' ∷ decimal_digits value) ≡ (name, decimal_digits value)
split_space-sample name value h =
    split_space-name name (decimal_digits value) (name-no_space name h)

number_from-decimal_digits : (n : ℕ) → number_from 0 (decimal_digits n) ≡ n
unfolding decimal_digits number_from
number_from-decimal_digits n = number_from-digits_onto (suc n) n [] (omega arith)

read_line-other :
    (c : ℕ) (s : Text) (out : List (Text × ℕ))
    → nat_beq c b'#' ≡ false
    → read_line (c ∷ s) out ≡ ((split_space (c ∷ s)).0, number_from 0 (split_space (c ∷ s)).1) ∷ out
unfolding read_line
read_line-other c s out h = rw h refl

not_hash : (c : ℕ) (s : Text) → is_name (c ∷ s) ≡ true → nat_beq c b'#' ≡ false
not_hash c s h = ground arith

read_line-line :
    (l : Line) (ls : List Line)
    → is_line l ≡ true
    → read_line (render_line l) (samples ls) ≡ samples (l ∷ ls)
unfolding read_line
read_line-line (comment []) ls h = cc
read_line-line (comment (c ∷ s)) ls h = ground arith
read_line-line blank ls h = refl
read_line-line (sample [] value) ls h = cc
read_line-line (sample (c ∷ s) value) ls h =
    read_line-other c _ (samples ls) (not_hash c s h)
    ∙ ap (λ p. (p.0, number_from 0 p.1) ∷ samples ls) (split_space-sample (c ∷ s) value h)
    ∙ ap (λ n. (c ∷ s, n) ∷ samples ls) (number_from-decimal_digits value)

both : (a b : Bool) → (a && b) ≡ true → (a ≡ true) × (b ≡ true)
both a b h = ground arith

-- Well-formed lines read back as their samples, in order.
pub scrape-render : (ls : List Line) → are_lines ls ≡ true → scrape (render ls) ≡ samples ls
unfolding scrape render read_lines
scrape-render [] h = refl
scrape-render (l ∷ ls) h =
    let (first, rest) = both (is_line l) (are_lines ls) h in
    ap read_lines (split_lines-line (render_line l) (render ls) (render_line-no_newline l first))
    ∙ ap (read_line (render_line l)) (scrape-render ls rest)
    ∙ read_line-line l ls first
