-- ===== src/Policy/Loader/Sanctions.antt =====
-- Which addresses the sanctions file lists.
use riskr_rs.Base.{
  ◌≡◌, ◌↔◌, ◌⊎◌, inl, inr, subst, false, ◌||◌, List, [], ◌∷◌, is_empty, Text, codes, text_eq, trim,
  starts_with, to_lowercase, lines, set_insert, In, Any, here, there, Bool-cases, In-of-set_insert,
  In-set_insert_self, In-set_insert_of_In,
}
use riskr_rs.Policy.Loader.{insert_line, insert_lines, parse_sanctions}

-- The line, once trimmed, is neither empty nor a comment, and reads as the address in lower case.
abbrev pub Lists : Text → Text → Type 0
Lists addr line =
    ((is_empty (trim line) || starts_with (trim line) (codes "#")) ≡ false)
    × (to_lowercase (trim line) ≡ addr)

insert_line_sound :
    (line addr : Text) (sanctions : List Text)
    → In addr (insert_line (trim line) sanctions)
    → Lists addr line ⊎ In addr sanctions
insert_line_sound line addr sanctions h =
    elim (Bool-cases (is_empty (trim line) || starts_with (trim line) (codes "#"))) [
      | inl y ↦ inr (rw y at h)
      | inr n ↦ elim (In-of-set_insert (to_lowercase (trim line)) addr sanctions (rw n at h)) [
        | inl e ↦ inl (n, e)
        | inr m ↦ inr m
      ]
    ]

insert_line-keeps :
    (line addr : Text) (sanctions : List Text)
    → In addr sanctions
    → In addr (insert_line line sanctions)
insert_line-keeps line addr sanctions h =
    elim (Bool-cases (is_empty line || starts_with line (codes "#"))) [
      | inl y ↦ rw y h
      | inr n ↦ rw n (In-set_insert_of_In (to_lowercase line) addr sanctions h)
    ]

insert_line-adds :
    (line addr : Text) (sanctions : List Text)
    → Lists addr line
    → In addr (insert_line (trim line) sanctions)
insert_line-adds line addr sanctions (kept, e) = rw kept (
    subst (λ a. In a (set_insert (to_lowercase (trim line)) sanctions)) e
      (In-set_insert_self (to_lowercase (trim line)) sanctions))

insert_lines-keeps :
    (ls : List Text) (addr : Text) (sanctions : List Text)
    → In addr sanctions
    → In addr (insert_lines ls sanctions)
unfolding insert_lines
insert_lines-keeps [] addr sanctions h = h
insert_lines-keeps (l ∷ ls) addr sanctions h =
    insert_lines-keeps ls addr _ (insert_line-keeps (trim l) addr sanctions h)

insert_lines_sound :
    (ls : List Text) (addr : Text) (sanctions : List Text)
    → In addr (insert_lines ls sanctions)
    → Any (Lists addr) ls ⊎ In addr sanctions
unfolding insert_lines
insert_lines_sound [] addr sanctions h = inr h
insert_lines_sound (l ∷ ls) addr sanctions h = elim (insert_lines_sound ls addr _ h) [
  | inl later ↦ inl (there later)
  | inr m ↦ elim (insert_line_sound l addr sanctions m) [
    | inl now ↦ inl (here now)
    | inr old ↦ inr old
  ]
]

insert_lines-adds :
    (addr : Text) (ls : List Text) (sanctions : List Text)
    → Any (Lists addr) ls
    → In addr (insert_lines ls sanctions)
unfolding insert_lines
insert_lines-adds addr [] sanctions h = elim h [ ]
insert_lines-adds addr (l ∷ ls) sanctions (here now) =
    insert_lines-keeps ls addr _ (insert_line-adds l addr sanctions now)
insert_lines-adds addr (l ∷ ls) sanctions (there later) = insert_lines-adds addr ls _ later

not-In-nil : {addr : Text} {P : Type 0} → P ⊎ In addr [] → P
not-In-nil (inl p) = p
not-In-nil (inr m) = elim m [ ]

-- The loaded set holds an address exactly if some line of the file lists it.
pub parse_sanctions_iff :
    (content addr : Text) → In addr (parse_sanctions content) ↔ Any (Lists addr) (lines content)
unfolding parse_sanctions
parse_sanctions_iff content addr = (
  λ h. not-In-nil (insert_lines_sound (lines content) addr [] h),
  λ h. insert_lines-adds addr (lines content) [] h,
)
