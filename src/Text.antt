-- ===== src/Text.antt =====
-- The text functions of Go's library that the code calls, over characters.
use Prim.Native.Char.{Char, code}
use Prim.Native.String.{[], ◌∷◌}
use eudi_api_registration.Base.{
  ℕ, zero, suc, ◌-◌, String, Bool, true, false, ◌&&◌, ◌||◌, Option, none, some, ◌==◌, eqb, leb,
  if◌then◌else◌,
}

-- The character of `s` at a place, or `d` past its end.
abbrev pub char_at_or : String → ℕ → Char → Char
char_at_or [] i d = d
char_at_or (c ∷ s) zero d = c
char_at_or (c ∷ s) (suc i) d = char_at_or s i d

abbrev pub in_range : ℕ → ℕ → Char → Bool
in_range lo hi c = leb lo (code c) && leb (code c) hi

abbrev pub every : (Char → Bool) → String → Bool
every p [] = true
every p (c ∷ s) = p c && every p s

-- What follows a prefix, if the text begins with it.
abbrev pub strip_prefix : String → String → Option String
strip_prefix [] s = some s
strip_prefix (p ∷ ps) [] = none
strip_prefix (p ∷ ps) (c ∷ s) =
    let rest = strip_prefix ps s in if eqb (code p) (code c) then rest else none

-- `\s` of a regular expression: tab, line feed, form feed, carriage return, space
abbrev pub is_regexp_space : Char → Bool
is_regexp_space c =
    eqb (code c) 9 || eqb (code c) 10 || eqb (code c) 12 || eqb (code c) 13 || eqb (code c) 32

-- `p+` up to the end of the text
abbrev pub one_or_more : (Char → Bool) → String → Bool
one_or_more p [] = false
one_or_more p (c ∷ s) = p c && every p s

-- `^prefix` and then one or more characters of a class, up to the end
abbrev pub prefix_then : String → (Char → Bool) → String → Bool
prefix_then prefix p s = elim (strip_prefix prefix s) [
  | none ↦ false
  | some rest ↦ one_or_more p rest
]

abbrev pub size : String → ℕ
size [] = 0
size (c ∷ s) = suc (size s)

abbrev pub take : ℕ → String → String
take zero s = ""
take (suc n) [] = ""
take (suc n) (c ∷ s) = c ∷ take n s

abbrev pub drop : ℕ → String → String
drop zero s = s
drop (suc n) [] = ""
drop (suc n) (c ∷ s) = drop n s

abbrev pub map_chars : (Char → Char) → String → String
map_chars f [] = ""
map_chars f (c ∷ s) = f c ∷ map_chars f s

abbrev pub drop_while : (Char → Bool) → String → String
drop_while p [] = ""
drop_while p (c ∷ s) = let rest = drop_while p s in if p c then rest else c ∷ s

abbrev pub drop_while_end : (Char → Bool) → String → String
drop_while_end p [] = ""
drop_while_end p (c ∷ s) =
    let rest = drop_while_end p s in if p c && rest == "" then "" else c ∷ rest

-- strings.Trim, strings.TrimSpace
abbrev pub trim : (Char → Bool) → String → String
trim p s = drop_while_end p (drop_while p s)

-- The characters that Unicode calls white space.
abbrev pub is_unicode_space : Char → Bool
is_unicode_space c =
    in_range 0x9 0xd c
    || eqb (code c) 0x20
    || eqb (code c) 0x85
    || eqb (code c) 0xa0
    || eqb (code c) 0x1680
    || in_range 0x2000 0x200a c
    || in_range 0x2028 0x2029 c
    || eqb (code c) 0x202f
    || eqb (code c) 0x205f
    || eqb (code c) 0x3000

-- strings.ToLower of a character, as far as its result is an ASCII letter: the capitals of ASCII,
-- the Kelvin sign and the dotted capital I. Any other character has a lower case outside ASCII or is
-- its own, and stays as it is here.
abbrev pub lower : Char → Char
lower c =
    if in_range b'A' b'Z' c
    then char_at_or "abcdefghijklmnopqrstuvwxyz" (code c - b'A') c
    else if eqb (code c) 0x212a
    then "k"
    else if eqb (code c) 0x130
    then "i"
    else c

-- The text behind the last colon, if there is a colon.
abbrev pub behind_colon : String → Option String
behind_colon [] = none
behind_colon (c ∷ s) = elim (behind_colon s) [
  | some rest ↦ some rest
  | none ↦ if eqb (code c) b':' then some s else none
]
