-- ===== src/Fake/Slug/Bounds.antt =====
-- How long a slug is and what it is made of (internal/registrydb/fake.go).
use Prim.Native.Char.{Char}
use Prim.Native.String.{[], ◌∷◌}
use Prim.Native.String.append as append_laws
use eudi_api_registration.Base.{
  ℕ, zero, suc, ◌+◌, ◌-◌, ◌≤◌, String, ◌<>◌, Bool, true, false, ◌&&◌, ◌||◌, ◌≡◌, refl, ◌==◌, arith,
  ltb, if◌then◌else◌, Bool-cases, inl, inr,
}
use eudi_api_registration.Text.{
  is_unicode_space, every, size, take, drop, map_chars, trim, drop_while, drop_while_end, lower,
}
use eudi_api_registration.Fake.Slug.{
  is_slug_alnum, is_dash, collapse, slug_base, slug_suffix, slugify,
}

abbrev pub is_slug_char : Char → Bool
is_slug_char c = is_slug_alnum c || is_dash c

collapse-every : (in_run : Bool) (s : String) → every is_slug_char (collapse in_run s) ≡ true
unfolding collapse
collapse-every in_run [] = refl
collapse-every in_run (c ∷ s) = ground (arith, collapse-every false s, collapse-every true s)

module _ (p q : Char → Bool) where
  drop_while-every : (s : String) → every q s ≡ true → every q (drop_while p s) ≡ true
  drop_while-every [] h = refl
  drop_while-every (c ∷ s) h = ground (arith, drop_while-every s)

  drop_while_end-every : (s : String) → every q s ≡ true → every q (drop_while_end p s) ≡ true
  drop_while_end-every [] h = refl
  drop_while_end-every (c ∷ s) h =
      let rest = drop_while_end-every s in
      elim (Bool-cases (p c && drop_while_end p s == "")) [
        | inl gone ↦ rw gone refl
        | inr kept ↦ rw kept (ground (arith, rest))
      ]

take-every : (q : Char → Bool) (n : ℕ) (s : String) → every q s ≡ true → every q (take n s) ≡ true
take-every q zero s h = refl
take-every q (suc n) [] h = refl
take-every q (suc n) (c ∷ s) h = ground (arith, take-every q n s)

-- The text has a first character, and it is none of a class.
abbrev pub Begins : (Char → Bool) → String → Type 0
Begins p [] = ⊥
Begins p (c ∷ s) = p c ≡ false

drop_while_end-Begins : (p : Char → Bool) (s : String) → Begins p s → Begins p (drop_while_end p s)
drop_while_end-Begins p [] h = h
drop_while_end-Begins p (c ∷ s) h = rw h h

size-drop_while_end : (p : Char → Bool) (s : String) → size (drop_while_end p s) ≤ size s
size-drop_while_end p [] = omega arith
size-drop_while_end p (c ∷ s) =
    let shorter = size-drop_while_end p s in
    elim (Bool-cases (p c && drop_while_end p s == "")) [
      | inl gone ↦ rw gone (omega arith)
      | inr kept ↦ rw kept (omega (arith, shorter))
    ]

size-take : (n : ℕ) (s : String) → size (take n s) ≤ n
size-take zero s = omega arith
size-take (suc n) [] = omega arith
size-take (suc n) (c ∷ s) = omega (arith, size-take n s)

take-Begins : (p : Char → Bool) (n : ℕ) (s : String) → Begins p s → Begins p (take (suc n) s)
take-Begins p n [] h = h
take-Begins p n (c ∷ s) h = h

trim-Begins : (p : Char → Bool) (s : String) → (trim p s == "") ≡ false → Begins p (trim p s)
trim-Begins p [] h = absurd (cc h)
trim-Begins p (c ∷ s) h = elim (Bool-cases (p c)) [
  | inl skipped ↦ rw skipped (trim-Begins p s (rw skipped at h))
  | inr kept ↦ rw kept (drop_while_end-Begins p (c ∷ s) kept)
]

size-append : (s t : String) → size (s <> t) ≡ size s + size t
size-append [] t = rw (append_laws.nil t) (omega arith)
size-append (c ∷ s) t = rw (append_laws.cons c s t) (omega (arith, size-append s t))

size-map_chars : (f : Char → Char) (s : String) → size (map_chars f s) ≡ size s
size-map_chars f [] = refl
size-map_chars f (c ∷ s) = omega (arith, size-map_chars f s)

size-drop : (n : ℕ) (s : String) → size (drop n s) ≡ size s - n
size-drop zero s = omega arith
size-drop (suc n) [] = omega arith
size-drop (suc n) (c ∷ s) = omega (arith, size-drop n s)

trim-every : (p q : Char → Bool) (s : String) → every q s ≡ true → every q (trim p s) ≡ true
trim-every p q s h = drop_while_end-every p q (drop_while p s) (drop_while-every p q s h)

-- The part of a slug before the suffix: at most forty characters, all of them lower case letters,
-- digits and dashes, and the first of them no dash.
pub record IsBase (s : String) : Type 0 where
  pub short : size s ≤ 40
  pub slug_chars : every is_slug_char s ≡ true
  pub begins : Begins is_dash s

cap-IsBase :
    (s : String)
    → every is_slug_char s ≡ true
    → Begins is_dash s
    → IsBase (drop_while_end is_dash (if ltb 40 (size s) then take 40 s else s))
cap-IsBase s h b = elim (Bool-cases (ltb 40 (size s))) [
  | inl long ↦ rw long (record {
    short = omega (arith, size-drop_while_end is_dash (take 40 s), size-take 40 s);
    slug_chars =
        drop_while_end-every is_dash is_slug_char (take 40 s) (take-every is_slug_char 40 s h);
    begins = drop_while_end-Begins is_dash (take 40 s) (take-Begins is_dash 39 s b);
  })
  | inr fits ↦ rw fits (record {
    short = ground (arith, size-drop_while_end is_dash s);
    slug_chars = drop_while_end-every is_dash is_slug_char s h;
    begins = drop_while_end-Begins is_dash s b;
  })
]

slug_base-IsBase : (name : String) → IsBase (slug_base name)
unfolding slug_base
slug_base-IsBase name =
    let collapsed = collapse false (map_chars lower (trim is_unicode_space name)) in
    let trimmed = trim is_dash collapsed in
    elim (Bool-cases (trimmed == "")) [
      | inl blank ↦ rw blank (cap-IsBase "client" refl refl)
      | inr named ↦ rw named (
          cap-IsBase trimmed
            (trim-every is_dash is_slug_char collapsed
              (collapse-every false (map_chars lower (trim is_unicode_space name))))
            (trim-Begins is_dash collapsed named))
    ]

size-slug_suffix : (id : String) → size (slug_suffix id) ≤ 7
unfolding slug_suffix
size-slug_suffix id = ground (arith, size-drop (size id - 7) id)

-- A slug has at most forty-eight characters: a base of at most forty lower case letters, digits and
-- dashes that begins with none of the dashes, a dash, and the end of the identifier in lower case.
pub slug_bounds :
    (name id : String)
    → IsBase (slug_base name)
      × (slugify name id ≡ slug_base name <> "-" <> map_chars lower (slug_suffix id))
      × (size (slugify name id) ≤ 48)
unfolding slugify
slug_bounds name id = (
  slug_base-IsBase name,
  refl,
  omega (
    arith,
    size-append (slug_base name) ("-" <> map_chars lower (slug_suffix id)),
    size-append "-" (map_chars lower (slug_suffix id)),
    size-map_chars lower (slug_suffix id),
    size-slug_suffix id,
    (slug_base-IsBase name).short,
  ),
)
