-- ===== src/Wire/Exact.antt =====
-- Objects whose keys are tags, read field by field.
use eudi_api_registration.Base.{
  String, Bool, true, ◌&&◌, ◌≡◌, refl, Option, none, some, List, [], ◌∷◌, ◌==◌, arith,
}
use eudi_api_registration.Json.{Json, Members, end, member}
use eudi_api_registration.Text.{every}
use eudi_api_registration.Wire.{
  Codec, IsExact, Field, is_tag_char, set_field, next_member, decode_fields,
}

-- The codec that takes a key for the field of exactly that name.
abbrev pub exact : Codec → Codec
exact w = record w { names = λ name key. name == key }

abbrev pub tagged_fields {ℓ} : {A : Type ℓ} → List (Field A) → Bool
tagged_fields [] = true
tagged_fields (f ∷ rest) = every is_tag_char f.0 && tagged_fields rest

abbrev pub tagged_members : Members → Bool
tagged_members end = true
tagged_members (member key j rest) = every is_tag_char key && tagged_members rest

both_true : {p q : Bool} → (p && q) ≡ true → (p ≡ true) × (q ≡ true)
both_true h = ground (arith, h)

exact_field {ℓ} :
    {A : Type ℓ} (w : Codec) (L : IsExact w) (fs : List (Field A)) (key : String) (a : A) (j : Json)
    → tagged_fields fs ≡ true
    → every is_tag_char key ≡ true
    → set_field w fs key a j ≡ set_field (exact w) fs key a j
exact_field w L [] key a j h k = refl
exact_field w L ((name, decode) ∷ rest) key a j h k =
    let (t, u) = both_true h in rw (L.tags name key t k, exact_field w L rest key a j u k) refl

next_member-cong {ℓ} :
    {A : Type ℓ} {f g : A → Option A} (o : Option A)
    → ((b : A) → f b ≡ g b)
    → next_member o f ≡ next_member o g
next_member-cong none h = refl
next_member-cong (some b) h = h b

module _ {ℓ} {A : Type ℓ} (w : Codec) (L : IsExact w) (fs : List (Field A))
    (h : tagged_fields fs ≡ true) where
  -- Objects whose keys are all tags are read as if every key were taken literally.
  pub exact_fields :
      (ms : Members) (a : A)
      → tagged_members ms ≡ true
      → decode_fields w fs ms a ≡ decode_fields (exact w) fs ms a
  unfolding decode_fields
  exact_fields end a k = refl
  exact_fields (member key j rest) a k =
      let (t, u) = both_true k in
      rw (exact_field w L fs key a j h t)
        (next_member-cong (set_field (exact w) fs key a j) (λ b. exact_fields rest b u))

module _ {ℓ} {A : Type ℓ} (w : Codec) (fs : List (Field A)) where
  -- The members of an object read one after the other, from one value of the struct to another.
  pub data Reads : Members → A → A → Type ℓ where
    done : (a : A) → Reads end a a
    next :
        (key : String) (j : Json) (rest : Members) (a b c : A)
        → set_field w fs key a j ≡ some b
        → Reads rest b c
        → Reads (member key j rest) a c

  pub Reads-fields : (ms : Members) (a c : A) → Reads ms a c → decode_fields w fs ms a ≡ some c
  unfolding decode_fields
  Reads-fields _ a c (done _) = refl
  Reads-fields _ a c (next key j rest _ b _ h k) = rw h (Reads-fields rest b c k)
