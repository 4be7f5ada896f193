-- ===== src/Routes/Keys/Material.antt =====
-- Where the bytes of a minted key come from (internal/apikeys/apikeys.go).
use eudi_api_registration.Base.{
  ℕ, zero, suc, ◌+◌, ◌≤◌, ◌<>◌, ◌≡◌, refl, ap, ◌∙◌, some, List, [], ◌∷◌, ◌++◌, length, arith, ok,
}
use eudi_api_registration.Routes.Keys.{KeyCodecs, MintedKey, phc_text, read_full, mint}

-- A read that has enough bytes before it.
record HasBytes (n : ℕ) (source : List ℕ) : Type 0 where
  bytes : List ℕ
  rest : List ℕ
  reads : read_full n source ≡ some (bytes, rest)
  split : source ≡ bytes ++ rest
  size : length bytes ≡ n
  left : length source ≡ n + length rest

read_full-HasBytes : (n : ℕ) (source : List ℕ) → n ≤ length source → HasBytes n source
unfolding read_full
read_full-HasBytes zero source le = record {
  bytes = [];
  rest = source;
  reads = refl;
  split = refl;
  size = refl;
  left = omega arith;
}
read_full-HasBytes (suc n) [] le = absurd (omega (arith, le))
read_full-HasBytes (suc n) (b ∷ source) le =
    let r = read_full-HasBytes n source (omega (arith, le)) in
    record {
      bytes = b ∷ r.bytes;
      rest = r.rest;
      reads = rw r.reads refl;
      split = ap (λ (l : List ℕ). b ∷ l) r.split;
      size = omega (arith, r.size);
      left = omega (arith, r.left);
    }

-- The key that is made of three successive reads.
pub record IsMinted (codecs : KeyCodecs) (source : List ℕ) : Type 0 where
  pub prefix_raw : List ℕ
  pub secret_raw : List ℕ
  pub salt : List ℕ
  pub rest : List ℕ
  pub split : source ≡ prefix_raw ++ (secret_raw ++ (salt ++ rest))
  pub prefix_size : length prefix_raw ≡ 5
  pub secret_size : length secret_raw ≡ 24
  pub salt_size : length salt ≡ 16
  pub key : MintedKey
  pub minted : mint codecs source ≡ ok key
  pub public_part : key.prefix ≡ codecs.crockford32 prefix_raw
  pub display :
      key.display_key
      ≡ "vk_" <> codecs.crockford32 prefix_raw <> "_" <> codecs.raw_url_base64 secret_raw
  pub hash : key.phc_hash ≡ phc_text codecs (codecs.raw_url_base64 secret_raw) salt

-- From a source of at least 45 bytes a key is minted, and its prefix, its secret and its salt are made
-- of the first 5, the next 24 and the next 16 bytes: no byte is used twice.
pub mint_splits :
    (codecs : KeyCodecs) (source : List ℕ) → 45 ≤ length source → IsMinted codecs source
unfolding mint
mint_splits codecs source le =
    let p = read_full-HasBytes 5 source (omega (arith, le)) in
    let s = read_full-HasBytes 24 p.rest (omega (arith, le, p.left)) in
    let t = read_full-HasBytes 16 s.rest (omega (arith, le, p.left, s.left)) in
    record {
      prefix_raw = p.bytes;
      secret_raw = s.bytes;
      salt = t.bytes;
      rest = t.rest;
      split =
          p.split
          ∙ ap (λ (l : List ℕ). p.bytes ++ l) (s.split ∙ ap (λ (l : List ℕ). s.bytes ++ l) t.split);
      prefix_size = p.size;
      secret_size = s.size;
      salt_size = t.size;
      key = record {
        display_key = "vk_" <> codecs.crockford32 p.bytes <> "_" <> codecs.raw_url_base64 s.bytes;
        prefix = codecs.crockford32 p.bytes;
        phc_hash = phc_text codecs (codecs.raw_url_base64 s.bytes) t.bytes;
      };
      minted = rw (p.reads, s.reads, t.reads) refl;
      public_part = refl;
      display = refl;
      hash = refl;
    }
