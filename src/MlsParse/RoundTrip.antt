-- ===== src/MlsParse/RoundTrip.antt =====
-- A key package laid out as mls_parse.rs documents it, and what the parser makes of it.
use cordn_rs.Common.{
  ℕ, ◌+◌, ◌/◌, ◌%◌, ◌^◌, ◌≤◌, ◌<◌, ◌≡◌, refl, ap, subst, List, ◌∷◌, ◌++◌, Bool, true, ok, ◌>>=◌,
  ◌>>◌, arith, length, is_empty, le→leb,
}
use cordn_rs.MlsParse.{
  Parse, ParsedKeyPackage, Cursor, new_cursor, be16, require, trailing_data, u8, u16, var_bytes,
  skip, skip_vars, remaining, detect_last_resort, parse_key_package,
}
use cordn_rs.MlsParse.Utf8.{is_utf8}
use cordn_rs.MlsParse.Position.{At, At-start, At-byte, At-take}
use cordn_rs.MlsParse.VarBytes.{encode_var, read_var_bytes-encode_var}

pub record KeyPackage : Type 0 where
  pub cipher_suite : ℕ
  pub init_key : List ℕ
  pub hpke_pub : List ℕ
  pub sig_pub : List ℕ
  pub identity : List ℕ
  pub versions : List ℕ
  pub ciphersuites : List ℕ
  pub extensions : List ℕ
  pub proposals : List ℕ
  pub credentials : List ℕ
  pub lifetime : List ℕ
  pub ln_extensions : List ℕ
  pub ln_signature : List ℕ
  pub kp_extensions : List ℕ
  pub signature : List ℕ

unfoldable pub encode16 : ℕ → List ℕ → List ℕ
encode16 n rest = n / 256 ∷ n % 256 ∷ rest

-- A field, and what follows it.
infixr 66 ◌▹◌
abbrev pub ◌▹◌ : List ℕ → List ℕ → List ℕ
bytes ▹ rest = encode_var bytes ++ rest

-- The leaf node behind the capabilities, the extensions and the signature, and what follows.
abbrev encode_end : KeyPackage → List ℕ → List ℕ
encode_end kp rest =
    1 ∷ kp.lifetime ++ kp.ln_extensions ▹ kp.ln_signature ▹ kp.kp_extensions ▹ kp.signature ▹ rest

-- The same from the capabilities on.
abbrev encode_tail : KeyPackage → List ℕ → List ℕ
encode_tail kp rest =
    kp.versions
    ▹ kp.ciphersuites
    ▹ kp.extensions
    ▹ kp.proposals
    ▹ kp.credentials
    ▹ encode_end kp rest

unfoldable pub encode_key_package : KeyPackage → List ℕ → List ℕ
unfolding encode16
encode_key_package kp rest = encode16 1 (
    encode16 kp.cipher_suite
      (kp.init_key ▹ kp.hpke_pub ▹ kp.sig_pub ▹ encode16 1 (kp.identity ▹ encode_tail kp rest)))

abbrev Fits : List ℕ → Type 0
Fits bytes = length bytes < 2 ^ 30

pub record IsEncodable (kp : KeyPackage) : Type 0 where
  pub utf8 : is_utf8 kp.identity ≡ true
  pub lifetime : length kp.lifetime ≡ 16
  pub init_key : Fits kp.init_key
  pub hpke_pub : Fits kp.hpke_pub
  pub sig_pub : Fits kp.sig_pub
  pub identity : Fits kp.identity
  pub versions : Fits kp.versions
  pub ciphersuites : Fits kp.ciphersuites
  pub extensions : Fits kp.extensions
  pub proposals : Fits kp.proposals
  pub credentials : Fits kp.credentials
  pub ln_extensions : Fits kp.ln_extensions
  pub ln_signature : Fits kp.ln_signature
  pub kp_extensions : Fits kp.kp_extensions
  pub signature : Fits kp.signature

-- The cursor has just `rest` ahead.
abbrev Ahead : Cursor → List ℕ → Type 0
Ahead c rest = At c.b c.i rest

take8 :
    (c : Cursor) (x : ℕ) (rest : List ℕ)
    → Ahead c (x ∷ rest)
    → (c' : Cursor) × (u8 c ≡ ok (x, c')) × Ahead c' rest
unfolding u8
take8 c x rest h = let (g, next) = At-byte c.b c.i h in (record c { i = c.i + 1 }, rw g refl, next)

take16 :
    (c : Cursor) (n : ℕ) (rest : List ℕ)
    → Ahead c (encode16 n rest)
    → (c' : Cursor) × (u16 c ≡ ok (n, c')) × Ahead c' rest
unfolding u16 encode16
take16 c n rest h =
    let (g, h1) = At-byte c.b c.i h in
    let (g1, h2) = At-byte c.b (c.i + 1) h1 in
    let e : c.i + 1 + 1 ≡ c.i + 2 = omega arith in
    let n' : be16 (n / 256) (n % 256) ≡ n = omega arith in
    (
      record c { i = c.i + 2 },
      rw (g, g1) (ap (λ k. ok (k, record c { i = c.i + 2 })) n'),
      subst (λ (k : ℕ). At c.b k rest) e h2,
    )

take_var :
    (c : Cursor) (bytes rest : List ℕ)
    → Fits bytes
    → Ahead c (bytes ▹ rest)
    → (c' : Cursor) × (var_bytes c ≡ ok (bytes, c')) × Ahead c' rest
unfolding var_bytes
take_var c bytes rest f h =
    let (next, r, a) = read_var_bytes-encode_var c.b c.i bytes rest f h in
    (record c { i = next }, rw r refl, a)

take_skip :
    (c : Cursor) (bytes rest : List ℕ)
    → length bytes ≡ 16
    → Ahead c (bytes ++ rest)
    → (c' : Cursor) × (skip 16 c ≡ ok c') × Ahead c' rest
unfolding skip
take_skip c bytes rest e h =
    let (_, a) = At-take c.b c.i bytes h in
    let a' = subst (λ (k : ℕ). At c.b (c.i + k) rest) e a in
    let fits : c.i + 16 ≤ length c.b = omega (arith, a'.size) in
    (record c { i = c.i + 16 }, rw (le→leb (c.i + 16) (length c.b) fits) refl, a')

take_rest : (c : Cursor) (rest : List ℕ) → Ahead c rest → remaining c ≡ ok rest
unfolding remaining
take_rest c rest h =
    let fits : c.i ≤ length c.b = omega (arith, h.size) in
    rw (le→leb c.i (length c.b) fits) (ap ok h.tail)

take_five :
    (c : Cursor) (v w x y z rest : List ℕ)
    → Fits v
    → Fits w
    → Fits x
    → Fits y
    → Fits z
    → Ahead c (v ▹ w ▹ x ▹ y ▹ z ▹ rest)
    → (c' : Cursor) × (skip_vars 5 c ≡ ok c') × Ahead c' rest
unfolding skip_vars
take_five c v w x y z rest fv fw fx fy fz h =
    let (c1, e1, h1) = take_var c v (w ▹ x ▹ y ▹ z ▹ rest) fv h in
    let (c2, e2, h2) = take_var c1 w (x ▹ y ▹ z ▹ rest) fw h1 in
    let (c3, e3, h3) = take_var c2 x (y ▹ z ▹ rest) fx h2 in
    let (c4, e4, h4) = take_var c3 y (z ▹ rest) fy h3 in
    let (c5, e5, h5) = take_var c4 z rest fz h4 in (c5, rw (e1, e2, e3, e4, e5) refl, h5)

-- What the parser reports of a package whose last-resort marker is `m`, with `rest` behind it.
abbrev pub report : KeyPackage → List ℕ → Bool → Parse ParsedKeyPackage
report kp rest m = do
  require (is_empty rest) trailing_data
  ok (record {
    credential_identity = kp.identity;
    cipher_suite = kp.cipher_suite;
    is_last_resort = m;
  })

-- A package laid out as documented parses to its identity, its cipher suite and the marker of its
-- extensions, and fails as the search for the marker fails; with bytes behind it, it is refused for
-- trailing data.
pub parse_key_package-encode_key_package :
    (kp : KeyPackage) (rest : List ℕ)
    → IsEncodable kp
    → parse_key_package (encode_key_package kp rest)
      ≡ (detect_last_resort kp.kp_extensions >>= report kp rest)
unfolding parse_key_package encode_key_package
parse_key_package-encode_key_package kp rest f =
    let bytes = encode_key_package kp rest in
    let c = new_cursor bytes in
    let (c1, e1, h1) = take16 c 1 _ (At-start bytes) in
    let (c2, e2, h2) = take16 c1 kp.cipher_suite _ h1 in
    let (c3, e3, h3) = take_var c2 kp.init_key _ f.init_key h2 in
    let (c4, e4, h4) = take_var c3 kp.hpke_pub _ f.hpke_pub h3 in
    let (c5, e5, h5) = take_var c4 kp.sig_pub _ f.sig_pub h4 in
    let (c6, e6, h6) = take16 c5 1 _ h5 in
    let (c7, e7, h7) = take_var c6 kp.identity _ f.identity h6 in
    let (c8, e8, h8) =
      take_five c7 kp.versions kp.ciphersuites kp.extensions kp.proposals kp.credentials
        (encode_end kp rest) f.versions f.ciphersuites f.extensions f.proposals f.credentials h7 in
    let (c9, e9, h9) = take8 c8 1 _ h8 in
    let (c10, e10, h10) = take_skip c9 kp.lifetime _ f.lifetime h9 in
    let (c11, e11, h11) = take_var c10 kp.ln_extensions _ f.ln_extensions h10 in
    let (c12, e12, h12) = take_var c11 kp.ln_signature _ f.ln_signature h11 in
    let (c13, e13, h13) = take_var c12 kp.kp_extensions _ f.kp_extensions h12 in
    let (c14, e14, h14) = take_var c13 kp.signature rest f.signature h13 in
    let e15 = take_rest c14 rest h14 in
    rw (e1, e2, e3, e4, e5, e6, e7, f.utf8, e8, e9, e10, e11, e12, e13, e14, e15) refl
