-- ===== src/MlsParse/VarBytes.antt =====
-- The variable-length field: what is encoded is read back.
use cordn_rs.Common.{
  ℕ, ◌+◌, ◌-◌, ◌/◌, ◌%◌, ◌^◌, ◌≤◌, ◌<◌, ltb, ◌≡◌, ◌≢◌, refl, ap, ◌∙◌, List, [], ◌∷◌, ◌++◌, some, ok,
  arith, length, length-append, get_elem?, take, drop, if◌then◌else◌, ne→==_false, subst, dec_lt,
  le→leb, lt→ltb, le→ltb_false,
}
use cordn_rs.MlsParse.{length_loop, read_var_bytes}
use cordn_rs.MlsParse.Position.{At, At-byte, At-take}

-- The shortest length prefix, as the encoder of ts-mls writes it.
unfoldable pub encode_length : ℕ → List ℕ
encode_length n =
    if ltb n 64
    then n ∷ []
    else if ltb n 16384
    then (64 + n / 256) ∷ (n % 256) ∷ []
    else (128 + n / 2 ^ 24) ∷ (n / 2 ^ 16 % 256) ∷ (n / 2 ^ 8 % 256) ∷ (n % 256) ∷ []

unfoldable pub encode_var : List ℕ → List ℕ
unfolding encode_length
encode_var bytes = encode_length (length bytes) ++ bytes

read_step :
    (buf : List ℕ) (offset prefix size : ℕ) {first : ℕ}
    → get_elem? buf offset ≡ some first
    → first / 64 ≡ prefix
    → prefix ≢ 3
    → offset + 2 ^ prefix ≤ length buf
    → length_loop buf (offset + 1) (2 ^ prefix - 1) (first % 64) ≡ ok size
    → offset + 2 ^ prefix + size ≤ length buf
    → read_var_bytes buf offset
      ≡ ok (take size (drop (offset + 2 ^ prefix) buf), offset + 2 ^ prefix + size)
unfolding read_var_bytes
read_step buf offset prefix size g p n l s e =
    rw
      (
        g,
        p,
        ne→==_false prefix 3 n,
        le→leb (offset + 2 ^ prefix) (length buf) l,
        s,
        le→leb (offset + 2 ^ prefix + size) (length buf) e,
      )
      refl

-- A field whose prefix is read as its length.
field :
    (b : List ℕ) (i prefix : ℕ) (bytes : List ℕ) {first : ℕ} {rest : List ℕ}
    → get_elem? b i ≡ some first
    → first / 64 ≡ prefix
    → prefix ≢ 3
    → length_loop b (i + 1) (2 ^ prefix - 1) (first % 64) ≡ ok (length bytes)
    → At b (i + 2 ^ prefix) (bytes ++ rest)
    → (read_var_bytes b i ≡ ok (bytes, i + 2 ^ prefix + length bytes))
      × At b (i + 2 ^ prefix + length bytes) rest
field b i prefix bytes {rest} g p n s here =
    let (took, next) = At-take b (i + 2 ^ prefix) bytes here in
    let l : i + 2 ^ prefix ≤ length b = omega (arith, here.size) in
    let e : i + 2 ^ prefix + length bytes ≤ length b =
      omega (arith, here.size, length-append bytes rest) in
    (
      read_step b i prefix (length bytes) g p n l s e
          ∙ ap (λ t. ok (t, i + 2 ^ prefix + length bytes)) took,
      next,
    )

-- What a reader of an encoded field must find.
abbrev pub Reads : List ℕ → ℕ → List ℕ → List ℕ → Type 0
Reads b i bytes rest = (next : ℕ) × (read_var_bytes b i ≡ ok (bytes, next)) × At b next rest

short :
    (b : List ℕ) (i : ℕ) (bytes rest : List ℕ)
    → length bytes < 64
    → At b i (length bytes ∷ bytes ++ rest)
    → Reads b i bytes rest
unfolding length_loop
short b i bytes rest lt h =
    let (g, next) = At-byte b i h in
    let n = length bytes in
    let (r, a) = field b i 0 bytes g (omega arith) (omega arith) (ap ok (omega arith)) next in
    (i + 2 ^ 0 + n, r, a)

medium :
    (b : List ℕ) (i : ℕ) (bytes rest : List ℕ)
    → 64 ≤ length bytes
    → length bytes < 16384
    → At b i ((64 + length bytes / 256) ∷ (length bytes % 256) ∷ bytes ++ rest)
    → Reads b i bytes rest
unfolding length_loop
medium b i bytes rest ge lt h =
    let (g, h1) = At-byte b i h in
    let (g1, h2) = At-byte b (i + 1) h1 in
    let n = length bytes in
    let e : i + 1 + 1 ≡ i + 2 ^ 1 = omega arith in
    let s : length_loop b (i + 1) (2 ^ 1 - 1) ((64 + n / 256) % 64) ≡ ok n =
      rw g1 (ap ok (omega arith)) in
    let (r, a) =
      field b i 1 bytes g (omega arith) (omega arith) s
        (subst (λ (k : ℕ). At b k (bytes ++ rest)) e h2) in
    (i + 2 ^ 1 + n, r, a)

long :
    (b : List ℕ) (i : ℕ) (bytes rest : List ℕ)
    → 16384 ≤ length bytes
    → length bytes < 2 ^ 30
    → At b i (
        (128 + length bytes / 2 ^ 24)
          ∷ (length bytes / 2 ^ 16 % 256)
          ∷ (length bytes / 2 ^ 8 % 256)
          ∷ (length bytes % 256)
          ∷ bytes
        ++ rest)
    → Reads b i bytes rest
unfolding length_loop
long b i bytes rest ge lt h =
    let (g, h1) = At-byte b i h in
    let (g1, h2) = At-byte b (i + 1) h1 in
    let (g2, h3) = At-byte b (i + 1 + 1) h2 in
    let (g3, h4) = At-byte b (i + 1 + 1 + 1) h3 in
    let n = length bytes in
    let e : i + 1 + 1 + 1 + 1 ≡ i + 2 ^ 2 = omega arith in
    let s : length_loop b (i + 1) (2 ^ 2 - 1) ((128 + n / 2 ^ 24) % 64) ≡ ok n =
      rw (g1, g2, g3) (ap ok (omega arith)) in
    let (r, a) =
      field b i 2 bytes g (omega arith) (omega arith) s
        (subst (λ (k : ℕ). At b k (bytes ++ rest)) e h4) in
    (i + 2 ^ 2 + n, r, a)

-- A field of up to 2^30 - 1 bytes, encoded with its shortest prefix, is read back where it stands,
-- and what stood behind it is what is ahead then.
pub read_var_bytes-encode_var :
    (b : List ℕ) (i : ℕ) (bytes rest : List ℕ)
    → length bytes < 2 ^ 30
    → At b i (encode_var bytes ++ rest)
    → Reads b i bytes rest
unfolding encode_var
read_var_bytes-encode_var b i bytes rest lt h = elim (dec_lt (length bytes) 64) [
  | yes small ↦ short b i bytes rest small (rw (lt→ltb (length bytes) 64 small) at h)
  | no big ↦ elim (dec_lt (length bytes) 16384) [
    | yes mid ↦
        medium b i bytes rest (omega arith) mid
          (rw (le→ltb_false (length bytes) 64 (omega arith), lt→ltb (length bytes) 16384 mid) at h)
    | no large ↦ long b i bytes rest (omega arith) lt (
        rw
          (
            le→ltb_false (length bytes) 64 (omega arith),
            le→ltb_false (length bytes) 16384 (omega arith),
          )
          at h)
  ]
]
