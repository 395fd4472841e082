-- ===== src/MlsParse/LastResort.antt =====
-- The walk over a list of tagged fields, and the last-resort marker that it looks for.
use cordn_rs.Common.{
  ℕ, zero, suc, ◌+◌, ◌/◌, ◌%◌, ◌^◌, ◌≤◌, ◌<◌, ◌==◌, ◌≡◌, refl, ap, sym, subst, ◌∙◌, List, [], ◌∷◌,
  ◌++◌, append-nil, Bool, true, false, ◌&&◌, ok, ◌>>=◌, arith, length, any, All, is_empty,
  length-append, le→ltb_false, eq→==_true, ◌≢◌, map, ne→==_false, lt→ltb,
}
use cordn_rs.MlsParse.{
  Parse, be16, walk, is_marker, last_resort_key_package_component_id, is_last_resort_extension,
  is_last_resort_entry, detect_last_resort,
}
use cordn_rs.MlsParse.Position.{At, At-start, At-byte}
use cordn_rs.MlsParse.VarBytes.{encode_var, read_var_bytes-encode_var}
use cordn_rs.MlsParse.RoundTrip.{encode16}

-- A tagged field.
pub record Entry : Type 0 where
  pub tag : ℕ
  pub body : List ℕ

unfoldable pub encode_entries : List Entry → List ℕ
unfolding encode16
encode_entries [] = []
encode_entries (e ∷ es) = encode16 e.tag (encode_var e.body ++ encode_entries es)

-- What the walk makes of the fields: it stops at the first that is accepted, or that is an error.
unfoldable pub first_hit : (ℕ → List ℕ → Parse Bool) → List Entry → Parse Bool
first_hit hit [] = ok false
first_hit hit (e ∷ es) = do
  found ← hit e.tag e.body
  elim found [ true ↦ ok true | false ↦ first_hit hit es ]

abbrev pub AllFit : List Entry → Type 0
AllFit = All (λ e. length e.body < 2 ^ 30)

walk-entries :
    (hit : ℕ → List ℕ → Parse Bool) (fuel : ℕ) (b : List ℕ) (i : ℕ) (es : List Entry)
    → AllFit es
    → At b i (encode_entries es)
    → length es < fuel
    → walk hit fuel b i ≡ first_hit hit es
unfolding walk encode_entries first_hit
walk-entries hit zero b i es f h lt = absurd (omega arith)
walk-entries hit (suc fuel) b i [] f h lt =
    rw (le→ltb_false i (length b) (omega (arith, h.size))) refl
walk-entries hit (suc fuel) b i (e ∷ es) f h lt =
    let (g, h1) = At-byte b i h in
    let (g1, h2) = At-byte b (i + 1) h1 in
    let s : i + 1 + 1 ≡ i + 2 = omega arith in
    let h2' = subst (λ (k : ℕ). At b k (encode_var e.body ++ encode_entries es)) s h2 in
    let (next, r, h3) = read_var_bytes-encode_var b (i + 2) e.body (encode_entries es) f.0 h2' in
    let tag : be16 (e.tag / 256) (e.tag % 256) ≡ e.tag = omega arith in
    let ih = walk-entries hit fuel b next es f.1 h3 (omega arith) in
    let ahead : i < length b = omega (arith, h.size) in
    rw (lt→ltb i (length b) ahead, g, g1, r, tag)
      (ap
        (λ (later : Parse Bool).
          hit e.tag e.body >>= λ (found : Bool). elim found [ true ↦ ok true | false ↦ later ])
        ih)

length-encode_entries : (es : List Entry) → length es ≤ length (encode_entries es)
unfolding encode_entries
length-encode_entries [] = omega arith
length-encode_entries (e ∷ es) =
    omega (arith, length-encode_entries es, length-append (encode_var e.body) (encode_entries es))

pub walk-encode_entries :
    (hit : ℕ → List ℕ → Parse Bool) (es : List Entry)
    → AllFit es
    → walk hit (suc (length (encode_entries es))) (encode_entries es) 0 ≡ first_hit hit es
walk-encode_entries hit es f =
    walk-entries hit (suc (length (encode_entries es))) (encode_entries es) 0 es f
      (At-start (encode_entries es)) (omega (arith, length-encode_entries es))

-- One entry of the app-data dictionary marks a last-resort package.
abbrev pub marks : Entry → Bool
marks e = e.tag == last_resort_key_package_component_id && is_empty e.body

first_hit-marker : (es : List Entry) → first_hit is_marker es ≡ ok (any marks es)
unfolding first_hit any
first_hit-marker [] = refl
first_hit-marker (e ∷ es) = ground (arith, first_hit-marker es)

-- A dictionary laid out as documented is searched for the marker among its entries.
pub is_last_resort_extension-encode :
    (es : List Entry)
    → AllFit es
    → length (encode_entries es) < 2 ^ 30
    → is_last_resort_extension (encode_var (encode_entries es)) ≡ ok (any marks es)
unfolding is_last_resort_extension
is_last_resort_extension-encode es f fits =
    let dictionary = encode_entries es in
    let bytes = encode_var dictionary in
    let start = subst (At bytes 0) (sym (append-nil bytes)) (At-start bytes) in
    let (next, r, behind) = read_var_bytes-encode_var bytes 0 dictionary [] fits start in
    let whole : next ≡ length bytes = omega (arith, behind.size) in
    rw (r, whole, eq→==_true (length bytes), walk-encode_entries is_marker es f)
      (first_hit-marker es)

-- An extension of a key package: an app-data dictionary with its entries, or another one.
pub data Extension : Type 0 where
  dictionary : List Entry → Extension
  other : (tag : ℕ) → List ℕ → tag ≢ 0x0006 → Extension

abbrev as_entry : Extension → Entry
as_entry (dictionary es) = record { tag = 0x0006; body = encode_var (encode_entries es) }
as_entry (other tag body n) = record { tag = tag; body = body }

abbrev as_entries : List Extension → List Entry
as_entries = map as_entry

abbrev pub encode_extensions : List Extension → List ℕ
encode_extensions xs = encode_entries (as_entries xs)

abbrev pub has_marker : Extension → Bool
has_marker (dictionary es) = any marks es
has_marker (other tag body n) = false

abbrev FitsExtension : Extension → Type 0
FitsExtension (dictionary es) =
    AllFit es
    × (length (encode_entries es) < 2 ^ 30)
    × (length (encode_var (encode_entries es)) < 2 ^ 30)
FitsExtension (other tag body n) = length body < 2 ^ 30

abbrev pub AllFitExtensions : List Extension → Type 0
AllFitExtensions = All FitsExtension

entry-marker :
    (x : Extension)
    → FitsExtension x
    → is_last_resort_entry (as_entry x).tag (as_entry x).body ≡ ok (has_marker x)
entry-marker (dictionary es) f = is_last_resort_extension-encode es f.0 f.1
entry-marker (other tag body n) f = rw (ne→==_false tag 0x0006 n) refl

entries-fit : (xs : List Extension) → AllFitExtensions xs → AllFit (as_entries xs)
entries-fit [] f = tt
entries-fit (dictionary es ∷ xs) f = (f.0.2, entries-fit xs f.1)
entries-fit (other tag body n ∷ xs) f = (f.0, entries-fit xs f.1)

first_hit-extensions :
    (xs : List Extension)
    → AllFitExtensions xs
    → first_hit is_last_resort_entry (as_entries xs) ≡ ok (any has_marker xs)
unfolding first_hit any
first_hit-extensions [] f = refl
first_hit-extensions (x ∷ xs) f =
    rw (entry-marker x f.0) (ground (arith, first_hit-extensions xs f.1))

-- The extensions of a key package, laid out as documented, make it a last-resort package exactly when
-- an app-data dictionary among them has the marker: component 4 with empty data.
pub detect_last_resort-encode_extensions :
    (xs : List Extension)
    → AllFitExtensions xs
    → detect_last_resort (encode_extensions xs) ≡ ok (any has_marker xs)
unfolding detect_last_resort
detect_last_resort-encode_extensions xs f =
    walk-encode_entries is_last_resort_entry (as_entries xs) (entries-fit xs f)
    ∙ first_hit-extensions xs f
