-- ===== src/Chunks/Names.antt =====
-- src/archive.rs and src/alerts_file.rs: the name of a sealed chunk tells its time.
use ct_firehose_filter.Prelude.{
  ℕ, zero, suc, ◌≤◌, ◌≡◌, refl, sym, ap, ◌∙◌, true, false, ◌==◌, none, some, [], ◌∷◌, ◌++◌, all,
  any, length, length-append, is_empty, append_assoc, arith, Bool-cases, Option-cases, inl, inr,
  Str, codes, str_eq, str_eq_iff, str_eq_refl, strip_prefix,
}
use ct_firehose_filter.Prelude.Numbers.{
  is_digit, parse_unsigned, parse_unsigned-decimal, decimal, all-print, is_empty-print,
}
use ct_firehose_filter.Chunks.{
  rsplit_once, strip_suffix, trim_end_on, gz, is_rotated_sibling, u128_max, number_or_0,
  rotated_sort_key, rotated_name,
}

-- A text without the separator, and the parts of one with it.
rsplit_once-none : (sep : ℕ) (s : Str) → any (λ c. c == sep) s ≡ false → rsplit_once sep s ≡ none
unfolding rsplit_once
rsplit_once-none sep [] h = refl
rsplit_once-none sep (c ∷ s) h =
    let later = rsplit_once-none sep s (ground arith) in
    let here : (c == sep) ≡ false = ground arith in rw (later, here)

rsplit_once-append :
    (sep : ℕ) (s t : Str)
    → any (λ c. c == sep) t ≡ false
    → rsplit_once sep (s ++ (sep ∷ t)) ≡ some (s, t)
unfolding rsplit_once
rsplit_once-append sep [] t h =
    let here : (sep == sep) ≡ true = ground arith in rw (rsplit_once-none sep t h, here)
rsplit_once-append sep (c ∷ s) t h = rw (rsplit_once-append sep s t h)

digits-no_dot : (s : Str) → all is_digit s ≡ true → any (λ c. c == b'.') s ≡ false
digits-no_dot [] h = refl
digits-no_dot (c ∷ s) h = ground (arith, digits-no_dot s)

abbrev last : ℕ → Str → ℕ
last d [] = d
last d (c ∷ s) = last c s

last-append : (d : ℕ) (s : Str) (c : ℕ) (t : Str) → last d (s ++ (c ∷ t)) ≡ last c t
last-append d [] c t = refl
last-append d (x ∷ s) c t = last-append x s c t

last_digit : (d : ℕ) (s : Str) → is_empty s ≡ false → all is_digit s ≡ true → last d s ≤ 57
last_digit d [] e h = absurd cc
last_digit d (c ∷ []) e h = ground arith
last_digit d (c ∷ x ∷ s) e h = last_digit c (x ∷ s) refl (ground arith)

strip_suffix_sound : (x s t : Str) → strip_suffix x s ≡ some t → s ≡ t ++ x
unfolding strip_suffix
strip_suffix_sound [] [] t h = let e : [] ≡ t = cc in ap (λ u. u ++ []) e
strip_suffix_sound (y ∷ x) [] t h = absurd cc
strip_suffix_sound x (c ∷ s) t h = elim (Bool-cases (str_eq x (c ∷ s))) [
  | inl whole ↦
      let e : some [] ≡ some t = sym (rw whole refl) ∙ h in
      let k : [] ≡ t = cc in sym ((str_eq_iff x (c ∷ s)).0 whole) ∙ ap (λ u. u ++ x) k
  | inr part ↦ elim (Option-cases (strip_suffix x s)) [
    | inl stuck ↦ let e : none ≡ some t = sym (rw (part, stuck) refl) ∙ h in absurd cc
    | inr (r, found) ↦
        let e : some (c ∷ r) ≡ some t = sym (rw (part, found) refl) ∙ h in
        let k : c ∷ r ≡ t = cc in ap (◌∷◌ c) (strip_suffix_sound x s r found) ∙ ap (λ u. u ++ x) k
  ]
]

longer-ne : (x t : Str) (c : ℕ) → str_eq x (c ∷ (t ++ x)) ≡ false
longer-ne x t c = elim (Bool-cases (str_eq x (c ∷ (t ++ x)))) [
  | inl same ↦
      let e : length x ≡ suc (length (t ++ x)) = ap length ((str_eq_iff x (c ∷ (t ++ x))).0 same) in
      absurd (omega (arith, e, length-append t x))
  | inr other ↦ other
]

strip_suffix-append : (x t : Str) → strip_suffix x (t ++ x) ≡ some t
unfolding strip_suffix
strip_suffix-append [] [] = refl
strip_suffix-append (c ∷ x) [] = rw (str_eq_refl (c ∷ x)) refl
strip_suffix-append x (c ∷ t) = rw (longer-ne x t c, strip_suffix-append x t) refl

-- A text that ends in a digit does not end in `.gz`.
strip_gz-digits :
    (s t : Str) → is_empty t ≡ false → all is_digit t ≡ true → strip_suffix gz (s ++ t) ≡ none
strip_gz-digits s [] e h = absurd cc
strip_gz-digits s (c ∷ t) e h = elim (Option-cases (strip_suffix gz (s ++ (c ∷ t)))) [
  | inl stuck ↦ stuck
  | inr (r, found) ↦
      let same : last 0 (s ++ (c ∷ t)) ≡ last 0 (r ++ gz) =
        ap (last 0) (strip_suffix_sound gz (s ++ (c ∷ t)) r found) in
      let small = last_digit 0 (c ∷ t) refl h in
      let here = last-append 0 s c t in
      let there = last-append 0 r b'.' (codes "gz") in
      absurd (omega (arith, same, small, here, there))
]

pub strip_prefix-append : (p s : Str) → strip_prefix p (p ++ s) ≡ some s
unfolding strip_prefix
strip_prefix-append [] s = refl
strip_prefix-append (c ∷ p) s =
    let same : (c == c) ≡ true = ground arith in rw same (strip_prefix-append p s)

trim_end-stuck : (fuel : ℕ) (s : Str) → strip_suffix gz s ≡ none → trim_end_on fuel gz s ≡ s
trim_end-stuck zero s h = refl
trim_end-stuck (suc fuel) s h = rw (trim_end_on, h) refl

trim_end-once :
    (fuel : ℕ) (s : Str) → 1 ≤ fuel → strip_suffix gz s ≡ none → trim_end_on fuel gz (s ++ gz) ≡ s
trim_end-once zero s l h = absurd (omega (arith, l))
trim_end-once (suc fuel) s l h =
    rw (trim_end_on, strip_suffix-append gz s) (trim_end-stuck fuel s h)

digits-ne-gz : (s : Str) → all is_digit s ≡ true → str_eq s (codes "gz") ≡ false
digits-ne-gz [] h = refl
digits-ne-gz (c ∷ s) h = ground arith

module _ (prefix : Str) (ts : ℕ) (fits : ts ≤ u128_max) where
  digits_fit : all is_digit (decimal ts) ≡ true
  digits_fit = all-print 39 ts

  not_gz : strip_suffix gz (rotated_name prefix ts) ≡ none
  not_gz =
      ap (strip_suffix gz) (sym (append_assoc prefix (b'.' ∷ []) (decimal ts)))
      ∙ strip_gz-digits (prefix ++ (b'.' ∷ [])) (decimal ts) (is_empty-print 38 ts) digits_fit

  read_back : number_or_0 (parse_unsigned u128_max (decimal ts)) ≡ ts
  read_back = ap number_or_0 (parse_unsigned-decimal u128_max ts fits (omega (arith, fits)))

  name-IsChunk : is_rotated_sibling prefix (rotated_name prefix ts) ≡ true
  unfolding is_rotated_sibling strip_prefix
  name-IsChunk =
      rw
        (
          strip_prefix-append prefix (b'.' ∷ decimal ts),
          strip_gz-digits [] (decimal ts) (is_empty-print 38 ts) digits_fit,
          is_empty-print 38 ts,
          digits_fit,
        )
        refl

  gz_name-IsChunk : is_rotated_sibling prefix (rotated_name prefix ts ++ gz) ≡ true
  unfolding is_rotated_sibling strip_prefix
  gz_name-IsChunk =
      rw
        (
          append_assoc prefix (b'.' ∷ decimal ts) gz,
          strip_prefix-append prefix (b'.' ∷ (decimal ts ++ gz)),
          strip_suffix-append gz (decimal ts),
          is_empty-print 38 ts,
          digits_fit,
        )
        refl

  key-name : rotated_sort_key (rotated_name prefix ts) ≡ ts
  unfolding rotated_sort_key
  key-name =
      rw
        (
          rsplit_once-append b'.' prefix (decimal ts) (digits-no_dot (decimal ts) digits_fit),
          digits-ne-gz (decimal ts) digits_fit,
        )
        read_back

  key-gz_name : rotated_sort_key (rotated_name prefix ts ++ gz) ≡ ts
  unfolding rotated_sort_key
  key-gz_name =
      rw
        (
          rsplit_once-append b'.' (rotated_name prefix ts) (codes "gz") refl,
          trim_end-once (length (rotated_name prefix ts ++ gz)) (rotated_name prefix ts)
              (omega (arith, length-append (rotated_name prefix ts) gz)) not_gz,
          rsplit_once-append b'.' prefix (decimal ts) (digits-no_dot (decimal ts) digits_fit),
        )
        read_back

-- For every name of a file and every time of up to 128 bits, the name that the rotation gives to a
-- chunk is that of a rotated sibling, and its key is the time; so it is once `.gz` is added.
pub rotated_name-roundtrip :
    (prefix : Str) (ts : ℕ)
    → ts ≤ u128_max
    → (is_rotated_sibling prefix (rotated_name prefix ts) ≡ true)
      × (rotated_sort_key (rotated_name prefix ts) ≡ ts)
      × (is_rotated_sibling prefix (rotated_name prefix ts ++ gz) ≡ true)
      × (rotated_sort_key (rotated_name prefix ts ++ gz) ≡ ts)
rotated_name-roundtrip prefix ts h = (
  name-IsChunk prefix ts h,
  key-name prefix ts h,
  gz_name-IsChunk prefix ts h,
  key-gz_name prefix ts h,
)
