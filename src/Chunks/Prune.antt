-- ===== src/Chunks/Prune.antt =====
-- src/archive.rs and src/alerts_file.rs: which chunks are deleted.
use ct_firehose_filter.Prelude.{
  ℕ, ◌≤◌, ◌<◌, ◌≡◌, ◌⊎◌, refl, ap, ◌∙◌, Bool, false, ◌||◌, List, [], ◌∷◌, ◌++◌, any, filter, leb,
  leb→le, leb-false→lt, arith, Bool-cases, inl, inr, Str, str_eq, str_eq_iff,
}
use ct_firehose_filter.Chunks.{
  File, names, remove, delete, prune_oldest, rotated_sort_key, insert_by_key, sort_by_key,
  list_rotated, is_rotated_sibling,
}

-- Every key of the list is `n` at least.
abbrev pub IsAfter : ℕ → List Str → Type 0
IsAfter n [] = Unit {0}
IsAfter n (x ∷ xs) = (n ≤ rotated_sort_key x) × IsAfter n xs

-- Oldest first.
abbrev pub IsByAge : List Str → Type 0
IsByAge [] = Unit {0}
IsByAge (x ∷ xs) = IsAfter (rotated_sort_key x) xs × IsByAge xs

IsAfter-trans : (m n : ℕ) (xs : List Str) → m ≤ n → IsAfter n xs → IsAfter m xs
IsAfter-trans m n [] h a = tt
IsAfter-trans m n (x ∷ xs) h a = (omega (arith, h, a.0), IsAfter-trans m n xs h a.1)

IsAfter-insert_by_key :
    (n : ℕ) (x : Str) (ys : List Str)
    → n ≤ rotated_sort_key x
    → IsAfter n ys
    → IsAfter n (insert_by_key x ys)
unfolding insert_by_key
IsAfter-insert_by_key n x [] h a = (h, tt)
IsAfter-insert_by_key n x (y ∷ ys) h a =
    elim (Bool-cases (leb (rotated_sort_key x) (rotated_sort_key y))) [
      | inl first ↦ rw first (h, a)
      | inr later ↦ rw later (a.0, IsAfter-insert_by_key n x ys h a.1)
    ]

insert_by_key-IsByAge : (x : Str) (ys : List Str) → IsByAge ys → IsByAge (insert_by_key x ys)
unfolding insert_by_key
insert_by_key-IsByAge x [] a = (tt, tt)
insert_by_key-IsByAge x (y ∷ ys) a =
    elim (Bool-cases (leb (rotated_sort_key x) (rotated_sort_key y))) [
      | inl first ↦
          let le = leb→le (rotated_sort_key x) (rotated_sort_key y) first in
          rw first ((le, IsAfter-trans _ _ ys le a.0), a)
      | inr later ↦
          let lt = leb-false→lt (rotated_sort_key x) (rotated_sort_key y) later in
          rw later (
            IsAfter-insert_by_key (rotated_sort_key y) x ys (omega (arith, lt)) a.0,
            insert_by_key-IsByAge x ys a.1,
          )
    ]

pub sort_by_key-IsByAge : (xs : List Str) → IsByAge (sort_by_key xs)
unfolding sort_by_key
sort_by_key-IsByAge [] = tt
sort_by_key-IsByAge (x ∷ xs) = insert_by_key-IsByAge x (sort_by_key xs) (sort_by_key-IsByAge xs)

any-insert_by_key :
    (p : Str → Bool) (x : Str) (ys : List Str) → any p (insert_by_key x ys) ≡ (p x || any p ys)
unfolding insert_by_key
any-insert_by_key p x [] = refl
any-insert_by_key p x (y ∷ ys) = ground (arith, any-insert_by_key p x ys)

pub any-sort_by_key : (p : Str → Bool) (xs : List Str) → any p (sort_by_key xs) ≡ any p xs
unfolding sort_by_key
any-sort_by_key p [] = refl
any-sort_by_key p (x ∷ xs) =
    ground (arith, any-insert_by_key p x (sort_by_key xs), any-sort_by_key p xs)

pub list_rotated-IsByAge : (prefix : Str) (files : List File) → IsByAge (list_rotated prefix files)
unfolding list_rotated
list_rotated-IsByAge prefix files =
    sort_by_key-IsByAge (filter (is_rotated_sibling prefix) (names files))

-- A file that the deletion of another leaves.
pub filter-remove :
    (p : Str → Bool) (name : Str) (files : List File)
    → p name ≡ false
    → filter (λ f. p f.name) (remove name files) ≡ filter (λ f. p f.name) files
filter-remove p name [] h = refl
filter-remove p name (f ∷ files) h = elim (Bool-cases (str_eq f.name name)) [
  | inl same ↦
      let gone : p f.name ≡ false = ap p ((str_eq_iff f.name name).0 same) ∙ h in
      rw (same, gone) (filter-remove p name files h)
  | inr other ↦ rw other (ground (arith, filter-remove p name files h))
]

module _ (total : List File → ℕ) (most : ℕ) (keeps deletes : Str → Bool) where
  abbrev pub after : List Str → List File → List File
  after [] files = files
  after (old ∷ gone) files = after gone (delete total most keeps deletes old files)

  -- Before each deletion the files took more than the budget.
  abbrev pub AreNeeded : List Str → List File → Type 0
  AreNeeded [] files = Unit {0}
  AreNeeded (old ∷ gone) files =
      (most < total files) × AreNeeded gone (delete total most keeps deletes old files)

  -- The first of `siblings` are deleted, each as long as the budget is not kept.
  pub record IsPruned (siblings : List Str) (files result : List File) : Type 0 where
    pub gone : List Str
    pub left : List Str
    pub in_order : siblings ≡ gone ++ left
    pub needed : AreNeeded gone files
    pub done : result ≡ after gone files
    pub enough : (total result ≤ most) ⊎ (left ≡ [])

  pub prune_oldest-IsPruned :
      (siblings : List Str) (files : List File)
      → IsPruned siblings files (prune_oldest total most keeps deletes siblings files)
  unfolding prune_oldest
  prune_oldest-IsPruned [] files = record {
    gone = [];
    left = [];
    in_order = refl;
    needed = tt;
    done = refl;
    enough = inr refl;
  }
  prune_oldest-IsPruned (old ∷ rest) files = elim (Bool-cases (leb (total files) most)) [
    | inl fits ↦ rw fits (record {
      gone = [];
      left = old ∷ rest;
      in_order = refl;
      needed = tt;
      done = refl;
      enough = inl (leb→le (total files) most fits);
    })
    | inr full ↦
        let later = prune_oldest-IsPruned rest (delete total most keeps deletes old files) in
        rw full (record {
          gone = old ∷ later.gone;
          left = later.left;
          in_order = ap (◌∷◌ old) later.in_order;
          needed = (leb-false→lt (total files) most full, later.needed);
          done = later.done;
          enough = later.enough;
        })
  ]
