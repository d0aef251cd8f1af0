-- ===== src/Chunks/Budget.antt =====
-- src/archive.rs and src/alerts_file.rs: what is left of a directory once it was pruned.
use ct_firehose_filter.Prelude.{
  ℕ, ◌≤◌, ◌≡◌, ◌⊎◌, refl, sym, ap, ◌∙◌, Bool, true, not, ◌&&◌, ◌||◌, List, [], ◌∷◌, ◌++◌,
  append-nil, all, all-append, any, filter, arith, Bool-cases, inl, inr, Str, str_eq, str_eq_iff,
  str_eq_refl, contains,
}
use ct_firehose_filter.Prelude.Sets.{contains-filter}
use ct_firehose_filter.Chunks.{
  File, names, delete, prune_oldest, sort_by_key, list_rotated, is_rotated_sibling,
}
use ct_firehose_filter.Chunks.Prune.{
  IsByAge, list_rotated-IsByAge, any-sort_by_key, filter-remove, IsPruned, prune_oldest-IsPruned,
  after,
}

module _ {A : Type 0} where
  all-filter : (q p : A → Bool) (xs : List A) → all q xs ≡ true → all q (filter p xs) ≡ true
  all-filter q p [] h = refl
  all-filter q p (x ∷ xs) h = ground (arith, all-filter q p xs)

  all-both :
      (p q r : A → Bool) (xs : List A)
      → ((x : A) → p x ≡ true → q x ≡ true → r x ≡ true)
      → all p xs ≡ true
      → all q xs ≡ true
      → all r xs ≡ true
  all-both p q r [] imp h k = refl
  all-both p q r (x ∷ xs) imp h k = ground (arith, imp x, all-both p q r xs imp)

  all_each : (p : A → Bool) (xs : List A) → ((x : A) → p x ≡ true) → all p xs ≡ true
  all_each p [] h = refl
  all_each p (x ∷ xs) h = ground (arith, h x, all_each p xs)

  all-filter_same :
      (p q : A → Bool) (xs : List A)
      → ((x : A) → p x ≡ true → q x ≡ true)
      → all q (filter p xs) ≡ true
  all-filter_same p q [] h = refl
  all-filter_same p q (x ∷ xs) h = ground (arith, h x, all-filter_same p q xs)

  all-not-any : (p : A → Bool) (xs : List A) → all p xs ≡ not (any (λ x. not (p x)) xs)
  all-not-any p [] = refl
  all-not-any p (x ∷ xs) = ground (arith, all-not-any p xs)

contains-list_rotated :
    (prefix : Str) (files : List File) (a : Str)
    → contains (list_rotated prefix files) a
      ≡ (contains (names files) a && is_rotated_sibling prefix a)
unfolding list_rotated
contains-list_rotated prefix files a =
    any-sort_by_key (str_eq a) (filter (is_rotated_sibling prefix) (names files))
    ∙ contains-filter (is_rotated_sibling prefix) (names files) a

-- Every file of a part of the directory is listed, if it is a sibling by its name.
AreListed : List Str → (Str → Bool) → List File → Type 0
AreListed siblings sibling part =
    all (λ f. not (sibling f.name) || contains siblings f.name) part ≡ true

names-AreListed :
    (sibling : Str → Bool) (siblings : List Str) (part : List File)
    → ((a : Str) → contains (names part) a ≡ true → sibling a ≡ true → contains siblings a ≡ true)
    → AreListed siblings sibling part
unfolding AreListed
names-AreListed sibling siblings [] h = refl
names-AreListed sibling siblings (f ∷ part) h =
    let here = h f.name (ground (arith, str_eq_refl f.name)) in
    let later = names-AreListed sibling siblings part (λ a c. h a (ground arith)) in ground arith

list_rotated-AreListed :
    (prefix : Str) (files : List File)
    → AreListed (list_rotated prefix files) (is_rotated_sibling prefix) files
list_rotated-AreListed prefix files =
    names-AreListed (is_rotated_sibling prefix) (list_rotated prefix files) files
      (λ a c s. ground (arith, contains-list_rotated prefix files a))

list_rotated-siblings :
    (prefix : Str) (files : List File)
    → all (λ name. not (not (is_rotated_sibling prefix name))) (list_rotated prefix files) ≡ true
unfolding list_rotated
list_rotated-siblings prefix files =
    let p = λ (name : Str). not (not (is_rotated_sibling prefix name)) in
    let found = filter (is_rotated_sibling prefix) (names files) in
    all-not-any p (sort_by_key found)
    ∙ ap not (any-sort_by_key (λ name. not (p name)) found)
    ∙ sym (all-not-any p found)
    ∙ all-filter_same (is_rotated_sibling prefix) p (names files) (λ name h. ground arith)

module _ (total : List File → ℕ) (most : ℕ) (keeps deletes : Str → Bool) where
  abbrev dropped : List Str → List File → List File
  dropped = after total most keeps deletes

  abbrev stuck : Str → Bool
  stuck name = keeps name || not (deletes name)

  all-delete :
      (q : File → Bool) (old : Str) (files : List File)
      → all q files ≡ true
      → all q (delete total most keeps deletes old files) ≡ true
  all-delete q old files h = elim (Bool-cases (not (keeps old) && deletes old)) [
    | inl goes ↦ rw goes (all-filter q (λ f. not (str_eq f.name old)) files h)
    | inr stays ↦ rw stays h
  ]

  all-after :
      (q : File → Bool) (gone : List Str) (files : List File)
      → all q files ≡ true
      → all q (dropped gone files) ≡ true
  all-after q [] files h = h
  all-after q (old ∷ gone) files h = all-after q gone _ (all-delete q old files h)

  filter-after :
      (p : Str → Bool) (gone : List Str) (files : List File)
      → all (λ name. not (p name)) gone ≡ true
      → filter (λ f. p f.name) (dropped gone files) ≡ filter (λ f. p f.name) files
  filter-after p [] files h = refl
  filter-after p (old ∷ gone) files h =
      let one : filter (λ f. p f.name) (delete total most keeps deletes old files)
          ≡ filter (λ f. p f.name) files =
        elim (Bool-cases (not (keeps old) && deletes old)) [
          | inl goes ↦ rw goes (filter-remove p old files (ground arith))
          | inr stays ↦ rw stays refl
        ] in
      filter-after p gone _ (ground arith) ∙ one

  delete-stuck :
      (old : Str) (files : List File)
      → all
          (λ f. not (str_eq f.name old) || stuck f.name)
          (delete total most keeps deletes old files)
        ≡ true
  delete-stuck old files = elim (Bool-cases (not (keeps old) && deletes old)) [
    | inl goes ↦
        rw goes (all-filter_same (λ f. not (str_eq f.name old)) _ files (λ f h. ground arith))
    | inr stays ↦
        rw stays
          (all_each _ files (λ f. ground (arith, str_eq_iff f.name old, ap keeps, ap deletes)))
  ]

  after-stuck :
      (siblings : List Str) (files : List File)
      → all (λ f. not (contains siblings f.name) || stuck f.name) (dropped siblings files) ≡ true
  after-stuck [] files = all_each _ files (λ f. refl)
  after-stuck (old ∷ rest) files =
      all-both (λ f. not (str_eq f.name old) || stuck f.name)
        (λ f. not (contains rest f.name) || stuck f.name) _ _ (λ f h k. ground arith)
        (all-after _ rest _ (delete-stuck old files))
        (after-stuck rest (delete total most keeps deletes old files))

  -- The files but siblings of the name `prefix`, and all files, after a pruning.
  pub record Leaves (prefix : Str) (files result : List File) : Type 0 where
    pub pruned : IsPruned total most keeps deletes (list_rotated prefix files) files result
    pub by_age : IsByAge (list_rotated prefix files)
    pub others :
        filter (λ f. not (is_rotated_sibling prefix f.name)) result
        ≡ filter (λ f. not (is_rotated_sibling prefix f.name)) files
    pub within :
        (total result ≤ most)
        ⊎ (all (λ f. not (is_rotated_sibling prefix f.name) || stuck f.name) result ≡ true)

  all_first :
      (p : Str → Bool) (siblings gone left : List Str)
      → siblings ≡ gone ++ left
      → all p siblings ≡ true
      → all p gone ≡ true
  all_first p siblings gone left e h =
      let both : (all p gone && all p left) ≡ true =
        sym (all-append p gone left) ∙ ap (all p) (sym e) ∙ h in
      ground arith

  left_stuck :
      (prefix : Str) (files : List File)
      → all
          (λ f. not (is_rotated_sibling prefix f.name) || stuck f.name)
          (dropped (list_rotated prefix files) files)
        ≡ true
  unfolding AreListed
  left_stuck prefix files =
      let siblings = list_rotated prefix files in
      all-both (λ f. not (is_rotated_sibling prefix f.name) || contains siblings f.name)
        (λ f. not (contains siblings f.name) || stuck f.name) _ _ (λ f h k. ground arith)
        (all-after _ siblings files (list_rotated-AreListed prefix files))
        (after-stuck siblings files)

  pub prune_oldest-Leaves :
      (prefix : Str) (files : List File)
      → Leaves prefix files
          (prune_oldest total most keeps deletes (list_rotated prefix files) files)
  prune_oldest-Leaves prefix files =
      let siblings = list_rotated prefix files in
      let pr = prune_oldest-IsPruned total most keeps deletes siblings files in
      let gone_siblings =
        all_first _ siblings pr.gone pr.left pr.in_order (list_rotated-siblings prefix files) in
      record {
        pruned = pr;
        by_age = list_rotated-IsByAge prefix files;
        others =
            ap (filter (λ f. not (is_rotated_sibling prefix f.name))) pr.done
            ∙ filter-after (λ name. not (is_rotated_sibling prefix name)) pr.gone files
                gone_siblings;
        within = elim pr.enough [
          | inl fits ↦ inl fits
          | inr nothing ↦
              let whole : siblings ≡ pr.gone =
                pr.in_order ∙ ap (λ l. pr.gone ++ l) nothing ∙ append-nil pr.gone in
              inr (
                ap (all (λ f. not (is_rotated_sibling prefix f.name) || stuck f.name))
                  (pr.done ∙ ap (λ l. dropped l files) (sym whole))
                ∙ left_stuck prefix files)
        ];
      }
