-- ===== src/Parse/Leaf.antt =====
-- src/parse.rs: which frames give a leaf, and what is in it.
use ct_firehose_filter.Prelude.{
  ℕ, ◌≡◌, ◌≢◌, ◌↔◌, refl, sym, ◌∙◌, ap, ap₂, Bool, true, false, Option, none, some, List, [], ◌∷◌,
  map, arith, Str, codes, if◌then◌else◌, subst, str_eq, str_eq_iff, Option-cases, inl, inr,
}
use ct_firehose_filter.Parse.Update.{IsObject, IsArray, IsMeta, IsUpdate, leaf_of-IsMeta, IsMeta-eq}
use ct_firehose_filter.Parse.Frame.{
  Json, LeafDomains, ParseError, Frame, failed, skipped, got, invalid_utf8, json, malformed, ◌>>=◌,
  or_fail, is_update, and_str, object_field, and_first, strings_of, domains_of_array, domains_of,
  leaf_of, leaf_of_update, parse_certstream_frame,
}

module _ {A B : Type 0} where
  -- What a chain that gives a value has gone through.
  bind-got :
      (m : Frame A) (f : A → Frame B) (b : B)
      → (m >>= f) ≡ got b
      → (a : A) × (m ≡ got a) × (f a ≡ got b)
  bind-got (failed e) f b h = absurd cc
  bind-got skipped f b h = absurd cc
  bind-got (got a) f b h = (a, refl, h)

or_fail-got :
    {A : Type 0} (e : ParseError) (o : Option A) (a : A) → or_fail e o ≡ got a → o ≡ some a
or_fail-got e none a h = absurd cc
or_fail-got e (some x) a h = cc

unless-got :
    {A : Type 0} (b : Bool) (e m : Frame A) (a : A)
    → ((a' : A) → e ≢ got a')
    → (if b then e else m) ≡ got a
    → (b ≡ false) × (m ≡ got a)
unless-got true e m a none_got h = absurd (none_got a h)
unless-got false e m a none_got h = (refl, h)

module _ {V O : Type 0} (j : Json V O) where
  object_field-IsObject :
      (what : Str) (field : Option V) (obj : O)
      → (object_field j what field ≡ got obj) ↔ IsObject j field obj
  unfolding object_field
  object_field-IsObject what none obj = (λ h. absurd cc, λ (v, e, n, o). absurd cc)
  object_field-IsObject what (some v) obj = (
    λ h.
        let (there, o) =
          unless-got (j.is_null v) skipped (or_fail (malformed what) (j.as_object v)) obj
            (λ a e. cc) h in
        (v, refl, there, or_fail-got (malformed what) (j.as_object v) obj o),
    λ (w, e, n, o). ground arith,
  )

  and_first-got :
      (o : Option Str) (later : Frame (List Str)) (l : List Str)
      → and_first j o later ≡ got l
      → (s : Str) × (rest : List Str) × (o ≡ some s) × (later ≡ got rest) × (l ≡ s ∷ rest)
  and_first-got none later l h = absurd cc
  and_first-got (some s) (got rest) l h = (s, rest, refl, refl, cc)
  and_first-got (some s) (failed e) l h = absurd cc
  and_first-got (some s) skipped l h = absurd cc

  strings_of_sound :
      (items : List V) (l : List Str) → strings_of j items ≡ got l → map j.as_str items ≡ map some l
  unfolding strings_of
  strings_of_sound [] l h = let e : [] ≡ l = cc in ap (map some) e
  strings_of_sound (item ∷ items) l h =
      let (s, rest, e, later, same) = and_first-got (j.as_str item) (strings_of j items) l h in
      ap₂ ◌∷◌ e (strings_of_sound items rest later) ∙ ap (map some) (sym same)

  strings_of_complete :
      (items : List V) (l : List Str) → map j.as_str items ≡ map some l → strings_of j items ≡ got l
  unfolding strings_of
  strings_of_complete [] [] h = refl
  strings_of_complete [] (s ∷ l) h = absurd cc
  strings_of_complete (item ∷ items) [] h = absurd cc
  strings_of_complete (item ∷ items) (s ∷ l) h =
      let first : j.as_str item ≡ some s = cc in
      let later : strings_of j items ≡ got l = strings_of_complete items l cc in
      rw (first, later) refl

  array-got :
      (o : Option (List V)) (l : List Str)
      → domains_of_array j o ≡ got l
      → (item : V) × (items : List V) × (o ≡ some (item ∷ items))
        × (map j.as_str (item ∷ items) ≡ map some l)
  array-got none l h = absurd cc
  array-got (some []) l h = absurd cc
  array-got (some (item ∷ items)) l h = (item, items, refl, strings_of_sound (item ∷ items) l h)

  domains_of-got :
      (field : Option V) (l : List Str)
      → domains_of j field ≡ got l
      → (item : V) × (items : List V) × IsArray j field (item ∷ items)
        × (map j.as_str (item ∷ items) ≡ map some l)
  unfolding domains_of
  domains_of-got none l h = absurd cc
  domains_of-got (some v) l h =
      let (there, h') =
        unless-got (j.is_null v) (failed (malformed (codes "all_domains is null")))
          (domains_of_array j (j.as_array v)) l (λ a e. cc) h in
      let (item, items, e, names) = array-got (j.as_array v) l h' in
      (item, items, (v, refl, there, e), names)

  domains_of_complete :
      (field : Option V) (item : V) (items : List V) (l : List Str)
      → IsArray j field (item ∷ items)
      → map j.as_str (item ∷ items) ≡ map some l
      → domains_of j field ≡ got l
  unfolding domains_of
  domains_of_complete field item items l (v, e, there, array) names =
      rw (e, there, array) (strings_of_complete (item ∷ items) l names)

  if-got :
      {A : Type 0} (b : Bool) (m : Frame A) (a : A)
      → (if b then m else skipped) ≡ got a
      → (b ≡ true) × (m ≡ got a)
  if-got true m a h = (refl, h)
  if-got false m a h = absurd cc

  is_update-got :
      (field : Option V)
      → is_update (and_str j field) ≡ true
      → (v : V) × (field ≡ some v) × (j.as_str v ≡ some (codes "certificate_update"))
  is_update-got none h = absurd cc
  is_update-got (some v) h = elim (Option-cases (j.as_str v)) [
    | inl nothing ↦ absurd cc
    | inr (t, e) ↦
        let same : str_eq t (codes "certificate_update") ≡ true = sym (ap is_update e) ∙ h in
        (v, refl, e ∙ ap some ((str_eq_iff t (codes "certificate_update")).0 same))
  ]

  parse_sound :
      (bytes : List ℕ) (l : LeafDomains)
      → parse_certstream_frame j bytes ≡ got l
      → IsUpdate j bytes l
  unfolding parse_certstream_frame leaf_of_update leaf_of
  parse_sound bytes l h =
      let (text, h_text, h1) = bind-got (or_fail invalid_utf8 (j.from_utf8 bytes)) _ l h in
      let (root, h_root, h2) = bind-got (or_fail json (j.from_str text)) _ l h1 in
      let not_object = malformed (codes "root is not a JSON object") in
      let (obj, h_obj, h3) = bind-got (or_fail not_object (j.as_object root)) _ l h2 in
      let (is, h4) =
        if-got (is_update (and_str j (j.get obj (codes "message_type")))) (leaf_of_update j obj) l
          h3 in
      let (kind, has_kind, update) = is_update-got (j.get obj (codes "message_type")) is in
      let no_data = codes "data is not an object" in
      let (data_object, h_data, h5) =
        bind-got (object_field j no_data (j.get obj (codes "data"))) _ l h4 in
      let no_leaf = codes "leaf_cert is not an object" in
      let (leaf, h_leaf, h6) =
        bind-got (object_field j no_leaf (j.get data_object (codes "leaf_cert"))) _ l h5 in
      let (domains, h_names, h7) =
        bind-got (domains_of j (j.get leaf (codes "all_domains"))) _ l h6 in
      let (item, items, array, names) =
        domains_of-got (j.get leaf (codes "all_domains")) domains h_names in
      let e : leaf_of j data_object leaf domains ≡ l = cc in
      let d : domains ≡ l.domains = ap (λ (x : LeafDomains). x.domains) e in
      record {
        text = text;
        root = root;
        obj = obj;
        data_object = data_object;
        leaf = leaf;
        item = item;
        items = items;
        utf8 = or_fail-got invalid_utf8 (j.from_utf8 bytes) text h_text;
        parsed = or_fail-got json (j.from_str text) root h_root;
        object = or_fail-got not_object (j.as_object root) obj h_obj;
        kind = kind;
        has_kind = has_kind;
        update = update;
        has_data = (object_field-IsObject no_data (j.get obj (codes "data")) data_object).0 h_data;
        has_leaf =
            (object_field-IsObject no_leaf (j.get data_object (codes "leaf_cert")) leaf).0 h_leaf;
        has_names = array;
        names = names ∙ ap (map some) d;
        metadata = subst (IsMeta j data_object leaf) e (leaf_of-IsMeta j data_object leaf domains);
      }

  parse_complete :
      (bytes : List ℕ) (l : LeafDomains)
      → IsUpdate j bytes l
      → parse_certstream_frame j bytes ≡ got l
  unfolding parse_certstream_frame leaf_of_update
  parse_complete bytes l u =
      let data_is =
        (object_field-IsObject (codes "data is not an object") (j.get u.obj (codes "data"))
            u.data_object).1
          u.has_data in
      let leaf_is =
        (object_field-IsObject (codes "leaf_cert is not an object")
            (j.get u.data_object (codes "leaf_cert")) u.leaf).1
          u.has_leaf in
      let names_are =
        domains_of_complete (j.get u.leaf (codes "all_domains")) u.item u.items l.domains
          u.has_names u.names in
      rw (u.utf8, u.parsed, u.object, u.has_kind, u.update, data_is, leaf_is, names_are)
        (ap got (IsMeta-eq j u.data_object u.leaf l u.metadata))

  -- A frame gives a leaf exactly when it is UTF-8 and JSON, its message type is that of an update,
  -- `data` and its `leaf_cert` are objects and `all_domains` is an array of strings that is not
  -- empty. The leaf's names are these strings in order, its `seen` is the number and its source the
  -- `name` of the object that `data` has under these keys, and its fingerprint is the string that
  -- `leaf_cert` has; of these three, what is missing or of another type is left out.
  pub parse_certstream_frame-IsUpdate :
      (bytes : List ℕ) (l : LeafDomains)
      → (parse_certstream_frame j bytes ≡ got l) ↔ IsUpdate j bytes l
  parse_certstream_frame-IsUpdate bytes l = (parse_sound bytes l, parse_complete bytes l)
