-- ===== src/Parse/Update.antt =====
-- src/parse.rs: what a certificate update is, told of the JSON alone.
use ct_firehose_filter.Prelude.{
  ℕ, ◌≡◌, ◌⊎◌, refl, sym, ◌∙◌, ap, false, Option, none, some, List, ◌∷◌, map, Str, codes, inl, inr,
}
use ct_firehose_filter.Parse.Frame.{
  Json, LeafDomains, and_str, and_f64, and_object, name_of, leaf_of,
}

-- What `read` gives of a field that may be missing.
abbrev pub IsReading : {V A : Type 0} → (V → Option A) → Option V → Option A → Type 0
IsReading {V} read field r =
    ((field ≡ none) × (r ≡ none)) ⊎ ((v : V) × (field ≡ some v) × (r ≡ read v))

module _ {V A : Type 0} (f : Option V → Option A) (read : V → Option A) (missing : f none ≡ none)
    (there : (v : V) → f (some v) ≡ read v) where
  reading : (field : Option V) → IsReading read field (f field)
  reading none = inl (refl, missing)
  reading (some v) = inr (v, refl, there v)

  reading_eq : (field : Option V) (r : Option A) → IsReading read field r → r ≡ f field
  reading_eq field r (inl (e, h)) = h ∙ sym (ap f e ∙ missing)
  reading_eq field r (inr (v, e, h)) = h ∙ sym (ap f e ∙ there v)

module _ {V O : Type 0} (j : Json V O) where
  -- The field is there, is not null, and is the object.
  abbrev pub IsObject : Option V → O → Type 0
  IsObject field obj =
      (v : V) × (field ≡ some v) × (j.is_null v ≡ false) × (j.as_object v ≡ some obj)

  abbrev pub IsArray : Option V → List V → Type 0
  IsArray field items =
      (v : V) × (field ≡ some v) × (j.is_null v ≡ false) × (j.as_array v ≡ some items)

  -- The `name` of the object that is the field.
  abbrev pub IsSource : Option V → Option Str → Type 0
  IsSource field name =
      (src : Option O) × IsReading j.as_object field src
      × (((src ≡ none) × (name ≡ none))
          ⊎ ((o : O) × (src ≡ some o) × IsReading j.as_str (j.get o (codes "name")) name))

  -- The metadata of a leaf: `seen` and the source's name are those of `data`, the fingerprint is that
  -- of `leaf_cert`, and what is missing or of another type is left out.
  pub record IsMeta (data_object leaf : O) (l : LeafDomains) : Type 0 where
    pub seen : IsReading j.as_f64 (j.get data_object (codes "seen")) l.seen
    pub source : IsSource (j.get data_object (codes "source")) l.source
    pub fingerprint : IsReading j.as_str (j.get leaf (codes "fingerprint")) l.fingerprint

  -- A certificate update with a leaf, whose names are the strings of an array that is not empty.
  pub record IsUpdate (bytes : List ℕ) (l : LeafDomains) : Type 0 where
    pub text : Str
    pub root : V
    pub obj : O
    pub kind : V
    pub data_object : O
    pub leaf : O
    pub item : V
    pub items : List V
    pub utf8 : j.from_utf8 bytes ≡ some text
    pub parsed : j.from_str text ≡ some root
    pub object : j.as_object root ≡ some obj
    pub has_kind : j.get obj (codes "message_type") ≡ some kind
    pub update : j.as_str kind ≡ some (codes "certificate_update")
    pub has_data : IsObject (j.get obj (codes "data")) data_object
    pub has_leaf : IsObject (j.get data_object (codes "leaf_cert")) leaf
    pub has_names : IsArray (j.get leaf (codes "all_domains")) (item ∷ items)
    pub names : map j.as_str (item ∷ items) ≡ map some l.domains
    pub metadata : IsMeta data_object leaf l

  name_of-IsSource :
      (src : Option O) (field : Option V)
      → IsReading j.as_object field src
      → IsSource field (name_of j src)
  name_of-IsSource none field h = (none, h, inl (refl, refl))
  name_of-IsSource (some o) field h = (
    some o,
    h,
    inr (o, refl, reading (and_str j) j.as_str refl (λ v. refl) (j.get o (codes "name"))),
  )

  name_of_eq :
      (src : Option O) (name : Option Str)
      → ((src ≡ none) × (name ≡ none))
        ⊎ ((o : O) × (src ≡ some o) × IsReading j.as_str (j.get o (codes "name")) name)
      → name ≡ name_of j src
  name_of_eq src name (inl (e, h)) = h ∙ sym (ap (name_of j) e)
  name_of_eq src name (inr (o, e, h)) =
      reading_eq (and_str j) j.as_str refl (λ v. refl) (j.get o (codes "name")) name h
      ∙ sym (ap (name_of j) e)

  pub leaf_of-IsMeta :
      (data_object leaf : O) (domains : List Str)
      → IsMeta data_object leaf (leaf_of j data_object leaf domains)
  unfolding leaf_of
  leaf_of-IsMeta data_object leaf domains = record {
    seen = reading (and_f64 j) j.as_f64 refl (λ v. refl) (j.get data_object (codes "seen"));
    source =
        name_of-IsSource (and_object j (j.get data_object (codes "source")))
          (j.get data_object (codes "source"))
          (reading (and_object j) j.as_object refl (λ v. refl)
            (j.get data_object (codes "source")));
    fingerprint = reading (and_str j) j.as_str refl (λ v. refl) (j.get leaf (codes "fingerprint"));
  }

  pub IsMeta-eq :
      (data_object leaf : O) (l : LeafDomains)
      → IsMeta data_object leaf l
      → leaf_of j data_object leaf l.domains ≡ l
  unfolding leaf_of
  IsMeta-eq data_object leaf l m =
      let (src, is_src, named) = m.source in
      let seen =
        reading_eq (and_f64 j) j.as_f64 refl (λ v. refl) (j.get data_object (codes "seen")) l.seen
          m.seen in
      let source : l.source ≡ name_of j (and_object j (j.get data_object (codes "source"))) =
        name_of_eq src l.source named
        ∙ ap (name_of j) (
            reading_eq (and_object j) j.as_object refl (λ v. refl)
              (j.get data_object (codes "source")) src is_src) in
      let fingerprint =
        reading_eq (and_str j) j.as_str refl (λ v. refl) (j.get leaf (codes "fingerprint"))
          l.fingerprint m.fingerprint in
      cc
