-- ===== src/Parse/Frame.antt =====
-- src/parse.rs: `parse_certstream_frame`. The decoding of UTF-8 and the JSON values of crate
-- `serde_json_borrow` are parameters, with the accessors that the code calls.
use ct_firehose_filter.Prelude.{
  ℕ, Bool, false, Option, none, some, List, [], ◌∷◌, if◌then◌else◌, Str, codes, str_eq,
}
use ct_firehose_filter.Prelude.Int.{F64}
use ct_firehose_filter.Event.{FrameMeta}

-- Values `V` and objects `O`.
pub record Json (V O : Type 0) : Type 0 where
  pub from_utf8 : List ℕ → Option Str
  pub from_str : Str → Option V
  pub is_null : V → Bool
  pub as_object : V → Option O
  pub as_array : V → Option (List V)
  pub as_str : V → Option Str
  pub as_f64 : V → Option F64
  pub get : O → Str → Option V

pub record LeafDomains : Type 0 where
  pub domains : List Str
  pub seen : Option F64
  pub source : Option Str
  pub fingerprint : Option Str

abbrev pub frame_meta : LeafDomains → FrameMeta
frame_meta l = record { seen = l.seen; source = l.source; fingerprint = l.fingerprint }

pub data ParseError : Type 0 where
  invalid_utf8 json : ParseError
  malformed : Str → ParseError

-- `Result<Option<A>, ParseError>`
pub data Frame (A : Type 0) : Type 0 where
  failed : ParseError → Frame A
  skipped : Frame A
  got : A → Frame A

infixl 10 ◌>>=◌
abbrev pub ◌>>=◌ : {A B : Type 0} → Frame A → (A → Frame B) → Frame B
failed e >>= f = failed e
skipped >>= f = skipped
got a >>= f = f a

abbrev pub or_fail : {A : Type 0} → ParseError → Option A → Frame A
or_fail e none = failed e
or_fail e (some a) = got a

abbrev pub is_update : Option Str → Bool
is_update none = false
is_update (some t) = str_eq t (codes "certificate_update")

module _ {V O : Type 0} (j : Json V O) where
  abbrev pub and_str : Option V → Option Str
  and_str none = none
  and_str (some v) = j.as_str v

  -- A field that may be missing or null, and is an object else.
  unfoldable pub object_field : Str → Option V → Frame O
  object_field what none = skipped
  object_field what (some v) =
      if j.is_null v then skipped else or_fail (malformed what) (j.as_object v)

  abbrev pub and_first : Option Str → Frame (List Str) → Frame (List Str)
  and_first none later = failed (malformed (codes "all_domains entry is not a string"))
  and_first (some s) (got rest) = got (s ∷ rest)
  and_first (some s) later = later

  -- The loop over the entries.
  unfoldable pub strings_of : List V → Frame (List Str)
  strings_of [] = got []
  strings_of (item ∷ rest) = and_first (j.as_str item) (strings_of rest)

  abbrev pub domains_of_array : Option (List V) → Frame (List Str)
  domains_of_array none = failed (malformed (codes "all_domains has the wrong type"))
  domains_of_array (some []) = skipped
  domains_of_array (some (item ∷ rest)) = strings_of (item ∷ rest)

  unfoldable pub domains_of : Option V → Frame (List Str)
  domains_of none = skipped
  domains_of (some v) =
      if j.is_null v
      then failed (malformed (codes "all_domains is null"))
      else domains_of_array (j.as_array v)

  abbrev pub and_f64 : Option V → Option F64
  and_f64 none = none
  and_f64 (some v) = j.as_f64 v

  abbrev pub and_object : Option V → Option O
  and_object none = none
  and_object (some v) = j.as_object v

  abbrev pub name_of : Option O → Option Str
  name_of none = none
  name_of (some src) = and_str (j.get src (codes "name"))

  unfoldable pub leaf_of : O → O → List Str → LeafDomains
  leaf_of data_object leaf domains = record {
    domains = domains;
    seen = and_f64 (j.get data_object (codes "seen"));
    source = name_of (and_object (j.get data_object (codes "source")));
    fingerprint = and_str (j.get leaf (codes "fingerprint"));
  }

  unfoldable pub leaf_of_update : O → Frame LeafDomains
  leaf_of_update obj = do
    data_object ← object_field (codes "data is not an object") (j.get obj (codes "data"))
    leaf ← object_field (codes "leaf_cert is not an object") (j.get data_object (codes "leaf_cert"))
    domains ← domains_of (j.get leaf (codes "all_domains"))
    got (leaf_of data_object leaf domains)

  unfoldable pub parse_certstream_frame : List ℕ → Frame LeafDomains
  parse_certstream_frame bytes = do
    text ← or_fail invalid_utf8 (j.from_utf8 bytes)
    root ← or_fail json (j.from_str text)
    obj ← or_fail (malformed (codes "root is not a JSON object")) (j.as_object root)
    if is_update (and_str (j.get obj (codes "message_type"))) then leaf_of_update obj else skipped
