-- ===== src/Tests/Parse.antt =====
-- src/parse.rs on a small frame.
use ct_firehose_filter.Prelude.{
  ◌≡◌, ◌↔◌, refl, false, Option, none, some, List, [], ◌∷◌, Str, codes, str_eq, if◌then◌else◌,
}
use ct_firehose_filter.Parse.Frame.{
  Json, LeafDomains, got, parse_certstream_frame, leaf_of_update, object_field, domains_of,
  strings_of, leaf_of,
}
use ct_firehose_filter.Parse.Update.{IsUpdate}
use ct_firehose_filter.Parse.Leaf.{parse_certstream_frame-IsUpdate}
use ct_firehose_filter.Tests.Data.{alpha}

-- The values of one frame.
pub data Node : Type 0 where
  top kind info leaf names name : Node

abbrev child : Node → Str → Option Node
child Node.top key =
    if str_eq key (codes "message_type")
    then some Node.kind
    else if str_eq key (codes "data")
    then some Node.info
    else none
child Node.info key = if str_eq key (codes "leaf_cert") then some Node.leaf else none
child Node.leaf key =
    if str_eq key (codes "all_domains")
    then some Node.names
    else if str_eq key (codes "fingerprint")
    then some Node.name
    else none
child _ key = none

abbrev text_of : Node → Option Str
text_of Node.kind = some (codes "certificate_update")
text_of Node.name = some alpha
text_of _ = none

abbrev items_of : Node → Option (List Node)
items_of Node.names = some (Node.name ∷ Node.name ∷ [])
items_of _ = none

abbrev object_of : Node → Option Node
object_of Node.top = some Node.top
object_of Node.info = some Node.info
object_of Node.leaf = some Node.leaf
object_of _ = none

abbrev pub frame_json : Json Node Node
frame_json = record {
  from_utf8 = λ bytes. some bytes;
  from_str = λ text. some Node.top;
  is_null = λ v. false;
  as_object = object_of;
  as_array = items_of;
  as_str = text_of;
  as_f64 = λ v. none;
  get = child;
}

abbrev frame_leaf : LeafDomains
frame_leaf = record {
  domains = alpha ∷ alpha ∷ [];
  seen = none;
  source = none;
  fingerprint = some alpha;
}

frame_gives_leaf : parse_certstream_frame frame_json (codes "{}") ≡ got frame_leaf
unfolding parse_certstream_frame leaf_of_update object_field domains_of strings_of leaf_of
frame_gives_leaf = refl

parse_certstream_frame-IsUpdate_example :
    (parse_certstream_frame frame_json (codes "{}") ≡ got frame_leaf)
    ↔ IsUpdate frame_json (codes "{}") frame_leaf
parse_certstream_frame-IsUpdate_example =
    parse_certstream_frame-IsUpdate frame_json (codes "{}") frame_leaf
