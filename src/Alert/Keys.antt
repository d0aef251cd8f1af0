-- ===== src/Alert/Keys.antt =====
-- src/novelty_alert.rs: the set of brands that `unique_keywords` makes of a match.
use ct_firehose_filter.Prelude.{
  ◌≡◌, sym, ◌∙◌, map, Str, str_eq, to_ascii_lowercase, contains, any-sort, sort-IsAscending,
  IsAscending,
}
use ct_firehose_filter.Prelude.Sets.{
  collect_set, collect_set-IsNodup, contains-collect_set, IsAscending-ext,
}
use ct_firehose_filter.Event.{MatchEvent}
use ct_firehose_filter.Alert.Brands.{unique_keywords}

pub unique_keywords-IsAscending : (ev : MatchEvent) → IsAscending (unique_keywords ev)
unfolding unique_keywords
unique_keywords-IsAscending ev =
    sort-IsAscending (collect_set (map to_ascii_lowercase ev.matched_keywords))
      (collect_set-IsNodup (map to_ascii_lowercase ev.matched_keywords))

unique_keywords-contains :
    (ev : MatchEvent) (k : Str)
    → contains (unique_keywords ev) k ≡ contains (map to_ascii_lowercase ev.matched_keywords) k
unfolding unique_keywords
unique_keywords-contains ev k =
    any-sort (str_eq k) (collect_set (map to_ascii_lowercase ev.matched_keywords))
    ∙ contains-collect_set (map to_ascii_lowercase ev.matched_keywords) k

-- The brands of a match are a set in one order: two matches whose keywords are the same up to
-- case, order and repetition have the same brands, and so the same coalition key.
pub unique_keywords-eq_of_same_set :
    (ev other : MatchEvent)
    → ((k : Str)
        → contains (map to_ascii_lowercase ev.matched_keywords) k
          ≡ contains (map to_ascii_lowercase other.matched_keywords) k)
    → unique_keywords ev ≡ unique_keywords other
unique_keywords-eq_of_same_set ev other same =
    IsAscending-ext (unique_keywords ev) (unique_keywords other) (unique_keywords-IsAscending ev)
      (unique_keywords-IsAscending other)
      (λ k. unique_keywords-contains ev k ∙ same k ∙ sym (unique_keywords-contains other k))
