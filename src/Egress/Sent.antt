-- ===== src/Egress/Sent.antt =====
-- src/egress.rs: what standard output has after a batch was sent.
use ct_firehose_filter.Prelude.{◌≡◌, ◌⊎◌, Bool, true, false, List, [], ◌∷◌, ◌++◌, all, Str}
use ct_firehose_filter.Event.{MatchEvent}
use ct_firehose_filter.Egress.{Stdout, is_whole}

-- What sending `text` has done, of which all can be made if `made` says so: standard output has
-- taken the first part of it, and all of it on success. A failure has its cause in a text that
-- cannot be made, or in a write that fails.
pub record IsWritten (text : Str) (made : Bool) (s : Stdout) (r : Bool × Stdout) : Type 0 where
  pub added : Str
  pub rest : Str
  pub parts : added ++ rest ≡ text
  pub now : r.1.text ≡ s.text ++ added
  pub answered :
      ((r.0 ≡ true) × (rest ≡ []) × (made ≡ true))
      ⊎ ((r.0 ≡ false) × ((made ≡ false) ⊎ (all is_whole s.writes ≡ false)))
  pub later : (all is_whole s.writes ≡ false) ⊎ (all is_whole r.1.writes ≡ true)

module _ (to_json : MatchEvent → Str × Bool) where
  -- The lines of the events, in their order.
  abbrev pub text_of : List MatchEvent → Str
  text_of [] = []
  text_of (item ∷ rest) = (to_json item).0 ++ (b'\n' ∷ text_of rest)

  -- Whether the serializer comes to the end of each.
  abbrev pub is_made : List MatchEvent → Bool
  is_made items = all (λ item. (to_json item).1) items
