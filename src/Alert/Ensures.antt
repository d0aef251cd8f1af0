-- ===== src/Alert/Ensures.antt =====
-- Postconditions of actions on the store: what holds of the result and the new state when an
-- action succeeds.
use ct_firehose_filter.Prelude.{◌≡◌, refl, subst, Bool, true, false, if◌then◌else◌}
use ct_firehose_filter.Novelty.Sql.{NoveltyStore, Result, ok, err, Sql, continue, ◌>>=◌, pure}

abbrev pub OnOk : {A : Type 0} → (A → NoveltyStore → Type 0) → Result A → NoveltyStore → Type 0
OnOk Q (ok a) s = Q a s
OnOk Q err s = Unit {0}

-- The postcondition of `m` at the state `s`.
pub record Ensures {A : Type 0} (Q : A → NoveltyStore → Type 0) (m : Sql A) (s : NoveltyStore)
    : Type 0 where
  pub holds : OnOk Q (m s).0 (m s).1

continue-OnOk :
    {A B : Type 0} (P : A → NoveltyStore → Type 0) (Q : B → NoveltyStore → Type 0) (f : A → Sql B)
    → ((a : A) (t : NoveltyStore) → P a t → Ensures Q (f a) t)
    → (r : Result A) (s : NoveltyStore) → OnOk P r s
    → OnOk Q (continue r f s).0 (continue r f s).1
continue-OnOk P Q f h (ok a) s p = (h a s p).holds
continue-OnOk P Q f h err s p = tt

OnOk-weaken :
    {A : Type 0} (P Q : A → NoveltyStore → Type 0)
    → ((a : A) (s : NoveltyStore) → P a s → Q a s)
    → (r : Result A) (s : NoveltyStore) → OnOk P r s
    → OnOk Q r s
OnOk-weaken P Q h (ok a) s p = h a s p
OnOk-weaken P Q h err s p = tt

OnOk-any : {A : Type 0} (r : Result A) (s : NoveltyStore) → OnOk (λ _ _. Unit {0}) r s
OnOk-any (ok a) s = tt
OnOk-any err s = tt

pub Ensures-pure :
    {A : Type 0} {Q : A → NoveltyStore → Type 0} (a : A) {s : NoveltyStore}
    → Q a s
    → Ensures Q (pure a) s
unfolding pure
Ensures-pure a q = record { holds = q }

-- Every action ensures nothing.
pub Ensures-any : {A : Type 0} (m : Sql A) (s : NoveltyStore) → Ensures (λ _ _. Unit {0}) m s
Ensures-any m s = record { holds = OnOk-any (m s).0 (m s).1 }

pub Ensures-bind :
    {A B : Type 0} {P : A → NoveltyStore → Type 0} {Q : B → NoveltyStore → Type 0} (m : Sql A)
    {f : A → Sql B} {s : NoveltyStore}
    → Ensures P m s
    → ((a : A) (t : NoveltyStore) → P a t → Ensures Q (f a) t)
    → Ensures Q (m >>= f) s
unfolding ◌>>=◌
Ensures-bind {P} {Q} m {f} {s} p h = record {
  holds = continue-OnOk P Q f h (m s).0 (m s).1 p.holds;
}

-- The result of the first action does not matter.
pub Ensures-then :
    {A B : Type 0} {Q : B → NoveltyStore → Type 0} (m : Sql A) {f : A → Sql B} {s : NoveltyStore}
    → ((a : A) (t : NoveltyStore) → Ensures Q (f a) t)
    → Ensures Q (m >>= f) s
Ensures-then m {s} h = Ensures-bind m (Ensures-any m s) (λ a t _. h a t)

pub Ensures-if :
    {A : Type 0} {Q : A → NoveltyStore → Type 0} (b : Bool) {m n : Sql A} {s : NoveltyStore}
    → (b ≡ true → Ensures Q m s)
    → (b ≡ false → Ensures Q n s)
    → Ensures Q (if b then m else n) s
Ensures-if true hm hn = hm refl
Ensures-if false hm hn = hn refl

pub Ensures-weaken :
    {A : Type 0} {P Q : A → NoveltyStore → Type 0} {m : Sql A} {s : NoveltyStore}
    → ((a : A) (t : NoveltyStore) → P a t → Q a t)
    → Ensures P m s
    → Ensures Q m s
Ensures-weaken {P} {Q} {m} {s} h p = record { holds = OnOk-weaken P Q h (m s).0 (m s).1 p.holds }

-- A successful run meets the postcondition.
pub Ensures-ok :
    {A : Type 0} (Q : A → NoveltyStore → Type 0) (m : Sql A) (s t : NoveltyStore) (a : A)
    → Ensures Q m s
    → m s ≡ (ok a, t)
    → Q a t
Ensures-ok Q m s t a p e = subst (λ r. OnOk Q r.0 r.1) e p.holds
