-- ===== src/Market/Lifecycle/Reach/Rowwise.antt =====
-- Facts about every row of the table survive a commit: how `load`, `put`, a save and the sweep
-- act on a predicate of rows.
use cs.Base.{
  ℕ, ◌≡◌, subst, ◌&&◌, inl, inr, Bool, true, false, Option, some, List, [], ◌∷◌, ◌==◌, All,
  All-append, ok, Bool-cases,
}
use cs.Market.{Market}
use cs.Market.Lifecycle.Rows.{load, put, is_wanted}
use cs.Market.Lifecycle.Saves.{find_by_draft_key, write_row, close_row, close_rows}

module _ (P : Market → Type 0) where
  pub All-load :
      (creator_id : Option ℕ) (id : ℕ) (ms : List Market) {m : Market}
      → load creator_id id ms ≡ ok m
      → All P ms
      → P m
  unfolding load
  All-load creator_id id [] h a = cc
  All-load creator_id id (x ∷ ms) {m} h a = elim (Bool-cases (is_wanted creator_id id x)) [
    | inl wanted ↦ let same : x ≡ m = cc (rw wanted at h) in subst P same a.0
    | inr other ↦ All-load creator_id id ms (rw other at h) a.1
  ]

  pub All-put : (m : Market) (ms : List Market) → All P ms → P m → All P (put m ms)
  unfolding put
  All-put m [] a p = tt
  All-put m (x ∷ ms) a p = elim (Bool-cases (x.id == m.id)) [
    | inl here ↦ rw here (p, a.1)
    | inr there ↦ rw there (a.0, All-put m ms a.1 p)
  ]

  pub All-find :
      (creator_id draft_key : ℕ) (ms : List Market) {m : Market}
      → find_by_draft_key creator_id draft_key ms ≡ some m
      → All P ms
      → P m
  unfolding find_by_draft_key
  All-find creator_id draft_key [] h a = cc
  All-find creator_id draft_key (x ∷ ms) {m} h a =
      elim (Bool-cases ((x.creator_id == creator_id) && (x.draft_key == draft_key))) [
        | inl here ↦ let same : x ≡ m = cc (rw here at h) in subst P same a.0
        | inr there ↦ All-find creator_id draft_key ms (rw there at h) a.1
      ]

  pub All-write_row :
      (created : Bool) (m : Market) (ms : List Market)
      → All P ms
      → P m
      → All P (write_row created m ms)
  unfolding write_row
  All-write_row true m ms a p = All-append P ms (m ∷ []) a (p, tt)
  All-write_row false m ms a p = All-put m ms a p

  -- A row survives the sweep if it survives its own closing.
  pub All-close_rows :
      (now : ℕ) (due : List ℕ) (ms : List Market)
      → ((m : Market) → P m → P (close_row now due m))
      → All P ms
      → All P (close_rows now due ms)
  unfolding close_rows
  All-close_rows now due [] keeps a = tt
  All-close_rows now due (x ∷ ms) keeps a = (keeps x a.0, All-close_rows now due ms keeps a.1)
