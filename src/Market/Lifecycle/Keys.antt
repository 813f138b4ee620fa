-- ===== src/Market/Lifecycle/Keys.antt =====
-- market_service.py and closing.py: no commit gives two rows of the table one id.
use cs.Base.{
  ℕ, ◌≡◌, sym, ◌∙◌, ◌≢◌, inl, inr, subst, Option, none, some, List, [], ◌∷◌, ◌++◌, ok, Bool-cases,
  ==→eq, ◌==◌, arith,
}
use cs.Market.{Market, Actor, Terms}
use cs.Market.Lifecycle.Rows.{Store, put, commit}
use cs.Market.Lifecycle.Steps.{Settings}
use cs.Market.Lifecycle.Saves.{
  DraftRequest, apply, find_by_draft_key, row_to_save, is_new, write_row, close_row, close_rows,
  close_due_markets,
}
use cs.Market.Lifecycle.Diagram.{Changes}
use cs.Market.Lifecycle.Reach.{IsUnused, Step, handled, saved, swept, Reach, started, next}
use cs.Market.Lifecycle.Invariant.{save_once-row}
use cs.Market.Lifecycle.Log.{IsKeyed, handle-Changes, target_of}

IsUnused-put : (id : ℕ) (m : Market) (ms : List Market) → IsUnused id ms → IsUnused id (put m ms)
unfolding put
IsUnused-put id m [] h = tt
IsUnused-put id m (x ∷ ms) (other, rest) = elim (Bool-cases (x.id == m.id)) [
  | inl same ↦ rw same ((λ e. other (==→eq x.id m.id same ∙ e)), rest)
  | inr apart ↦ rw apart (other, IsUnused-put id m ms rest)
]

IsKeyed-put : (m : Market) (ms : List Market) → IsKeyed ms → IsKeyed (put m ms)
unfolding put
IsKeyed-put m [] h = tt
IsKeyed-put m (x ∷ ms) (unused, rest) = elim (Bool-cases (x.id == m.id)) [
  | inl same ↦ rw same (subst (λ i. IsUnused i ms) (==→eq x.id m.id same) unused, rest)
  | inr apart ↦ rw apart (IsUnused-put x.id m ms unused, IsKeyed-put m ms rest)
]

IsUnused-append :
    (id : ℕ) (m : Market) (ms : List Market)
    → m.id ≢ id
    → IsUnused id ms
    → IsUnused id (ms ++ (m ∷ []))
IsUnused-append id m [] other h = (other, tt)
IsUnused-append id m (x ∷ ms) other (apart, rest) = (apart, IsUnused-append id m ms other rest)

IsKeyed-append :
    (m : Market) (ms : List Market) → IsUnused m.id ms → IsKeyed ms → IsKeyed (ms ++ (m ∷ []))
IsKeyed-append m [] unused h = (tt, tt)
IsKeyed-append m (x ∷ ms) (apart, unused) (x_unused, rest) =
    (IsUnused-append x.id m ms (λ e. apart (sym e)) x_unused, IsKeyed-append m ms unused rest)

close_row-id : (now : ℕ) (due : List ℕ) (m : Market) → (close_row now due m).id ≡ m.id
unfolding close_row
close_row-id now due m = ground arith

IsUnused-close_rows :
    (id now : ℕ) (due : List ℕ) (ms : List Market)
    → IsUnused id ms
    → IsUnused id (close_rows now due ms)
unfolding close_rows
IsUnused-close_rows id now due [] h = tt
IsUnused-close_rows id now due (m ∷ ms) (other, rest) =
    ((λ e. other (sym (close_row-id now due m) ∙ e)), IsUnused-close_rows id now due ms rest)

IsKeyed-close_rows :
    (now : ℕ) (due : List ℕ) (ms : List Market) → IsKeyed ms → IsKeyed (close_rows now due ms)
unfolding close_rows
IsKeyed-close_rows now due [] h = tt
IsKeyed-close_rows now due (m ∷ ms) (unused, rest) = (
  subst (λ i. IsUnused i (close_rows now due ms)) (sym (close_row-id now due m))
      (IsUnused-close_rows m.id now due ms unused),
  IsKeyed-close_rows now due ms rest,
)

Changes-IsKeyed :
    (id : ℕ) (s t : Store) (m' : Market)
    → Changes none id s m' t
    → IsKeyed s.markets
    → IsKeyed t.markets
unfolding commit
Changes-IsKeyed id s t m' (m, found, inr (_, same, ended)) k =
    subst (λ (x : Store). IsKeyed x.markets) (sym same) k
Changes-IsKeyed id s t m' (m, found, inl (entry, change, e)) k =
    subst (λ (x : Store). IsKeyed x.markets) (sym e) (IsKeyed-put m' s.markets k)

-- A new row takes the fresh id; an old one is written in its place.
write_row-IsKeyed :
    (found : Option Market) (id : ℕ) (actor : Actor) (form : DraftRequest) (terms : Terms)
    (m : Market) (ms : List Market) {r : Market}
    → row_to_save found id actor form terms ≡ ok r
    → m.id ≡ r.id
    → IsUnused id ms
    → IsKeyed ms
    → IsKeyed (write_row (is_new found) m ms)
unfolding row_to_save write_row
write_row-IsKeyed (some x) id actor form terms m ms row same unused k = IsKeyed-put m ms k
write_row-IsKeyed none id actor form terms m ms row same unused k =
    IsKeyed-append m ms (subst (λ i. IsUnused i ms) (ground arith) unused) k

Step-IsKeyed :
    (settings : Settings) {s t : Store} → Step settings s t → IsKeyed s.markets → IsKeyed t.markets
unfolding close_due_markets
Step-IsKeyed settings {s} {t} (handled actor r now {m} h) k =
    Changes-IsKeyed (target_of r) s t m (handle-Changes settings actor r now s t k h) k
Step-IsKeyed settings {s} (saved fresh new_id actor form now {m = m} unused h) k =
    let (r, row, same, _, _, _, rows) = save_once-row settings fresh new_id actor form now s h in
    subst IsKeyed (sym rows) (
      write_row-IsKeyed (find_by_draft_key actor.id form.draft_key s.markets) new_id actor form
        (apply fresh form settings.default_liquidity_b) m s.markets row same unused k)
Step-IsKeyed settings {s} (swept limit now e) k =
    subst (λ (x : Store). IsKeyed x.markets) (sym e) (IsKeyed-close_rows now _ s.markets k)

-- In every store that requests, saves and sweeps reach, no two markets share an id, given, as `Step` has it, that
-- the uuid of each new row is no other row's.
pub Reach-IsKeyed : (settings : Settings) {s : Store} → Reach settings s → IsKeyed s.markets
Reach-IsKeyed settings started = tt
Reach-IsKeyed settings (next r st) = Step-IsKeyed settings st (Reach-IsKeyed settings r)
