-- ===== src/Market/Lifecycle/Invariant.antt =====
-- Every reachable market keeps the shape of its status, so two administrators decided each
-- market that was paid out.
use cs.Base.{
  ℕ, ◌≡◌, refl, sym, ◌∙◌, ◌⊎◌, inl, inr, subst, Bool, Option, none, some, List, All, arith, ok,
  >>=-eq-ok,
}
use cs.Market.{draft, submitted, status_is, Terms, Market, Actor}
use cs.Market.Validation.{Problem}
use cs.Market.Lifecycle.Rows.{Store, commit, frozen_status_error, raise_found}
use cs.Market.Lifecycle.Steps.{Settings}
use cs.Market.Lifecycle.Saves.{
  DraftRequest, apply, row_to_save, write_row, find_by_draft_key, save_once, is_new, close_row,
  close_due_markets,
}
use cs.Market.Lifecycle.Diagram.{IsUndecided, IsWellFormed, Changes}
use cs.Market.Lifecycle.Effects.{
  publish-Change, close_early-Change, propose_outcome-Change, approve_outcome-Change,
  reject_outcome-Change, send_back_outcome-Change,
}
use cs.Market.Lifecycle.Endings.{settle-Change, void-Change}
use cs.Market.Lifecycle.Reach.{
  Request, publishing, settling, closing, voiding, proposing, approving, rejecting, sending_back,
  handle, Step, handled, saved, swept, Reach, started, next,
}
use cs.Market.Lifecycle.Reach.Rowwise.{All-load, All-put, All-find, All-write_row, All-close_rows}

-- Every row of the store has the shape of its status.
abbrev pub IsSound : Store → Type 0
IsSound s = All IsWellFormed s.markets

Changes-IsSound :
    (creator_id : Option ℕ) (id : ℕ) (s t : Store) (m' : Market)
    → Changes creator_id id s m' t
    → IsSound s
    → IsSound t
unfolding commit
Changes-IsSound creator_id id s t m' (m, found, inr (_, same, ended)) h = subst IsSound (sym same) h
Changes-IsSound creator_id id s t m' (m, found, inl (entry, change, e)) h = subst IsSound (sym e) (
    All-put IsWellFormed m' s.markets h
      (change.shape (All-load IsWellFormed creator_id id s.markets found h)))

handle-IsSound :
    (settings : Settings) (actor : Actor) (r : Request) (now : ℕ) (s t : Store) {m : Market}
    → handle settings actor r now s ≡ ok (m, t)
    → IsSound s
    → IsSound t
unfolding handle
handle-IsSound settings actor (publishing id) now s t h =
    Changes-IsSound _ _ s t _ (publish-Change settings actor id now s h)
handle-IsSound settings actor (settling id) now s t h =
    Changes-IsSound _ _ s t _ (settle-Change actor id now s h)
handle-IsSound settings actor (closing id reason) now s t h =
    Changes-IsSound _ _ s t _ (close_early-Change actor id reason now s h)
handle-IsSound settings actor (voiding id reason) now s t h =
    Changes-IsSound _ _ s t _ (void-Change actor id reason now s h)
handle-IsSound settings actor (proposing id request fresh) now s t h =
    Changes-IsSound _ _ s t _ (propose_outcome-Change settings actor id request fresh now s h)
handle-IsSound settings actor (approving id pid) now s t h =
    Changes-IsSound _ _ s t _ (approve_outcome-Change settings actor id pid now s h)
handle-IsSound settings actor (rejecting id pid reason) now s t h =
    Changes-IsSound _ _ s t _ (reject_outcome-Change actor id pid reason now s h)
handle-IsSound settings actor (sending_back id pid reason) now s t h =
    Changes-IsSound _ _ s t _ (send_back_outcome-Change actor id pid reason now s h)

-- A row that a save may write names no outcome.
row_to_save-IsUndecided :
    (found : Option Market) (id : ℕ) (actor : Actor) (form : DraftRequest) (terms : Terms)
    {m : Market}
    → row_to_save found id actor form terms ≡ ok m
    → ((x : Market) → found ≡ some x → IsWellFormed x)
    → IsUndecided m
unfolding row_to_save frozen_status_error raise_found
row_to_save-IsUndecided none id actor form terms h w = ground arith
row_to_save-IsUndecided (some x) id actor form terms h w = ground (arith, w x refl)

close_row-IsWellFormed :
    (now : ℕ) (due : List ℕ) (m : Market) → IsWellFormed m → IsWellFormed (close_row now due m)
unfolding close_row status_is
close_row-IsWellFormed now due m w = ground arith

-- What a save writes: the row it may write, as a draft or submitted, and nothing else in the table.
pub save_once-row :
    (settings : Settings) (fresh : ℕ → ℕ) (new_id : ℕ) (actor : Actor) (form : DraftRequest)
    (now : ℕ) (s : Store) {m' : Market} {problems : List Problem} {created : Bool} {t : Store}
    → save_once settings fresh new_id actor form now s ≡ ok (m', problems, created, t)
    → let found = find_by_draft_key actor.id form.draft_key s.markets in
      let terms = apply fresh form settings.default_liquidity_b in
      (r : Market) × (row_to_save found new_id actor form terms ≡ ok r)
      × (m'.id ≡ r.id)
      × (m'.proposal ≡ r.proposal)
      × (m'.approval ≡ r.approval)
      × ((m'.status ≡ submitted) ⊎ (m'.status ≡ draft))
      × (t.markets ≡ write_row (is_new found) m' s.markets)
unfolding save_once
save_once-row settings fresh new_id actor form now s h =
    let found = find_by_draft_key actor.id form.draft_key s.markets in
    let terms = apply fresh form settings.default_liquidity_b in
    let (r, row, rest) = >>=-eq-ok (row_to_save found new_id actor form terms) _ h in
    (r, row, ground arith, ground arith, ground arith, ground arith, ground arith)

undecided-HasShape :
    (m : Market) → (m.status ≡ submitted) ⊎ (m.status ≡ draft) → IsUndecided m → IsWellFormed m
undecided-HasShape m (inl e) u = rw e u
undecided-HasShape m (inr e) u = rw e u

save_once-IsSound :
    (settings : Settings) (fresh : ℕ → ℕ) (new_id : ℕ) (actor : Actor) (form : DraftRequest)
    (now : ℕ) (s : Store) {m' : Market} {problems : List Problem} {created : Bool} {t : Store}
    → save_once settings fresh new_id actor form now s ≡ ok (m', problems, created, t)
    → IsSound s
    → IsSound t
save_once-IsSound settings fresh new_id actor form now s {m'} h sound =
    let found = find_by_draft_key actor.id form.draft_key s.markets in
    let terms = apply fresh form settings.default_liquidity_b in
    let (r, row, _, same_proposal, same_approval, status, rows) =
      save_once-row settings fresh new_id actor form now s h in
    let (no_proposal_yet, no_approval_yet) =
      row_to_save-IsUndecided found new_id actor form terms row
        (λ x e. All-find IsWellFormed actor.id form.draft_key s.markets e sound) in
    let undecided : IsUndecided m' =
      (same_proposal ∙ no_proposal_yet, same_approval ∙ no_approval_yet) in
    subst (All IsWellFormed) (sym rows) (
      All-write_row IsWellFormed (is_new found) m' s.markets sound
        (undecided-HasShape m' status undecided))

Step-IsSound : (settings : Settings) {s t : Store} → Step settings s t → IsSound s → IsSound t
unfolding close_due_markets
Step-IsSound settings {s} {t} (handled actor r now h) sound =
    handle-IsSound settings actor r now s t h sound
Step-IsSound settings {s} (saved fresh new_id actor form now unused h) sound =
    save_once-IsSound settings fresh new_id actor form now s h sound
Step-IsSound settings {s} (swept limit now e) sound =
    subst IsSound (sym e)
      (All-close_rows IsWellFormed now _ s.markets (close_row-IsWellFormed now _) sound)

-- In every store that requests, saves and sweeps reach, each market has the shape of its status:
-- no proposal and no approval up to CLOSED, a proposal alone while one is pending, and once
-- approved or settled a proposal and an approval by two different administrators with the end of
-- the dispute window; a voided market has neither or both.
pub Reach-IsSound : (settings : Settings) {s : Store} → Reach settings s → IsSound s
Reach-IsSound settings started = tt
Reach-IsSound settings (next r st) = Step-IsSound settings st (Reach-IsSound settings r)
