-- ===== src/Ledger/Trading/Answers.antt =====
-- backend/ledger_service/service/trading.py: the answer and the frames of a trade that was committed.
use cs.Base.{
  ℕ, suc, ◌≡◌, true, some, List, [], ◌∷◌, length, sym, ◌∙◌, ap, ok, >>=-eq-ok, ok_injective, subst,
  Option-cases, inl, inr, raise_if, map,
}
use cs.Ledger.Lmsr.{Engine}
use cs.Ledger.Rows.{Account, Tables, Transaction}
use cs.Ledger.Posting.Legs.{Movement, Hashing, quantized_legs, fingerprint}
use cs.Ledger.Posting.{
  Batch, batch_legs, post_all, built, find_by_idempotency_key, replay, replay_all, replay_batch,
  transaction_of,
}
use cs.Ledger.Posting.Steps.{post_all-cases}
use cs.Ledger.Posting.Retry.{post_all-kept}
use cs.Ledger.BookPrices.{q_of, b_of, prices_at}
use cs.Ledger.Trading.{WrittenFill, Pending, trade_result_of}
use cs.Ledger.Trading.Planning.{PlannedTrade}
use cs.Ledger.Trading.Frames.{
  PriceEvent, OrderEvent, Executed, price_event_of, order_events_of, first_of, rest_of, answer_of,
}

-- The first movement of a batch has the first transaction, under its key.
replay_all-first :
    (hashing : Hashing) (known : List Transaction) (m : Movement) (rest : List Movement)
    {ts : List Transaction}
    → replay_all hashing known (batch_legs (m ∷ rest)) ≡ ok ts
    → (t : Transaction) × (first_of ts ≡ ok t)
      × (find_by_idempotency_key known m.idempotency_key ≡ some t)
unfolding batch_legs replay_all replay
replay_all-first hashing known m rest h =
    elim (Option-cases (find_by_idempotency_key known m.idempotency_key)) [
      | inl e ↦ absurd (let refused = rw (e, replay_all) at h in cc)
      | inr (t, e) ↦
          let (first, same, h₁) =
            >>=-eq-ok (replay t (fingerprint hashing m.kind (quantized_legs m.legs))) _
              (rw (e, replay_all) at h) in
          let (others, later, h₂) = >>=-eq-ok (replay_all hashing known (batch_legs rest)) _ h₁ in
          let (u, v, h₃) = >>=-eq-ok (raise_if _ _) _ same in
          (t, ap first_of (sym (ok_injective h₂)) ∙ sym h₃, e)
    ]

-- The first row that a batch with pending writes commits
pub record IsFirstRow (m : Movement) (transactions : List Transaction) (after : Tables)
    : Type 0 where
  pub row : Transaction
  pub is_first : first_of transactions ≡ ok row
  pub by_key : find_by_idempotency_key after.transactions m.idempotency_key ≡ some row
  pub own_context : row.context ≡ m.context

first_context :
    (hashing : Hashing) (new_id : ℕ → ℕ) (stamp : ℕ) (m : Movement) (rest : List Movement)
    {t : Transaction}
    → first_of (built hashing new_id stamp 0 (batch_legs (m ∷ rest))).0 ≡ ok t
    → t.context ≡ m.context
unfolding built batch_legs transaction_of
first_context hashing new_id stamp m rest h =
    ap (λ (t : Transaction). t.context) (sym (ok_injective h))

pending_refused :
    (hashing : Hashing) (known : List Transaction) (batch : Batch) {ts : List Transaction}
    → replay_batch hashing known batch true ≡ ok ts
    → ⊥
unfolding replay_batch raise_if
pending_refused hashing known batch h = cc

pub post_all-IsFirstRow :
    (hashing : Hashing) (account : ℕ → Account) (new_id : ℕ → ℕ) (now : ℕ) (m : Movement)
    (rest : List Movement) (s : Tables) {transactions : List Transaction} {after : Tables}
    → post_all hashing account new_id true now (m ∷ rest) s ≡ ok (transactions, after)
    → IsFirstRow m transactions after
post_all-IsFirstRow hashing account new_id now m rest s {transactions} {after} h =
    let kept = post_all-kept hashing account new_id true now (m ∷ rest) s transactions after h in
    let (row, is_first, by_key) = replay_all-first hashing after.transactions m rest kept in
    elim (post_all-cases hashing account new_id true now (m ∷ rest) s h).how [
      | inl old ↦
          absurd (pending_refused hashing s.transactions (batch_legs (m ∷ rest)) old.returned)
      | inr written ↦ record {
        row = row;
        is_first = is_first;
        by_key = by_key;
        own_context =
            first_context hashing new_id _ m rest
              (subst (λ ts. first_of ts ≡ ok row) written.returned is_first);
      }
    ]

pub order_events_of-length :
    (now : ℕ) (fills : List WrittenFill) (ts : List Transaction) {frames : List OrderEvent}
    → order_events_of now fills ts ≡ ok frames
    → length frames ≡ length fills
unfolding order_events_of
order_events_of-length now [] [] h = ap length (sym (ok_injective h))
order_events_of-length now [] (t ∷ ts) h = absurd cc
order_events_of-length now (f ∷ fills) [] h = absurd cc
order_events_of-length now (f ∷ fills) (t ∷ ts) h =
    let (r, read, h₁) = >>=-eq-ok (trade_result_of t) _ h in
    let (others, later, h₂) = >>=-eq-ok (order_events_of now fills ts) _ h₁ in
    ap length (sym (ok_injective h₂)) ∙ ap suc (order_events_of-length now fills ts later)

-- What is answered and published for a batch
pub record IsAnswer (plan : PlannedTrade) (row : Transaction) (x : Executed) : Type 0 where
  pub result_of_row : trade_result_of row ≡ ok x.result
  pub one_price_frame :
      map (λ (f : PriceEvent). f.state_version) x.price_frames ≡ x.result.book_state_version ∷ []
  pub frame_each_fill : length x.order_frames ≡ length plan.fills

pub price_event_of-version :
    (engine : Engine) (now : ℕ) (pending : Pending) (version : ℕ) {frame : PriceEvent}
    → price_event_of engine now pending version ≡ ok frame
    → frame.state_version ≡ version
unfolding price_event_of
price_event_of-version engine now pending version h =
    let book = pending.book in
    let (shown, priced, h₁) =
      >>=-eq-ok (prices_at engine book.outcomes (q_of book.outcomes) (b_of book)) _ h in
    ap (λ (f : PriceEvent). f.state_version) (sym (ok_injective h₁))

pub answer_of-IsAnswer :
    (engine : Engine) (now : ℕ) (plan : PlannedTrade) (transactions : List Transaction)
    (row : Transaction) {x : Executed}
    → first_of transactions ≡ ok row
    → answer_of engine now plan transactions ≡ ok x
    → IsAnswer plan row x
unfolding answer_of
answer_of-IsAnswer engine now plan transactions row is_first h =
    let (first, found, h₁) = >>=-eq-ok (first_of transactions) _ h in
    let (result, read, h₂) = >>=-eq-ok (trade_result_of first) _ h₁ in
    let (frame, priced, h₃) =
      >>=-eq-ok (price_event_of engine now plan.pending result.book_state_version) _ h₂ in
    let (frames, made, h₄) =
      >>=-eq-ok (order_events_of now plan.fills (rest_of transactions)) _ h₃ in
    let same_row : first ≡ row = ok_injective (sym found ∙ is_first) in
    subst (IsAnswer plan row) (ok_injective h₄) (record {
      result_of_row = ap trade_result_of (sym same_row) ∙ read;
      one_price_frame = ap (λ v. v ∷ []) (price_event_of-version engine now plan.pending _ priced);
      frame_each_fill = order_events_of-length now plan.fills (rest_of transactions) made;
    })
