-- ===== src/Ledger/Placing/Invariant.antt =====
-- backend/ledger_service/service/orders.py: `place` keeps the book's shares equal to the positions, and the orders'
-- `seq` their own.
use cs.Base.{
  ℕ, suc, false, Option, none, some, List, ◌++◌, [], ◌∷◌, length, ◌∙◌, ap, sym, ok, ◌≡◌, subst,
  ok_injective, All, true, ◌==◌,
}
use cs.Ledger.Lmsr.{Engine}
use cs.Ledger.Rows.{Tables, Transaction, Order, user}
use cs.Ledger.Accounts.{World}
use cs.Ledger.Books.{find_book}
use cs.Ledger.Posting.Moves.{post_all-others}
use cs.Ledger.Session.{
  Session, Keeps, meanwhile_commits, return-Keeps, >>=-Keeps, committing-Keeps, reading-then-Keeps,
  commit-held,
}
use cs.Ledger.Trading.{flushed, Pending}
use cs.Ledger.Trading.Planning.{pending_of}
use cs.Ledger.Trading.Execute.{Environment}
use cs.Ledger.Trading.Cascading.{Filled}
use cs.Ledger.Trading.Planned.{find_book-market}
use cs.Ledger.Trading.Backed.{
  IsBacked, IsBacked-same, flushed-IsBacked, ensure_open-IsBacked, ensure_granted-IsBacked,
  refused_as-ok,
}
use cs.Ledger.Placing.{PlaceRequest, NewRow, Placement}
use cs.Ledger.Placing.Planning.{Planned, resting, filling, plan_placement}
use cs.Ledger.Placing.Committing.{Placed, placed_before, commit_planned, fill_refusal_of}
use cs.Ledger.Placing.Place.{unless_placed, place_key, place_under_lock, place_anew, place}
use cs.Ledger.Placing.Planned.{IsFresh, inserted-HasOwnSeqs}
use cs.Ledger.Placing.Checked.{IsChecked, plan_placement-IsChecked}

fresh_seq :
    (row : NewRow) (orders : List Order) (seq : ℕ)
    → IsFresh row
    → seq ≡ row.seq_after orders
    → All (λ (o : Order). (o.seq == seq) ≡ false) orders
fresh_seq row orders seq fresh own =
    subst (λ n. All (λ (o : Order). (o.seq == n) ≡ false) orders) (sym own) (fresh orders)

-- The rows with the placed order's, too, are those that the fills leave.
with_order-Filled :
    {n : ℕ} {before rows : Pending} (order : Order)
    → All (λ (o : Order). (o.seq == order.seq) ≡ false) rows.orders
    → Filled n before rows
    → Filled n before (record rows { orders = rows.orders ++ (order ∷ []) })
with_order-Filled {n} {before} {rows} order fresh filled = record {
  follows = record {
    market = filled.follows.market;
    pool = filled.follows.pool;
    liquidity = filled.follows.liquidity;
    version = filled.follows.version;
    ids = filled.follows.ids;
    ordered = filled.follows.ordered;
    counted = filled.follows.counted;
    elsewhere = filled.follows.elsewhere;
  };
  own_seqs = λ h. inserted-HasOwnSeqs order rows.orders fresh (filled.own_seqs h);
}

module _ (engine : Engine) (world : World) (env : Environment) (row : NewRow) (fresh : IsFresh row)
    (request : PlaceRequest) where
  commit_planned-IsBacked :
      (s : Tables) (planned : Planned) (transactions : List Transaction) (after : Tables)
      → IsChecked engine world row env.now request
          (place_key engine world env row request)
          s
          planned
      → IsBacked s
      → commit_planned world env.new_ids env.now (world.id_of user request.user_id) planned s
        ≡ ok (transactions, after)
      → IsBacked after
  unfolding commit_planned
  commit_planned-IsBacked s (resting order position) transactions after checked held h =
      let rests = checked.rest.as_planned in
      subst IsBacked (ap (λ p. p.1) (ok_injective h)) (record {
        shares = held.shares;
        own_seqs =
            inserted-HasOwnSeqs order s.orders
              (fresh_seq row s.orders order.seq fresh rests.own_seq) held.own_seqs;
      })
  commit_planned-IsBacked s (filling order position plan) transactions after checked held h =
      let fills = checked.rest.as_planned in
      let market = find_book-market s.books request.market_id checked.found in
      let filled : Filled (suc (length plan.fills)) (pending_of s checked.book) plan.pending =
        subst (Filled (suc (length plan.fills)) (pending_of s checked.book)) (sym fills.with_order)
          (with_order-Filled order (fresh_seq row fills.rows.orders order.seq fresh fills.own_seq)
            fills.filled_rows) in
      let backed =
        flushed-IsBacked s checked.book (suc (length plan.fills)) plan.pending
          (ap (find_book s.books) market ∙ checked.found) filled held in
      let others =
        post_all-others world.hashing world.account env.new_ids true env.now _
          (flushed s plan.pending)
          (refused_as-ok (fill_refusal_of (world.id_of user request.user_id) order.budget) _ h) in
      IsBacked-same (flushed s plan.pending) after others.1 others.3 others.2 backed

  unless_placed-Keeps :
      (found : Option Placement) (go_on : Session Placed)
      → Keeps IsBacked go_on
      → Keeps IsBacked (unless_placed found go_on)
  unless_placed-Keeps none go_on kept = kept
  unless_placed-Keeps (some placement) go_on kept = return-Keeps IsBacked (placed_before placement)

  place_under_lock-Keeps : Keeps IsBacked (place_under_lock engine world env row request)
  unfolding place_under_lock
  place_under_lock-Keeps =
      let key = place_key engine world env row request in
      reading-then-Keeps IsBacked (plan_placement engine world row env.now request key) _
        (λ s planned held h.
          commit-held IsBacked s
            (commit_planned world env.new_ids env.now (world.id_of user request.user_id) planned) _
            held
            (λ transactions after.
              commit_planned-IsBacked s planned transactions after
                (plan_placement-IsChecked engine world row env.now request key s held.own_seqs h)
                held)
            (λ transactions t kept. kept))

  place_anew-Keeps :
      Keeps IsBacked (meanwhile_commits env.meanwhile)
      → Keeps IsBacked (place_anew engine world env row request)
  unfolding place_anew
  place_anew-Keeps others =
      >>=-Keeps IsBacked _ _ (λ t kept. kept)
        (λ _.
          >>=-Keeps IsBacked _ _ (λ t kept. kept)
            (λ _.
              >>=-Keeps IsBacked _ _
                (committing-Keeps IsBacked _ (λ s book after.
                  ensure_open-IsBacked world env.opening_ids env.opening_time request.market_id
                    env.opening_terms s book after))
                (λ _.
                  >>=-Keeps IsBacked _ _
                    (committing-Keeps IsBacked _ (λ s id after.
                      ensure_granted-IsBacked world env.grant_ids false env.grant_time
                        env.starting_credits request.user_id s id after))
                    (λ _. >>=-Keeps IsBacked _ _ others (λ _.
                      >>=-Keeps IsBacked _ _ (λ t kept. kept)
                        (λ found. unless_placed-Keeps found _ place_under_lock-Keeps))))))

-- After any request to place an order, answered or refused at any step, the shares that each book has out in
-- each outcome are those that users hold of it, and no two orders have the same `seq`, where both were so
-- before it, where what other sessions commit before the book's lock keeps them so, and where the database
-- gives the new row a `seq` that no row has.
pub place-IsBacked :
    (engine : Engine) (world : World) (env : Environment) (row : NewRow) (request : PlaceRequest)
    (s : Tables)
    → IsFresh row
    → ((t : Tables) → IsBacked t → IsBacked (env.meanwhile t))
    → IsBacked s
    → IsBacked (place engine world env row request s).1
unfolding place
place-IsBacked engine world env row request s fresh others =
    >>=-Keeps IsBacked _ _ (λ t kept. kept)
      (λ _.
        >>=-Keeps IsBacked _ _ (λ t kept. kept)
          (λ _.
            >>=-Keeps IsBacked _ _ (λ t kept. kept)
              (λ found.
                unless_placed-Keeps engine world env row fresh request found _
                  (place_anew-Keeps engine world env row fresh request others))))
      s
