-- ===== src/Ledger/Trading/Invariant.antt =====
-- backend/ledger_service/service/trading.py: `execute` keeps the book's shares equal to the positions.
use cs.Base.{suc, false, Option, none, some, length, ◌∙◌, ap}
use cs.Ledger.Lmsr.{Engine}
use cs.Ledger.Rows.{Tables}
use cs.Ledger.Accounts.{World}
use cs.Ledger.Books.{find_book}
use cs.Ledger.Session.{
  Session, Keeps, meanwhile_commits, return-Keeps, >>=-Keeps, committing-Keeps, reading-then-Keeps,
  commit-held,
}
use cs.Ledger.Trading.{TradeRequest, TradeResult, flushed}
use cs.Ledger.Trading.Planning.{PlannedTrade, plan_trade}
use cs.Ledger.Trading.Frames.{Executed, answered_again, post_trade_batch}
use cs.Ledger.Trading.Execute.{
  Environment, unless_present, key_of, trade_under_lock, trade_anew, execute,
}
use cs.Ledger.Trading.Planned.{IsPlanned, plan_trade-IsPlanned, find_book-market}
use cs.Ledger.Trading.Backed.{
  IsBacked, flushed-IsBacked, ensure_open-IsBacked, ensure_granted-IsBacked,
  post_trade_batch-IsBacked,
}

planned-IsBacked :
    (engine : Engine) (world : World) (request : TradeRequest) (s : Tables) (plan : PlannedTrade)
    → IsPlanned engine world request s plan
    → IsBacked s
    → IsBacked (flushed s plan.pending)
planned-IsBacked engine world request s plan planned held =
    let market = find_book-market s.books request.market_id planned.found in
    flushed-IsBacked s planned.book (suc (length plan.fills)) plan.pending
      (ap (find_book s.books) market ∙ planned.found) planned.filled held

module _ (engine : Engine) (world : World) (env : Environment) (request : TradeRequest) where
  unless_present-Keeps :
      (found : Option TradeResult) (go_on : Session Executed)
      → Keeps IsBacked go_on
      → Keeps IsBacked (unless_present found go_on)
  unless_present-Keeps none go_on kept = kept
  unless_present-Keeps (some result) go_on kept = return-Keeps IsBacked (answered_again result)

  trade_under_lock-Keeps : Keeps IsBacked (trade_under_lock engine world env request)
  unfolding trade_under_lock
  trade_under_lock-Keeps =
      reading-then-Keeps IsBacked (plan_trade engine world env.now request) _
        (λ s plan held planned.
          commit-held IsBacked s
            (post_trade_batch world env.new_ids env.now (key_of engine world env request) plan) _
            held
            (λ transactions after.
              post_trade_batch-IsBacked world env.new_ids env.now _ plan s transactions after (
                planned-IsBacked engine world request s plan
                  (plan_trade-IsPlanned engine world env.now request s held.own_seqs planned) held))
            (λ transactions t kept. kept))

  trade_anew-Keeps :
      Keeps IsBacked (meanwhile_commits env.meanwhile)
      → Keeps IsBacked (trade_anew engine world env request)
  unfolding trade_anew
  trade_anew-Keeps others =
      >>=-Keeps IsBacked _ _ (λ t kept. kept)
        (λ _.
          >>=-Keeps IsBacked _ _ (λ t kept. kept)
            (λ _.
              >>=-Keeps IsBacked _ _
                (committing-Keeps IsBacked _ (λ s book after.
                  ensure_open-IsBacked world env.opening_ids env.opening_time request.market_id
                    env.opening_terms s book after))
                (λ _.
                  >>=-Keeps IsBacked _ _
                    (committing-Keeps IsBacked _ (λ s id after.
                      ensure_granted-IsBacked world env.grant_ids false env.grant_time
                        env.starting_credits request.user_id s id after))
                    (λ _. >>=-Keeps IsBacked _ _ others (λ _.
                      >>=-Keeps IsBacked _ _ (λ t kept. kept)
                        (λ found. unless_present-Keeps found _ trade_under_lock-Keeps))))))

-- After any request to trade, answered or refused at any step, the shares that each book has out in each
-- outcome are those that users hold of it and no two orders have the same `seq`, where both were so before it,
-- and where what other sessions commit before the book's lock keeps them so: the trade's own shares and those
-- of every resting order that its cascade fills are in both.
pub execute-IsBacked :
    (engine : Engine) (world : World) (env : Environment) (request : TradeRequest) (s : Tables)
    → ((t : Tables) → IsBacked t → IsBacked (env.meanwhile t))
    → IsBacked s
    → IsBacked (execute engine world env request s).1
unfolding execute
execute-IsBacked engine world env request s others =
    >>=-Keeps IsBacked _ _ (λ t kept. kept)
      (λ _.
        >>=-Keeps IsBacked _ _ (λ t kept. kept)
          (λ found.
            unless_present-Keeps engine world env request found _
              (trade_anew-Keeps engine world env request others)))
      s
