-- ===== src/Market/Tests/Examples.antt =====
-- The theorems on market_service.py, each at the market of the tests.
use cs.Base.{◌≡◌, true, false, not, none, some, [], ok, is_ok, ◌↔◌, arith}
use cs.Market.Validation.{problems_blocking_submission}
use cs.Market.Lifecycle.Rows.{load}
use cs.Market.Lifecycle.Steps.{settle, void}
use cs.Market.Lifecycle.Reach.{approving, settling, handle}
use cs.Market.Validation.Submittable.{IsSubmittable}
use cs.Market.Validation.Complete.{problems_blocking_submission-IsSubmittable}
use cs.Market.Lifecycle.Invariant.{IsSound, Reach-IsSound}
use cs.Market.Lifecycle.Edges.{settle-void_exclusive, send_back_before_settle, voidable-void}
use cs.Market.Lifecycle.Log.{IsLogged, handle-final, handle-log}
use cs.Market.Tests.{
  approved_row, settings, alice, bob, text_ending, result_of-ok, blank, after, proposed, agreed,
  agreed-ok, agreed-Reach, agreed_market, agreed-found, agreed-approved, agreed-window,
  sent_back-ok, agreed-voidable, settled_store, settled_market, settled-loaded, settled-IsFinal,
  settled-again, settled-IsKeyed, proposed-IsKeyed,
}

Reach-IsSound_example : IsSound agreed
Reach-IsSound_example = Reach-IsSound settings agreed-Reach

settle-void_exclusive_example :
    is_ok (settle bob 5 60000801 agreed)
    ≡ not (is_ok (void alice 5 (text_ending 46) 60000801 agreed))
settle-void_exclusive_example =
    settle-void_exclusive bob alice 5 (text_ending 46) 60000801 agreed agreed_market 60000800
      agreed-found agreed-approved agreed-window

send_back_before_settle_example : is_ok (settle alice 5 300000900 agreed) ≡ false
send_back_before_settle_example =
    send_back_before_settle bob alice 5 (some 77) (text_ending 46) 900 300000900 agreed sent_back-ok
      (omega arith)

voidable-void_example : is_ok (void alice 5 (text_ending 46) 300000900 agreed) ≡ true
voidable-void_example =
    voidable-void alice 5 (text_ending 46) 900 300000900 agreed agreed_market agreed-found
      agreed-voidable (omega arith)

handle-final_example :
    load none 5 (after alice (settling 5) 360000900 settled_store).markets ≡ ok settled_market
handle-final_example =
    handle-final settings alice (settling 5) 360000900 5 settled_store
      (after alice (settling 5) 360000900 settled_store) settled_market _ settled-IsKeyed
      (result_of-ok blank (load none 5 settled_store.markets) settled-loaded) settled-IsFinal
      (result_of-ok (blank, settled_store)
        (handle settings alice (settling 5) 360000900 settled_store) settled-again)

handle-log_example : IsLogged 5 proposed approved_row agreed
handle-log_example =
    handle-log settings bob (approving 5 (some 77)) 800 proposed agreed approved_row
      proposed-IsKeyed
      (result_of-ok (blank, proposed) (handle settings bob (approving 5 (some 77)) 800 proposed)
        agreed-ok)

problems_blocking_submission-IsSubmittable_example :
    (problems_blocking_submission settings.casefold settings.is_reachable_url blank.terms 10 ≡ [])
    ↔ IsSubmittable settings.casefold settings.is_reachable_url blank.terms 10
problems_blocking_submission-IsSubmittable_example =
    problems_blocking_submission-IsSubmittable settings.casefold settings.is_reachable_url
      blank.terms 10
