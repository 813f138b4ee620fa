-- ===== src/Ledger/Gates.antt =====
-- backend/ledger_service/service/account_status.py and service/market_status.py: may this trader trade, and may
-- this market be traded? The answers of the two services are arguments.
use cs.Base.{
  true, refl, ◌≡◌, ap, arith, Bool-cases, inl, inr, ==→eq, >>=-eq-ok, raise_if-ok, ℕ, Bool, false,
  not, Option, none, some, [], ◌∷◌, ◌==◌, if◌then◌else◌, Outcome, ok, err, ◌>>=◌, raise_if, is_some,
}
use cs.Base.Text.{Text, text_eq, text_eq→eq}
use cs.Ledger.Rows.{
  Tables, LedgerError, account_suspended, not_authenticated, auth_unavailable, market_closed,
  market_not_found, market_terms_unavailable,
}
use cs.Ledger.Books.{MarketTerms, find_book}

-- auth's response to `GET /auth/me`, with the code of its error envelope where the body is one
pub data AuthAnswer : Type 0 where
  no_answer : AuthAnswer
  answered : (status_code : ℕ) (error_code : Option Text) → AuthAnswer

-- "account_suspended" and "open"
abbrev pub suspended_code : Text
suspended_code =
    97 ∷ 99 ∷ 99 ∷ 111 ∷ 117 ∷ 110 ∷ 116 ∷ 95 ∷ 115 ∷ 117 ∷ 115 ∷ 112 ∷ 101 ∷ 110 ∷ 100 ∷ 101 ∷ 100
    ∷ []

abbrev pub open_text : Text
open_text = 111 ∷ 112 ∷ 101 ∷ 110 ∷ []

-- `_is_suspension`
unfoldable pub is_suspension : Option Text → Bool
is_suspension none = false
is_suspension (some code) = text_eq code suspended_code

unfoldable pub refuse_if_suspended : AuthAnswer → Outcome LedgerError Unit
unfolding is_suspension
refuse_if_suspended no_answer = err auth_unavailable
refuse_if_suspended (answered status_code error_code) =
    if status_code == 200
    then ok tt
    else if status_code == 401
    then err not_authenticated
    else if status_code == 403
    then err (if is_suspension error_code then account_suspended else auth_unavailable)
    else err auth_unavailable

-- `except MarketNotFound`: a market with a book is there.
abbrev pub terms_or_raise :
    Tables → ℕ → Outcome LedgerError MarketTerms → Outcome LedgerError MarketTerms
terms_or_raise s market_id (ok terms) = ok terms
terms_or_raise s market_id (err market_not_found) =
    err
      (if is_some (find_book s.books market_id) then market_terms_unavailable else market_not_found)
terms_or_raise s market_id (err other) = err other

-- `ensure_trading`, with `read_terms`
unfoldable pub ensure_trading :
    Tables → ℕ → Outcome LedgerError MarketTerms → Outcome LedgerError Unit
unfolding find_book
ensure_trading s market_id fetched =
    terms_or_raise s market_id fetched
    >>= (λ terms. raise_if (not (text_eq terms.status open_text)) market_closed)

-- auth answered 200, and no suspension
abbrev pub IsAllowed : AuthAnswer → Type 0
IsAllowed answer = (error_code : Option Text) × (answer ≡ answered 200 error_code)

-- The market service's terms had the market open.
abbrev pub IsTrading : Outcome LedgerError MarketTerms → Type 0
IsTrading fetched = (terms : MarketTerms) × (fetched ≡ ok terms) × (terms.status ≡ open_text)

pub refuse_if_suspended-IsAllowed :
    (answer : AuthAnswer) → refuse_if_suspended answer ≡ ok tt → IsAllowed answer
unfolding refuse_if_suspended
refuse_if_suspended-IsAllowed no_answer h = absurd cc
refuse_if_suspended-IsAllowed (answered status_code error_code) h =
    elim (Bool-cases (status_code == 200)) [
      | inl e ↦ (error_code, ap (λ n. answered n error_code) (==→eq status_code 200 e))
      | inr e ↦ absurd (ground arith)
    ]

terms_or_raise-ok :
    (s : Tables) (market_id : ℕ) (fetched : Outcome LedgerError MarketTerms) {terms : MarketTerms}
    → terms_or_raise s market_id fetched ≡ ok terms
    → fetched ≡ ok terms
terms_or_raise-ok s market_id (ok terms) h = h
terms_or_raise-ok s market_id (err e) h = absurd (ground arith)

true_of : (b : Bool) → not b ≡ false → b ≡ true
true_of true h = refl
true_of false h = absurd cc

pub ensure_trading-IsTrading :
    (s : Tables) (market_id : ℕ) (fetched : Outcome LedgerError MarketTerms)
    → ensure_trading s market_id fetched ≡ ok tt
    → IsTrading fetched
unfolding ensure_trading
ensure_trading-IsTrading s market_id fetched h =
    let (terms, read, h₁) = >>=-eq-ok (terms_or_raise s market_id fetched) _ h in
    let open_there = true_of _ (raise_if-ok (not (text_eq terms.status open_text)) _ h₁) in
    (
      terms,
      terms_or_raise-ok s market_id fetched read,
      text_eq→eq terms.status open_text open_there,
    )
