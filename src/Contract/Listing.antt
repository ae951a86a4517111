-- ===== src/Contract/Listing.antt =====
-- `list_quotes` of src/lib.rs where no database is configured, for an authenticated subject, and a
-- client that follows its cursors. The comparison of texts by `Ord` is that of their code points,
-- and `sort_by`, which is stable, is a stable insertion sort. `Uuid::parse_str` is a parameter.
mod Cuts
pub mod Order
pub mod Pages
use canonical_api_server_rs.Prelude.{
  ℕ, ◌+◌, ◌≤◌, min, zero, suc, ◌≡◌, refl, inl, inr, Bool, true, false, not, ◌&&◌, ◌||◌, List, [],
  ◌∷◌, ◌++◌, Option, none, some, map, Text, text_eq, ltb, leb, ◌==◌, if◌then◌else◌, take, drop,
  filter, count, Result, ok, err, ok_or, ◌>>=◌, ◌>>◌, ℤ, pos, negsuc, arith,
}
use canonical_api_server_rs.Http.{ApiError, bad_request}
use canonical_api_server_rs.Gemini.Analysis.{Json}
use canonical_api_server_rs.Quotes.{QuoteRecord, Memory}
use canonical_api_server_rs.Contract.{Wire}
use canonical_api_server_rs.Contract.Responses.{
  QuoteSummary, QuoteListResponse, quote_list_response,
}

-- `String::cmp` gives `Less`
abbrev pub text_ltb : Text → Text → Bool
text_ltb s [] = false
text_ltb [] (d ∷ t) = true
text_ltb (c ∷ s) (d ∷ t) = ltb c d || (c == d && text_ltb s t)

-- `query.limit.unwrap_or(25).clamp(1, 100)`
abbrev pub page_limit : Option ℤ → ℕ
page_limit none = 25
page_limit (some (negsuc n)) = 1
page_limit (some (pos zero)) = 1
page_limit (some (pos (suc n))) = min (suc n) 100

module _ {R J : Type 0} where
  -- The comparison of `sort_by` gives `Greater`: `right` comes first.
  abbrev pub comes_after : QuoteRecord R J → QuoteRecord R J → Bool
  comes_after left right =
      text_ltb left.created_at right.created_at
      || (text_eq left.created_at right.created_at && ltb left.quote_id right.quote_id)

  abbrev pub insert_sorted : QuoteRecord R J → List (QuoteRecord R J) → List (QuoteRecord R J)
  insert_sorted r [] = r ∷ []
  insert_sorted r (s ∷ rs) =
      let rest = insert_sorted r rs in if comes_after r s then s ∷ rest else r ∷ s ∷ rs

  unfoldable pub sort_newest : List (QuoteRecord R J) → List (QuoteRecord R J)
  sort_newest [] = []
  sort_newest (r ∷ rs) = insert_sorted r (sort_newest rs)

  abbrev pub value_of : ℕ × QuoteRecord R J → QuoteRecord R J
  value_of (id, r) = r

  -- The subject's own records, the newest first
  unfoldable pub own_quotes : Memory R J → Text → List (QuoteRecord R J)
  unfolding sort_newest
  own_quotes memory subject = sort_newest (
      filter (λ (r : QuoteRecord R J). text_eq r.owner_subject subject)
        (map value_of memory.quotes))

  -- The records behind the cursor's; none if it names no record.
  unfoldable pub after_cursor : ℕ → List (QuoteRecord R J) → List (QuoteRecord R J)
  after_cursor cursor [] = []
  after_cursor cursor (r ∷ rs) =
      let rest = after_cursor cursor rs in if r.quote_id == cursor then rs else rest

  abbrev pub skip_to : Option ℕ → List (QuoteRecord R J) → List (QuoteRecord R J)
  skip_to none records = records
  skip_to (some cursor) records = after_cursor cursor records

abbrev pub parse_cursor : (Text → Option ℕ) → Option Text → Result ApiError (Option ℕ)
parse_cursor parse_str none = ok none
parse_cursor parse_str (some text) =
    ok_or (parse_str text) (bad_request "invalid_request") >>= λ cursor. ok (some cursor)

-- The quotes of a page, and behind them those that `more` gets from its cursor
abbrev pub follow :
    List QuoteSummary
    → Option Text
    → (Text → Result ApiError (List QuoteSummary))
    → Result ApiError (List QuoteSummary)
follow quotes none more = ok quotes
follow quotes (some next) more = more next >>= λ rest. ok (quotes ++ rest)

module _ {R J : Type 0} (json : Json J) (wire : Wire R) (parse_str : Text → Option ℕ) where
  unfoldable pub list_quotes :
      Memory R J → Text → Option ℤ → Option Text → Result ApiError QuoteListResponse
  unfolding own_quotes after_cursor quote_list_response
  list_quotes memory subject query_limit query_cursor = do
    let limit = page_limit query_limit
    cursor ← parse_cursor parse_str query_cursor
    let records = take (suc limit) (skip_to cursor (own_quotes memory subject))
    quote_list_response json wire records limit

  -- A client that asks for the first page and then follows each cursor it gets
  unfoldable pub all_pages :
      ℕ → Memory R J → Text → Option ℤ → Option Text → Result ApiError (List QuoteSummary)
  unfolding list_quotes
  all_pages zero memory subject limit cursor = ok []
  all_pages (suc fuel) memory subject limit cursor =
      list_quotes memory subject limit cursor >>= λ page.
      follow page.quotes page.next_cursor (λ next. all_pages fuel memory subject limit (some next))
