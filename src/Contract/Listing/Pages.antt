-- ===== src/Contract/Listing/Pages.antt =====
-- That the pages of `list_quotes` make up the whole list.
use canonical_api_server_rs.Prelude.{ℕ, ◌≤◌, List, Option, map, Text, count}
use canonical_api_server_rs.Quotes.{Memory}
use canonical_api_server_rs.Contract.Responses.{QuoteSummary, QuoteListResponse}
use canonical_api_server_rs.Contract.Listing.{value_of}
use canonical_api_server_rs.Contract.Listing.Cuts.{has_id}

module _ {R J : Type 0} where
  -- A list is a map: at most one record is stored under a UUID.
  abbrev pub HasDistinctIds : Memory R J → Type 0
  HasDistinctIds memory = (id : ℕ) → count (has_id id) (map value_of memory.quotes) ≤ 1

abbrev page_with : List QuoteSummary → Option Text → QuoteListResponse
page_with quotes next = record { quotes = quotes; next_cursor = next }
