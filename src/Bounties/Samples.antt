-- ===== src/Bounties/Samples.antt =====
-- A chute with a bounty.
use chutes_api.Base.{[], ◌∷◌, Dict, lookup, arith, ◌≤◌, eq_iff}
use chutes_api.Bounties.{Bounty}
use chutes_api.Bounties.Claims.{create, claim, Books, serve_all, serve_all-bound}
use chutes_api.Bounties.Listing.{IsKeyed}

abbrev empty_books : Books
empty_books = record { keys = []; made = 0; paid = 0 }

serve_all-bound_example :
    let books =
      serve_all "c1" (create 0 "c1" 100 ∷ claim 50 "c1" ∷ claim 60 "c1" ∷ []) empty_books in
    books.paid ≤ books.made
unfolding lookup
serve_all-bound_example =
    serve_all-bound "c1" (create 0 "c1" 100 ∷ claim 50 "c1" ∷ claim 60 "c1" ∷ []) empty_books
      (omega arith)

abbrev two : Dict Bounty
two =
    ("c1", record { chute_id = "c1"; created_at = 40; expires_at = 90 })
    ∷ ("c2", record { chute_id = "c2"; created_at = 20; expires_at = 100 })
    ∷ []

two-IsKeyed : IsKeyed two
unfolding lookup
two-IsKeyed k b e = ground (arith, eq_iff "c1" k, eq_iff "c2" k)
