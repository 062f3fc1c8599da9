-- ===== src/Names/Allocate/Order.antt =====
-- The order in which `allocate` serves the requests leaves none out and invents none.
use protocyte.Common.{◌≡◌, false, List, [], ◌∷◌, All, text_eq, text_eq_comm, Bool-cases, inl, inr}
use protocyte.Names.Member.{EmittedNameRequest}
use protocyte.Names.Allocate.{request_lt, insert_request, sorted_requests}

-- No two requests have one owner.
abbrev pub HasDistinctOwners : List EmittedNameRequest → Type 0
HasDistinctOwners [] = Unit
HasDistinctOwners (r ∷ rs) = All (λ q. text_eq r.owner q.owner ≡ false) rs × HasDistinctOwners rs

module _ (P : EmittedNameRequest → Type 0) where
  All-insert_request :
      (r : EmittedNameRequest) (rs : List EmittedNameRequest)
      → P r
      → All P rs
      → All P (insert_request r rs)
  unfolding insert_request
  All-insert_request r [] hr hs = (hr, tt)
  All-insert_request r (q ∷ rs) hr (hq, hs) = elim (Bool-cases (request_lt q r)) [
    | inl before ↦ rw before (hq, All-insert_request r rs hr hs)
    | inr behind ↦ rw behind (hr, (hq, hs))
  ]

  insert_request-All :
      (r : EmittedNameRequest) (rs : List EmittedNameRequest)
      → All P (insert_request r rs)
      → P r × All P rs
  unfolding insert_request
  insert_request-All r [] h = (h.0, tt)
  insert_request-All r (q ∷ rs) h = elim (Bool-cases (request_lt q r)) [
    | inl before ↦
        let (hq, rest) = rw before at h in
        let (hr, hs) = insert_request-All r rs rest in (hr, (hq, hs))
    | inr behind ↦ rw behind at h
  ]

  pub sorted_requests-All : (rs : List EmittedNameRequest) → All P (sorted_requests rs) → All P rs
  unfolding sorted_requests
  sorted_requests-All [] h = tt
  sorted_requests-All (r ∷ rs) h =
      let (hr, rest) = insert_request-All r (sorted_requests rs) h in
      (hr, sorted_requests-All rs rest)

  All-sorted_requests : (rs : List EmittedNameRequest) → All P rs → All P (sorted_requests rs)
  unfolding sorted_requests
  All-sorted_requests [] h = tt
  All-sorted_requests (r ∷ rs) (hr, hs) =
      All-insert_request r (sorted_requests rs) hr (All-sorted_requests rs hs)

insert-HasDistinctOwners :
    (r : EmittedNameRequest) (rs : List EmittedNameRequest)
    → All (λ q. text_eq r.owner q.owner ≡ false) rs
    → HasDistinctOwners rs
    → HasDistinctOwners (insert_request r rs)
unfolding insert_request
insert-HasDistinctOwners r [] apart hs = (tt, tt)
insert-HasDistinctOwners r (q ∷ rs) (rq, apart) (hq, hs) = elim (Bool-cases (request_lt q r)) [
  | inl before ↦ rw before (
    All-insert_request (λ p. text_eq q.owner p.owner ≡ false) r rs
        (rw (text_eq_comm q.owner r.owner) rq) hq,
    insert-HasDistinctOwners r rs apart hs,
  )
  | inr behind ↦ rw behind ((rq, apart), (hq, hs))
]

pub sorted-HasDistinctOwners :
    (rs : List EmittedNameRequest) → HasDistinctOwners rs → HasDistinctOwners (sorted_requests rs)
unfolding sorted_requests
sorted-HasDistinctOwners [] h = tt
sorted-HasDistinctOwners (r ∷ rs) (apart, hs) =
    insert-HasDistinctOwners r (sorted_requests rs)
      (All-sorted_requests (λ q. text_eq r.owner q.owner ≡ false) rs apart)
      (sorted-HasDistinctOwners rs hs)
