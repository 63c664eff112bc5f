-- ===== src/Bitswap/Heard.antt =====
-- `collectResponses` of plugins/bsprobe/plugin.go: what the result says, against the messages.
use ipfs_crawler.Prelude.{
  ◌==◌, ◌≡◌, refl, ap, true, false, not, ◌&&◌, ◌||◌, List, [], ◌∷◌, ◌++◌, Option, none, some,
  text_dec, arith, length, ◌≢◌,
}
use ipfs_crawler.Types.{Error}
use ipfs_crawler.GoMap.{contains}
use ipfs_crawler.GoMap.Laws.{contains-append, Distinct}
use ipfs_crawler.Bitswap.{
  Cid, Message, Answers, no_answers, hear, Arrival, closed, failed, got, collect, ProbeResult,
  to_result, collect_responses,
}
use ipfs_crawler.Bitswap.Hears.{contains-hear}
use ipfs_crawler.Bitswap.Collected.{collect-IsSplit, no_answers-IsSplit}

-- What the messages speak of that come before the first close or error.
abbrev pub spoken : (Message → List Cid) → List Arrival → List Cid
spoken part [] = []
spoken part (closed ∷ rest) = []
spoken part (failed e ∷ rest) = []
spoken part (got m ∷ rest) = part m ++ spoken part rest

-- The error that comes before the first close.
abbrev pub first_error : List Arrival → Option Error
first_error [] = none
first_error (closed ∷ rest) = none
first_error (failed e ∷ rest) = some e
first_error (got m ∷ rest) = first_error rest

outstanding_left : (xs : List Cid) → xs ≢ [] → (length xs == 0) ≡ false
outstanding_left [] h = absurd (h refl)
outstanding_left (x ∷ xs) h = ground arith

module _ (kept : Answers → List Cid) (part : Message → List Cid)
    (grows : (k : Cid) (st : Answers) (m : Message)
      → contains text_dec k (kept (hear st m))
        ≡ (contains text_dec k (kept st) || contains text_dec k (part m)))
    (stays : (st : Answers) (e : Error) → kept (record st { err = some e }) ≡ kept st) where
  collect_sound :
      (k : Cid) (arrivals : List Arrival) (st : Answers)
      → contains text_dec k (kept (collect st arrivals)) ≡ true
      → (contains text_dec k (kept st) || contains text_dec k (spoken part arrivals)) ≡ true
  unfolding collect contains
  collect_sound k [] st h = ground arith
  collect_sound k (closed ∷ rest) st h = ground arith
  collect_sound k (failed e ∷ rest) st h = ground (arith, stays st e)
  collect_sound k (got m ∷ rest) st h = ground (
    arith,
    collect_sound k rest (hear st m),
    grows k st m,
    contains-append text_dec k (part m) (spoken part rest),
  )

  collect_complete :
      (k : Cid) (arrivals : List Arrival) (st : Answers)
      → (length (collect st arrivals).outstanding == 0) ≡ false
      → contains text_dec k (kept (collect st arrivals))
        ≡ (contains text_dec k (kept st) || contains text_dec k (spoken part arrivals))
  unfolding collect contains
  collect_complete k [] st h = ground arith
  collect_complete k (closed ∷ rest) st h = ground arith
  collect_complete k (failed e ∷ rest) st h = ground (arith, stays st e)
  collect_complete k (got m ∷ rest) st h = ground (
    arith,
    collect_complete k rest (hear st m),
    grows k st m,
    contains-append text_dec k (part m) (spoken part rest),
  )

  -- The set in a result that starts from no answers.
  collected :
      (cids : List Cid) (arrivals : List Arrival)
      → kept (no_answers cids) ≡ []
      → Distinct text_dec (kept (collect (no_answers cids) arrivals))
      → Distinct text_dec (kept (collect (no_answers cids) arrivals))
        × ((k : Cid)
            → contains text_dec k (kept (collect (no_answers cids) arrivals)) ≡ true
            → contains text_dec k (spoken part arrivals) ≡ true)
        × ((k : Cid)
            → (collect (no_answers cids) arrivals).outstanding ≢ []
            → contains text_dec k (kept (collect (no_answers cids) arrivals))
              ≡ contains text_dec k (spoken part arrivals))
  unfolding contains
  collected cids arrivals none_yet d =
      let start = λ (k : Cid). ap (contains text_dec k) none_yet in
      (
        d,
        λ k h. ground (arith, collect_sound k arrivals (no_answers cids) h, start k),
        λ k h.
            ground (
              arith,
              collect_complete k arrivals (no_answers cids) (outstanding_left _ h),
              start k,
            ),
      )

collect_error :
    (arrivals : List Arrival) (st : Answers)
    → (length (collect st arrivals).outstanding == 0) ≡ false
    → st.err ≡ none
    → (collect st arrivals).err ≡ first_error arrivals
unfolding collect
collect_error [] st h e = e
collect_error (closed ∷ rest) st h e = e
collect_error (failed x ∷ rest) st h e = refl
collect_error (got m ∷ rest) st h e =
    ground (arith, collect_error rest (hear st m), (contains-hear "" st m).3)

-- A set of the result against what the messages say of its kind.
abbrev pub Fits :
    List Arrival → ProbeResult → (ProbeResult → List Cid) → (Message → List Cid) → Type 0
Fits arrivals r kept part =
    Distinct text_dec (kept r)
    × ((k : Cid)
        → contains text_dec k (kept r) ≡ true
        → contains text_dec k (spoken part arrivals) ≡ true)
    × ((k : Cid)
        → r.no_response ≢ []
        → contains text_dec k (kept r) ≡ contains text_dec k (spoken part arrivals))

-- A result that says of every configured CID what the arrivals say.
pub record IsAnswer (cids : List Cid) (arrivals : List Arrival) (r : ProbeResult) : Type 0 where
  -- A CID without a response is a configured one that stands in none of the other lists.
  pub split :
      (k : Cid)
      → contains text_dec k r.no_response ≡ (
          contains text_dec k cids
          && not (
              contains text_dec k r.blocks
              || contains text_dec k r.haves
              || contains text_dec k r.dont_haves))
  pub once : Distinct text_dec r.no_response
  pub blocks : Fits arrivals r (λ r. r.blocks) (λ m. m.blocks)
  pub haves : Fits arrivals r (λ r. r.haves) (λ m. m.haves)
  pub dont_haves : Fits arrivals r (λ r. r.dont_haves) (λ m. m.dont_haves)
  pub err : r.no_response ≢ [] → r.err ≡ first_error arrivals

-- For every list of CIDs and every sequence of arrivals at the channel, the result of
-- `collectResponses` says no CID twice of one kind. A CID without a response is exactly a configured
-- CID that was not answered in any way. What stands under blocks, haves and dont-haves comes from
-- messages of that kind that arrived before the first close or error; while a configured CID is left
-- without a response, all that these messages say is there, and the error is the one that ended them.
pub collect_responses-IsAnswer :
    (cids : List Cid) (arrivals : List Arrival)
    → IsAnswer cids arrivals (collect_responses cids arrivals)
unfolding collect_responses to_result contains no_answers
collect_responses-IsAnswer cids arrivals = record {
  split = (collect-IsSplit cids arrivals _ (no_answers-IsSplit cids)).split;
  once = (collect-IsSplit cids arrivals _ (no_answers-IsSplit cids)).once.3;
  blocks =
      collected (λ st. st.blocks) (λ m. m.blocks) (λ k st m. (contains-hear k st m).0)
        (λ st e. refl) cids arrivals refl
        (collect-IsSplit cids arrivals _ (no_answers-IsSplit cids)).once.0;
  haves =
      collected (λ st. st.haves) (λ m. m.haves) (λ k st m. (contains-hear k st m).1) (λ st e. refl)
        cids arrivals refl (collect-IsSplit cids arrivals _ (no_answers-IsSplit cids)).once.1;
  dont_haves =
      collected (λ st. st.dont_haves) (λ m. m.dont_haves) (λ k st m. (contains-hear k st m).2)
        (λ st e. refl) cids arrivals refl
        (collect-IsSplit cids arrivals _ (no_answers-IsSplit cids)).once.2;
  err = λ h. collect_error arrivals _ (outstanding_left _ h) refl;
}
