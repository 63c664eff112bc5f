-- ===== src/Crawler/Answers.antt =====
-- `fullNeighborCrawl` of crawling/crawler.go: the neighbors against the answers.
use ipfs_crawler.Prelude.{
  String, ℕ, zero, suc, ◌+◌, ◌<◌, ◌≤◌, ◌≡◌, refl, sym, ◌∙◌, ap, subst, Bool, true, false, ◌&&◌,
  ◌||◌, List, [], Option, none, some, arith, text_dec, inl, inr, Bool-cases, ltb, ◌⊎◌,
}
use ipfs_crawler.Panic.{ok}
use ipfs_crawler.Result.{Result}
use ipfs_crawler.Types.{PeerId, AddrInfo, Error}
use ipfs_crawler.Config.{CrawlerConfig}
use ipfs_crawler.GoMap.{contains}
use ipfs_crawler.Preimage.{PreimageHandler, BinId, target_index}
use ipfs_crawler.Crawler.{
  Reply, retry, Exchange, send_find_node, Progress, absorb, ask_bucket, buckets,
  full_neighbor_crawl,
}
use ipfs_crawler.Crawler.Laws.{
  ids, IsTidy, absorb-IsTidy, absorb-seen, find_pre_image_for_cpl-target, any_new, absorb-any_new,
  any_new-found, any_new-none,
}

or_true : (b : Bool) → (b || true) ≡ true
or_true b = ground arith

in_old : (a b : Bool) → (a || b) ≡ true → b ≡ false → a ≡ true
in_old a b h n = ground arith

stopped :
    (i : ℕ) (b : Bool) → i ≤ 24 → (ltb i 4 || (ltb i 24 && b)) ≡ false → (i ≡ 24) ⊎ (b ≡ false)
stopped i true small h = inl (ground arith)
stopped i false small h = inr refl

module _ (ph : PreimageHandler) (kad : PeerId → BinId) (unmarshal : String → Result (List AddrInfo))
    (answer : ℕ → ℕ → ℕ → Exchange) (config : CrawlerConfig) (p : PeerId) where
  -- The reply to the attempts at the i-th bucket, after the error `err`.
  abbrev pub reply : ℕ → Option Error → Reply (List AddrInfo)
  reply i err =
      retry config.interaction_attempts 0
        (λ j. send_find_node unmarshal (answer (ph.preimages (target_index (kad p) i)) i j))
        (record { content = []; err = err })

  -- The peers in it.
  abbrev pub heard : ℕ → PeerId → Bool
  heard i k = contains text_dec k (ids (reply i none).content)

  -- Before the i-th bucket.
  pub record Gathers (i : ℕ) (st : Progress) : Type 0 where
    pub tidy : IsTidy st
    pub complete :
        (j : ℕ) (k : PeerId)
        → j < i
        → heard j k ≡ true
        → contains text_dec k (ids st.neighbors) ≡ true
    pub honest :
        (k : PeerId)
        → contains text_dec k (ids st.neighbors) ≡ true
        → (j : ℕ) × (j < i) × (heard j k ≡ true)

  -- The reply from the i-th bucket has a peer that no bucket before it gave.
  abbrev pub IsNews : ℕ → Type 0
  IsNews i = (k : PeerId) × (heard i k ≡ true) × ((j : ℕ) → j < i → heard j k ≡ false)

  -- After the i-th bucket the flag says whether it brought news, and each bucket past the fourth was
  -- asked since the one before it had brought news.
  record IsDriven (i : ℕ) (st : Progress) : Type 0 where
    flag_on : (j : ℕ) → i ≡ suc j → st.any_new_peers ≡ true → IsNews j
    flag_off : (j : ℕ) → i ≡ suc j → st.any_new_peers ≡ false → ¬ IsNews j
    driven : (j : ℕ) → 4 ≤ suc j → suc j < i → IsNews j

  -- The peers of a reply do not depend on the error before.
  reply-content :
      (n i : ℕ) (call : ℕ → Reply (List AddrInfo)) (e f : Option Error)
      → (retry n i call (record { content = []; err = e })).content
        ≡ (retry n i call (record { content = []; err = f })).content
  unfolding retry
  reply-content zero i call e f = refl
  reply-content (suc n) i call e f = refl

  abbrev asked : ℕ → Progress → Progress
  asked i st =
      absorb (record st { err = (reply i st.err).err; any_new_peers = false })
        (reply i st.err).content

  ask_bucket-asked :
      (i : ℕ) (st : Progress)
      → i < 24
      → ask_bucket ph kad unmarshal answer config p i st ≡ ok (asked i st)
  unfolding ask_bucket
  ask_bucket-asked i st small = rw (find_pre_image_for_cpl-target ph (kad p) i small) refl

  asked-IsTidy : (i : ℕ) (st : Progress) → IsTidy st → IsTidy (asked i st)
  asked-IsTidy i st h =
      absorb-IsTidy (record st { err = (reply i st.err).err; any_new_peers = false })
        (reply i st.err).content (record { distinct = h.distinct; same = h.same })

  asked-grows :
      (i : ℕ) (st : Progress) (k : PeerId)
      → IsTidy st
      → contains text_dec k (ids (asked i st).neighbors)
        ≡ (contains text_dec k (ids st.neighbors) || heard i k)
  asked-grows i st k h =
      let same : contains text_dec k (asked i st).seen_ids ≡ (
          contains text_dec k st.seen_ids || contains text_dec k (ids (reply i st.err).content)) =
        absorb-seen (record st { err = (reply i st.err).err; any_new_peers = false })
          (reply i st.err).content k in
      let content : contains text_dec k (ids (reply i st.err).content) ≡ heard i k =
        ap (λ ps. contains text_dec k (ids ps))
          (reply-content config.interaction_attempts 0
            (λ j. send_find_node unmarshal (answer (ph.preimages (target_index (kad p) i)) i j))
            st.err none) in
      sym ((asked-IsTidy i st h).same k)
      ∙ same
      ∙ ap (λ b. b || contains text_dec k (ids (reply i st.err).content)) (h.same k)
      ∙ ap (λ b. contains text_dec k (ids st.neighbors) || b) content

  heard_before : (i j : ℕ) (k : PeerId) → j < suc i → heard j k ≡ true → heard i k ≡ false → j < i
  heard_before i j k small h n = elim (Bool-cases (ltb j i)) [
    | inl less ↦ ground arith
    | inr more ↦
        let same : j ≡ i = ground arith in
        absurd (let e : heard i k ≡ true = subst (λ n. heard n k ≡ true) same h in cc)
  ]

  asked-Gathers : (i : ℕ) (st : Progress) → Gathers i st → Gathers (suc i) (asked i st)
  asked-Gathers i st h = record {
    tidy = asked-IsTidy i st h.tidy;
    complete = λ j k small e. elim (Bool-cases (heard i k)) [
      | inl now ↦
          asked-grows i st k h.tidy
          ∙ ap (λ b. contains text_dec k (ids st.neighbors) || b) now
          ∙ or_true _
      | inr old ↦
          asked-grows i st k h.tidy
          ∙ ap (λ b. b || heard i k) (h.complete j k (heard_before i j k small e old) e)
    ];
    honest = λ k e. elim (Bool-cases (heard i k)) [
      | inl now ↦ (i, omega arith, now)
      | inr old ↦
          let (j, less, before) = h.honest k (
            in_old (contains text_dec k (ids st.neighbors)) (heard i k)
              (sym (asked-grows i st k h.tidy) ∙ e) old) in
          (j, omega arith, before)
    ];
  }

  not_heard :
      (i : ℕ) (st : Progress) (k : PeerId)
      → Gathers i st
      → contains text_dec k (ids st.neighbors) ≡ false
      → (j : ℕ) → j < i
      → heard j k ≡ false
  not_heard i st k h new j less = elim (Bool-cases (heard j k)) [
    | inr e ↦ e
    | inl e ↦ absurd (let there = h.complete j k less e in cc)
  ]

  asked-flag :
      (i : ℕ) (st : Progress)
      → (asked i st).any_new_peers ≡ any_new st.seen_ids (reply i none).content
  asked-flag i st =
      absorb-any_new (record st { err = (reply i st.err).err; any_new_peers = false })
        (reply i st.err).content refl
      ∙ ap (any_new st.seen_ids) (
          reply-content config.interaction_attempts 0
            (λ j. send_find_node unmarshal (answer (ph.preimages (target_index (kad p) i)) i j))
            st.err none)

  asked-IsNews :
      (i : ℕ) (st : Progress) → Gathers i st → (asked i st).any_new_peers ≡ true → IsNews i
  asked-IsNews i st h on =
      let (k, there, new) =
        any_new-found st.seen_ids (reply i none).content (sym (asked-flag i st) ∙ on) in
      (k, there, not_heard i st k h (sym (h.tidy.same k) ∙ new))

  asked-no-IsNews :
      (i : ℕ) (st : Progress) → Gathers i st → (asked i st).any_new_peers ≡ false → ¬ IsNews i
  asked-no-IsNews i st h off (k, there, new) =
      let seen =
        any_new-none st.seen_ids (reply i none).content k (sym (asked-flag i st) ∙ off) there in
      let (j, less, before) = h.honest k (sym (h.tidy.same k) ∙ seen) in let e = new j less in cc

  asked-IsDriven :
      (i : ℕ) (st : Progress)
      → Gathers i st
      → IsDriven i st
      → (ltb i 4 || (ltb i 24 && st.any_new_peers)) ≡ true
      → IsDriven (suc i) (asked i st)
  asked-IsDriven i st h d more = record {
    flag_on = λ j e on. subst IsNews (omega (arith, e)) (asked-IsNews i st h on);
    flag_off = λ j e off n. asked-no-IsNews i st h off (subst IsNews (omega (arith, e)) n);
    driven = λ j four less. elim (Bool-cases (ltb (suc j) i)) [
      | inl small ↦ d.driven j four (ground arith)
      | inr last ↦ let e : i ≡ suc j = ground arith in d.flag_on j e (ground (arith, more))
    ];
  }

  -- The loop ends by its condition, after between 4 and 24 buckets.
  buckets-Gathers :
      (fuel i : ℕ) (st : Progress)
      → i ≤ 24
      → 25 ≤ fuel + i
      → Gathers i st
      → IsDriven i st
      → (st' : Progress) × (n : ℕ) × (buckets ph kad unmarshal answer config p fuel i st
          ≡ ok (some st'))
        × (4 ≤ n)
        × (n ≤ 24)
        × ((n ≡ 24) ⊎ (st'.any_new_peers ≡ false))
        × IsDriven n st'
        × Gathers n st'
  unfolding buckets
  buckets-Gathers zero i st small enough h d = absurd (omega arith)
  buckets-Gathers (suc fuel) i st small enough h d =
      elim (Bool-cases (ltb i 4 || (ltb i 24 && st.any_new_peers))) [
        | inl more ↦
            let less : i < 24 = ground arith in
            let (st', n, e, least, most, why, dn, g) =
              buckets-Gathers fuel (suc i) (asked i st) less (omega arith) (asked-Gathers i st h)
                (asked-IsDriven i st h d more) in
            (st', n, rw (more, ask_bucket-asked i st less) e, least, most, why, dn, g)
        | inr over ↦
            (st, i, rw over refl, ground arith, small, stopped i st.any_new_peers small over, d, h)
      ]

  -- The crawl of a peer's buckets does not panic, and comes to an end. It asks the first n buckets,
  -- for an n from 4 to 24: it asks another bucket after the fourth only if the last one brought a
  -- peer that no bucket before had given, and it stops before the 24th only if the last one brought
  -- none. The neighbors are the peers in the replies from these buckets, each once.
  pub full_neighbor_crawl-Gathers :
      (st : Progress) × (n : ℕ) × (full_neighbor_crawl ph kad unmarshal answer config p
        ≡ ok (some st))
      × (4 ≤ n)
      × (n ≤ 24)
      × ((j : ℕ) → 4 ≤ suc j → suc j < n → IsNews j)
      × ((n ≡ 24) ⊎ ((j : ℕ) → n ≡ suc j → ¬ IsNews j))
      × Gathers n st
  unfolding full_neighbor_crawl contains
  full_neighbor_crawl-Gathers =
      let (st, n, e, least, most, why, d, g) =
        buckets-Gathers 25 0
          (record { neighbors = []; seen_ids = []; err = none; any_new_peers = false })
          (omega arith) (omega arith)
          (record {
            tidy = record { distinct = tt; same = λ k. refl };
            complete = λ j k less e. absurd (omega arith);
            honest = λ k e. absurd (ground arith);
          })
          (record {
            flag_on = λ j e. absurd (omega (arith, e));
            flag_off = λ j e. absurd (omega (arith, e));
            driven = λ j four less. absurd (omega arith);
          }) in
      (
        st,
        n,
        e,
        least,
        most,
        d.driven,
        elim why [ inl all ↦ inl all | inr off ↦ inr (λ j last. d.flag_off j last off) ],
        g,
      )
