-- ===== src/Worker/Promise.antt =====
-- `crawlPeer` of crawling/libp2p_worker.go against the promise of the interface `worker`.
use ipfs_crawler.Result.{Result, value, error}
use ipfs_crawler.GoMap.{insert}
use ipfs_crawler.Prelude.{
  ℕ, ◌<◌, ◌≡◌, refl, Option, none, some, arith, inl, inr, Option-cases, All, List, [], ◌∷◌, String,
  text_dec,
}
use ipfs_crawler.Panic.{ok}
use ipfs_crawler.Types.{
  AddrInfo, Time, RawNodeInformation, Exclusive, CrawlData, PluginResult, PeerMetadata, ProtocolId,
  Value,
}
use ipfs_crawler.Config.{WorkerConfig, check_crawler, check_worker}
use ipfs_crawler.Crawler.{Reply}
use ipfs_crawler.Crawler.Handled.{retry_last, handle_peer-Exclusive}
use ipfs_crawler.System.{Outcome, IsLawful}
use ipfs_crawler.Worker.{
  Surroundings, Libp2pWorker, connect, raw_information, with_crawl, on_connection, crawl_peer,
  Plugin, Stored, a_string, another_type, agent_of, assert_string, run_plugins, to_infos,
}

connect-Exclusive :
    {C : Type 0} (dialed : Reply (Option C))
    → Exclusive dialed.err dialed.content
    → Exclusive (connect dialed).err (connect dialed).content
unfolding connect
connect-Exclusive dialed x = ground arith

attempts_of_check :
    (config : WorkerConfig) → check_worker config ≡ none → 0 < config.connection_attempts
unfolding check_worker
attempts_of_check config e = ground arith

-- What the loop of the manager receives from the goroutine.
abbrev pub outcome : Reply (Option RawNodeInformation) → Time → Time → Outcome
outcome r before after = record { node = r.content; err = r.err; before = before; after = after }

-- In a node, the crawl has data or an error.
abbrev pub IsCrawled : Option RawNodeInformation → Type 0
IsCrawled none = Unit {0}
IsCrawled (some n) = Exclusive n.crawl_data.err n.crawl_data.result

-- The `HandlePeer` of the plugin returns.
abbrev pub Answers : AddrInfo → Plugin → Type 0
Answers remote p = (r : Reply (Option Value)) × (p.handle_peer remote ≡ ok r)

-- What the identify protocol stores as the agent's version is a string.
abbrev pub IsText : Result Stored → Type 0
IsText (error e) = Unit {0}
IsText (value (a_string a)) = Unit {0}
IsText (value another_type) = ⊥

run_plugins-ok :
    (remote : AddrInfo) (ps : List Plugin) (results : List (String × PluginResult))
    → All (Answers remote) ps
    → (rs : List (String × PluginResult)) × (run_plugins remote ps results ≡ ok rs)
unfolding run_plugins
run_plugins-ok remote [] results h = (results, refl)
run_plugins-ok remote (p ∷ ps) results ((r, e), rest) =
    let (rs, q) =
      run_plugins-ok remote ps
        (insert text_dec p.name
          (record { begin_timestamp = 0; end_timestamp = 0; err = r.err; result = r.content })
          results)
        rest in
    (rs, rw (run_plugins, e) q)

to_infos-ok :
    (agent : Result Stored) (protocols : Result (List ProtocolId))
    → IsText agent
    → (m : PeerMetadata) × (to_infos agent protocols ≡ ok m)
unfolding to_infos agent_of assert_string
to_infos-ok (error e) protocols h = (_, refl)
to_infos-ok (value (a_string a)) protocols h = (_, refl)
to_infos-ok (value another_type) protocols h = absurd h

module _ {C S : Type 0} (w : Libp2pWorker) (env : Surroundings C S) (remote : AddrInfo)
    (text : IsText env.agent) (settled : All (Answers remote) w.plugins) where
  -- The node that comes of a crawl has the crawl's data or error.
  with_crawl-ok :
      (crawled : Reply (Option CrawlData))
      → (n : RawNodeInformation) × (with_crawl w env remote (some crawled)
          ≡ ok (some (record { content = some n; err = none })))
        × (n.crawl_data.err ≡ crawled.err)
        × (n.crawl_data.result ≡ crawled.content)
  unfolding with_crawl raw_information
  with_crawl-ok crawled =
      let (rs, ran) = run_plugins-ok remote w.plugins [] settled in
      let (m, known) = to_infos-ok env.agent env.protocols text in
      let n : RawNodeInformation = record {
        info = m;
        crawl_data = record {
          begin_timestamp = env.begun;
          end_timestamp = env.ended;
          err = crawled.err;
          result = crawled.content;
        };
        plugin_results = rs;
      } in
      (n, rw (with_crawl, raw_information, ran, known) refl, refl, refl)

module _ {C S : Type 0} (w : Libp2pWorker) (env : Surroundings C S) (remote : AddrInfo)
    (text : IsText env.agent) (settled : All (Answers remote) w.plugins)
    (passed : check_crawler w.crawler_config ≡ none)
    (streams : (i : ℕ) → Exclusive (env.new_stream i).err (env.new_stream i).content) where
  on_connection-IsLawful :
      (conn : Reply (Option C))
      → Exclusive conn.err conn.content
      → (r : Reply (Option RawNodeInformation)) × (on_connection w env remote conn ≡ ok (some r))
        × ((before after : Time) → IsLawful (outcome r before after))
        × IsCrawled r.content
  unfolding on_connection
  on_connection-IsLawful conn c = elim (Option-cases conn.err) [
    | inr (fail, q) ↦
        (record { content = none; err = some fail }, rw q refl, λ before after. refl, tt)
    | inl q ↦ elim (Option-cases conn.content) [
      | inl closed ↦ absurd (ground arith)
      | inr (s, opened) ↦
          let (crawled, e, x) =
            handle_peer-Exclusive w.preimage_handler w.kad w.unmarshal env.answer w.crawler_config
              remote.id env.new_stream env.started env.finished passed streams in
          let (n, made, same_err, same) = with_crawl-ok w env remote text settled crawled in
          (
            record { content = some n; err = none },
            rw (q, opened, e) made,
            λ before after. refl,
            rw (same_err, same) x,
          )
    ]
  ]

  -- With configurations that pass their checks, dials that give a connection or an error, streams
  -- that are opened or give an error, plugins whose `HandlePeer` returns, and an agent's version in the
  -- peerstore that is a string if there is one, `crawlPeer` comes to an end without a panic. It returns a node
  -- or an error, never both and never neither, as the interface promises to the manager; and in a
  -- node, the crawl has data or an error.
  pub crawl_peer-IsLawful :
      check_worker w.config ≡ none
      → ((i : ℕ) → Exclusive (env.dial i).err (env.dial i).content)
      → (r : Reply (Option RawNodeInformation)) × (crawl_peer w env remote ≡ ok (some r))
        × ((before after : Time) → IsLawful (outcome r before after))
        × IsCrawled r.content
  unfolding crawl_peer
  crawl_peer-IsLawful fit dials = on_connection-IsLawful _ (
      retry_last (λ r. Exclusive r.err r.content) w.config.connection_attempts
        (λ i. connect (env.dial i)) (record { content = none; err = none })
        (attempts_of_check w.config fit) (λ i. connect-Exclusive (env.dial i) (dials i)))
