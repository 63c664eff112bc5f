-- ===== src/Worker/Make.antt =====
-- `newCrawler` of crawling/crawler.go and `NewLibp2pWorker` of crawling/libp2p_worker.go. The resource
-- manager and the host are libp2p's.
use Prim.Native.String.{◌++◌ as ◌<>◌}
use ipfs_crawler.Prelude.{
  String, ℕ, ◌≡◌, refl, subst, Bool, true, false, List, Option, none, some, inl, inr, Option-cases,
  if◌then◌else◌, All,
}
use ipfs_crawler.Panic.{Exec, ok, fault, failed_assertion}
use ipfs_crawler.Result.{Result, value, error}
use ipfs_crawler.Types.{PeerId, AddrInfo, Error, Time, RawNodeInformation, Exclusive}
use ipfs_crawler.Config.{CrawlerConfig, WorkerConfig, PluginConfig, check_crawler, check_worker}
use ipfs_crawler.Preimage.{PreimageHandler, BinId}
use ipfs_crawler.Crawler.{Reply}
use ipfs_crawler.System.{IsLawful}
use ipfs_crawler.Worker.{Plugin, Surroundings, Libp2pWorker, crawl_peer}
use ipfs_crawler.Worker.Promise.{outcome, IsCrawled, crawl_peer-IsLawful, IsText, Answers}
use ipfs_crawler.Plugins.{Drivers, plugins_from_plugin_configs}
use ipfs_crawler.Plugins.Registered.{AreMade, plugins_from_plugin_configs-AreMade}

-- What the libraries give: the error of `rcmgr.NewResourceManager`, what `libp2p.New` returns, where
-- the value says whether the host is a `BasicHost`, and the functions that the crawler calls.
pub record Libp2p : Type 0 where
  pub resource_manager : Option Error
  pub new_host : Result Bool
  pub marshal : String → Result String
  pub kad : PeerId → BinId
  pub unmarshal : String → Result (List AddrInfo)

-- `newCrawler` keeps its configuration and the preimages.
unfoldable pub new_crawler :
    CrawlerConfig → PreimageHandler → Result (CrawlerConfig × PreimageHandler)
new_crawler c ph = elim (check_crawler c) [
  | some e ↦ error ("invalid config: " <> e)
  | none ↦ value (c, ph)
]

module _ (lib : Libp2p) (drivers : Drivers) (config : WorkerConfig)
    (plugin_configs : List PluginConfig) where
  unfoldable pub with_plugins :
      CrawlerConfig × PreimageHandler → Result (List Plugin) → Result Libp2pWorker
  with_plugins c (error e) = error ("unable to create plugins: " <> e)
  with_plugins (c, ph) (value ps) = value (record {
    config = config;
    plugins = ps;
    crawler_config = c;
    preimage_handler = ph;
    kad = lib.kad;
    unmarshal = lib.unmarshal;
  })

  unfoldable pub with_crawler : Result (CrawlerConfig × PreimageHandler) → Result Libp2pWorker
  unfolding with_plugins
  with_crawler (error e) = error ("unable to create crawler plugin: " <> e)
  with_crawler (value c) =
      with_plugins c (plugins_from_plugin_configs lib.marshal drivers plugin_configs)

  -- The host is asserted to be a `BasicHost`.
  unfoldable pub with_host :
      PreimageHandler → CrawlerConfig → Result Bool → Exec (Result Libp2pWorker)
  unfolding with_crawler new_crawler
  with_host ph crawler_config (error e) = ok (error ("unable to create libp2p host: " <> e))
  with_host ph crawler_config (value basic) =
      if basic then ok (with_crawler (new_crawler crawler_config ph)) else fault failed_assertion

  unfoldable pub with_resource_manager :
      PreimageHandler → CrawlerConfig → Option Error → Exec (Result Libp2pWorker)
  unfolding with_host
  with_resource_manager ph crawler_config (some e) =
      ok (error ("unable to create resource manager: " <> e))
  with_resource_manager ph crawler_config none = with_host ph crawler_config lib.new_host

  unfoldable pub new_libp2p_worker : PreimageHandler → CrawlerConfig → Exec (Result Libp2pWorker)
  unfolding with_resource_manager
  new_libp2p_worker ph crawler_config = elim (check_worker config) [
    | some e ↦ ok (error ("invalid config: " <> e))
    | none ↦ with_resource_manager ph crawler_config lib.resource_manager
  ]

  -- A worker of these configurations, which pass their checks, with the plugins of the drivers.
  pub record IsReady (ph : PreimageHandler) (crawler_config : CrawlerConfig) (w : Libp2pWorker)
      : Type 0 where
    pub config_ok : check_worker w.config ≡ none
    pub crawler_ok : check_crawler w.crawler_config ≡ none
    pub same_config : w.config ≡ config
    pub same_crawler : w.crawler_config ≡ crawler_config
    pub same_preimages : w.preimage_handler ≡ ph
    pub plugins_made : AreMade lib.marshal drivers plugin_configs w.plugins

  abbrev IsReadyOr : PreimageHandler → CrawlerConfig → Exec (Result Libp2pWorker) → Type 0
  IsReadyOr ph c (fault f) = Unit {0}
  IsReadyOr ph c (ok (error e)) = Unit {0}
  IsReadyOr ph c (ok (value w)) = IsReady ph c w

  with_plugins-IsReadyOr :
      (ph : PreimageHandler) (c : CrawlerConfig) (ps : Result (List Plugin))
      → check_worker config ≡ none
      → check_crawler c ≡ none
      → plugins_from_plugin_configs lib.marshal drivers plugin_configs ≡ ps
      → IsReadyOr ph c (ok (with_plugins (c, ph) ps))
  unfolding with_plugins
  with_plugins-IsReadyOr ph c (error e) fit passed made = tt
  with_plugins-IsReadyOr ph c (value ps) fit passed made = record {
    config_ok = fit;
    crawler_ok = passed;
    same_config = refl;
    same_crawler = refl;
    same_preimages = refl;
    plugins_made = plugins_from_plugin_configs-AreMade lib.marshal drivers plugin_configs ps made;
  }

  with_crawler-IsReadyOr :
      (ph : PreimageHandler) (c : CrawlerConfig)
      → check_worker config ≡ none
      → IsReadyOr ph c (ok (with_crawler (new_crawler c ph)))
  unfolding with_crawler new_crawler
  with_crawler-IsReadyOr ph c fit = elim (Option-cases (check_crawler c)) [
    | inl q ↦ rw (q, IsReadyOr) (with_plugins-IsReadyOr ph c _ fit q refl)
    | inr (e, q) ↦ rw (q, IsReadyOr) tt
  ]

  with_host-IsReadyOr :
      (ph : PreimageHandler) (c : CrawlerConfig) (host : Result Bool)
      → check_worker config ≡ none
      → IsReadyOr ph c (with_host ph c host)
  unfolding with_host
  with_host-IsReadyOr ph c (error e) fit = tt
  with_host-IsReadyOr ph c (value false) fit = tt
  with_host-IsReadyOr ph c (value true) fit = with_crawler-IsReadyOr ph c fit

  with_resource_manager-IsReadyOr :
      (ph : PreimageHandler) (c : CrawlerConfig) (rm : Option Error)
      → check_worker config ≡ none
      → IsReadyOr ph c (with_resource_manager ph c rm)
  unfolding with_resource_manager
  with_resource_manager-IsReadyOr ph c (some e) fit = tt
  with_resource_manager-IsReadyOr ph c none fit = with_host-IsReadyOr ph c lib.new_host fit

  new_libp2p_worker-IsReadyOr :
      (ph : PreimageHandler) (c : CrawlerConfig) → IsReadyOr ph c (new_libp2p_worker ph c)
  unfolding new_libp2p_worker
  new_libp2p_worker-IsReadyOr ph c = elim (Option-cases (check_worker config)) [
    | inr (e, q) ↦ rw (q, IsReadyOr) tt
    | inl q ↦ rw (q, IsReadyOr) (with_resource_manager-IsReadyOr ph c lib.resource_manager q)
  ]

  -- A worker that `NewLibp2pWorker` returns has the configurations and the preimages that it was
  -- given, and one plugin for each plugin configuration, in order, made by the registered driver. The
  -- configurations pass their checks, so that its `crawlPeer`, with dials that give a connection or
  -- an error, streams that are opened or give an error, plugins whose `HandlePeer` returns, and an
  -- agent's version in the peerstore that is a string if there is one, comes to an end without a panic and keeps
  -- the promise of the interface.
  pub new_libp2p_worker-IsReady :
      {C S : Type 0} (ph : PreimageHandler) (c : CrawlerConfig) (w : Libp2pWorker)
      (env : Surroundings C S) (remote : AddrInfo)
      → IsText env.agent
      → All (Answers remote) w.plugins
      → new_libp2p_worker ph c ≡ ok (value w)
      → ((i : ℕ) → Exclusive (env.new_stream i).err (env.new_stream i).content)
      → ((i : ℕ) → Exclusive (env.dial i).err (env.dial i).content)
      → IsReady ph c w
        × ((r : Reply (Option RawNodeInformation)) × (crawl_peer w env remote ≡ ok (some r))
            × ((before after : Time) → IsLawful (outcome r before after))
            × IsCrawled r.content)
  new_libp2p_worker-IsReady ph c w env remote text settled e streams dials =
      let ready : IsReady ph c w = subst (IsReadyOr ph c) e (new_libp2p_worker-IsReadyOr ph c) in
      (
        ready,
        crawl_peer-IsLawful w env remote text settled ready.crawler_ok streams ready.config_ok
            dials,
      )
