-- ===== src/Main/Prepared.antt =====
-- What cmd/ipfs-crawler/main.go starts its crawl with.
use ipfs_crawler.Prelude.{
  String, ℕ, ◌≡◌, refl, subst, Bool, true, false, List, [], Option, none, some, if◌then◌else◌,
}
use ipfs_crawler.Panic.{Exec, ok, fault, ◌>>=◌}
use ipfs_crawler.Result.{Result, value, error}
use ipfs_crawler.Types.{AddrInfo, Error}
use ipfs_crawler.AddrTools.{Manet}
use ipfs_crawler.Manager.{CrawlManager, add_peers_to_crawl}
use ipfs_crawler.Setup.{Parsers, new_crawl_manager}
use ipfs_crawler.Output.Cache.{Codec, restore_node_cache}
use ipfs_crawler.Main.{
  Config, Os, parse_config, add_restored, add_cached, with_manager, with_directory, with_config,
  prepare,
}

-- The peers that a cache gives.
abbrev pub restored : Result (List AddrInfo) → List AddrInfo
restored (error e) = []
restored (value nodes) = nodes

abbrev pub cached_peers : Codec → Os → Option String → List AddrInfo
cached_peers codec os none = []
cached_peers codec os (some path) = restored (restore_node_cache codec (os.read_file path))

module _ (manet : Manet) (codec : Codec) (os : Os) (parsers : Parsers) {P W : Type 0}
    (chan_limit : ℕ) (load : String → Exec (Result P)) (new_worker : P → ℕ → Exec (Result W)) where
  -- A manager that was made from the configuration, with the cached peers.
  pub record IsPrepared (path : String) (config : Config) (cm : CrawlManager) (workers : List W)
      : Type 0 where
    pub same_config : parse_config os path ≡ value config
    pub weak_keys : os.weak_keys_allowed ≡ true
    pub made : CrawlManager
    pub new :
        new_crawl_manager manet parsers chan_limit load new_worker config.crawl_options
        ≡ ok (value (made, workers))
    pub cached : cm ≡ add_peers_to_crawl manet made (cached_peers codec os config.cache_file_path)

  abbrev IsPreparedIf : String → Exec (Result (Config × CrawlManager × List W)) → Type 0
  IsPreparedIf path (fault f) = Unit {0}
  IsPreparedIf path (ok (error e)) = Unit {0}
  IsPreparedIf path (ok (value (config, cm, workers))) = IsPrepared path config cm workers

  add_restored-add_peers :
      (cm : CrawlManager) (r : Result (List AddrInfo))
      → add_restored manet codec os cm r ≡ add_peers_to_crawl manet cm (restored r)
  unfolding add_restored add_peers_to_crawl
  add_restored-add_peers cm (error e) = refl
  add_restored-add_peers cm (value nodes) = refl

  add_cached-cached_peers :
      (cm : CrawlManager) (cache : Option String)
      → add_cached manet codec os cm cache
        ≡ add_peers_to_crawl manet cm (cached_peers codec os cache)
  unfolding add_cached add_peers_to_crawl
  add_cached-cached_peers cm none = refl
  add_cached-cached_peers cm (some path) =
      add_restored-add_peers cm (restore_node_cache codec (os.read_file path))

  with_manager-IsPreparedIf :
      (path : String) (config : Config) (made : Exec (Result (CrawlManager × List W)))
      → parse_config os path ≡ value config
      → os.weak_keys_allowed ≡ true
      → new_crawl_manager manet parsers chan_limit load new_worker config.crawl_options ≡ made
      → IsPreparedIf path (
          made >>= λ m.
          ok (with_manager manet codec os parsers chan_limit load new_worker config m))
  unfolding with_manager
  with_manager-IsPreparedIf path config (fault f) p k n = tt
  with_manager-IsPreparedIf path config (ok (error e)) p k n = tt
  with_manager-IsPreparedIf path config (ok (value (cm, workers))) p k n = record {
    same_config = p;
    weak_keys = k;
    made = cm;
    new = n;
    cached = add_cached-cached_peers cm config.cache_file_path;
  }

  with_directory-IsPreparedIf :
      (path : String) (config : Config) (made : Option Error)
      → parse_config os path ≡ value config
      → os.weak_keys_allowed ≡ true
      → IsPreparedIf path
          (with_directory manet codec os parsers chan_limit load new_worker config made)
  unfolding with_directory
  with_directory-IsPreparedIf path config (some e) p k = tt
  with_directory-IsPreparedIf path config none p k =
      with_manager-IsPreparedIf path config _ p k refl

  guarded-IsPreparedIf :
      (path : String) (config : Config)
      → parse_config os path ≡ value config
      → (allowed : Bool) → os.weak_keys_allowed ≡ allowed
      → IsPreparedIf path (
          if allowed
          then with_directory manet codec os parsers chan_limit load new_worker config
              (os.mkdir_all config.output_directory_path)
          else ok (error "Weak RSA keys are *disabled*."))
  guarded-IsPreparedIf path config p true k = with_directory-IsPreparedIf path config _ p k
  guarded-IsPreparedIf path config p false k = tt

  with_config-IsPreparedIf :
      (path : String) (parsed : Result Config)
      → parse_config os path ≡ parsed
      → IsPreparedIf path (with_config manet codec os parsers chan_limit load new_worker parsed)
  unfolding with_config
  with_config-IsPreparedIf path (error e) p = tt
  with_config-IsPreparedIf path (value config) p =
      guarded-IsPreparedIf path config p os.weak_keys_allowed refl

  pub prepare-IsPrepared :
      (path : String) (config : Config) (cm : CrawlManager) (workers : List W)
      → prepare manet codec os parsers chan_limit load new_worker path
        ≡ ok (value (config, cm, workers))
      → IsPrepared path config cm workers
  unfolding prepare
  prepare-IsPrepared path config cm workers e =
      subst (IsPreparedIf path) e (with_config-IsPreparedIf path (parse_config os path) refl)
