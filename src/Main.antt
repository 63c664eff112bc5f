-- ===== src/Main.antt =====
-- The executable of cmd/ipfs-crawler/main.go, around `CrawlNetwork`. The flags and the names of the two
-- output files are not modelled. `log.Fatal` ends the program: it is an error here.
pub mod Prepared
pub mod Concluded
pub mod Whole
use Prim.Native.String.{◌++◌ as ◌<>◌}
use ipfs_crawler.Prelude.{String, ℕ, Bool, true, false, List, Option, none, some, if◌then◌else◌}
use ipfs_crawler.Panic.{Exec, ok, fault, ◌>>=◌}
use ipfs_crawler.Result.{Result, value, error}
use ipfs_crawler.Types.{AddrInfo, Error, Time}
use ipfs_crawler.Config.{CrawlManagerConfig}
use ipfs_crawler.AddrTools.{Manet}
use ipfs_crawler.Manager.{CrawlManager, add_peers_to_crawl}
use ipfs_crawler.Manager.Summary.{CrawlOutput, create_report}
use ipfs_crawler.Setup.{Parsers, new_crawl_manager}
use ipfs_crawler.Output.{CrawlOutputJson, FileErrors, write_metadata}
use ipfs_crawler.Output.Graph.{Row, write_peergraph}
use ipfs_crawler.Output.Cache.{Codec, save_node_cache, restore_node_cache}
use ipfs_crawler.Worker.Stop.{Stoppable, stop_all}

pub record Config : Type 0 where
  pub output_directory_path : String
  pub cache_file_path : Option String
  pub crawl_options : CrawlManagerConfig

-- What the system gives: the content of a file that is opened, the YAML decoder, whether
-- LIBP2P_ALLOW_WEAK_RSA_KEYS is set, the error of `os.MkdirAll`, and `os.ReadFile`.
pub record Os : Type 0 where
  pub open_file : String → Result String
  pub decode : String → Result Config
  pub weak_keys_allowed : Bool
  pub mkdir_all : String → Option Error
  pub read_file : String → Result String

unfoldable pub decoded_config : Result Config → Result Config
decoded_config (error e) = error ("unable to unmarshal: " <> e)
decoded_config (value c) = value c

unfoldable pub parse_config : Os → String → Result Config
unfolding decoded_config
parse_config os path = elim (os.open_file path) [
  | error e ↦ error ("unable to open: " <> e)
  | value text ↦ decoded_config (os.decode text)
]

module _ (manet : Manet) (codec : Codec) (os : Os) where
  -- The cached peers, where there is a cache that can be read.
  unfoldable pub add_restored : CrawlManager → Result (List AddrInfo) → CrawlManager
  add_restored cm (error e) = cm
  add_restored cm (value nodes) = add_peers_to_crawl manet cm nodes

  unfoldable pub add_cached : CrawlManager → Option String → CrawlManager
  unfolding add_restored
  add_cached cm none = cm
  add_cached cm (some path) = add_restored cm (restore_node_cache codec (os.read_file path))

  module _ (parsers : Parsers) {P W : Type 0} (chan_limit : ℕ) (load : String → Exec (Result P))
      (new_worker : P → ℕ → Exec (Result W)) where
    unfoldable pub with_manager :
        Config → Result (CrawlManager × List W) → Result (Config × CrawlManager × List W)
    unfolding add_cached
    with_manager config (error e) = error ("unable to set up crawler: " <> e)
    with_manager config (value (cm, workers)) =
        value (config, add_cached cm config.cache_file_path, workers)

    unfoldable pub with_directory :
        Config → Option Error → Exec (Result (Config × CrawlManager × List W))
    unfolding with_manager
    with_directory config (some e) = ok (error ("unable to create output directory: " <> e))
    with_directory config none =
        new_crawl_manager manet parsers chan_limit load new_worker config.crawl_options >>= λ made.
        ok (with_manager config made)

    unfoldable pub with_config : Result Config → Exec (Result (Config × CrawlManager × List W))
    unfolding with_directory
    with_config (error e) = ok (error e)
    with_config (value config) =
        if os.weak_keys_allowed
        then with_directory config (os.mkdir_all config.output_directory_path)
        else ok (error "Weak RSA keys are *disabled*.")

    -- `main` up to the crawl.
    unfoldable pub prepare : String → Exec (Result (Config × CrawlManager × List W))
    unfolding with_config parse_config
    prepare path = with_config (parse_config os path)

-- The errors of the calls on the three files.
pub record Files : Type 0 where
  pub metadata : FileErrors
  pub peergraph : FileErrors
  pub cache : FileErrors

-- What `main` leaves.
pub record Written : Type 0 where
  pub workers : List Stoppable
  pub metadata : CrawlOutputJson
  pub peergraph : List Row
  pub cache : Option String

module _ (codec : Codec) (report : CrawlOutput) (workers : List Stoppable) where
  unfoldable pub with_saved : CrawlOutputJson → List Row → Result String → Exec (Result Written)
  with_saved metadata rows (error e) = ok (error ("unable to save online nodes to cache: " <> e))
  with_saved metadata rows (value text) = ok (
      value
        (record { workers = workers; metadata = metadata; peergraph = rows; cache = some text }))

  unfoldable pub with_peergraph :
      FileErrors → Option String → CrawlOutputJson → Result (List Row) → Exec (Result Written)
  unfolding with_saved
  with_peergraph cache path metadata (error e) = ok (error e)
  with_peergraph cache none metadata (value rows) =
      ok (value (record { workers = workers; metadata = metadata; peergraph = rows; cache = none }))
  with_peergraph cache (some path) metadata (value rows) =
      save_node_cache codec report cache >>= λ saved. with_saved metadata rows saved

  unfoldable pub with_metadata :
      Files → Option String → Result CrawlOutputJson → Exec (Result Written)
  unfolding with_peergraph
  with_metadata files path (error e) = ok (error e)
  with_metadata files path (value metadata) = write_peergraph report files.peergraph >>= λ rows.
      with_peergraph files.cache path metadata rows

-- `main` from the report of `CrawlNetwork` on. The error of `Stop` is only logged.
unfoldable pub conclude :
    Codec → Config → CrawlManager → List Stoppable → Time → Time → Files → Exec (Result Written)
unfolding with_metadata stop_all
conclude codec config cm workers before after files = create_report cm >>= λ made.
    write_metadata made.1 before after files.metadata >>= λ metadata.
    with_metadata codec made.1 (stop_all workers) files config.cache_file_path metadata
