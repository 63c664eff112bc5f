-- ===== src/Tests/Made.antt =====
-- The theorems on the registry of plugins and on the making of workers.
use ipfs_crawler.Setup.Made.{Made}
use ipfs_crawler.Preimage.Text.{Bytes}
use ipfs_crawler.Prelude.{String, ◌≡◌, ◌≢◌, refl, true, List, [], ◌∷◌, Option, none, some, text_dec}
use ipfs_crawler.Panic.{ok}
use ipfs_crawler.Result.{value, Result}
use ipfs_crawler.Types.{Time, RawNodeInformation}
use ipfs_crawler.Config.{PluginConfig, check_crawler, check_worker}
use ipfs_crawler.GoMap.{lookup}
use ipfs_crawler.Crawler.{Reply}
use ipfs_crawler.Worker.{Libp2pWorker, crawl_peer}
use ipfs_crawler.Worker.Promise.{outcome, IsCrawled}
use ipfs_crawler.Worker.Make.{Libp2p, new_libp2p_worker, IsReady, new_libp2p_worker-IsReady}
use ipfs_crawler.Plugins.{Driver, Drivers, register_plugin, new_plugin, plugins_from_plugin_configs}
use ipfs_crawler.Plugins.Registered.{
  AreMade, register_plugin-new_plugin, plugins_from_plugin_configs-AreMade,
}
use ipfs_crawler.System.{IsLawful}
use ipfs_crawler.Tests.Data.{config}
use ipfs_crawler.Tests.Peers.{ph, kad, unmarshal, env, remote, prober}

abbrev driver : Driver
driver = record { new_impl = λ options. value prober }

abbrev drivers : Drivers
drivers = ("bitswap-probe", driver) ∷ []

abbrev plugin_configs : List PluginConfig
plugin_configs = record { name = "bitswap-probe"; options = "cids: []" } ∷ []

abbrev lib : Libp2p
lib = record {
  resource_manager = none;
  new_host = value true;
  marshal = λ options. value options;
  kad = kad;
  unmarshal = unmarshal;
}

abbrev made : Libp2pWorker
made = record {
  config = config.worker_config;
  plugins = prober ∷ [];
  crawler_config = config.crawler_config;
  preimage_handler = ph;
  kad = kad;
  unmarshal = unmarshal;
}

register_plugin-new_plugin_example :
    (drivers' : Drivers) × (register_plugin "bitswap-probe" (some driver) [] ≡ ok drivers')
    × ((options : String) → new_plugin drivers' "bitswap-probe" options ≡ driver.new_impl options)
    × ((other options : String)
        → "bitswap-probe" ≢ other
        → new_plugin drivers' other options ≡ new_plugin [] other options)
unfolding lookup
register_plugin-new_plugin_example =
    register_plugin-new_plugin "bitswap-probe" driver [] (λ e. cc) refl

plugins_from_plugin_configs-AreMade_example :
    AreMade lib.marshal drivers plugin_configs (prober ∷ [])
unfolding plugins_from_plugin_configs text_dec lookup
plugins_from_plugin_configs-AreMade_example =
    plugins_from_plugin_configs-AreMade lib.marshal drivers plugin_configs (prober ∷ []) refl

new_libp2p_worker-IsReady_example :
    IsReady lib drivers config.worker_config plugin_configs ph config.crawler_config made
    × ((r : Reply (Option RawNodeInformation)) × (crawl_peer made env remote ≡ ok (some r))
        × ((before after : Time) → IsLawful (outcome r before after))
        × IsCrawled r.content)
unfolding new_libp2p_worker check_crawler check_worker plugins_from_plugin_configs text_dec lookup
new_libp2p_worker-IsReady_example =
    new_libp2p_worker-IsReady lib drivers config.worker_config plugin_configs ph
      config.crawler_config made env remote tt
      ((record { content = none; err = some "refused" }, refl), tt) refl (λ i. refl) (λ i. refl)

abbrev open_lines : String → Result (List Bytes)
open_lines path = value ((104 ∷ []) ∷ (48 ∷ 59 ∷ 48 ∷ []) ∷ [])
