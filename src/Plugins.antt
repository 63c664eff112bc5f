-- ===== src/Plugins.antt =====
-- The registry of plugins of crawling/plugin.go. The drivers are the plugins' own; `host.Host` is
-- theirs to use, and stands within them.
pub mod Registered
use Prim.Native.String.{◌++◌ as ◌<>◌}
use ipfs_crawler.Prelude.{
  String, List, [], ◌∷◌, Option, none, some, text_dec, is_some, if◌then◌else◌, ite,
}
use ipfs_crawler.Panic.{Exec, ok, fault, bad_plugin}
use ipfs_crawler.Result.{Result, value, error, ◌>>=◌}
use ipfs_crawler.Config.{PluginConfig}
use ipfs_crawler.GoMap.{lookup, insert}
use ipfs_crawler.Worker.{Plugin}

-- The interface `Driver`: what `NewImpl` makes of the YAML of the options.
pub record Driver : Type 0 where
  pub new_impl : String → Result Plugin

-- The global variable `drivers`.
abbrev pub Drivers : Type 0
Drivers = List (String × Driver)

-- `RegisterPlugin`, for a driver that is not `nil`.
unfoldable pub register_driver : String → Driver → Drivers → Exec Drivers
register_driver name d drivers =
    if is_some (lookup text_dec name drivers)
    then fault bad_plugin
    else ok (insert text_dec name d drivers)

unfoldable pub register_plugin : String → Option Driver → Drivers → Exec Drivers
unfolding register_driver
register_plugin name d drivers =
    ite (text_dec name "") (fault bad_plugin)
      (elim d [ none ↦ fault bad_plugin | some driver ↦ register_driver name driver drivers ])

unfoldable pub new_plugin : Drivers → String → String → Result Plugin
new_plugin drivers name options = elim (lookup text_dec name drivers) [
  | none ↦ error "middleware driver with that name does not exist"
  | some d ↦ d.new_impl options
]

-- `marshal` is `yaml.Marshal`.
unfoldable pub plugins_from_plugin_configs :
    (String → Result String) → Drivers → List PluginConfig → Result (List Plugin)
unfolding new_plugin
plugins_from_plugin_configs marshal drivers [] = value []
plugins_from_plugin_configs marshal drivers (cfg ∷ cfgs) = do
  options ← marshal cfg.options
  p ← new_plugin drivers cfg.name options
  ps ← plugins_from_plugin_configs marshal drivers cfgs
  value (p ∷ ps)
