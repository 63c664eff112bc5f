-- ===== src/Plugins/Registered.antt =====
-- `RegisterPlugin`, `NewPlugin` and `PluginsFromPluginConfigs` of crawling/plugin.go: which plugins
-- come of which drivers.
use ipfs_crawler.Prelude.{
  String, ◌≡◌, ◌≢◌, subst, inl, inr, List, [], ◌∷◌, none, some, text_dec, arith, Option-cases,
}
use ipfs_crawler.Panic.{ok}
use ipfs_crawler.Result.{Result, value, error, >>=-eq-value, value-injective}
use ipfs_crawler.Config.{PluginConfig}
use ipfs_crawler.GoMap.{lookup, insert}
use ipfs_crawler.GoMap.Laws.{lookup-insert}
use ipfs_crawler.Worker.{Plugin}
use ipfs_crawler.Plugins.{Driver, Drivers, register_plugin, new_plugin, plugins_from_plugin_configs}

-- `RegisterPlugin` of a driver, under a name that is not blank and not taken, goes through.
-- `NewPlugin` then makes its plugins of this name by that driver, and those of every other name as
-- before.
pub register_plugin-new_plugin :
    (name : String) (d : Driver) (drivers : Drivers)
    → name ≢ ""
    → lookup text_dec name drivers ≡ none
    → (drivers' : Drivers) × (register_plugin name (some d) drivers ≡ ok drivers')
      × ((options : String) → new_plugin drivers' name options ≡ d.new_impl options)
      × ((other options : String)
          → name ≢ other
          → new_plugin drivers' other options ≡ new_plugin drivers other options)
unfolding register_plugin new_plugin
register_plugin-new_plugin name d drivers named free = (
  insert text_dec name d drivers,
  ground arith,
  λ options. ground (arith, lookup-insert text_dec name name d drivers),
  λ other options apart. ground (arith, lookup-insert text_dec other name d drivers),
)

-- Each plugin is what the driver of its configuration made of the options.
abbrev pub AreMade : (String → Result String) → Drivers → List PluginConfig → List Plugin → Type 0
AreMade marshal drivers [] [] = Unit {0}
AreMade marshal drivers [] (p ∷ ps) = ⊥
AreMade marshal drivers (cfg ∷ cfgs) [] = ⊥
AreMade marshal drivers (cfg ∷ cfgs) (p ∷ ps) =
    ((options : String) × (d : Driver) × (marshal cfg.options ≡ value options)
      × (lookup text_dec cfg.name drivers ≡ some d)
      × (d.new_impl options ≡ value p))
    × AreMade marshal drivers cfgs ps

new_plugin-value :
    (drivers : Drivers) (name options : String) (p : Plugin)
    → new_plugin drivers name options ≡ value p
    → (d : Driver) × (lookup text_dec name drivers ≡ some d) × (d.new_impl options ≡ value p)
unfolding new_plugin
new_plugin-value drivers name options p e = elim (Option-cases (lookup text_dec name drivers)) [
  | inl q ↦ absurd (let f : error _ ≡ value p = rw (q, new_plugin) at e in cc)
  | inr (d, q) ↦ (d, q, rw (q, new_plugin) at e)
]

-- If `PluginsFromPluginConfigs` returns plugins, there is one for each configuration, in order, made
-- by the driver that is registered under its name from its options.
pub plugins_from_plugin_configs-AreMade :
    (marshal : String → Result String) (drivers : Drivers) (cfgs : List PluginConfig)
    (ps : List Plugin)
    → plugins_from_plugin_configs marshal drivers cfgs ≡ value ps
    → AreMade marshal drivers cfgs ps
unfolding plugins_from_plugin_configs
plugins_from_plugin_configs-AreMade marshal drivers [] ps e =
    subst (AreMade marshal drivers []) (value-injective e) tt
plugins_from_plugin_configs-AreMade marshal drivers (cfg ∷ cfgs) ps e =
    let (options, m, e₁) = >>=-eq-value (marshal cfg.options) _ e in
    let (p, n, e₂) = >>=-eq-value (new_plugin drivers cfg.name options) _ e₁ in
    let (rest, r, e₃) = >>=-eq-value (plugins_from_plugin_configs marshal drivers cfgs) _ e₂ in
    let (d, l, made) = new_plugin-value drivers cfg.name options p n in
    subst (AreMade marshal drivers (cfg ∷ cfgs)) (value-injective e₃)
      ((options, d, m, l, made), plugins_from_plugin_configs-AreMade marshal drivers cfgs rest r)
