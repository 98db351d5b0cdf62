-- ===== src/Config/Tests.antt =====
-- Configurations that are loaded at concrete values.
use bbdb.Base.{◌≡◌, refl, [], ◌∷◌, false, ok}
use bbdb.Config.Listing.{listing, unset}
use bbdb.Config.Defaults.{
  load, read_config, prepared, set_defaults, default_settings, IsLoaded, load_lem, default_config,
  load-default_config,
}

load_lem_example : IsLoaded listing false (b'f' ∷ []) (load listing false (b'f' ∷ []))
load_lem_example = load_lem listing false (b'f' ∷ [])

load-default_config_example : load unset false [] ≡ ok (default_config unset)
unfolding read_config prepared set_defaults default_settings
load-default_config_example = load-default_config unset false [] (prepared unset) refl (λ k. refl)
