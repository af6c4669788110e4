-- ===== src/Config/Getters.antt =====
-- config/config.go: what is read of a configuration, besides its image; and config_helpers.go.
use theo_forge.Prelude.{Bool, Text}
use theo_forge.Config.Global.{GlobalConfig, new}

unfoldable pub get_namespace : GlobalConfig → Text
get_namespace g = g.namespace

unfoldable pub get_host : GlobalConfig → Text
get_host g = g.host

unfoldable pub get_token : GlobalConfig → Text
get_token g = g.token

unfoldable pub get_service_account_name : GlobalConfig → Text
get_service_account_name g = g.service_account_name

unfoldable pub get_image_pull_policy : GlobalConfig → Text
get_image_pull_policy g = g.image_pull_policy

unfoldable pub get_verify_ssl : GlobalConfig → Bool
get_verify_ssl g = g.verify_ssl

unfoldable pub new_config : GlobalConfig
new_config = new
