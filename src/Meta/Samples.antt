-- ===== src/Meta/Samples.antt =====
-- Keys of internal/workloadmeta for two ways to write one app.
use orch.Prelude.{String, ◌≡◌, refl, inl, inr}
use orch.Prelude.Text.{trim_space}
use orch.Prelude.GoMap
use orch.Deploy.Document.{Metadata}
use orch.Deploy.Names.{name_re}
use orch.Meta.{namespace_or_default, assignment_key, deploy_app_map_key}
use orch.Meta.Keys.{IsNamed, deploy_app_map_key-injective, assignment_key-injective}

abbrev shop : Metadata
shop = record { name = "shop"; namespace = ""; labels = GoMap.nil; annotations = GoMap.nil }

abbrev shop_spelled_out : Metadata
shop_spelled_out = record shop { namespace = "default" }

shop-IsNamed : IsNamed shop
unfolding name_re
shop-IsNamed = record { name = refl; namespace = inl refl }

shop_spelled_out-IsNamed : IsNamed shop_spelled_out
unfolding name_re
shop_spelled_out-IsNamed = record { name = refl; namespace = inr refl }

deploy_app_map_key-injective_example :
    (namespace_or_default shop.namespace ≡ namespace_or_default shop_spelled_out.namespace)
    × (shop.name ≡ shop_spelled_out.name)
unfolding deploy_app_map_key namespace_or_default trim_space
deploy_app_map_key-injective_example =
    deploy_app_map_key-injective shop shop_spelled_out shop-IsNamed shop_spelled_out-IsNamed refl

assignment_key-injective_example :
    (namespace_or_default shop.namespace ≡ namespace_or_default shop_spelled_out.namespace)
    × (shop.name ≡ shop_spelled_out.name)
    × (◌≡◌ {A = String} "web-1" "web-1")
unfolding assignment_key namespace_or_default trim_space name_re
assignment_key-injective_example =
    assignment_key-injective shop shop_spelled_out "web-1" "web-1" shop-IsNamed
      shop_spelled_out-IsNamed refl refl refl
