-- ===== src/Catalog/Registry.antt =====
-- internal/catalog/registry.go: the fixed list of templates, and the lookups.
use ai_cloud_operator.Base.{String, List, [], ◌∷◌, Option, none, some, ◌==◌, if◌then◌else◌}
use ai_cloud_operator.Catalog.Types.{Library}
use ai_cloud_operator.Catalog.Backup.{Operation}
use ai_cloud_operator.Catalog.Template.{Template}
use ai_cloud_operator.Catalog.Nginx.{nginx}
use ai_cloud_operator.Catalog.Desktop.{firefox, chrome, webtop}

unfoldable pub templates : Library → List Template
templates lib = nginx lib ∷ firefox ∷ chrome ∷ webtop ∷ []

unfoldable pub find_template : String → List Template → Option Template
find_template id [] = none
find_template id (t ∷ ts) = if t.id == id then some t else find_template id ts

unfoldable pub get : Library → String → Option Template
unfolding templates find_template
get lib id = find_template id (templates lib)

unfoldable pub find_operation : String → List Operation → Option Operation
find_operation key [] = none
find_operation key (op ∷ ops) = if op.key == key then some op else find_operation key ops

unfoldable pub get_operation : Template → String → Option Operation
unfolding find_operation
get_operation t key = find_operation key t.operations
