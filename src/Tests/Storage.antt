-- ===== src/Tests/Storage.antt =====
-- The token store at a concrete input: there is no Secret yet.
use ai_cloud_operator.Base.{[], none, ErrorKind, ErrorKind-discrete, leaf, is_kind, err, ◌≡◌, refl}
use ai_cloud_operator.Operator.World.{Tokens}
use ai_cloud_operator.TokenStore.{Env, save}
use ai_cloud_operator.TokenStore.Saving.{Saved, save-Saved}

abbrev tokens : Tokens
tokens = record {
  heartbeat_token = "h";
  deploy_token = "d";
  catalog_hash = "c";
  operator_version = "v1";
  tags_fingerprint = "t";
}

abbrev env : Env
env = record {
  get_secret = λ t. err (leaf ErrorKind.not_found "not found");
  create_secret = λ t secret. none;
  update_secret = λ t secret. none;
}

saves : (save env tokens []).0 ≡ none
unfolding save is_kind ErrorKind-discrete
saves = refl

save-Saved_example : Saved env tokens [] (save env tokens []).1
save-Saved_example = save-Saved env tokens [] saves
