-- ===== src/Jwt/Keys.antt =====
-- libs/jwt/keysutils.go: the keys under which tokens and node data stand, for a program's name.
pub mod Apart
use top_lib.Prelude.{String, ◌++◌}
use top_lib.Prelude.Split.{Text, codes}

-- The functions of the file: what a key is for.
pub data Kind : Type 0 where
  admin_token : Kind
  user_token : Kind
  node_user_token : Kind
  node_access : Kind
  node_mode : Kind

abbrev pub middle : Kind → Text
middle admin_token = codes ":admin:token:"
middle user_token = codes ":user:token:"
middle node_user_token = codes ":node:token:"
middle node_access = codes ":node:access:"
middle node_mode = codes ":node:mode:"

-- fmt.Sprintf("%s…%s", appName, id)
unfoldable pub key : (app_name : Text) → Kind → Text → Text
key app_name kind id = app_name ++ (middle kind ++ id)
