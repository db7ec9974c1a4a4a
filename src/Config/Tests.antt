-- ===== src/Config/Tests.antt =====
-- internal/config/config.go: runs at concrete inputs.
use atlas_bridge.Base.{◌≡◌, refl, [], ◌∷◌, some, if◌then◌else◌, ok, err}
use atlas_bridge.Base.Text.{codes, ◌=ᵇ◌, trim_space, trim_right}
use atlas_bridge.Base.Decimal.{pos}
use atlas_bridge.Config.{
  Process, Config, with_secrets, content, not_exist, empty_secret, env, merge, merge_into, secret,
  load, settings,
}
use atlas_bridge.Config.Load.{IsUsable, load-IsUsable}

-- Nothing set; the token's file holds 32 characters, no key's file.
abbrev fresh : Process
fresh = record {
  getenv = λ name. [];
  read_file = λ path.
      if path =ᵇ codes "/run/secrets/bridge-token"
      then content (codes " 0123456789abcdef0123456789abcdef ")
      else not_exist;
  parse_duration = λ t. some (pos 45000000000);
  format_duration = λ n. codes "45s";
}

abbrev no_token : Process
no_token = record fresh { read_file = λ path. content (codes " ") }

empty_token_test : load no_token ≡ err (empty_secret (codes "ATLAS_BRIDGE_TOKEN_FILE"))
unfolding load settings secret env trim_space trim_right
empty_token_test = refl

merge_test :
    merge ((codes "a" ∷ codes "b" ∷ []) ∷ (codes "b" ∷ codes "c" ∷ []) ∷ [])
    ≡ (codes "a" ∷ codes "b" ∷ codes "c" ∷ [])
unfolding merge merge_into
merge_test = refl

abbrev loaded : Config
loaded = with_secrets (settings fresh) (codes "0123456789abcdef0123456789abcdef") []

fresh_loads : load fresh ≡ ok loaded
unfolding load settings secret env trim_space trim_right
fresh_loads = refl

load-IsUsable_example : IsUsable loaded
load-IsUsable_example = load-IsUsable fresh fresh_loads
