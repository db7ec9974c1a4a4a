-- ===== src/Config.antt =====
-- internal/config/config.go: the settings from environment variables and secret files. The process
-- environment is a function, with the empty text for a variable that is not set; reading a file gives
-- its content or an error; time.ParseDuration is a parameter, in nanoseconds.
pub mod Merge
pub mod Load
mod Tests
use atlas_bridge.Base.{
  ℕ, ◌*◌, ◌^◌, Bool, true, false, ◌&&◌, ◌||◌, not, List, [], ◌∷◌, ◌++◌, Option, none, some, ltb,
  ◌==◌, if◌then◌else◌, length, map, Result, ok, err, ◌>>=◌, String, any, concat,
}
use atlas_bridge.Base.Text.{Bytes, codes, ◌=ᵇ◌, trim_space, trim_right, split}
use atlas_bridge.Base.Decimal.{ℤ, pos, negsuc, parse_int, format_nat}

pub data FileContent : Type 0 where
  content : Bytes → FileContent
  not_exist unreadable : FileContent

pub data ConfigError : Type 0 where
  unread_secret empty_secret : Bytes → ConfigError
  short_token no_public_base_url : ConfigError

-- What the process runs in.
pub record Process : Type 0 where
  pub getenv : Bytes → Bytes
  pub read_file : Bytes → FileContent
  pub parse_duration : Bytes → Option ℤ
  pub format_duration : ℕ → Bytes

pub record Config : Type 0 where
  pub listen_address : Bytes
  pub public_base_url : Bytes
  pub data_path : Bytes
  pub bridge_token : Bytes
  pub anna_key : Bytes
  pub anna_mirrors : List Bytes
  pub anna_origins : List Bytes
  pub libgen_mirrors : List Bytes
  pub libgen_origins : List Bytes
  pub metadata_limit : ℕ
  pub download_limit : ℕ
  pub request_timeout : ℕ
  pub catalogue_jsonl : Bytes
  pub catalogue_zstd : Bytes
  pub catalogue_files_zstd : Bytes
  pub catalogue_torrent : Bytes
  pub catalogue_torrent_path : Bytes
  pub catalogue_files_torrent : Bytes
  pub catalogue_files_torrent_path : Bytes
  pub catalogue_max_expanded : ℕ
  pub catalogue_payload_limit : ℕ
  pub transmission_rpc : Bytes

-- strings.TrimRight(s, "/")
abbrev pub trim_slashes : Bytes → Bytes
trim_slashes = trim_right (λ c. c == b'/')

unfoldable pub env : Process → Bytes → Bytes → Bytes
unfolding trim_space
env p name fallback = let v = trim_space (p.getenv name) in if v =ᵇ [] then fallback else v

-- The loop of `list` over the parts.
unfoldable pub clean_parts : List Bytes → List Bytes
unfolding trim_space trim_right
clean_parts [] = []
clean_parts (v ∷ vs) =
    let x = trim_space v in
    let rest = clean_parts vs in if x =ᵇ [] then rest else trim_slashes x ∷ rest

unfoldable pub list : Process → Bytes → Bytes → List Bytes
unfolding env clean_parts split
list p name fallback = clean_parts (split b',' (env p name fallback))

abbrev pub is_member : Bytes → List Bytes → Bool
is_member v = any (λ w. w =ᵇ v)

-- The loops of `merge`, with the map `seen` as the list of its keys, which is `out`.
unfoldable pub merge_into : List Bytes → List Bytes → List Bytes
merge_into out [] = out
merge_into out (v ∷ vs) = merge_into (if is_member v out then out else out ++ v ∷ []) vs

unfoldable pub merge : List (List Bytes) → List Bytes
unfolding merge_into
merge groups = merge_into [] (concat groups)

-- `err != nil || value <= 0`
abbrev pub positive_or : ℕ → Option ℤ → ℕ
positive_or fallback (some (pos n)) = if ltb 0 n then n else fallback
positive_or fallback (some (negsuc n)) = fallback
positive_or fallback none = fallback

unfoldable pub int_env : Process → Bytes → ℕ → ℕ
unfolding env parse_int format_nat
int_env p name fallback = positive_or fallback (parse_int (env p name (format_nat fallback)))

unfoldable pub duration_env : Process → Bytes → ℕ → ℕ
unfolding env
duration_env p name fallback =
    positive_or fallback (p.parse_duration (env p name (p.format_duration fallback)))

abbrev pub secret_of : Bytes → Bool → FileContent → Result ConfigError Bytes
secret_of name required not_exist = if required then err (unread_secret name) else ok []
secret_of name required unreadable = err (unread_secret name)
secret_of name required (content bytes) =
    let value = trim_space bytes in
    if required && (value =ᵇ []) then err (empty_secret name) else ok value

unfoldable pub secret : Process → Bytes → Bytes → Bool → Result ConfigError Bytes
unfolding env trim_space
secret p name fallback required = secret_of name required (p.read_file (env p name fallback))

abbrev pub second : ℕ
second = 1000000000

-- The literal of `Load`, the two secrets left empty.
unfoldable pub settings : Process → Config
unfolding env list merge int_env duration_env
settings p =
    let anna_mirrors =
      list p (codes "ATLAS_ANNA_MIRRORS")
        (codes "https://annas-archive.gd,https://annas-archive.gl,https://annas-archive.pk") in
    let libgen_mirrors =
      list p (codes "ATLAS_LIBGEN_MIRRORS")
        (codes "https://libgen.gl,https://libgen.bz,https://libgen.la,https://libgen.vg") in
    let anna_extra =
      list p (codes "ATLAS_ANNA_EXTRA_ORIGINS") (codes "https://download.booksdl.org") in
    let libgen_extra = list p (codes "ATLAS_LIBGEN_EXTRA_ORIGINS") (
      codes
        "https://library.lol,https://download.booksdl.org,https://cdn1.booksdl.lc,https://cdn2.booksdl.lc,https://cdn3.booksdl.lc") in
    record {
      listen_address = env p (codes "ATLAS_BRIDGE_LISTEN") (codes ":8080");
      public_base_url =
          trim_slashes
            (env p (codes "ATLAS_BRIDGE_PUBLIC_BASE_URL") (codes "http://atlas-bridge:8080"));
      data_path = env p (codes "ATLAS_BRIDGE_DATA") (codes "/data/cache.db");
      bridge_token = [];
      anna_key = [];
      anna_mirrors = anna_mirrors;
      anna_origins = merge (anna_mirrors ∷ anna_extra ∷ []);
      libgen_mirrors = libgen_mirrors;
      libgen_origins = merge (libgen_mirrors ∷ libgen_extra ∷ []);
      metadata_limit = int_env p (codes "ATLAS_BRIDGE_METADATA_LIMIT") (10 * 2 ^ 20);
      download_limit = int_env p (codes "ATLAS_BRIDGE_DOWNLOAD_LIMIT") (512 * 2 ^ 20);
      request_timeout = duration_env p (codes "ATLAS_BRIDGE_REQUEST_TIMEOUT") (45 * second);
      catalogue_jsonl = env p (codes "ATLAS_BRIDGE_CATALOGUE_JSONL") [];
      catalogue_zstd = env p (codes "ATLAS_BRIDGE_CATALOGUE_ZSTD") [];
      catalogue_files_zstd = env p (codes "ATLAS_BRIDGE_CATALOGUE_FILES_ZSTD") [];
      catalogue_torrent = env p (codes "ATLAS_BRIDGE_CATALOGUE_TORRENT") [];
      catalogue_torrent_path = env p (codes "ATLAS_BRIDGE_CATALOGUE_TORRENT_PATH") [];
      catalogue_files_torrent = env p (codes "ATLAS_BRIDGE_CATALOGUE_FILES_TORRENT") [];
      catalogue_files_torrent_path = env p (codes "ATLAS_BRIDGE_CATALOGUE_FILES_TORRENT_PATH") [];
      catalogue_max_expanded =
          int_env p (codes "ATLAS_BRIDGE_CATALOGUE_MAX_EXPANDED") (50 * 2 ^ 30);
      catalogue_payload_limit =
          int_env p (codes "ATLAS_BRIDGE_CATALOGUE_PAYLOAD_LIMIT") (4 * 2 ^ 30);
      transmission_rpc =
          env p (codes "ATLAS_TRANSMISSION_RPC")
            (codes "http://transmission:9091/transmission/rpc");
    }

abbrev pub with_secrets : Config → Bytes → Bytes → Config
with_secrets c token key = record c { bridge_token = token; anna_key = key }

-- The checks at the end of `Load`.
abbrev pub checked : Config → Result ConfigError Config
checked c =
    if ltb (length c.bridge_token) 32
    then err short_token
    else if c.public_base_url =ᵇ []
    then err no_public_base_url
    else ok c

unfoldable pub load : Process → Result ConfigError Config
unfolding settings secret
load p =
    secret p (codes "ATLAS_BRIDGE_TOKEN_FILE") (codes "/run/secrets/bridge-token") true >>= λ token.
    secret p (codes "ATLAS_ANNA_KEY_FILE") (codes "/run/secrets/anna-key") false >>= λ key.
    checked (with_secrets (settings p) token key)
