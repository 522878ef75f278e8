-- ===== src/Keys.antt =====
-- internal/server/server.go: provider names, escaped values and the key of a cache entry; the index
-- values that internal/server/rpc_cache.go and internal/index/index.go join with "#".
pub mod CacheKey
pub mod Created
use zipstash.Base.{ℕ, List, [], ◌∷◌, ◌++◌, Text, codes}
use zipstash.GoStd.Strings.{join}
use zipstash.GoStd.CleanPath.{join_path}
use zipstash.GoStd.Query.{query_escape}

-- api/gen: providerv1.Provider. A number that the enum does not name is `unknown`.
pub data Provider : Type 0 where
  unspecified github_actions gitlab buildkite : Provider
  unknown : ℕ → Provider

-- The names of internal/ciauth/oidc.go.
abbrev pub unspecified_name : Text
unspecified_name = codes "unspecified"

abbrev pub buildkite_name : Text
buildkite_name = codes "buildkite"

abbrev pub github_actions_name : Text
github_actions_name = codes "github_actions"

abbrev pub gitlab_name : Text
gitlab_name = codes "gitlab"

unfoldable pub from_provider_v1 : Provider → Text
from_provider_v1 github_actions = github_actions_name
from_provider_v1 gitlab = gitlab_name
from_provider_v1 buildkite = buildkite_name
from_provider_v1 unspecified = unspecified_name
from_provider_v1 (unknown _) = unspecified_name

unfoldable pub escape_value : Text → Text
escape_value v = query_escape v

unfoldable pub build_cache_key : Text → Text → Text → Text → Text → Text
build_cache_key owner provider os arch key = join_path (owner ∷ provider ∷ os ∷ arch ∷ key ∷ [])

abbrev pub hash : ℕ
hash = 35

-- index.TenantKey
unfoldable pub tenant_key : Text → Text → Text
tenant_key provider owner = provider ++ hash ∷ owner

-- The `created` value of a record, as CreateEntry and UpdateEntry join it.
unfoldable pub created_value : Text → Text → Text → Text → Text → Text → Text → Text
created_value owner provider os arch name branch now =
    join (owner ∷ provider ∷ os ∷ arch ∷ name ∷ escape_value branch ∷ now ∷ []) hash

-- The prefix by which existsWithFallback looks for it; the empty last part makes it end in "#".
unfoldable pub created_prefix : Text → Text → Text → Text → Text → Text → Text
created_prefix owner provider os arch name fallback_branch =
    join (owner ∷ provider ∷ os ∷ arch ∷ name ∷ escape_value fallback_branch ∷ [] ∷ []) hash
