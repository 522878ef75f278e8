-- ===== src/Client/Convert.antt =====
-- The conversions of internal/commands/client/save.go, client.go and restore.go.
use zipstash.Base.{
  ◌≡◌, refl, sym, inl, inr, Bool-cases, text_eq→eq, Bool, true, false, List, [], ◌∷◌, map, Option,
  none, some, Text, codes, text_eq, if◌then◌else◌, Result, ok, err, message,
}
use zipstash.GoStd.Strings.{add_to_head}
use zipstash.GoStd.Words.{is_space}
use zipstash.Keys.{
  Provider, github_actions, gitlab, buildkite, unspecified, from_provider_v1, github_actions_name,
  gitlab_name, buildkite_name, unspecified_name,
}
use zipstash.Api
use zipstash.Transfer.Upload

unfoldable pub convert_provider_type_v1 : Text → Provider
convert_provider_type_v1 token_source =
    if text_eq token_source (codes "github_actions")
    then github_actions
    else if text_eq token_source (codes "buildkite")
    then buildkite
    else if text_eq token_source (codes "gitlab")
    then gitlab
    else unspecified

begins_word : Text → Bool
begins_word [] = false
begins_word (c ∷ _) = if is_space c then false else true

-- strings.Fields(s) for a text of ASCII
unfoldable pub fields : Text → List Text
unfolding begins_word
fields [] = []
fields (c ∷ s) =
    let rest = fields s in
    if is_space c then rest else if begins_word s then add_to_head c rest else (c ∷ []) ∷ rest

some_paths : List Text → Result (List Text)
some_paths [] = err (message "no paths provided")
some_paths (p ∷ ps) = ok (p ∷ ps)

unfoldable pub check_path : Text → Result (List Text)
unfolding some_paths
check_path path = some_paths (fields path)

to_offset : Option Api.Offset → Option Upload.Offset
to_offset none = none
to_offset (some o) = some (record { end = o.end; part = o.part; start = o.start })

to_upload_instruction : Api.CacheUploadInstruction → Upload.CacheUploadInstruction
to_upload_instruction i = record { method = i.method; offset = to_offset i.offset; url = i.url }

unfoldable pub to_upload_instructions :
    List Api.CacheUploadInstruction → List Upload.CacheUploadInstruction
unfolding to_upload_instruction to_offset
to_upload_instructions = map to_upload_instruction

to_etag : Upload.CachePartETag → Api.CachePartETag
to_etag e = record { etag = e.etag; part = e.part; part_size = e.part_size }

unfoldable pub to_etags_v1 : List Upload.CachePartETag → List Api.CachePartETag
unfolding to_etag
to_etags_v1 = map to_etag

-- The server reads the provider that a client names by its token source as that name, and every
-- other token source as "unspecified".
pub from_provider_v1-convert_provider_type_v1 :
    (token_source : Text)
    → from_provider_v1 (convert_provider_type_v1 token_source) ≡ (
        if text_eq token_source github_actions_name
        then token_source
        else if text_eq token_source buildkite_name
        then token_source
        else if text_eq token_source gitlab_name
        then token_source
        else unspecified_name)
unfolding from_provider_v1 convert_provider_type_v1
from_provider_v1-convert_provider_type_v1 token_source =
    elim (Bool-cases (text_eq token_source github_actions_name)) [
      | inl a ↦ rw a (sym (text_eq→eq token_source github_actions_name a))
      | inr a ↦ elim (Bool-cases (text_eq token_source buildkite_name)) [
        | inl b ↦ rw (a, b) (sym (text_eq→eq token_source buildkite_name b))
        | inr b ↦ elim (Bool-cases (text_eq token_source gitlab_name)) [
          | inl c ↦ rw (a, b, c) (sym (text_eq→eq token_source gitlab_name c))
          | inr c ↦ rw (a, b, c) refl
        ]
      ]
    ]
