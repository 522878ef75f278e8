-- ===== src/CiAuth/Bearer.antt =====
-- `extractBearerToken` of internal/ciauth/oidc.go.
use zipstash.Base.{
  ◌≡◌, refl, ◌∙◌, List, [], ◌∷◌, ◌++◌, Text, codes, if◌then◌else◌, Result, ok, err, message,
  has_prefix, has_prefix-append, inl, inr, Bool-cases,
}
use zipstash.GoStd.Words.{
  split_word, contains_word, trim_space, split_word-absent, split_word-present, split_word-leading,
  IsUnspaced, trim_space-word,
}

abbrev pub bearer : Text
bearer = codes "Bearer"

-- exactly two parts
second_of_two : List Text → Result Text
second_of_two (_ ∷ token ∷ []) = ok (trim_space token)
second_of_two [] = err (message "malformed token")
second_of_two (_ ∷ []) = err (message "malformed token")
second_of_two (_ ∷ _ ∷ _ ∷ _) = err (message "malformed token")

-- The argument is the value of the header Authorization, empty if there is none.
unfoldable pub extract_bearer_token : Text → Result Text
unfolding second_of_two
extract_bearer_token req_token = second_of_two (split_word req_token bearer)

-- fmt.Sprintf("Bearer %s", token), which the client sends.
unfoldable pub bearer_header : Text → Text
bearer_header token = bearer ++ 32 ∷ token

contains-space : (token : Text) → contains_word (32 ∷ token) bearer ≡ contains_word token bearer
unfolding contains_word has_prefix codes
contains-space token = refl

split_header :
    (token : Text) → split_word (bearer_header token) bearer ≡ [] ∷ split_word (32 ∷ token) bearer
unfolding bearer_header codes
split_header token =
    split_word-leading 66 (codes "earer") (32 ∷ token) (has_prefix-append bearer (32 ∷ token))

-- The server reads the token that a client sends, or calls the header malformed if the word "Bearer"
-- stands anywhere in the token, which must hold no white space.
pub extract_bearer_token-bearer_header :
    (token : Text)
    → IsUnspaced token
    → extract_bearer_token (bearer_header token)
      ≡ (if contains_word token bearer then err (message "malformed token") else ok token)
unfolding extract_bearer_token second_of_two
extract_bearer_token-bearer_header token h = elim (Bool-cases (contains_word token bearer)) [
  | inl has ↦
      let (p, q, ps, e) = split_word-present (32 ∷ token) bearer (contains-space token ∙ has) in
      rw (split_header token, e, has) refl
  | inr lacks ↦
      rw
        (
          split_header token,
          split_word-absent (32 ∷ token) bearer (contains-space token ∙ lacks),
          lacks,
          trim_space-word token h,
        )
        refl
]
