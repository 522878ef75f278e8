-- ===== src/Tokens/Minted.antt =====
-- Where a token that GetToken returned came from.
use zipstash.Base.{
  ◌≡◌, ◌≢◌, ◌⊎◌, inl, inr, refl, ap, sym, ◌∙◌, [], ◌∷◌, ◌++◌, ◌==◌, ==_iff, Text, codes, text_eq,
  text_eq→eq, ok, err, Err, map_err-eq-ok, run_call, run_lookup, run_reads, run_pure, reads-eq-ok,
  Bool-cases,
}
use zipstash.GoStd.Words.{trim_space}
use zipstash.Tokens.{
  CommandResult, Exit, succeeded, exit_error, not_run, Execution, Response, System,
  request_url_name, request_token_name, agent_command, max_body_size, read_limited, command_result,
  required, run_command, buildkite_token, with_audience, token_of, github_token, local_token,
  get_token,
}

module _ (s : System) where
  -- GitHub answered 200 to the request that the environment names, for the audience.
  pub record IsGithubs (audience token : Text) (w w' : s.World) : Type 0 where
    pub u : s.Url
    pub resp : Response
    pub body : Text
    pub has_url : s.getenv request_url_name w ≢ []
    pub has_token : s.getenv request_token_name w ≢ []
    pub parses : s.parse_url (s.getenv request_url_name w) ≡ ok u
    pub answers :
        s.do_get
          (s.url_string (with_audience s u audience))
          (codes "Bearer " ++ s.getenv request_token_name w)
          w
        ≡ (ok resp, w')
    pub succeeds : resp.status_code ≡ 200
    pub reads_body : read_limited max_body_size resp.body ≡ ok body
    pub has_value : s.value_of_json (trim_space body) ≡ ok token

  -- The agent was run for the audience and exited with 0.
  pub record IsAgents (audience token : Text) (w w' : s.World) : Type 0 where
    pub x : Execution
    pub runs : s.exec [] (agent_command audience) w ≡ (x, w')
    pub exits : (x.exit ≡ succeeded) ⊎ (x.exit ≡ exit_error 0)
    pub printed : token ≡ trim_space x.stdout

  -- By the source: there are three.
  pub data IsMinted (source audience token : Text) (w w' : s.World) : Type 0 where
    from_github :
        source ≡ codes "github_actions"
        → IsGithubs audience token w w'
        → IsMinted source audience token w w'
    from_agent :
        source ≡ codes "buildkite"
        → IsAgents audience token w w'
        → IsMinted source audience token w w'
    from_here :
        source ≡ codes "local"
        → token ≡ codes "abc123cde456"
        → w' ≡ w
        → IsMinted source audience token w w'

  required-eq-ok : (e : Err) (t : Text) {v : Text} → required e t ≡ ok v → (t ≡ v) × (t ≢ [])
  unfolding required
  required-eq-ok e [] h = cc
  required-eq-ok e (c ∷ t) h = (cc, λ q. cc)

  token_of-eq-ok :
      (resp : Response) (body : Text) {token : Text}
      → token_of s resp body ≡ ok token
      → (resp.status_code ≡ 200) × (s.value_of_json body ≡ ok token)
  unfolding token_of
  token_of-eq-ok resp body h = elim (Bool-cases (resp.status_code == 200)) [
    | inl good ↦ (
      (==_iff resp.status_code 200).0 good,
      map_err-eq-ok _ (s.value_of_json body) (rw good at h),
    )
    | inr bad ↦ absurd (let e : err _ ≡ ok _ = rw bad at h in cc)
  ]

  github_token-IsGithubs :
      (audience : Text) (w : s.World) {token : Text} {w' : s.World}
      → github_token s audience w ≡ (ok token, w')
      → IsGithubs audience token w w'
  unfolding github_token
  github_token-IsGithubs audience w {token} {w'} h = run_reads _ _ h λ url e1 h1.
      run_reads _ _ h1 λ secret e2 h2. run_lookup _ _ _ h2 λ u e3 h3. run_lookup _ _ _ h3 λ _ _ h4.
        run_call _ _ _ h4 λ resp v e5 h5. run_lookup _ _ _ h5 λ body e6 h6.
          let (same_url, some_url) = required-eq-ok _ (s.getenv request_url_name w) e1 in
          let (same_secret, some_secret) = required-eq-ok _ (s.getenv request_token_name w) e2 in
          let (value, still) = reads-eq-ok (λ _. token_of s resp (trim_space body)) h6 in
          let (status, json) = token_of-eq-ok resp (trim_space body) value in
          record {
            u = u;
            resp = resp;
            body = body;
            has_url = some_url;
            has_token = some_secret;
            parses = ap s.parse_url same_url ∙ e3;
            answers =
                ap
                  (λ t.
                    s.do_get (s.url_string (with_audience s u audience)) (codes "Bearer " ++ t) w)
                  same_secret
                ∙ e5
                ∙ ap (λ x. (ok resp, x)) still;
            succeeds = status;
            reads_body = e6;
            has_value = json;
          }

  command_result-eq-ok :
      (x : Execution) (e : Exit) {r : CommandResult}
      → command_result x e ≡ ok r
      → r.exit_code ≡ 0
      → (r.stdout ≡ x.stdout) × ((e ≡ succeeded) ⊎ (e ≡ exit_error 0))
  unfolding command_result
  command_result-eq-ok x succeeded h z = (cc, inl refl)
  command_result-eq-ok x (exit_error code) {r} h z =
      let same : code ≡ r.exit_code = cc in (cc, inr (ap exit_error (same ∙ z)))
  command_result-eq-ok x (not_run e) h z = cc

  buildkite_token-IsAgents :
      (audience : Text) (w : s.World) {token : Text} {w' : s.World}
      → buildkite_token s audience w ≡ (ok token, w')
      → IsAgents audience token w w'
  unfolding buildkite_token run_command
  buildkite_token-IsAgents audience w {token} {w'} h = run_call _ _ _ h λ result v e h1.
      let (checked, still) = reads-eq-ok _ h1 in
      let x = (s.exec [] (agent_command audience) w).0 in
      let made : command_result x x.exit ≡ ok result = ap (λ p. p.0) e in
      elim (Bool-cases (result.exit_code == 0)) [
        | inl zero_code ↦
            let (out, exit) =
              command_result-eq-ok x x.exit made ((==_iff result.exit_code 0).0 zero_code) in
            let printed : ok (trim_space result.stdout) ≡ ok token = rw zero_code at checked in
            let same : trim_space result.stdout ≡ token = cc in
            record {
              x = x;
              runs = λ i. (x, (ap (λ p. p.1) e ∙ still) i);
              exits = exit;
              printed = sym same ∙ ap trim_space out;
            }
        | inr bad ↦ absurd (let e : err _ ≡ ok token = rw bad at checked in cc)
      ]

  -- A token that GetToken returned is, by its source, the value of an answer 200 from the URL and
  -- with the token that GitHub Actions puts in the environment, what the Buildkite agent printed
  -- when it exited with 0, or the constant of a local run; there is no other source.
  pub get_token-IsMinted :
      (source audience : Text) (w : s.World) {token : Text} {w' : s.World}
      → get_token s source audience w ≡ (ok token, w')
      → IsMinted source audience token w w'
  unfolding get_token local_token
  get_token-IsMinted source audience w h =
      elim (Bool-cases (text_eq source (codes "github_actions"))) [
        | inl a ↦
            from_github (text_eq→eq source (codes "github_actions") a)
              (github_token-IsGithubs audience w (rw a at h))
        | inr a ↦ elim (Bool-cases (text_eq source (codes "buildkite"))) [
          | inl b ↦
              from_agent (text_eq→eq source (codes "buildkite") b)
                (buildkite_token-IsAgents audience w (rw (a, b) at h))
          | inr b ↦ elim (Bool-cases (text_eq source (codes "local"))) [
            | inl c ↦
                let (same, still) = run_pure (codes "abc123cde456") (rw (a, b, c) at h) in
                from_here (text_eq→eq source (codes "local") c) (sym same) (sym still)
            | inr c ↦ absurd (let e : (err _, w) ≡ (ok _, _) = rw (a, b, c) at h in cc)
          ]
        ]
      ]
