-- ===== src/Sigv4.antt =====
-- pkg/sigv4: the HTTP transport of the admin client, which signs each request for API Gateway.
use zipstash.Base.{
  ◌≡◌, ◌⊎◌, inl, inr, ap, sym, ◌∙◌, [], Option, none, some, Text, Result, ok, err, Err, Io, reads,
  ◌>>=◌, run_bind, run_reads,
}
use zipstash.GoStd.Encoding.{hex_encode}

-- io.ReadCloser: what it can be read to, with the error in place of its end, and the error of Close.
pub data ReadCloser : Type 0 where
  nil_body no_body : ReadCloser
  stream : (bytes : Text) → (failure : Option Err) → (close_failure : Option Err) → ReadCloser

-- what io.Copy reads
unfoldable pub bytes_of : ReadCloser → Text
bytes_of nil_body = []
bytes_of no_body = []
bytes_of (stream bytes _ _) = bytes

-- io.NopCloser of a reader of bytes
abbrev pub reader_of : Text → ReadCloser
reader_of bytes = stream bytes none none

unfoldable pub copy_body : ReadCloser → Result (ReadCloser × ReadCloser)
copy_body nil_body = ok (no_body, no_body)
copy_body no_body = ok (no_body, no_body)
copy_body (stream bytes (some e) _) = err e
copy_body (stream bytes none (some e)) = err e
copy_body (stream bytes none none) = ok (reader_of bytes, reader_of bytes)

-- aws, its signer and the transport below; `Head` is a request without its body. `sha256` is the
-- digest.
pub record Signing : Type 1 where
  pub World : Type 0
  pub Head : Type 0
  pub Credentials : Type 0
  pub Response : Type 0
  pub service_name : Text
  pub region : Text
  pub sha256 : Text → Text
  pub retrieve : Io World Credentials
  pub sign_http : Credentials → Head → ReadCloser → Text → Text → Text → Io World Head
  pub transport : Head → ReadCloser → Io World Response

ok_pair :
    {a b c d : ReadCloser}
    → ◌≡◌ {A = Result (ReadCloser × ReadCloser)} (ok (a, b)) (ok (c, d))
    → (a ≡ c) × (b ≡ d)
ok_pair h = (cc, cc)

module _ (t : Signing) where
  unfoldable pub generate_payload_hash : ReadCloser → Text
  generate_payload_hash body = hex_encode (t.sha256 (bytes_of body))

  unfoldable pub round_trip : t.Head → ReadCloser → Io t.World t.Response
  round_trip head body = do
    copies ← reads (λ _. copy_body body)
    creds ← t.retrieve
    signed ←
        t.sign_http creds head copies.0 (generate_payload_hash copies.1) t.service_name t.region
    t.transport signed copies.0

  -- The body that was sent, whole, with the signature for the hash of its bytes.
  pub record IsSigned (head : t.Head) (body : ReadCloser) (resp : t.Response) (w w' : t.World)
      : Type 0 where
    pub sent : ReadCloser
    pub creds : t.Credentials
    pub signed : t.Head
    pub creds_world : t.World
    pub signed_world : t.World
    pub whole : (sent ≡ no_body) ⊎ (sent ≡ reader_of (bytes_of body))
    pub same_bytes : bytes_of sent ≡ bytes_of body
    pub retrieves : t.retrieve w ≡ (ok creds, creds_world)
    pub signs :
        t.sign_http creds head sent
          (hex_encode (t.sha256 (bytes_of body)))
          t.service_name
          t.region
          creds_world
        ≡ (ok signed, signed_world)
    pub sends : t.transport signed sent signed_world ≡ (ok resp, w')

  -- both copies
  copy_body_same :
      (body : ReadCloser) {sent hashed : ReadCloser}
      → copy_body body ≡ ok (sent, hashed)
      → ((sent ≡ no_body) ⊎ (sent ≡ reader_of (bytes_of body)))
        × (bytes_of sent ≡ bytes_of body)
        × (bytes_of hashed ≡ bytes_of body)
  unfolding copy_body bytes_of
  copy_body_same nil_body {sent} {hashed} h =
      let (a, b) = ok_pair h in (inl (sym a), ap bytes_of (sym a), ap bytes_of (sym b))
  copy_body_same no_body {sent} {hashed} h =
      let (a, b) = ok_pair h in (inl (sym a), ap bytes_of (sym a), ap bytes_of (sym b))
  copy_body_same (stream bytes (some e) c) h = cc
  copy_body_same (stream bytes none (some e)) h = cc
  copy_body_same (stream bytes none none) {sent} {hashed} h =
      let (a, b) = ok_pair h in (inr (sym a), ap bytes_of (sym a), ap bytes_of (sym b))

  -- A request that was answered was sent with the bytes of its body, which can be read again to
  -- their end, and was signed for the hash of these bytes.
  pub round_trip-IsSigned :
      (head : t.Head) (body : ReadCloser) (w : t.World) {resp : t.Response} {w' : t.World}
      → round_trip head body w ≡ (ok resp, w')
      → IsSigned head body resp w w'
  unfolding round_trip generate_payload_hash
  round_trip-IsSigned head body w h = run_reads _ _ h λ copies e1 h1.
      run_bind _ _ h1 λ creds v e2 h2. run_bind _ _ h2 λ signed u e3 h3.
        let (whole, same, hashed) = copy_body_same body e1 in
        record {
          sent = copies.0;
          creds = creds;
          signed = signed;
          creds_world = v;
          signed_world = u;
          whole = whole;
          same_bytes = same;
          retrieves = e2;
          signs =
              ap
                (λ b.
                  t.sign_http creds head copies.0 (hex_encode (t.sha256 b)) t.service_name t.region
                    v)
                (sym hashed)
              ∙ e3;
          sends = h3;
        }
