-- ===== src/Witnesses/Bucket.antt =====
-- An S3 that keeps the texts of its objects. The ETag of a part is its number and its bytes.
use zipstash.Base.{
  ℕ, ◌≡◌, refl, sym, ap, ◌∙◌, List, [], ◌∷◌, ◌++◌, Option, none, some, Text, codes, length, Result,
  ok, err, message, text_eq, text_eq_refl, if◌then◌else◌, ◌==◌, Bool-cases, inl, inr,
}
use zipstash.Backend.{Backend, Dynastore, CompletedPart, HeadObjectOutput}
use zipstash.Client.S3.{ObjectStore, AreParts}

body : Text → Text
body [] = []
body (m ∷ c) = c

unfoldable pub join_parts : List CompletedPart → Text
unfolding body
join_parts [] = []
join_parts (p ∷ ps) = body p.etag ++ join_parts ps

unfoldable pub numbered_part : ℕ → Text → Option Text
numbered_part number [] = none
numbered_part number (m ∷ c) = if m == number then some c else none

unfoldable pub object_at : Text → List (Text × Text) → Option Text
object_at key [] = none
object_at key ((k, o) ∷ os) = let rest = object_at key os in if text_eq k key then some o else rest

unfoldable pub head_of : Option Text → Result HeadObjectOutput
head_of none = err (message "NotFound")
head_of (some o) = ok (record { content_length = some (length o); checksum_sha256 = none })

abbrev no_table : {V : Type 0} → Dynastore (List (Text × Text)) V
no_table = record {
  get = λ p k w. err (message "no no_table");
  create = λ p k v o w. (ok tt, w);
  delete = λ p k w. (ok tt, w);
  list_by_sort_key_prefix = λ p prefix o w. ok [];
}

-- The URL of a part names its number, that of an object put whole begins otherwise.
abbrev pub bucket_backend : Backend
bucket_backend = record {
  World = List (Text × Text);
  now = λ w. 0;
  format_rfc3339 = λ t. [];
  new_uuid = λ w. codes "upload-1";
  cache_store = no_table;
  tenant_store = no_table;
  presign_put_object = λ i t w. ok (b'=' ∷ i.key);
  presign_upload_part = λ i t w. ok (b'?' ∷ i.part_number ∷ i.key);
  presign_get_object = λ i t w. ok i.key;
  create_multipart_upload = λ i w. (ok (some (codes "part-upload-1")), w);
  complete_multipart_upload = λ i w. (ok tt, (i.key, join_parts i.parts) ∷ w);
  head_object = λ bucket key w. head_of (object_at key w);
}

numbered_part-body :
    (number : ℕ) (etag : Text) {c : Text} → numbered_part number etag ≡ some c → body etag ≡ c
unfolding numbered_part body
numbered_part-body number [] h = cc
numbered_part-body number (m ∷ c) {c = d} h = elim (Bool-cases (m == number)) [
  | inl same ↦ let e : some c ≡ some d = rw same at h in cc
  | inr other ↦ absurd (let e : none ≡ some d = rw other at h in cc)
]

pub join_parts-AreParts :
    (last : ℕ) (ps : List CompletedPart) (content : Text)
    → AreParts numbered_part last ps content
    → join_parts ps ≡ content
unfolding join_parts
join_parts-AreParts last [] content h = sym h
join_parts-AreParts last (p ∷ ps) content (chunk, rest, _, e, same, h) =
    let tail = join_parts-AreParts p.part_number ps rest h in
    let first = numbered_part-body p.part_number p.etag e in (λ i. first i ++ tail i) ∙ sym same

pub object_at_first :
    (key o : Text) (os : List (Text × Text)) → object_at key ((key, o) ∷ os) ≡ some o
unfolding object_at
object_at_first key o os = rw (text_eq_refl key) refl

pub head_size :
    (o : Option Text) {f : Text} {head : HeadObjectOutput}
    → head_of o ≡ ok head
    → o ≡ some f
    → head.content_length ≡ some (length f)
unfolding head_of
head_size none h e = cc
head_size (some o) {f} {head} h e =
    let same : o ≡ f = cc in
    let r : record { content_length = some (length o); checksum_sha256 = none } ≡ head = cc in
    ap (λ h. h.content_length) (sym r) ∙ ap (λ o. some (length o)) same

abbrev pub bucket_store : ObjectStore bucket_backend
bucket_store = record {
  object = λ w bucket key. object_at key w;
  part = λ w bucket key id number etag. numbered_part number etag;
  completes = λ i w content {w'} h q qs some_part parts.
      let same : (i.key, join_parts i.parts) ∷ w ≡ w' = ap (λ p. p.1) h in
      ap (object_at i.key) (sym same)
      ∙ object_at_first i.key (join_parts i.parts) w
      ∙ ap some (join_parts-AreParts 0 i.parts content parts);
  names_upload = λ i w h. (codes "part-upload-1", cc);
  heads = λ bucket key file w h at. head_size (object_at key w) h at;
  table_keeps = λ p k v o w h bucket key. ap (λ r. object_at key r.1) (sym h);
}
