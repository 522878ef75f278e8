-- ===== src/Store/Table.antt =====
-- internal/index/dynamodb.go: MustNewStore and the table that it makes for a local DynamoDB.
use zipstash.Base.{
  ℕ, ◌≡◌, refl, ap, ◌∙◌, Bool, true, false, List, [], ◌∷◌, ◌++◌, map, some, Text, text_eq, codes,
  if◌then◌else◌, ◌⊎◌, inl, inr, Bool-cases, Result, ok, err, crash, Err, wrap, Io, pure, ◌>>◌,
  run_bind,
}
use zipstash.Index.{CacheRecord, TenantRecord}
use zipstash.Backend.{ReadOptions}
use zipstash.Backend.Laws.{Row, attribute}
use zipstash.Store.{by_created, by_tenant_key, cache_options, tenant_options}

pub data KeyType : Type 0 where
  hash range : KeyType

pub record KeySchemaElement : Type 0 where
  pub attribute_name : Text
  pub key_type : KeyType

pub record SecondaryIndex : Type 0 where
  pub index_name : Text
  pub key_schema : List KeySchemaElement

-- All attributes are of type S, the indexes have all attributes of the table, and the capacities and
-- the encryption are fixed.
pub record CreateTableInput : Type 0 where
  pub table_name : Text
  pub key_schema : List KeySchemaElement
  pub local_secondary_indexes : List SecondaryIndex
  pub global_secondary_indexes : List SecondaryIndex
  pub attribute_definitions : List Text

-- The client of DynamoDB; `is_in_use` tests for a ResourceInUseException down the chain.
pub record TableClient : Type 1 where
  pub World : Type 0
  pub create_table : CreateTableInput → Io World (Unit {0})
  pub wait_for_table : Text → ℕ → Io World (Unit {0})
  pub update_time_to_live : Text → Text → Bool → Io World (Unit {0})
  pub is_in_use : Err → Bool

pub record StoreConfig : Type 0 where
  pub cache_index_table : Text
  pub create : Bool

abbrev pub keys_of : Text → Text → List KeySchemaElement
keys_of h r =
    record { attribute_name = h; key_type = hash }
    ∷ record { attribute_name = r; key_type = range }
    ∷ []

unfoldable pub table_params : Text → CreateTableInput
table_params name = record {
  table_name = name;
  key_schema = keys_of (codes "id") (codes "name");
  local_secondary_indexes =
      record {
        index_name = codes "idx_created";
        key_schema = keys_of (codes "id") (codes "created");
      }
      ∷ [];
  global_secondary_indexes =
      record { index_name = codes "idx_global_1"; key_schema = keys_of (codes "pk1") (codes "sk1") }
      ∷ [];
  attribute_definitions =
      codes "id" ∷ codes "name" ∷ codes "created" ∷ codes "pk1" ∷ codes "sk1" ∷ [];
}

module _ (c : TableClient) where
  after_create_table : Text → Result (Unit {0}) × c.World → Result (Unit {0}) × c.World
  after_create_table name (ok _, w) =
      (c.wait_for_table name 10 >> c.update_time_to_live name (codes "expires") true) w
  after_create_table name (err e, w) =
      if c.is_in_use e then (ok tt, w) else (err (wrap "failed to create table" e), w)
  after_create_table name (crash x, w) = (crash x, w)

  unfoldable pub create_table : Text → Io c.World (Unit {0})
  unfolding after_create_table
  create_table name = λ w. after_create_table name (c.create_table (table_params name) w)

  -- An error ends the process.
  unfoldable pub must_new_store : StoreConfig → Io c.World (Unit {0})
  must_new_store config = if config.create then create_table config.cache_index_table else pure tt

-- The element is in the list.
abbrev IsIn : {A : Type 0} → A → List A → Type 0
IsIn a [] = ⊥
IsIn a (b ∷ l) = (a ≡ b) ⊎ IsIn a l

-- The index that the options name is one of the table, with the two attributes as its key, and both
-- are defined.
pub record Answers (t : CreateTableInput) (o : ReadOptions) : Type 0 where
  pub index : SecondaryIndex
  pub there : IsIn index (t.local_secondary_indexes ++ t.global_secondary_indexes)
  pub named : index.index_name ≡ o.index
  pub keys : ◌≡◌ {A = List KeySchemaElement} index.key_schema (
      record { attribute_name = o.partition_attribute; key_type = hash }
      ∷ record { attribute_name = o.sort_attribute; key_type = range }
      ∷ [])
  pub partition : IsIn o.partition_attribute t.attribute_definitions
  pub sorted : IsIn o.sort_attribute t.attribute_definitions

-- The defined attributes are the key of the table and those that PutCache and PutTenant write.
abbrev IsFilled : CreateTableInput → Type 0
IsFilled t =
    (created : Text) (r : CacheRecord) (s : TenantRecord) (l : ℕ)
    → (t.attribute_definitions
        ≡ codes "id" ∷ codes "name" ∷ map (λ f. f.0) (cache_options created r l).extra_fields)
      × (t.attribute_definitions
          ≡ codes "id" ∷ codes "name" ∷ map (λ f. f.0) (tenant_options created s).extra_fields)

-- The table has the given name, and its key is the pair under which a row is kept.
pub record IsKeyed (t : CreateTableInput) (name : Text) : Type 0 where
  pub partition_key : Text
  pub sort_key : Text
  pub same_name : t.table_name ≡ name
  pub key : ◌≡◌ {A = List KeySchemaElement} t.key_schema (
      record { attribute_name = partition_key; key_type = hash }
      ∷ record { attribute_name = sort_key; key_type = range }
      ∷ [])
  pub of_cache :
      (p k : Text) (row : Row CacheRecord)
      → (attribute p k row partition_key ≡ some p) × (attribute p k row sort_key ≡ some k)
  pub of_tenant :
      (p k : Text) (row : Row TenantRecord)
      → (attribute p k row partition_key ≡ some p) × (attribute p k row sort_key ≡ some k)

-- The table was made under the given name, it was waited for, and its records expire.
pub record IsMade (c : TableClient) (name : Text) (w w' : c.World) : Type 0 where
  pub input : CreateTableInput
  pub keyed : IsKeyed input name
  pub made : c.World
  pub waited : c.World
  pub creates : c.create_table input w ≡ (ok tt, made)
  pub waits : c.wait_for_table name 10 made ≡ (ok tt, waited)
  pub expires : c.update_time_to_live name (codes "expires") true waited ≡ (ok tt, w')
  pub for_fallbacks : Answers input by_created
  pub for_tenants : Answers input by_tenant_key
  pub filled : IsFilled input

-- The table was there, and nothing was done to it.
pub record WasThere (c : TableClient) (name : Text) (w w' : c.World) : Type 0 where
  pub input : CreateTableInput
  pub same_name : input.table_name ≡ name
  pub error : Err
  pub refused : c.create_table input w ≡ (err error, w')
  pub in_use : c.is_in_use error ≡ true

table_params-IsKeyed : (name : Text) → IsKeyed (table_params name) name
unfolding table_params attribute text_eq codes
table_params-IsKeyed name = record {
  partition_key = codes "id";
  sort_key = codes "name";
  same_name = refl;
  key = refl;
  of_cache = λ p k row. (refl, refl);
  of_tenant = λ p k row. (refl, refl);
}

by_created-Answers : (name : Text) → Answers (table_params name) by_created
unfolding table_params
by_created-Answers name = record {
  index = _;
  there = inl refl;
  named = refl;
  keys = refl;
  partition = inl refl;
  sorted = inr (inr (inl refl));
}

by_tenant_key-Answers : (name : Text) → Answers (table_params name) by_tenant_key
unfolding table_params
by_tenant_key-Answers name = record {
  index = _;
  there = inr (inl refl);
  named = refl;
  keys = refl;
  partition = inr (inr (inr (inl refl)));
  sorted = inr (inr (inr (inr (inl refl))));
}

table_params-IsFilled : (name : Text) → IsFilled (table_params name)
unfolding table_params
table_params-IsFilled name created r s l = (refl, refl)

module _ (c : TableClient) (name : Text) (w w' : c.World) where
  after_cases :
      (r : Result (Unit {0}) × c.World)
      → c.create_table (table_params name) w ≡ r
      → after_create_table c name r ≡ (ok tt, w')
      → IsMade c name w w' ⊎ WasThere c name w w'
  unfolding table_params after_create_table
  after_cases (ok _, v) e h = inl (
      run_bind _ _ h λ _ u waits expires. record {
        input = table_params name;
        keyed = table_params-IsKeyed name;
        made = v;
        waited = u;
        creates = e;
        waits = waits;
        expires = expires;
        for_fallbacks = by_created-Answers name;
        for_tenants = by_tenant_key-Answers name;
        filled = table_params-IsFilled name;
      })
  after_cases (err x, v) e h = elim (Bool-cases (c.is_in_use x)) [
    | inl used ↦
        let f : (ok tt, v) ≡ (ok tt, w') = rw used at h in
        inr (record {
          input = table_params name;
          same_name = refl;
          error = x;
          refused = e ∙ ap (λ u. (err x, u)) (ap (λ p. p.1) f);
          in_use = used;
        })
    | inr free ↦
        absurd
          (let f : (err (wrap "failed to create table" x), v) ≡ (ok tt, w') = rw free at h in cc)
  ]
  after_cases (crash x, v) e h = cc

-- If the start of the store does not end the process, then it was not asked for a table and did
-- nothing, or it made one of the configured name, which is keyed by the pair under which the rows are
-- kept, has each index that the store reads, with the attributes that the store writes, and whose
-- records expire, or there was one of that name, which is left as it is.
pub must_new_store_ready :
    (c : TableClient) (config : StoreConfig) (w w' : c.World)
    → must_new_store c config w ≡ (ok tt, w')
    → ((config.create ≡ false) × (w ≡ w'))
      ⊎ IsMade c config.cache_index_table w w'
      ⊎ WasThere c config.cache_index_table w w'
unfolding must_new_store create_table pure
must_new_store_ready c config w w' h = elim (Bool-cases config.create) [
  | inl asked ↦ inr (after_cases c config.cache_index_table w w' _ refl (rw asked at h))
  | inr not ↦ inl (not, ap (λ p. p.1) (rw not at h))
]
