-- ===== src/Backend/Laws.antt =====
-- What the server relies on: dynastorev2 keeps a table of rows, found by their keys and through the
-- indexes by their attributes. No law says that a call succeeds, and none that an
-- index has the last writes: where that matters, it is a hypothesis on the world, IsFollowed.
use zipstash.Base.{
  ◌≡◌, true, false, ◌&&◌, List, [], ◌∷◌, Option, none, some, Text, text_eq, codes, has_prefix,
  if◌then◌else◌, ok, err, Err, errors_is, key_not_exists,
}
use zipstash.Index.{CacheRecord, TenantRecord}
use zipstash.Backend.{
  Backend, Dynastore, WriteOptions, ReadOptions, CreateMultipartUploadInput,
  CompleteMultipartUploadInput,
}

-- A row of the table, under its partition and its sort key.
pub record Row (V : Type 0) : Type 0 where
  pub value : V
  pub extra_fields : List (Text × Text)

abbrev pub Rows : Type 0 → Type 0
Rows V = Text → Text → Option (Row V)

abbrev pub field : Text → List (Text × Text) → Option Text
field name [] = none
field name ((n, v) ∷ fields) = if text_eq n name then some v else field name fields

-- The value of an attribute: the table's own keys are "id" and "name".
unfoldable pub attribute : {V : Type 0} → Text → Text → Row V → Text → Option Text
attribute partition sort_key row name =
    if text_eq name (codes "id")
    then some partition
    else if text_eq name (codes "name")
    then some sort_key
    else field name row.extra_fields

-- The row is in the partition of the index, and its sort attribute begins with the prefix.
pub record IsMatch {V : Type 0} (partition prefix : Text) (o : ReadOptions) (p k : Text)
    (row : Row V) : Type 0 where
  pub sort_value : Text
  pub in_partition : attribute p k row o.partition_attribute ≡ some partition
  pub sorted_by : attribute p k row o.sort_attribute ≡ some sort_value
  pub begins : has_prefix sort_value prefix ≡ true

-- A row that a value was read from.
pub record Holds {V : Type 0} (rows : Rows V) (partition prefix : Text) (o : ReadOptions) (v : V)
    : Type 0 where
  pub p : Text
  pub k : Text
  pub row : Row V
  pub at : rows p k ≡ some row
  pub holds : row.value ≡ v
  pub matches : IsMatch partition prefix o p k row

module _ {World V : Type 0} (d : Dynastore World V) (rows : World → Rows V) where
  pub record IsLawfulStore : Type 0 where
    pub get_ok :
        (p k : Text) (w : World) {v : V}
        → d.get p k w ≡ ok v
        → (row : Row V) × (rows w p k ≡ some row) × (row.value ≡ v)
    pub get_missing :
        (p k : Text) (w : World) {e : Err}
        → d.get p k w ≡ err e
        → errors_is e key_not_exists ≡ true
        → rows w p k ≡ none
    pub create_ok :
        (p k : Text) (v : V) (o : WriteOptions) (w : World) {w' : World}
        → d.create p k v o w ≡ (ok tt, w')
        → (q l : Text)
        → rows w' q l ≡ (
            if text_eq p q && text_eq k l
            then some (record { value = v; extra_fields = o.extra_fields })
            else rows w q l)
    pub create_new :
        (p k : Text) (v : V) (o : WriteOptions) (w : World) {w' : World}
        → o.create_constraint_disabled ≡ false
        → d.create p k v o w ≡ (ok tt, w')
        → rows w p k ≡ none
    pub list_found :
        (p prefix : Text) (o : ReadOptions) (w : World) {v : V} {vs : List V}
        → d.list_by_sort_key_prefix p prefix o w ≡ ok (v ∷ vs)
        → Holds (rows w) p prefix o v

  -- The indexes follow the table at some time after a write, not at once: in this world they have.
  pub record IsFollowed (w : World) : Type 0 where
    pub list_none :
        (p prefix : Text) (o : ReadOptions)
        → d.list_by_sort_key_prefix p prefix o w ≡ ok []
        → (q l : Text) (row : Row V) → rows w q l ≡ some row
        → ¬ IsMatch p prefix o q l row

-- The two stores, and that S3 calls and a write through one store leave the rows of the other.
pub record IsLawful (b : Backend) : Type 0 where
  pub cache_rows : b.World → Rows CacheRecord
  pub tenant_rows : b.World → Rows TenantRecord
  pub cache_lawful : IsLawfulStore b.cache_store cache_rows
  pub tenant_lawful : IsLawfulStore b.tenant_store tenant_rows
  pub create_multipart_keeps :
      (i : CreateMultipartUploadInput) (w : b.World)
      → cache_rows (b.create_multipart_upload i w).1 ≡ cache_rows w
  pub complete_multipart_keeps :
      (i : CompleteMultipartUploadInput) (w : b.World)
      → cache_rows (b.complete_multipart_upload i w).1 ≡ cache_rows w
