-- ===== src/Witnesses/Table.antt =====
-- A store that makes its table on an empty local DynamoDB.
use zipstash.Base.{◌≡◌, ◌⊎◌, refl, true, false, List, [], ◌∷◌, Text, codes, ok, ◌>>=◌}
use zipstash.Store.Table.{
  TableClient, StoreConfig, table_params, create_table, must_new_store, IsMade, WasThere,
  must_new_store_ready,
}

abbrev name : Text
name = codes "index"

-- The world is the list of the names of tables, then those of the attributes that expire.
abbrev client : TableClient
client = record {
  World = List Text × List Text;
  create_table = λ input w. (ok tt, (input.table_name ∷ w.0, w.1));
  wait_for_table = λ name seconds w. (ok tt, w);
  update_time_to_live = λ name attribute enabled w. (ok tt, (w.0, attribute ∷ w.1));
  is_in_use = λ e. false;
}

abbrev before : List Text × List Text
before = ([], [])

abbrev after : List Text × List Text
after = (name ∷ [], codes "expires" ∷ [])

abbrev config : StoreConfig
config = record { cache_index_table = name; create = true }

made : must_new_store client config before ≡ (ok tt, after)
unfolding must_new_store create_table table_params ◌>>=◌
made = refl

must_new_store_ready_example :
    ((true ≡ false) × (before ≡ after))
    ⊎ IsMade client name before after
    ⊎ WasThere client name before after
must_new_store_ready_example = must_new_store_ready client config before after made
