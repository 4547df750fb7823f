-- ===== src/Meta/Store/Encoding.antt =====
-- services/meta/data.go: marshal, unmarshal, MarshalBinary and UnmarshalBinary of `Data`. The bytes are a
-- type that influxdb's encoding of its `meta.Data` and encoding/json share.
use chronus.Base.{
  ℕ, ◌≡◌, refl, Bool, true, false, List, Option, none, some, String, Option-cases, inl, inr,
}
use chronus.Meta.Types.{NodeInfo, DatabaseInfo}
use chronus.Meta.Store.Types.{MetaData}

-- The embedded `meta.Data` of influxdb.
pub record InfluxData (X : Type 0) : Type 0 where
  pub index : ℕ
  pub databases : List DatabaseInfo
  pub max_shard_group_id : ℕ
  pub max_shard_id : ℕ
  pub rest : X

pub record DataJson (B : Type 0) : Type 0 where
  pub data_ : B
  pub meta_nodes : List NodeInfo
  pub data_nodes : List NodeInfo
  pub max_node_id : ℕ
  pub freezed_data_nodes : List ℕ

-- Influxdb's encoding of its part, for an order in which it walks maps, and encoding/json of a
-- DataJson. Unmarshalling tells whether there was no error.
pub record Encodings (X B : Type 0) : Type 0 where
  pub marshal_influx : String → InfluxData X → Option B
  pub unmarshal_influx : B → InfluxData X → Bool × InfluxData X
  pub marshal_json : DataJson B → Option B
  pub unmarshal_json : B → Option (DataJson B)

-- What these encode they give back, whatever the order of maps and what they decode onto.
pub record GivesBack {X B : Type 0} (encodings : Encodings X B) : Type 0 where
  pub influx :
      (order : String) (d d0 : InfluxData X) (b : B)
      → encodings.marshal_influx order d ≡ some b
      → encodings.unmarshal_influx b d0 ≡ (true, d)
  pub json :
      (js : DataJson B) (b : B)
      → encodings.marshal_json js ≡ some b
      → encodings.unmarshal_json b ≡ some js

-- `data.Data`.
unfoldable pub embedded : {X : Type 0} → MetaData X → InfluxData X
embedded d = record {
  index = d.own.index;
  databases = d.own.databases;
  max_shard_group_id = d.own.max_shard_group_id;
  max_shard_id = d.own.max_shard_id;
  rest = d.rest;
}

-- The metadata with another embedded part.
unfoldable pub with_embedded : {X : Type 0} → InfluxData X → MetaData X → MetaData X
with_embedded i d = record {
  own = record d.own {
    index = i.index;
    databases = i.databases;
    max_shard_group_id = i.max_shard_group_id;
    max_shard_id = i.max_shard_id;
  };
  rest = i.rest;
}

module _ {X B : Type 0} (encodings : Encodings X B) where
  unfoldable pub marshal : String → MetaData X → Option B
  marshal order d = elim (encodings.marshal_influx order (embedded d)) [
    | none ↦ none
    | some b ↦ encodings.marshal_json (record {
      data_ = b;
      meta_nodes = d.own.meta_nodes;
      data_nodes = d.own.data_nodes;
      max_node_id = d.own.max_node_id;
      freezed_data_nodes = d.own.freezed_data_nodes;
    })
  ]

  unfoldable pub unmarshal : B → MetaData X → Bool × MetaData X
  unmarshal buf d = elim (encodings.unmarshal_json buf) [
    | none ↦ (false, d)
    | some js ↦
        let d' = record d {
          own = record d.own {
            meta_nodes = js.meta_nodes;
            data_nodes = js.data_nodes;
            max_node_id = js.max_node_id;
            freezed_data_nodes = js.freezed_data_nodes;
          };
        } in
        let (fine, i) = encodings.unmarshal_influx js.data_ (embedded d') in
        (fine, with_embedded i d')
  ]

  unfoldable pub marshal_binary : String → MetaData X → Option B
  marshal_binary order d = marshal order d

  -- The error of unmarshal is dropped.
  unfoldable pub unmarshal_binary : B → MetaData X → MetaData X
  unmarshal_binary buf d = (unmarshal buf d).1

  -- UnmarshalBinary, onto any metadata, of what MarshalBinary gave for some metadata gives the latter,
  -- all fields of them, whatever the order in which maps were walked, if the encodings of influxdb's
  -- part and of JSON give back what they encode.
  pub unmarshal_binary-marshal_binary :
      (order : String) (d d0 : MetaData X) (b : B)
      → GivesBack encodings
      → marshal_binary order d ≡ some b
      → unmarshal_binary b d0 ≡ d
  unfolding marshal_binary unmarshal_binary marshal unmarshal embedded with_embedded
  unmarshal_binary-marshal_binary order d d0 b laws encodes =
      elim (Option-cases (encodings.marshal_influx order (embedded d))) [
        | inl fails ↦ cc (rw (marshal_binary, marshal, fails) at encodes)
        | inr (inner, gives) ↦
            rw
              (
                unmarshal_binary,
                unmarshal,
                laws.json _ b (rw (marshal_binary, marshal, gives) at encodes),
                laws.influx order (embedded d) _ inner gives,
              )
              refl
      ]

  -- Bytes that are no JSON leave the metadata as they are, and no error tells of it.
  unmarshal_binary_damaged :
      (b : B) (d : MetaData X) → encodings.unmarshal_json b ≡ none → unmarshal_binary b d ≡ d
  unfolding unmarshal_binary unmarshal
  unmarshal_binary_damaged b d damaged = rw (unmarshal_binary, unmarshal, damaged) refl
