-- ===== src/Model.antt =====
-- model/model.go and interaction/interaction.go, over datamodel/datamodel.go: the data store of the
-- interaction model, as far as it is written.
pub mod DataModel
use go_matter.Base.{ℕ, Option, none, some, Result, ok, err, ◌>>=◌}
use go_matter.Base.Bytes.{Bytes}
use go_matter.Session.Manager.{SessionManager}
use go_matter.Tlv.Encoder.{Value}
use go_matter.Model.DataModel.{Node, Endpoint, Cluster}

pub data Error : Type 0 where
  endpoint_not_found cluster_not_found : Error

-- `Fabric`
pub record Fabric : Type 0 where
  pub id : ℕ
  pub label : Bytes

pub record DataStore : Type 0 where
  pub node : Node

-- `NewDataStore`
unfoldable pub new_data_store : DataStore
new_data_store = record { node = record { endpoints = λ id. none } }

-- `v, ok := m[key]; if !ok { return err }`
abbrev pub found {ℓ} : {A : Type ℓ} → Error → Option A → Result Error A
found e none = err e
found e (some a) = ok a

-- `DataStore.ReadAttribute`; none is the nil that it returns for now.
unfoldable pub read_attribute :
    DataStore → (endpoint cluster attribute : ℕ) → Result Error (Option Value)
read_attribute ds endpoint_id cluster_id attribute_id = do
  endpoint ← found endpoint_not_found (ds.node.endpoints endpoint_id)
  cluster ← found cluster_not_found (endpoint.clusters cluster_id)
  ok none

-- `DataStore.WriteAttribute`: the store afterwards, and the error.
unfoldable pub write_attribute :
    DataStore
    → (endpoint cluster attribute : ℕ) → Option Value
    → DataStore × Result Error (Unit {0})
write_attribute ds endpoint_id cluster_id attribute_id value = (
  ds,
  do
    endpoint ← found endpoint_not_found (ds.node.endpoints endpoint_id)
    cluster ← found cluster_not_found (endpoint.clusters cluster_id)
    ok tt,
)

-- The interface `AttributeStore` of interaction.go.
pub record AttributeStore (S : Type 0) : Type 0 where
  pub read : S → (endpoint cluster attribute : ℕ) → Result Error (Option Value)
  pub write : S → (endpoint cluster attribute : ℕ) → Option Value → S × Result Error (Unit {0})

-- `var _ interaction.AttributeStore = (*DataStore)(nil)`
abbrev pub attribute_store : AttributeStore DataStore
attribute_store = record { read = read_attribute; write = write_attribute }
