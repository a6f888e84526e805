-- ===== src/Model/DataModel.antt =====
-- datamodel/datamodel.go. A map is a function to an option; no entry of a map of pointers is nil.
use go_matter.Base.{ℕ, Bool, List, Option}
use go_matter.Tlv.Encoder.{Value}

pub record Attribute : Type 0 where
  pub id : ℕ
  pub type : Value
  pub writable : Bool
  pub readable : Bool

pub record Command : Type 0 where
  pub id : ℕ
  pub direction : ℕ

pub record Cluster : Type 0 where
  pub id : ℕ
  pub attributes : ℕ → Option Attribute
  pub commands : ℕ → Option Command

pub record Endpoint : Type 0 where
  pub id : ℕ
  pub device_types : List ℕ
  pub clusters : ℕ → Option Cluster

pub record Node : Type 0 where
  pub endpoints : ℕ → Option Endpoint
