-- ===== src/Skydb/Value.antt =====
-- The values that pkg/server/skydb/record.go stores in an `interface{}`, and the identifiers they hold.
-- An `int64` and a `float64` are their bit patterns, a `time.Time` is a number of nanoseconds.
use skygear_server.Common.{ℕ, String, Bool, Option}
use skygear_server.Common.Dict.{Dict}
use skygear_server.Skydb.Acl.{RecordAcl}

pub record RecordId : Type 0 where
  pub type : String
  pub key : String

-- The URL signer of the source's struct is not part of the value.
pub record Asset : Type 0 where
  pub name : String
  pub content_type : String
  pub size : ℕ
  pub public : Bool

mutual
  pub data Value : Type 0 where
    null : Value
    boolean : Bool → Value
    int64 : ℕ → Value
    float64 : ℕ → Value
    text : String → Value
    time : ℕ → Value
    asset : Asset → Value
    reference : RecordId → Value
    location : ℕ → ℕ → Value
    sequence : Value
    unknown : String → Value
    geometry : Fields → Value
    dict : Fields → Value
    slice : Items → Value
    -- what `Record.Get` answers at the key `_access`; `none` is a nil list
    acl : Option RecordAcl → Value
    -- what `Record.Get` answers at the key `_transient`
    nil_transient : Value
    transient : Fields → Value

  pub data Items : Type 0 where
    nil : Items
    cons : Value → Items → Items

  pub data Fields : Type 0 where
    end : Fields
    field : String → Value → Fields → Fields

-- `type Data map[string]interface{}`
abbrev pub Data : Type 0
Data = Dict Value
