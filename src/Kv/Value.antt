-- ===== src/Kv/Value.antt =====
-- The values of a row (Go's `any`), the column types and the schema of kv/table.go.
use go_db.Base.{ℕ, Bool, Option, List, Bytes}
use go_db.Base.Int.{ℤ}
use go_db.Base.Assoc.{Assoc}

-- A float64 is its 64 bits, a `time.Time` its nanoseconds. `parameter` is the `parameterValue` of
-- sql/sql.go, which stands for a value in a prepared statement.
pub data Value : Type 0 where
  null : Value
  int : ℤ → Value
  text : Bytes → Value
  boolean : Bool → Value
  float : ℕ → Value
  blob : Bytes → Value
  timestamp : ℤ → Value
  parameter : ℕ → Value

-- What the program uses of float64, over the bits.
pub record Floats : Type 0 where
  -- `strconv.ParseFloat(s, 64)`, `none` where it fails
  pub parse_float : Bytes → Option ℕ
  -- `float64(i)`, `int(f)`
  pub of_int : ℤ → ℕ
  pub to_int : ℕ → ℤ
  pub less : ℕ → ℕ → Bool
  pub plus : ℕ → ℕ → ℕ
  pub divide : ℕ → ℕ → ℕ
  pub zero_bits : ℕ

pub data ColumnType : Type 0 where
  int_type string_type bool_type float_type bytes_type timestamp_type : ColumnType

pub record Column : Type 0 where
  pub name : Bytes
  pub kind : ColumnType

pub record Reference : Type 0 where
  pub table : Bytes
  pub column : Bytes

pub record ColumnConstraint : Type 0 where
  pub not_null : Bool
  pub unique : Bool
  pub references : Option Reference

pub record Schema : Type 0 where
  pub columns : List Column
  pub constraints : Assoc ColumnConstraint

abbrev pub Row : Type 0
Row = Assoc Value
