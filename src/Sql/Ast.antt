-- ===== src/Sql/Ast.antt =====
-- The statements of sql/sql.go. A `Condition` of the source is either a comparison or a pair of
-- conditions with a `Logic`; nil is `none`.
use go_db.Base.{Bool, Option, List, Bytes}
use go_db.Base.Int.{ℤ}
use go_db.Base.Assoc.{Assoc}
use go_db.Kv.Value.{Value, Column, ColumnConstraint}

pub data Logic : Type 0 where
  and or : Logic

pub data Condition : Type 0 where
  -- column, operator, value
  comparison : Bytes → Bytes → Value → Condition
  both : Logic → Condition → Condition → Condition

pub record Select : Type 0 where
  pub columns : List Bytes
  pub table : Bytes
  pub condition : Option Condition
  pub order_by : Bytes
  pub desc : Bool
  pub limit : ℤ
  pub offset : ℤ
  pub group_by : List Bytes
  pub join_table : Bytes
  pub join_left : Bytes
  pub join_right : Bytes

pub record Insert : Type 0 where
  pub table : Bytes
  pub columns : List Bytes
  pub values : List Value

pub record CreateTable : Type 0 where
  pub table : Bytes
  pub columns : List Column
  pub constraints : Assoc ColumnConstraint

pub data AlterAction : Type 0 where
  add : Column → AlterAction
  drop : Bytes → AlterAction
  -- old name, new name
  rename : Bytes → Bytes → AlterAction

pub record Update : Type 0 where
  pub table : Bytes
  pub assignments : Assoc Value
  pub condition : Option Condition

pub record Delete : Type 0 where
  pub table : Bytes
  pub condition : Option Condition

pub data Statement : Type 0 where
  begin commit rollback list_tables : Statement
  explain : Statement → Statement
  explain_table : Bytes → Statement
  select : Select → Statement
  insert : Insert → Statement
  create_table : CreateTable → Statement
  drop_table : Bytes → Statement
  alter_table : Bytes → AlterAction → Statement
  update : Update → Statement
  delete : Delete → Statement
