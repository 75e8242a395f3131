-- ===== src/Db/Error.antt =====
-- The errors that db/ returns, without the text that they carry.
pub data Error : Type 0 where
  -- db.go
  closed empty_key transaction_closed read_only_transaction write_transaction_active : Error
  -- table.go; `unsupported_row` and `unsupported_schema` wrap ErrUnsupportedRelationalFormat
  table_exists table_not_found duplicate_primary invalid_schema invalid_row : Error
  unsupported_row unsupported_schema : Error
  -- index.go
  index_exists index_not_found duplicate_indexed row_not_found : Error
  -- transaction_table.go
  foreign_transaction_table : Error
  -- applyBatchLocked on the zero Database
  not_initialized : Error
  -- an error of the durable engine other than its ErrClosed
  engine : Error
