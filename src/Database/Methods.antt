-- ===== src/Database/Methods.antt =====
-- The methods of the interface `QueryBuilder` that give a builder, the same in postgres/interface.go and
-- mariadb/interface.go, as data.
use stdlib_lab.Prelude.{ℤ, List, Text}

pub data Method (V : Type 0) : Type 0 where
  select where_by or_by not_by having : V → List V → Method V
  joins left_join right_join preload raw : Text → List V → Method V
  group table : Text → Method V
  order model : V → Method V
  limit offset : ℤ → Method V
  distinct scopes : List V → Method V
  unscoped : Method V
  for_update for_share for_update_skip_locked for_share_skip_locked : Method V
  for_update_no_wait for_no_key_update for_key_share : Method V
  on_conflict : V → Method V
  returning : List Text → Method V
  clauses : List V → Method V
