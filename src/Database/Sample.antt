-- ===== src/Database/Sample.antt =====
-- A small GORM, whose queries are the calls that made them and whose world counts the requests.
use stdlib_lab.Prelude.{
  ℕ, suc, nat_eqb, pos, List, [], ◌∷◌, ◌++◌, none, some, Text, codes, text_eqb, if◌then◌else◌,
}
use stdlib_lab.Database.Gorm.{Call, Gorm}

-- The first request succeeds, and the others find the database busy. `conflict` is a clause expression.
abbrev pub sample_gorm : Gorm Text Text (List (Call Text Text)) Text ℕ
sample_gorm = record {
  connection = λ w. [];
  chain = λ db call. db ++ (call ∷ []);
  finish = λ finisher db w. (
    record {
      error = if nat_eqb w 0 then none else some (codes "busy");
      rows_affected = pos 1;
      table = some (codes "users");
      counted = pos 7;
    },
    suc w,
  );
  table_of = λ db. some (codes "users");
  as_value = λ s. s;
  as_on_conflict = λ s. if text_eqb s (codes "conflict") then some s else none;
  as_expression = λ s. some s;
}
