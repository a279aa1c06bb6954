-- ===== src/Database/Observer.antt =====
-- What of a client the operations of postgres/ and mariadb/ use: the name of the database and the
-- observer, which is the operations that it has been shown, the latest first. `E` is the type of the
-- driver's errors.
use stdlib_lab.Prelude.{List, Option, [], Text, text_eqb, if◌then◌else◌}
use stdlib_lab.Observability.{Operation}

pub record Client (E : Type 0) : Type 0 where
  pub db_name : Text
  pub observer : Option (List (Operation E))

abbrev pub or_db_name : {E : Type 0} → Client E → Text → Text
or_db_name p resource = if text_eqb resource [] then p.db_name else resource
