-- ===== src/Mysql/Query/Untraced.antt =====
-- The methods of mysql/sql.go with a gin context, before trace.Init has made a tracer.
use motor.Base.{ℕ, Text, Dict, ◌≡◌, refl, Option, none, some, List, []}
use motor.Base.Outcome.{panicked}
use motor.Mysql.Conn.{Db}
use motor.Trace.{TJaeger, Stored, trace_ctx}
use motor.Mysql.Query.{
  Library, Run, with_span, method, get_list, insert, update, named_query, wrapped, get_row,
}

-- The call panics and has done nothing.
abbrev pub IsLost : {X V S A : Type 0} → Run X V S A → Type 0
IsLost run = run ≡ (panicked, [])

module _ (C : Type 0) {W V S E D X : Type 0} (lib : Library W V S E D) (c : Dict (Stored X))
    (db : Db) (dur : ℕ) where
  -- With a gin context and no tracer every method panics before it sends a statement, whatever the
  -- context holds.
  methods-IsLost :
      (where_ values : W) (fields : List Text) (rows : List W) (query : Text)
      → let tracer : Option (TJaeger C) = none in
        IsLost (get_list lib tracer (some c) db dur where_ fields)
        × IsLost (get_row lib tracer (some c) db dur where_ fields)
        × IsLost (insert lib tracer (some c) db dur rows)
        × IsLost (update lib tracer (some c) db dur where_ values)
        × IsLost (named_query lib tracer (some c) db dur query values)
  unfolding get_list get_row insert update named_query method with_span trace_ctx wrapped
  methods-IsLost where_ values fields rows query = (refl, refl, refl, refl, refl)
