-- ===== src/Store/Index.antt =====
-- A table by identifier and the index of its names, as internal/api/store/mem.go keeps for users,
-- API keys, reserved subdomains and custom domains.
use trqsh.Prelude.{String, ◌≡◌, Option, none, some, string_eq, arith, eq_iff}
use trqsh.Prelude.Dict.{Dict, get, put, delete, empty, get-put, get-delete, get-empty}

module _ {V : Type 0} (name : V → String) where
  abbrev pub name_of : Option V → Option String
  name_of none = none
  name_of (some v) = some (name v)

  -- Each map is the inverse of the other, so that a name has one holder at most.
  pub record IsIndexed (table : Dict String V) (names : Dict String String) : Type 0 where
    pub names_of_table :
        (id : String) (v : V) → get table id ≡ some v → get names (name v) ≡ some id
    pub table_of_names : (n id : String) → get names n ≡ some id → name_of (get table id) ≡ some n

  pub empty-IsIndexed : IsIndexed empty empty
  empty-IsIndexed = record {
    names_of_table = λ id v h. ground (arith, get-empty {V = V} id);
    table_of_names = λ n id h. ground (arith, get-empty {V = String} n);
  }

  module _ (table : Dict String V) (names : Dict String String) where
    -- A new row under an unused identifier and an unused name.
    pub put-IsIndexed :
        (id n : String) (v : V)
        → name v ≡ n
        → get table id ≡ none
        → get names n ≡ none
        → IsIndexed table names
        → IsIndexed (put table id v) (put names n id)
    put-IsIndexed id n v e unused free x = record {
      names_of_table = λ j w h. ground (
        arith,
        x.names_of_table j w,
        get-put table id j v,
        get-put names n (name w) id,
        eq_iff id j,
        eq_iff n (name w),
      );
      table_of_names = λ p j h. ground (
        arith,
        x.table_of_names p j,
        get-put table id j v,
        get-put names n p id,
        eq_iff id j,
        eq_iff n p,
      );
    }

    -- A row is written again under its identifier, with the name that it had.
    pub update-IsIndexed :
        (id : String) (old v : V)
        → get table id ≡ some old
        → name v ≡ name old
        → IsIndexed table names
        → IsIndexed (put table id v) names
    update-IsIndexed id old v held e x = record {
      names_of_table = λ j w h.
          ground (
            arith,
            x.names_of_table j w,
            x.names_of_table id old,
            get-put table id j v,
            eq_iff id j,
          );
      table_of_names =
          λ p j h. ground (arith, x.table_of_names p j, get-put table id j v, eq_iff id j);
    }

    -- A row goes together with its name.
    pub delete-IsIndexed :
        (id : String) (v : V)
        → get table id ≡ some v
        → IsIndexed table names
        → IsIndexed (delete table id) (delete names (name v))
    delete-IsIndexed id v held x = record {
      names_of_table = λ j w h. ground (
        arith,
        x.names_of_table j w,
        x.names_of_table id v,
        get-delete table id j,
        get-delete names (name v) (name w),
        eq_iff id j,
        eq_iff (name v) (name w),
      );
      table_of_names = λ p j h. ground (
        arith,
        x.table_of_names p j,
        x.names_of_table id v,
        get-delete table id j,
        get-delete names (name v) p,
        eq_iff id j,
        eq_iff (name v) p,
      );
    }
