-- ===== src/Exec/Keeps.antt =====
-- Invariants of actions: one rule for each way to build an action.
use convoy_backend.Base.{Bool, true, false, if◌then◌else◌}
use convoy_backend.Httpx.{Error}
use convoy_backend.Exec.{
  Result, ok, err, Exec, pure, raise, gets, attempt, map_err, refuse, continue, ◌>>=◌,
}

-- The action leads from the invariant to the invariant, on success and on error.
pub record Keeps {World Value : Type 0} (Inv : World → Type 0) (act : Exec World Value)
    : Type 0 where
  pub at : (w : World) → Inv w → Inv (act w).1

module _ {World : Type 0} {Inv : World → Type 0} where
  module _ {Value Next : Type 0} where
    Keeps-continue :
        (r : Result Value) (next : Value → Exec World Next)
        → ((v : Value) → Keeps Inv (next v))
        → Keeps Inv (continue r next)
    Keeps-continue (ok v) next rest = record { at = (rest v).at }
    Keeps-continue (err e) next rest = record { at = λ w inv. inv }

    pub Keeps->>= :
        (act : Exec World Value) (next : Value → Exec World Next)
        → Keeps Inv act
        → ((v : Value) → Keeps Inv (next v))
        → Keeps Inv (act >>= next)
    unfolding ◌>>=◌
    Keeps->>= act next first rest = record {
      at = λ w inv. (Keeps-continue (act w).0 next rest).at (act w).1 (first.at w inv);
    }

  module _ {Value : Type 0} where
    pub Keeps-map_err :
        (f : Error → Error) (act : Exec World Value) → Keeps Inv act → Keeps Inv (map_err f act)
    unfolding map_err
    Keeps-map_err f act kept = record { at = kept.at }

    pub Keeps-attempt : (act : Exec World Value) → Keeps Inv act → Keeps Inv (attempt act)
    unfolding attempt
    Keeps-attempt act kept = record { at = kept.at }

    pub Keeps-if :
        (b : Bool) (yes' no' : Exec World Value)
        → Keeps Inv yes'
        → Keeps Inv no'
        → Keeps Inv (if b then yes' else no')
    Keeps-if true yes' no' y n = y
    Keeps-if false yes' no' y n = n

    pub Keeps-gets : (read : World → Value) → Keeps Inv (gets read)
    unfolding gets
    Keeps-gets read = record { at = λ w inv. inv }

    pub Keeps-raise : (e : Error) → Keeps Inv (raise {A = Value} e)
    unfolding raise
    Keeps-raise e = record { at = λ w inv. inv }

    pub Keeps-pure : (v : Value) → Keeps Inv (pure v)
    unfolding pure
    Keeps-pure v = record { at = λ w inv. inv }

  pub Keeps-refuse : (bad : Bool) (e : Error) → Keeps Inv (refuse bad e)
  Keeps-refuse true e = Keeps-raise e
  Keeps-refuse false e = Keeps-pure tt

pub ruleset keeps_rules = (
  Keeps->>=, Keeps-pure, Keeps-gets, Keeps-attempt, Keeps-map_err, Keeps-if, Keeps-refuse,
  Keeps-raise,
)
