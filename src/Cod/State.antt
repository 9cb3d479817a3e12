-- ===== src/Cod/State.antt =====
-- src/modules/recon-cod/cod-state.ts: the state of a COD expectation, derived from what is allocated
-- against it. A date is its `YYYY-MM-DD` text, compared as the source compares strings.
pub mod Rules
use jsyxi_shipping.Prelude.{ℕ, Bool, true, false, List, [], ◌∷◌, Text, ltb, ◌==◌, if◌then◌else◌}
use jsyxi_shipping.Prelude.Int.{ℤ, pos, ltb_ℤ, leb_ℤ, eq_ℤ, ◌+ℤ◌, ◌-ℤ◌}

pub data CodExpectedState : Type 0 where
  awaiting tallied short excess pending_overdue rto_uncollected : CodExpectedState

pub record CodInput : Type 0 where
  pub expected_paise : ℤ
  pub allocated_paise : ℤ
  pub tolerance_paise : ℤ
  pub due_at : Text
  pub today_local : Text
  pub current : CodExpectedState

-- `a < b` on strings: the order of the first code that differs, a prefix before what extends it.
unfoldable pub text_ltb : Text → Text → Bool
text_ltb [] [] = false
text_ltb [] (d ∷ ds) = true
text_ltb (c ∷ cs) [] = false
text_ltb (c ∷ cs) (d ∷ ds) =
    let rest = text_ltb cs ds in if ltb c d then true else if ltb d c then false else rest

abbrev pub past_due : CodInput → Bool
past_due input = text_ltb input.due_at input.today_local

-- The five states that the amounts decide.
unfoldable pub state_of_amounts : ℤ → ℤ → ℤ → Bool → CodExpectedState
state_of_amounts expected r tol past =
    if eq_ℤ r (pos 0)
    then (if past then pending_overdue else awaiting)
    else let diff = if ltb_ℤ expected r then r -ℤ expected else expected -ℤ r in
      if leb_ℤ diff tol
      then tallied
      else if ltb_ℤ (expected +ℤ tol) r
      then excess
      else if past
      then pending_overdue
      else short

abbrev pub is_rto_uncollected : CodExpectedState → Bool
is_rto_uncollected rto_uncollected = true
is_rto_uncollected _ = false

unfoldable pub derive_cod_state : CodInput → CodExpectedState
unfolding state_of_amounts
derive_cod_state input =
    if is_rto_uncollected input.current
    then rto_uncollected
    else state_of_amounts input.expected_paise input.allocated_paise input.tolerance_paise
        (past_due input)
