-- ===== src/Schedule/Runs.antt =====
-- Runs of the verifier of schedules, and its theorem at a concrete schedule.
use ag_infer.Prelude.{
  map, length, ℕ, ◌≡◌, refl, Option, none, some, List, [], ◌∷◌, ok, err, assertion_error, traverse,
  range, elem, all_of,
}
use ag_infer.Schedule.{static, ValueStorage, ScheduledValue, ScheduledOp, item}
use ag_infer.Schedule.Verify.{
  defined_by, verify_input, define_outputs, verify_ops, verify_producer, verify_alias, verify_value,
  verify_schedule,
}
use ag_infer.Schedule.Ssa.{IsSsa, verify_schedule-IsSsa}

abbrev value : ℕ → ValueStorage → Option ℕ → Option ℕ → ScheduledValue
value id storage producer alias_of = record {
  value_id = id;
  debug_name = "";
  type = record { dtype = "f32"; shape = static 4 ∷ []; layout = "row_major"; device = "cuda" };
  storage = storage;
  producer = producer;
  alias_of = alias_of;
  constant_identity = none;
}

abbrev op_with : ℕ → List ℕ → ℕ → ScheduledOp
op_with index inputs output = record {
  execution_index = index;
  invocation_id = 0;
  site = "main:0";
  opcode = "add";
  inputs = inputs;
  outputs = output ∷ [];
  attributes = [];
}

-- An input, a state, the state as it is read, and a sum.
abbrev values : List ScheduledValue
values =
    value 0 ValueStorage.entry_input none none
    ∷ value 1 ValueStorage.state none none
    ∷ value 2 ValueStorage.state_alias (some 0) (some 1)
    ∷ value 3 ValueStorage.temporary (some 1) none
    ∷ []

abbrev ops : List ScheduledOp
ops = op_with 0 (1 ∷ []) 2 ∷ op_with 1 (0 ∷ 2 ∷ []) 3 ∷ []

verifier : Unit {0}
unfolding verify_schedule verify_value verify_alias verify_producer verify_ops define_outputs
    verify_input defined_by item traverse range elem all_of
verifier = tt

schedule_accepted :
    verify_schedule values ops (("x", 0) ∷ []) (("y", 3) ∷ []) (("s", 1) ∷ []) ≡ ok tt
unfolding verifier
schedule_accepted = refl

-- The first operation reads what the second one produces.
forward_refused :
    verify_schedule values (op_with 0 (3 ∷ []) 2 ∷ op_with 1 (0 ∷ 2 ∷ []) 3 ∷ []) [] [] []
    ≡ err assertion_error
unfolding verifier
forward_refused = refl

in_order : map (λ (v : ScheduledValue). v.value_id) values ≡ range 0 (length values)
unfolding verifier
in_order = refl

verify_schedule-IsSsa_example : IsSsa values ops
verify_schedule-IsSsa_example =
    verify_schedule-IsSsa values ops (("x", 0) ∷ []) (("y", 3) ∷ []) (("s", 1) ∷ []) in_order
      schedule_accepted

-- An input that an operation reads before a later one outputs it: no producer is noted for it, so that no
-- test refuses it.
late_input_accepted :
    verify_schedule
      (value 0 ValueStorage.entry_input none none
        ∷ value 1 ValueStorage.temporary (some 0) none
        ∷ [])
      (op_with 0 (0 ∷ []) 1 ∷ op_with 1 [] 0 ∷ [])
      []
      []
      []
    ≡ ok tt
unfolding verifier
late_input_accepted = refl
