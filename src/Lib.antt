-- ===== src/Lib.antt =====
-- A model of the compiler core of AgInfer, and what it guarantees.
--
-- AgInfer compiles a tensor program to an executable. The program is inlined to an execution
-- schedule (src/aginfer/lowering/schedule.py), and the memory planner gives every value of the
-- schedule a place (src/aginfer/lowering/memory.py). Providers whose capabilities match the operations
-- (src/aginfer/lowering/capability.py) turn them into commands. Commands that nobody needs are removed
-- (src/aginfer/compiler/dead_commands.py), the others are put in order and their memory is planned anew,
-- and they are written as a stream of bytes that the runtime reads
-- (src/aginfer/lowering/assemble.py, src/aginfer/lowering/command.py).
--
-- Files:
--   Prelude    lists, sorting, loops, bits and bytes; `Result` is a Python call that returns or raises
--   Arena      `_allocate_intervals` with `_merge_free`, `_align`, `_checked_add` and `_overlap` of
--              memory.py: offsets in the arena for values with lifetimes. Arena/Align, Measure,
--              Space, Rounds, Plan and Growth hold the proofs, Arena/Runs the tests
--   Schedule   the records of schedule.py, and `TensorSignature` of inventory.py; Schedule/Verify has
--              `_verify_schedule`, Schedule/Ssa its theorem and Schedule/Produced its lemmas
--   Views      `_is_row_major_identity_transpose` and `_is_row_major_identity_broadcast` of
--              memory.py; Views/Offset defines the place of an index in a row-major tensor
--   Memory     the pieces of `build_memory_plan`; Memory/Build has its tables and the allocation of
--              each value, Memory/Planner the whole function and `_verify_memory_plan`;
--              Memory/Roots, Memory/Liveness, Memory/Build/Intervals and Memory/Planner/ hold the proofs
--   Command    command.py: the checks of the constructors and `to_bytes`; Command/Decode has
--              `from_bytes`, Command/Facts what the checks guarantee, and Command/Decode/ the proofs,
--              table by table, with the tests in Command/Decode/Runs
--   Assemble   lowering/assemble.py: the placements of commands and what each of them requires;
--              Assemble/Order has `order_command_placements`, Assemble/Stream
--              `assemble_command_stream`; Assemble/Roots, Assemble/Order/ and Assemble/Stream/ hold the
--              proofs, Assemble/Example a concrete schedule, and Assemble/Runs the tests
--   Replan     `replan_memory_for_commands` of memory.py: liveness where commands meet.
--              Replan/Commands, Loop and Safe hold the proofs, Replan/Runs the tests
--   Inventory  lowering/inventory.py: the records of an inventory, and `_classify`
--   Capability lowering/capability.py: the checks of a capability, `_matches`, and
--              `resolve_provider_capabilities`; Capability/Classes, Answers and Registry hold the
--              proofs, Capability/Runs the tests
--   DeadCommands  src/aginfer/compiler/dead_commands.py, with `_roots` of
--              src/aginfer/packed_weights.py; DeadCommands/Swept and Live hold the proofs,
--              DeadCommands/Runs the test
--   Reader     src/aginfer/safetensors.py: the reader of a file of tensors; Reader/Chunks and Copies
--              hold the proofs, Reader/Runs the tests
--
-- How the model corresponds to the code:
--   * Python integers are natural numbers. The code tests for negative ones, which the model does not
--     have; a difference is taken only where the code has tested that it is not negative. Bounds of
--     64 bits are tested where the code tests them.
--   * A call that may raise returns a `Result`; the class of the exception is kept, its text is not.
--     An index out of range and a missing key raise, as in Python. Checks of types by `isinstance` hold
--     by typing.
--   * A dictionary is a list of entries where the newest counts. Bytes and texts of digests are
--     lists of numbers.
--   * The loops that are not over a list or a range run on fuel. The walks along the aliases get
--     two more than the number of aliases, which Memory/Roots and Assemble/Roots prove to be enough; the
--     loop over the ready commands gets the number of commands, which Assemble/Order proves to be
--     enough; the loop over the chunks of a tensor gets its bytes, which Reader/Chunks proves to be
--     enough.
--   * SHA-256, and the texts of schedules, plans and receipts that it is applied to, are arguments.
--
-- Not modelled: the JSON texts of schedules and plans, the builders of the inventory and of the
-- schedule, the kernels of providers, the other compiler passes, the containers of artifacts, the
-- index of a checkpoint, the reference executor, and the C++ runtime.
pub mod Prelude
pub mod Arena
pub mod Schedule
pub mod Views
pub mod Memory
pub mod Command
pub mod Assemble
pub mod Replan
pub mod Inventory
pub mod Capability
pub mod DeadCommands
pub mod Reader
