-- ===== src/Raft/Effects.antt =====
-- What each command does to the state (metadata/raft/store.go, `fsm.Apply`), errors included.
use callfs.Prelude.{ℕ, arith, ◌≡◌, refl, Option, none, some}
use callfs.Raft.{Op, Command, State, Fault, apply_op, apply, create_metadata}

op_failed_changes_nothing :
    (o : Op) (c : Command) (now : ℕ) (s : State) {f : Fault}
    → (apply_op o c now s).0.fault ≡ some f
    → (apply_op o c now s).1 ≡ s
unfolding apply_op
op_failed_changes_nothing create_metadata c now s h = ground arith
op_failed_changes_nothing _ c now s h = ground arith

-- A command that is answered with an error leaves the replicated state as it was.
pub failed_changes_nothing :
    (c : Option Command) (now : ℕ) (s : State) {f : Fault}
    → (apply c now s).0.fault ≡ some f
    → (apply c now s).1 ≡ s
unfolding apply
failed_changes_nothing none now s h = refl
failed_changes_nothing (some c) now s h = op_failed_changes_nothing c.op c now s h
