-- ===== src/Flow/Action/Kinds.antt =====
-- modules/flow/actions: what the classes decide from what they keep, without their children.
use cpp_tbox.Common.{
  ℕ, ◌%◌, Bool, true, false, not, List, [], ◌∷◌, Option, none, some, ◌==◌, if◌then◌else◌,
}
use cpp_tbox.Flow.Action.{no_reason, Outcome}
use cpp_tbox.Flow.Action.Assemble.{
  Mode, all_finish, any_fail, any_succ, LoopMode, forever, until_fail, until_succ, RepeatMode,
  no_break, break_fail, break_succ, WrapperMode, normal, invert, alway_succ, alway_fail, Kind,
  sequence, if_else, if_then, switch, composite, parallel,
}

-- An outcome that the action itself gives, with the number of its message for its reason's code.
unfoldable pub own : Bool → ℕ → Outcome
own ok code = record { is_succ = ok; why = record { code = code; message = code }; trace = [] }

-- `finish(true)`
unfoldable pub plain_success : Outcome
plain_success = record { is_succ = true; why = no_reason; trace = [] }

-- `ACTION_REASON_…`
abbrev pub function_action : ℕ
function_action = 2

abbrev pub start_child_fail : ℕ
start_child_fail = 6

abbrev pub repeat_no_times : ℕ
repeat_no_times = 7

abbrev pub switch_fail : ℕ
switch_fail = 8

abbrev pub switch_skip : ℕ
switch_skip = 9

abbrev pub if_then_skip : ℕ
if_then_skip = 10

-- The map of the results of a parallel action.
unfoldable pub put_result : ℕ → Bool → List (ℕ × Bool) → List (ℕ × Bool)
put_result i b [] = (i, b) ∷ []
put_result i b ((j, c) ∷ rs) =
    let rest = put_result i b rs in if i == j then (i, b) ∷ rs else (j, c) ∷ rest

unfoldable pub put_failures : List ℕ → List (ℕ × Bool) → List (ℕ × Bool)
put_failures [] rs = rs
put_failures (i ∷ is) rs = put_failures is (put_result i false rs)

unfoldable pub find_case : ℕ → List (ℕ × ℕ) → Option ℕ
find_case message [] = none
find_case message ((key, i) ∷ cases) =
    let rest = find_case message cases in if message == key then some i else rest

-- The mode ends the action at this result.
unfoldable pub ends_at : Mode → Bool → Bool
ends_at all_finish is_succ = false
ends_at any_fail is_succ = not is_succ
ends_at any_succ is_succ = is_succ

unfoldable pub loop_ends_at : LoopMode → Bool → Bool
loop_ends_at forever is_succ = false
loop_ends_at until_fail is_succ = not is_succ
loop_ends_at until_succ is_succ = is_succ

unfoldable pub repeat_ends_at : RepeatMode → Bool → Bool
repeat_ends_at no_break is_succ = false
repeat_ends_at break_fail is_succ = not is_succ
repeat_ends_at break_succ is_succ = is_succ

unfoldable pub wrap : WrapperMode → Bool → Bool
wrap normal is_succ = is_succ
wrap invert is_succ = not is_succ
wrap alway_succ is_succ = true
wrap alway_fail is_succ = false

-- The case found, or else the default.
unfoldable pub chosen : Option ℕ → Option ℕ → Option ℕ
chosen (some i) default_action = some i
chosen none default_action = default_action

-- Only `any_fail` quits at a child that cannot be started.
unfoldable pub quits_at_start : Mode → Bool
quits_at_start any_fail = true
quits_at_start _ = false

unfoldable pub reset_kind : Kind → Kind
reset_kind (sequence m index) = sequence m 0
reset_kind (if_then index) = if_then 0
reset_kind (parallel m done) = parallel m []
reset_kind k = k

-- The child at `i` is the last one, whose result is that of the action.
unfoldable pub is_last_child : Kind → ℕ → Bool
is_last_child (if_else _ _) i = not (i == 0)
is_last_child (if_then _) i = i % 2 == 1
is_last_child (switch _ _) i = not (i == 0)
is_last_child composite i = true
is_last_child _ i = false

-- What ParallelAction keeps; every other class has one running child at most.
unfoldable pub parallel_part : Kind → Option (Mode × List (ℕ × Bool))
parallel_part (parallel m results) = some (m, results)
parallel_part _ = none
