-- ===== src/Flow/Action.antt =====
-- modules/flow/action.h, action.cpp and action_reason.h: what every action keeps.
-- A message is a number, a trace the ids of the actions that a result went through. The loop's queue of
-- functions is seen from one action: `posted` are its callbacks that wait there, with the ids that the loop gave
-- them; Event/RunQueue models the queue. The timer is none, or there and enabled or not.

pub mod Assemble
pub mod Kinds
pub mod Hooks
pub mod Life
pub mod Effects
pub mod Callbacks
pub mod States
pub mod Valid
pub mod Started
pub mod Sequence
pub mod Repeat
pub mod Stale
pub mod Timeout
mod Tests
use cpp_tbox.Common.{
  ℕ, zero, suc, ◌+◌, Bool, true, false, ◌&&◌, ◌||◌, not, List, [], ◌∷◌, ◌++◌, Option, none, some,
  ◌==◌, if◌then◌else◌,
}

pub data State : Type 0 where
  idle : State
  running : State
  pausing : State
  finished : State
  stoped : State

pub data Result : Type 0 where
  unsure : Result
  success : Result
  fail : Result

unfoldable pub is_idle : State → Bool
is_idle idle = true
is_idle _ = false

unfoldable pub is_running : State → Bool
is_running running = true
is_running _ = false

unfoldable pub is_pause : State → Bool
is_pause pausing = true
is_pause _ = false

-- Finished by itself, or stopped.
unfoldable pub is_over : State → Bool
is_over finished = true
is_over stoped = true
is_over _ = false

unfoldable pub is_underway : State → Bool
is_underway s = is_running s || is_pause s

pub record Reason : Type 0 where
  pub code : ℕ
  pub message : ℕ

abbrev pub no_reason : Reason
no_reason = record { code = 0; message = 0 }

-- The arguments of a finish callback.
pub record Outcome : Type 0 where
  pub is_succ : Bool
  pub why : Reason
  pub trace : List ℕ

pub data Callback : Type 0 where
  finish_cb : Outcome → Callback
  block_cb : Reason → List ℕ → Callback

pub record Posted : Type 0 where
  pub run_id : ℕ
  pub callback : Callback

pub record Action : Type 0 where
  pub id : ℕ
  pub state : State
  pub result : Result
  pub timer_ev : Option Bool
  pub has_finish_cb : Bool
  pub has_block_cb : Bool
  pub finish_cb_run_id : ℕ
  pub block_cb_run_id : ℕ
  pub last_run_id : ℕ
  pub posted : List Posted

abbrev pub new_action : ℕ → Action
new_action i = record {
  id = i;
  state = idle;
  result = unsure;
  timer_ev = none;
  has_finish_cb = true;
  has_block_cb = true;
  finish_cb_run_id = 0;
  block_cb_run_id = 0;
  last_run_id = 1;
  posted = [];
}

unfoldable pub set_timer : Bool → Option Bool → Option Bool
set_timer on none = none
set_timer on (some _) = some on

unfoldable pub set_state : State → Action → Action
set_state s a = record a { state = s }

-- `runNext` of a callback.
unfoldable pub post : Callback → Action → Action
post c a =
    let i = a.last_run_id + 2 in
    record a { last_run_id = i; posted = a.posted ++ (record { run_id = i; callback = c }) ∷ [] }

-- `Action::onFinished`
unfoldable pub base_on_finished : Outcome → Action → Action
base_on_finished o a =
    let b = record a { result = if o.is_succ then success else fail } in
    let c = post (finish_cb (record o { trace = o.trace ++ a.id ∷ [] })) b in
    if a.has_finish_cb then record c { finish_cb_run_id = c.last_run_id } else b

-- `Action::onBlock`
unfoldable pub base_on_block : Reason → List ℕ → Action → Action
base_on_block why trace a =
    let b = post (block_cb why (trace ++ a.id ∷ [])) a in
    if a.has_block_cb then record b { block_cb_run_id = b.last_run_id } else a

-- The loop's `cancel`.
unfoldable pub remove_posted : ℕ → List Posted → List Posted
remove_posted i [] = []
remove_posted i (p ∷ ps) = let rest = remove_posted i ps in if p.run_id == i then rest else p ∷ rest

unfoldable pub cancel_dispatched_callback : Action → Action
cancel_dispatched_callback a =
    let once =
      if a.finish_cb_run_id == 0 then a.posted else remove_posted a.finish_cb_run_id a.posted in
    let twice = if a.block_cb_run_id == 0 then once else remove_posted a.block_cb_run_id once in
    record a { posted = twice; finish_cb_run_id = 0; block_cb_run_id = 0 }

-- What an action needs of its children.
pub record Child (S : Type 0) : Type 0 where
  pub start : S → Bool × S
  pub pause : S → Bool × S
  pub resume : S → Bool × S
  pub stop : S → Bool × S
  pub reset : S → S
  pub state_of : S → State
