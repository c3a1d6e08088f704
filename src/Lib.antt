-- ===== src/Lib.antt =====
-- cpp-tbox: models of the parts of the library that carry its own logic, and what is proved of them.
--
-- Parts and files. Paths of the code are from the repository's root.
--   Flow/StateMachine.antt: modules/flow/state_machine.cpp, state_machine.h and event.h. A `Machine`
--     is `StateMachine::Impl`; new_state, add_route, add_event, set_init_state and
--     set_sub_state_machine build it. Flow/StateMachine/Run.antt has start, stop, run and restart over
--     a `World`, the list of all machines with a log of the callbacks run. A state's sub-machine is an
--     index in that list, and `run` of a machine calls run, stop and start of the sub-machine.
--   Flow/Action.antt: modules/flow/action.h and action.cpp, what every action keeps, with its callbacks
--     that wait in the loop. Flow/Action/Assemble.antt: a `Node` is an object of any class; finish, block
--     and the methods of SerialAssembleAction (modules/flow/actions/assemble_action.cpp).
--     Flow/Action/Kinds.antt and Flow/Action/Hooks.antt: onStart to onReset and the handlers of
--     the children's results of the sequence, loop, repeat, if-else, if-then, loop-if, switch, wrapper,
--     composite and parallel actions. Flow/Action/Life.antt: start, pause, resume, stop and reset.
--   Flow/Executor.antt: modules/flow/action_executor.cpp and .h. The three queues and schedule.
--   Event/RunQueue.antt: modules/event/common_loop_run.cpp and common_loop.h. runInLoop, runNext, run,
--     cancel, the handlers of both queues and the cleanup. The log is written where a function is called.
--   Event/Timers.antt: modules/event/common_loop_timer.cpp and common_loop.h. addTimer, deleteTimer and
--     handleExpiredTimers on the vector that is a heap, the cabinet of Base/Cabinet.antt and a memory of
--     timers. The heap algorithms of the standard library are a `HeapLib` with the laws `HeapLaws` of
--     Event/Timers/Heap.antt, which a sorted vector has.
--   Base/Cabinet.antt: modules/base/cabinet.hpp and cabinet_token.h. alloc_id, alloc_pos, alloc,
--     update, free, at, clear, size and visit (foreach) on the vector of cells, the free list through it
--     and the counters.
--   Util/Buffer.antt: modules/util/buffer.cpp and buffer.h. The buffer's store and indices; append
--     goes through ensure_writable_size, and shrink through clone_from.
--   Util/Serializer.antt: modules/util/serializer.cpp and serializer.h. append and fetch for all the
--     overloads, over a block of fixed size or a vector, in either byte order.
--   Util/ScalableInteger.antt: modules/util/scalable_integer.cpp. dump and parse.
--   Util/Base64.antt: modules/util/base64.cpp. encode and decode.
--   Util/Checksum.antt: modules/util/checksum.cpp. check_sum8 and check_sum16.
--   Util/Crc.antt: modules/util/crc.cpp. calc_crc16, calc_crc32, their tables and the generators.
--   Util/Strings.antt: modules/util/string.cpp. split, join and the removal of blanks.
--   Terminal/KeyEventScanner.antt: modules/terminal/impl/key_event_scanner.cpp and .h. next and stop.
--   Main/Module.antt: modules/main/module.cpp and module.h. add, addAs, initialize, start, stop and
--     cleanup on a tree of modules.
--   Alarm.antt: modules/alarm/alarm.cpp and alarm.h. An `Alarm` with its timer, enable, disable, cleanup,
--     refresh and onTimeExpired; a class of alarms is a `Kind`. Alarm/Schedules.antt: the weekly, the
--     one-shot and the workday alarm and the calendar (weekly_alarm.cpp, oneshot_alarm.cpp,
--     workday_alarm.cpp, workday_calendar.cpp of modules/alarm). Alarm/Classes.antt: all that can be done to an
--     alarm of each of these classes.
--   Jsonrpc/HeaderStream.antt: modules/jsonrpc/protos/header_stream_proto.cpp. sendJson and onRecvData over
--     the serializer of Util/Serializer.antt.
--   Http/Url.antt: modules/http/url.cpp. UrlEncode and UrlDecode. Http/Url/Path.antt: UrlPathToString and
--     StringToUrlPath.
--   Common: names of the libraries passed on, Boolean tests, lists indexed by native numbers, a map
--     keyed by integers.
-- An action knows its children by the record `Child` of operations, which Flow/Action/Life.antt fills for
-- actions (`as_child`), so that trees of any depth are built; the executor knows its actions by the same
-- record, and Flow/Executor/Actions.antt shows that actions keep what it relies on. The callbacks that an
-- action gives to the event loop are kept with the action; the loop's queue is modelled by itself. The
-- timers of a loop are kept in a cabinet. The messages of Jsonrpc are written and read by the serializer. The other components do not call one another in
-- the code modelled; what they share is Common.
--
-- Numbers. size_t and uint64_t have 64 bits, and sums wrap where the code's do. The theorems on the
-- buffer and the serializer have bounds on the sizes that keep these sums from wrapping.
--
-- Fuel. start and run of a state machine spend one unit on each level of sub-machines: more units
-- than the machine's rank are enough where every machine has a rank above its sub-machines'. cleanup
-- of a module tree has the tree's height as its fuel, which is the depth of its recursion.
-- The loop that folds the carry of a checksum has two rounds; the sums end it in one.
--
-- A round of the loop's queue has the number of items that waited as its fuel, since only the round itself
-- takes items out of it; the cleanup has the 100 rounds of the code. schedule of the executor needs three
-- rounds for each item and two more, where an accepted start leaves the idle state and a resume the pause.
-- Split of a text takes more rounds than the text has characters, where the separator is not empty.
-- handleExpiredTimers has as many rounds as its timers are late in all, counted in milliseconds and one
-- more each.
--
-- Not modelled. The bytes that `new` leaves, JSON, the clock and the time zone of the system, the hooks of
-- modules, guards and event functions are parameters. Names and labels that are only logged, JSON output, allocation that fails, and callbacks
-- that change other objects are left out, as are the parts of the library that are input and output,
-- threads or bindings.
pub mod Common
pub mod Base
pub mod Event
pub mod Util
pub mod Flow
pub mod Main
pub mod Terminal
pub mod Alarm
pub mod Jsonrpc
pub mod Http
